-- ===== src/Admission/Facts/Laws.antt =====
-- Fail-closed checks: a precondition that is absent is not met, and evidence counts only if it is
-- there, in time, and attested where the contract asks for it.
use entigram.Base.{
  refl, ◌∷◌, ◌≢◌, All-map, All-zip, eq_iff, contains, ℕ, String, true, false, not, ◌≡◌, ◌↔◌, ◌≤◌,
  ◌+◌, ◌*◌, ◌||◌, ◌&&◌, some, List, [], arith, Option-cases, Bool-cases, List-cases, inl, inr,
  holds, codes, All, all, all-map, lower,
}
use entigram.Base.Json.{Json, Entries, get_text}
use entigram.Admission.{Predicate, Requirement, Contract, Request, Collaborators, Observed}
use entigram.Admission.Facts.{
  path_lookup, segments, meets_equals, meets_one_of, check_precondition, validate_preconditions,
  is_satisfied, duplicates, supplied, is_stale, is_verified, second, source_kind, trusts,
  is_qualified, names_digest, check_attestation, check_record, check_requirement, validate_evidence,
}

-- A predicate that the context meets: the path is there, and its value is as the predicate asks.
pub record IsMet (context : Json) (p : Predicate) : Type 0 where
  pub actual : Json
  pub present : path_lookup (segments (codes p.path)) context ≡ some actual
  pub equal : meets_equals p.equals actual ≡ true
  pub listed : meets_one_of p.one_of actual ≡ true

check-IsMet :
    (context : Json) (p : Predicate)
    → (is_satisfied (check_precondition context p) ≡ true) ↔ IsMet context p
unfolding check_precondition
check-IsMet context p = (
  λ h. elim (Option-cases (path_lookup (segments (codes p.path)) context)) [
    | inl e ↦ absurd (ground arith)
    | inr (actual, e) ↦ record {
      actual = actual;
      present = e;
      equal = ground arith;
      listed = ground arith;
    }
  ],
  λ m. ground arith,
)

-- The preconditions pass exactly when the context meets each of them; one on a path that the context
-- lacks never passes.
pub validate_preconditions_iff :
    (contract : Contract) (request : Request)
    → (all is_satisfied (validate_preconditions contract request) ≡ true)
      ↔ All (IsMet request.context) contract.preconditions
unfolding validate_preconditions
validate_preconditions_iff contract request =
    all-map is_satisfied (check_precondition request.context) contract.preconditions
      (check-IsMet request.context)

-- An attestation of a record that the trust registry stands for.
pub record IsAttested (c : Collaborators) (r : Requirement) (o : Observed) : Type 0 where
  pub claims : Entries
  pub signed : c.verify o.item.attestation "evidence_attestation" ≡ some claims
  pub same_id : holds (get_text "evidence_id" claims) r.id ≡ true
  pub same_digest : names_digest (get_text "sha256" claims) (lower (codes o.item.sha256)) ≡ true
  pub same_time : holds (get_text "observed_at" claims) (c.isoformat o.time) ≡ true
  pub kind : String
  pub sourced : source_kind claims ≡ some kind
  pub trusted : trusts r.source_kinds kind ≡ true
  pub qualified : is_qualified c r claims ≡ true

-- The record that counts for a requirement: the last of its id, observed no more than thirty seconds
-- ahead of the clock, fresh enough, and verified and attested where that is asked for.
pub record IsSupported (c : Collaborators) (now : ℕ) (os : List Observed) (r : Requirement)
    : Type 0 where
  pub evidence : Observed
  pub latest : supplied r.id os ≡ some evidence
  pub timely : evidence.time ≤ now + 30 * second
  pub fresh : is_stale r.freshness_seconds evidence.time now ≡ false
  pub verified : not r.verified || is_verified evidence.item.verified ≡ true
  pub attested : c.project && r.verified ≡ true → IsAttested c r evidence

module _ (c : Collaborators) (now : ℕ) (os : List Observed) where
  attestation-IsAttested :
      (r : Requirement) (o : Observed)
      → is_satisfied (check_attestation c r o (c.verify o.item.attestation "evidence_attestation"))
        ≡ true
      → IsAttested c r o
  unfolding check_attestation
  attestation-IsAttested r o h =
      elim (Option-cases (c.verify o.item.attestation "evidence_attestation")) [
        | inl e ↦ absurd (ground arith)
        | inr (claims, e) ↦ elim (Option-cases (source_kind claims)) [
          | inl k ↦ absurd (ground arith)
          | inr (kind, k) ↦ record {
            claims = claims;
            signed = e;
            same_id = ground arith;
            same_digest = ground arith;
            same_time = ground arith;
            kind = kind;
            sourced = k;
            trusted = ground arith;
            qualified = ground arith;
          }
        ]
      ]

  requirement-IsSupported :
      (r : Requirement)
      → is_satisfied (check_requirement c now os r) ≡ true
      → IsSupported c now os r
  unfolding check_requirement check_record
  requirement-IsSupported r h = elim (Option-cases (supplied r.id os)) [
    | inl e ↦ absurd (ground arith)
    | inr (o, e) ↦ record {
      evidence = o;
      latest = e;
      timely = ground arith;
      fresh = ground arith;
      verified = ground arith;
      attested = λ a. attestation-IsAttested r o (ground arith);
    }
  ]

  IsAttested-attestation :
      (r : Requirement) (o : Observed)
      → IsAttested c r o
      → is_satisfied (check_attestation c r o (c.verify o.item.attestation "evidence_attestation"))
        ≡ true
  unfolding check_attestation
  IsAttested-attestation r o a = ground arith

  IsSupported-requirement :
      (r : Requirement)
      → IsSupported c now os r
      → is_satisfied (check_requirement c now os r) ≡ true
  unfolding check_requirement check_record
  IsSupported-requirement r s = elim (Bool-cases (c.project && r.verified)) [
    | inl e ↦ ground (arith, IsAttested-attestation r s.evidence (s.attested e))
    | inr e ↦ ground arith
  ]

-- no two records have one id
abbrev pub Unrepeated : List Observed → Type 0
Unrepeated [] = Unit
Unrepeated (o ∷ os) = All (λ p. p.item.id ≢ o.item.id) os × Unrepeated os

abbrev Unseen : List String → List Observed → Type 0
Unseen seen os = All (λ o. contains seen o.item.id ≡ false) os

split_seen :
    (id : String) (seen : List String) (os : List Observed)
    → Unseen (id ∷ seen) os
    → All (λ p. p.item.id ≢ id) os × Unseen seen os
split_seen id seen os a = (
  All-map (λ p. contains (id ∷ seen) p.item.id ≡ false) (λ p. p.item.id ≢ id) os
      (λ p h e. ground (arith, eq_iff id p.item.id)) a,
  All-map (λ p. contains (id ∷ seen) p.item.id ≡ false) (λ p. contains seen p.item.id ≡ false) os
      (λ p h. ground arith) a,
)

add_seen :
    (id : String) (seen : List String) (os : List Observed)
    → All (λ p. p.item.id ≢ id) os
    → Unseen seen os
    → Unseen (id ∷ seen) os
add_seen id seen os =
    All-zip (λ p. p.item.id ≢ id) (λ p. contains seen p.item.id ≡ false)
      (λ p. contains (id ∷ seen) p.item.id ≡ false) os
      (λ p n h. ground (arith, eq_iff id p.item.id))

duplicates-Unrepeated :
    (seen : List String) (os : List Observed)
    → duplicates seen os ≡ []
    → Unseen seen os × Unrepeated os
unfolding duplicates
duplicates-Unrepeated seen [] h = (tt, tt)
duplicates-Unrepeated seen (o ∷ os) h = elim (Bool-cases (contains seen o.item.id)) [
  | inl e ↦ absurd (ground arith)
  | inr e ↦
      let (fresh, rest) = duplicates-Unrepeated (o.item.id ∷ seen) os (ground arith) in
      let (differ, unseen) = split_seen o.item.id seen os fresh in ((e, unseen), (differ, rest))
]

Unrepeated-duplicates :
    (seen : List String) (os : List Observed)
    → Unseen seen os
    → Unrepeated os
    → duplicates seen os ≡ []
unfolding duplicates
Unrepeated-duplicates seen [] u r = refl
Unrepeated-duplicates seen (o ∷ os) u r =
    let rest =
      Unrepeated-duplicates (o.item.id ∷ seen) os (add_seen o.item.id seen os r.0 u.1) r.1 in
    rw (u.0) rest

none_seen : (os : List Observed) → Unseen [] os
none_seen [] = tt
none_seen (o ∷ os) = (refl, none_seen os)

-- The evidence passes exactly when no two records have one id and every requirement of the contract
-- has a record that supports it.
pub validate_evidence_iff :
    (c : Collaborators) (contract : Contract) (now : ℕ) (os : List Observed)
    → (all is_satisfied (validate_evidence c contract now os) ≡ true)
      ↔ Unrepeated os × All (IsSupported c now os) contract.evidence
unfolding validate_evidence
validate_evidence_iff c contract now os =
    let m =
      all-map is_satisfied (check_requirement c now os) contract.evidence
        (λ r. (requirement-IsSupported c now os r, IsSupported-requirement c now os r)) in
    elim (List-cases (duplicates [] os)) [
      | inl e ↦ (λ h. ((duplicates-Unrepeated [] os e).1, m.0 (rw e at h)), λ s. rw e (m.1 s.1))
      | inr (x, xs, e) ↦ (
        λ h. (let z = rw e at h in absurd (ground arith)),
        λ s. (let z = Unrepeated-duplicates [] os (none_seen os) s.0 in absurd (ground arith)),
      )
    ]
