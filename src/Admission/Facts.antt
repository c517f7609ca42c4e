-- ===== src/Admission/Facts.antt =====
-- What an action stands on: `_path_lookup`, `_validate_preconditions` and `_validate_evidence`.
pub mod Laws
use entigram.Base.{
  ℕ, String, Bool, true, false, not, ◌+◌, ◌-◌, ◌*◌, ◌/◌, ◌&&◌, ◌||◌, ◌==◌, if◌then◌else◌, ltb,
  Option, none, some, List, [], ◌∷◌, ◌++◌, any, all, eqb, codes, same_codes, lower, holds, contains,
  last_where, map,
}
use entigram.Base.Json.{
  Json, null, boolean, string, object, Entries, empty, entry, get, get_text, json_eq,
}
use entigram.Admission.{
  Code, Predicate, Requirement, Contract, Request, Collaborators, Observed, claim,
  precondition_unknown, precondition_failed, precondition_satisfied, evidence_duplicate,
  evidence_missing, evidence_observed_in_future, evidence_unverified, evidence_stale,
  evidence_issuer_unverified, evidence_attestation_id_mismatch,
  evidence_attestation_digest_mismatch, evidence_attestation_time_mismatch, evidence_source_missing,
  evidence_source_untrusted, evidence_issuer_unqualified, evidence_satisfied,
}

abbrev first_segment : ℕ → List (List ℕ) → List (List ℕ)
first_segment c [] = (c ∷ []) ∷ []
first_segment c (s ∷ ss) = (c ∷ s) ∷ ss

-- `path.split(".")`
unfoldable pub segments : List ℕ → List (List ℕ)
segments [] = [] ∷ []
segments (c ∷ s) = let rest = segments s in if eqb c b'.' then [] ∷ rest else first_segment c rest

unfoldable pub member : List ℕ → Entries → Option Json
member s empty = none
member s (entry k v d) = if same_codes (codes k) s then some v else member s d

-- `_path_lookup`; `none` is `(False, None)`
unfoldable pub path_lookup : List (List ℕ) → Json → Option Json
unfolding member
path_lookup [] v = some v
path_lookup (s ∷ ss) (object d) = elim (member s d) [ none ↦ none | some v ↦ path_lookup ss v ]
path_lookup (s ∷ ss) _ = none

abbrev meets_equals : Option Json → Json → Bool
meets_equals none actual = true
meets_equals (some expected) actual = json_eq actual expected

abbrev meets_one_of : Option (List Json) → Json → Bool
meets_one_of none actual = true
meets_one_of (some options) actual = any (json_eq actual) options

unfoldable pub check_precondition : Json → Predicate → Code
unfolding path_lookup
check_precondition context p = elim (path_lookup (segments (codes p.path)) context) [
  | none ↦ precondition_unknown
  | some actual ↦
      if not (meets_equals p.equals actual)
      then precondition_failed
      else if not (meets_one_of p.one_of actual)
      then precondition_failed
      else precondition_satisfied
]

abbrev pub is_satisfied : Code → Bool
is_satisfied Code.precondition_satisfied = true
is_satisfied Code.evidence_satisfied = true
is_satisfied _ = false

-- `decision["preconditions"]`; the result is whether all are satisfied
unfoldable pub validate_preconditions : Contract → Request → List Code
unfolding check_precondition
validate_preconditions contract request =
    map (check_precondition request.context) contract.preconditions

-- the ids that were supplied before, once for each repetition
unfoldable pub duplicates : List String → List Observed → List String
duplicates seen [] = []
duplicates seen (o ∷ os) =
    let rest = duplicates (o.item.id ∷ seen) os in
    if contains seen o.item.id then o.item.id ∷ rest else rest

-- `supplied[id]`: a later record replaces an earlier one
abbrev pub supplied : String → List Observed → Option Observed
supplied id os = last_where (λ o. o.item.id == id) os

abbrev pub second : ℕ
second = 1000000

-- `future_seconds > MAX_EVIDENCE_CLOCK_SKEW_SECONDS`
abbrev pub in_future : ℕ → ℕ → Bool
in_future time now = ltb (now + 30 * second) time

-- `age_seconds > requirement["freshness_seconds"]`
abbrev pub is_stale : Option ℕ → ℕ → ℕ → Bool
is_stale none time now = false
is_stale (some limit) time now = ltb limit ((now - time) / second)

abbrev pub is_verified : Option Json → Bool
is_verified (some (boolean true)) = true
is_verified _ = false

-- `claims["source"]["kind"]` where it is a text that is not empty
abbrev pub source_kind : Entries → Option String
source_kind claims = elim (get "source" claims) [
  | some (object d) ↦ elim (get_text "kind" d) [
    | none ↦ none
    | some kind ↦ if kind == "" then none else some kind
  ]
  | _ ↦ none
]

abbrev some_or : List String → String → List String
some_or [] s = s ∷ []
some_or (x ∷ xs) s = x ∷ xs

abbrev pub trusts : List String → String → Bool
trusts [] kind = true
trusts (x ∷ xs) kind = contains (x ∷ xs) kind

abbrev pub names_digest : Option String → List ℕ → Bool
names_digest none digest = false
names_digest (some s) digest = same_codes (codes s) digest

module _ (c : Collaborators) where
  abbrev pub is_qualified : Requirement → Entries → Bool
  is_qualified r claims =
      any (λ role. c.signer_has_role (claim "_signer_id" claims) (string role))
        (some_or r.issuer_roles "evidence_issuer")

  -- the attestation of a record, under the trust registry
  unfoldable pub check_attestation : Requirement → Observed → Option Entries → Code
  check_attestation r o none = evidence_issuer_unverified
  check_attestation r o (some claims) =
      if not (holds (get_text "evidence_id" claims) r.id)
      then evidence_attestation_id_mismatch
      else if not (names_digest (get_text "sha256" claims) (lower (codes o.item.sha256)))
      then evidence_attestation_digest_mismatch
      else if not (holds (get_text "observed_at" claims) (c.isoformat o.time))
      then evidence_attestation_time_mismatch
      else elim (source_kind claims) [
        | none ↦ evidence_source_missing
        | some kind ↦
            if not (trusts r.source_kinds kind)
            then evidence_source_untrusted
            else if not (is_qualified r claims)
            then evidence_issuer_unqualified
            else evidence_satisfied
      ]

  unfoldable pub check_record : ℕ → Requirement → Observed → Code
  unfolding check_attestation
  check_record now r o =
      if in_future o.time now
      then evidence_observed_in_future
      else if r.verified && not (is_verified o.item.verified)
      then evidence_unverified
      else if is_stale r.freshness_seconds o.time now
      then evidence_stale
      else if c.project && r.verified
      then check_attestation r o (c.verify o.item.attestation "evidence_attestation")
      else evidence_satisfied

  unfoldable pub check_requirement : ℕ → List Observed → Requirement → Code
  unfolding check_record
  check_requirement now os r = elim (supplied r.id os) [
    | none ↦ evidence_missing
    | some o ↦ check_record now r o
  ]

  -- `decision["evidence"]`: a code for each repetition, then one for each requirement
  unfoldable pub validate_evidence : Contract → ℕ → List Observed → List Code
  unfolding check_requirement duplicates
  validate_evidence contract now os =
      map (λ _. evidence_duplicate) (duplicates [] os)
      ++ map (check_requirement now os) contract.evidence
