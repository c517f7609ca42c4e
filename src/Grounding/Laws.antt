-- ===== src/Grounding/Laws.antt =====
-- What a trusted alignment has, and that stricter demands trust fewer alignments.
use mathlib.Core.Path.{subst}
use entigram.Base.{
  ap, sym, ◌⊎◌, ◌≢◌, inl, inr, Some, codes, lower, strip, same_codes, same_codes-eq, Bool-cases,
  eq_iff, ◌==◌, Option, none, ℕ, String, Bool, true, ◌≡◌, ◌↔◌, ◌≤◌, refl, some, List, [], ◌∷◌,
  arith,
}
use entigram.Grounding.{
  or_else, Lifecycle, Alignment, is_trusted_lifecycle, is_trusted_evidence, confidence_of,
  is_trusted_alignment, trusted_alignments, lifecycle_named, normalize_lifecycle_status,
}

-- The text that gives the lifecycle: `lifecycle_status`, or `status` where that is missing or empty.
pub data States : Option String → Option String → String → Type 0 where
  by_lifecycle : (s : String) (status : Option String) → s ≢ "" → States (some s) status s
  by_status : (s : String) → States none (some s) s
  by_empty : (r s : String) → r ≡ "" → States (some r) (some s) s

-- up to case and the white space around it, a text that says `reviewed` or `verified`
abbrev pub SaysTrusted : String → Type 0
SaysTrusted s =
    (lower (strip (codes s)) ≡ codes "reviewed") ⊎ (lower (strip (codes s)) ≡ codes "verified")

abbrev pub IsTrustedStatus : Option String → Option String → Type 0
IsTrustedStatus lifecycle_status status =
    (s : String) × States lifecycle_status status s × SaysTrusted s

abbrev trusted_types : List String
trusted_types = "human_review" ∷ "integration_test" ∷ "sample_data_match" ∷ []

-- evidence of one of the three trusted types
abbrev pub IsTrustedEvidence : Alignment → Type 0
IsTrustedEvidence a = Some (λ t. a.evidence_type ≡ some t) trusted_types

-- a minimum that the confidence reaches, where a missing confidence is none at all
abbrev pub Reaches : ℕ → Alignment → Type 0
Reaches minimum a =
    ((n : ℕ) × (a.confidence ≡ some n) × (minimum ≤ n)) ⊎ ((a.confidence ≡ none) × (minimum ≡ 0))

named-trusted :
    (s : List ℕ)
    → is_trusted_lifecycle (lifecycle_named s) ≡ true
    → (s ≡ codes "reviewed") ⊎ (s ≡ codes "verified")
unfolding lifecycle_named
named-trusted s h = elim (Bool-cases (same_codes s (codes "reviewed"))) [
  | inl e ↦ inl (same_codes-eq s (codes "reviewed") e)
  | inr e ↦ elim (Bool-cases (same_codes s (codes "verified"))) [
    | inl v ↦ inr (same_codes-eq s (codes "verified") v)
    | inr v ↦ absurd (ground arith)
  ]
]

trusted-named :
    (s : List ℕ)
    → (s ≡ codes "reviewed") ⊎ (s ≡ codes "verified")
    → is_trusted_lifecycle (lifecycle_named s) ≡ true
unfolding lifecycle_named
trusted-named s (inl e) = rw e refl
trusted-named s (inr e) = rw e refl

some-SaysTrusted :
    (s : String) → is_trusted_lifecycle (normalize_lifecycle_status (some s)) ≡ true → SaysTrusted s
unfolding normalize_lifecycle_status
some-SaysTrusted s h = elim (Bool-cases (s == "")) [
  | inl e ↦ absurd (let z = rw e at h in ground arith)
  | inr e ↦ named-trusted (lower (strip (codes s))) (rw e at h)
]

nothing_said : SaysTrusted "" → is_trusted_lifecycle (normalize_lifecycle_status (some "")) ≡ true
unfolding lower strip
nothing_said (inl e) = absurd (ground arith)
nothing_said (inr e) = absurd (ground arith)

SaysTrusted-some :
    (s : String) → SaysTrusted s → is_trusted_lifecycle (normalize_lifecycle_status (some s)) ≡ true
unfolding normalize_lifecycle_status
SaysTrusted-some s t = elim (Bool-cases (s == "")) [
  | inl e ↦
      subst (λ x. SaysTrusted x → is_trusted_lifecycle (normalize_lifecycle_status (some x)) ≡ true)
        (sym ((eq_iff s "").0 e)) nothing_said t
  | inr e ↦ rw e (trusted-named (lower (strip (codes s))) t)
]

lifecycle-IsTrustedStatus :
    (lifecycle_status status : Option String)
    → is_trusted_lifecycle (normalize_lifecycle_status (or_else lifecycle_status status)) ≡ true
    → IsTrustedStatus lifecycle_status status
unfolding normalize_lifecycle_status
lifecycle-IsTrustedStatus none none h = absurd (ground arith)
lifecycle-IsTrustedStatus none (some s) h = (s, by_status s, some-SaysTrusted s h)
lifecycle-IsTrustedStatus (some r) status h = elim (Bool-cases (r == "")) [
  | inl e ↦ second r status ((eq_iff r "").0 e) (rw e at h)
  | inr e ↦
      (r, by_lifecycle r status (λ n. ground (arith, eq_iff r "")), some-SaysTrusted r (rw e at h))
]
  where
    second :
        (r : String) (status : Option String)
        → r ≡ ""
        → is_trusted_lifecycle (normalize_lifecycle_status status) ≡ true
        → IsTrustedStatus (some r) status
    second r none n h = absurd (ground arith)
    second r (some s) n h = (s, by_empty r s n, some-SaysTrusted s h)

IsTrustedStatus-lifecycle :
    (lifecycle_status status : Option String) (s : String)
    → States lifecycle_status status s
    → SaysTrusted s
    → is_trusted_lifecycle (normalize_lifecycle_status (or_else lifecycle_status status)) ≡ true
IsTrustedStatus-lifecycle _ _ s (by_status _) t = SaysTrusted-some s t
IsTrustedStatus-lifecycle _ _ s (by_empty r _ n) t = rw ((eq_iff r "").1 n) (SaysTrusted-some s t)
IsTrustedStatus-lifecycle _ _ s (by_lifecycle _ status n) t = elim (Bool-cases (s == "")) [
  | inl e ↦ absurd (n ((eq_iff s "").0 e))
  | inr e ↦ rw e (SaysTrusted-some s t)
]

evidence-Some :
    (o : Option String) → is_trusted_evidence o ≡ true → Some (λ t. o ≡ some t) trusted_types
evidence-Some none h = absurd (ground arith)
evidence-Some (some s) h = elim (Bool-cases (s == "human_review")) [
  | inl e ↦ inl (ap some ((eq_iff s "human_review").0 e))
  | inr e ↦ elim (Bool-cases (s == "integration_test")) [
    | inl e' ↦ inr (inl (ap some ((eq_iff s "integration_test").0 e')))
    | inr e' ↦ inr (inr (inl (ap some ((eq_iff s "sample_data_match").0 (ground arith)))))
  ]
]

Some-evidence :
    (o : Option String) → Some (λ t. o ≡ some t) trusted_types → is_trusted_evidence o ≡ true
Some-evidence o (inl e) = rw e refl
Some-evidence o (inr (inl e)) = rw e refl
Some-evidence o (inr (inr (inl e))) = rw e refl
Some-evidence o (inr (inr (inr n))) = elim n [ ]

reaches :
    (minimum : ℕ) (o : Option ℕ)
    → minimum ≤ elim o [ none ↦ 0 | some n ↦ n ]
    → ((n : ℕ) × (o ≡ some n) × (minimum ≤ n)) ⊎ ((o ≡ none) × (minimum ≡ 0))
reaches minimum none h = inr (refl, omega arith)
reaches minimum (some n) h = inl (n, refl, h)

reached : (minimum : ℕ) (a : Alignment) → Reaches minimum a → minimum ≤ confidence_of a
reached minimum a (inl (n, e, b)) = rw e b
reached minimum a (inr (e, z)) = rw (e, z) (omega arith)

-- What makes an alignment trusted, in the words of the project.
pub record IsGrounded (minimum : ℕ) (require_evidence : Bool) (a : Alignment) : Type 0 where
  pub status : IsTrustedStatus a.lifecycle_status a.status
  pub marked : a.verified ≡ true
  pub confident : Reaches minimum a
  pub evidence : require_evidence ≡ true → IsTrustedEvidence a

-- An alignment is trusted exactly when its status says, up to case and white space, that it is reviewed
-- or verified, it is marked verified, its confidence reaches the minimum, and where evidence is
-- required, that is a human review, an integration test or a match of sample data.
pub is_trusted_iff :
    (minimum : ℕ) (require_evidence : Bool) (a : Alignment)
    → ((is_trusted_alignment minimum require_evidence a).allowed ≡ true)
      ↔ IsGrounded minimum require_evidence a
unfolding is_trusted_alignment
is_trusted_iff minimum require_evidence a = (
  λ h. record {
    status = lifecycle-IsTrustedStatus a.lifecycle_status a.status (ground arith);
    marked = ground arith;
    confident = reaches minimum a.confidence (ground arith);
    evidence = λ e. evidence-Some a.evidence_type (ground arith);
  },
  λ t.
      (let stated =
          IsTrustedStatus-lifecycle a.lifecycle_status a.status t.status.0 t.status.1 t.status.2 in
        let confident = reached minimum a t.confident in
        elim (Bool-cases require_evidence) [
          | inl e ↦ ground (arith, t.marked, Some-evidence a.evidence_type (t.evidence e))
          | inr e ↦ ground (arith, t.marked)
        ]),
)

-- Demanding more confidence, or evidence as well, trusts the same alignments again, less those that do
-- not meet the stricter demand.
pub trusted_alignments_stricter :
    (low high : ℕ) (ev : Bool) (as' : List Alignment)
    → low ≤ high
    → trusted_alignments high true (trusted_alignments low ev as')
      ≡ trusted_alignments high true as'
unfolding trusted_alignments is_trusted_alignment
trusted_alignments_stricter low high ev [] h = refl
trusted_alignments_stricter low high ev (a ∷ as') h =
    ground (arith, trusted_alignments_stricter low high ev as' h)

abbrev pub name_of : Lifecycle → String
name_of Lifecycle.proposed = "proposed"
name_of Lifecycle.reviewed = "reviewed"
name_of Lifecycle.verified = "verified"
name_of Lifecycle.deprecated = "deprecated"
name_of Lifecycle.rejected = "rejected"

-- The name of a lifecycle, as the ledger stores it, is read back as that lifecycle.
pub normalize_lifecycle_status-name_of :
    (s : Lifecycle) → normalize_lifecycle_status (some (name_of s)) ≡ s
unfolding normalize_lifecycle_status lifecycle_named
normalize_lifecycle_status-name_of Lifecycle.proposed = refl
normalize_lifecycle_status-name_of Lifecycle.reviewed = refl
normalize_lifecycle_status-name_of Lifecycle.verified = refl
normalize_lifecycle_status-name_of Lifecycle.deprecated = refl
normalize_lifecycle_status-name_of Lifecycle.rejected = refl
