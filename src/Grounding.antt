-- ===== src/Grounding.antt =====
-- Trust in ontology alignments (entigram/governance/grounding.py): the lifecycle of an alignment and
-- `is_trusted_alignment`. A confidence is a number of millionths.
pub mod Laws
use entigram.Base.{
  ℕ, String, Bool, true, false, not, ◌&&◌, ◌||◌, ◌==◌, if◌then◌else◌, ltb, Option, none, some, List,
  keep, codes, strip, lower, same_codes,
}

pub data Lifecycle : Type 0 where
  proposed reviewed verified deprecated rejected : Lifecycle

-- the entries of an alignment that are read; `verified` is the truth of the entry
pub record Alignment : Type 0 where
  pub lifecycle_status : Option String
  pub status : Option String
  pub verified : Bool
  pub confidence : Option ℕ
  pub evidence_type : Option String

-- the `reason` of a `GroundingDecision`, by its case
pub data Grounds : Type 0 where
  lifecycle_untrusted : Lifecycle → Grounds
  unverified below_minimum evidence_untrusted verified_alignment : Grounds

pub record GroundingDecision : Type 0 where
  pub allowed : Bool
  pub reason : Grounds

-- the five names, and `proposed` for any other text
unfoldable pub lifecycle_named : List ℕ → Lifecycle
lifecycle_named s =
    if same_codes s (codes "reviewed")
    then Lifecycle.reviewed
    else if same_codes s (codes "verified")
    then Lifecycle.verified
    else if same_codes s (codes "deprecated")
    then Lifecycle.deprecated
    else if same_codes s (codes "rejected")
    then Lifecycle.rejected
    else Lifecycle.proposed

unfoldable pub normalize_lifecycle_status : Option String → Lifecycle
unfolding lifecycle_named strip lower
normalize_lifecycle_status none = Lifecycle.proposed
normalize_lifecycle_status (some s) =
    if s == "" then Lifecycle.proposed else lifecycle_named (lower (strip (codes s)))

-- `a or b`
abbrev pub or_else : Option String → Option String → Option String
or_else none b = b
or_else (some a) b = if a == "" then b else some a

abbrev pub is_trusted_lifecycle : Lifecycle → Bool
is_trusted_lifecycle Lifecycle.reviewed = true
is_trusted_lifecycle Lifecycle.verified = true
is_trusted_lifecycle _ = false

-- `confidence or 0.0`
abbrev pub confidence_of : Alignment → ℕ
confidence_of a = elim a.confidence [ none ↦ 0 | some n ↦ n ]

abbrev pub is_trusted_evidence : Option String → Bool
is_trusted_evidence none = false
is_trusted_evidence (some t) =
    t == "human_review" || t == "integration_test" || t == "sample_data_match"

abbrev pub lifecycle_of : Alignment → Lifecycle
lifecycle_of a = normalize_lifecycle_status (or_else a.lifecycle_status a.status)

abbrev refuse : Grounds → GroundingDecision
refuse reason = record { allowed = false; reason = reason }

unfoldable pub is_trusted_alignment : ℕ → Bool → Alignment → GroundingDecision
is_trusted_alignment minimum require_evidence a =
    if not (is_trusted_lifecycle (lifecycle_of a))
    then refuse (lifecycle_untrusted (lifecycle_of a))
    else if not a.verified
    then refuse unverified
    else if ltb (confidence_of a) minimum
    then refuse below_minimum
    else if require_evidence && not (is_trusted_evidence a.evidence_type)
    then refuse evidence_untrusted
    else record { allowed = true; reason = verified_alignment }

unfoldable pub trusted_alignments : ℕ → Bool → List Alignment → List Alignment
unfolding is_trusted_alignment
trusted_alignments minimum require_evidence as' =
    keep (λ a. (is_trusted_alignment minimum require_evidence a).allowed) as'
