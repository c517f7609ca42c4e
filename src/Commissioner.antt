-- ===== src/Commissioner.antt =====
-- Commissioning of modeled expectations (entigram/governance/commissioner.py): the status of one
-- expectation and `build_checklist` without its persistence. Texts are compared in lower case, as far
-- as their letters are ASCII.
pub mod Laws
use entigram.Base.{
  ℕ, String, Bool, true, false, not, ◌&&◌, ◌||◌, ◌==◌, if◌then◌else◌, Option, none, some, List, [],
  ◌∷◌, ◌++◌, any, all, keep, map, codes, lower, length, eqb, same_codes,
}

pub data ItemStatus : Type 0 where
  passed needs_proof blocked : ItemStatus

pub record DeveloperExpectation : Type 0 where
  pub name : String
  pub validation_check : String
  pub proof : Option String

unfoldable pub starts_with : List ℕ → List ℕ → Bool
starts_with [] s = true
starts_with (c ∷ p) [] = false
starts_with (c ∷ p) (d ∷ s) = eqb c d && starts_with p s

-- `p in s`
unfoldable pub occurs : List ℕ → List ℕ → Bool
unfolding starts_with
occurs p [] = starts_with p []
occurs p (c ∷ s) = starts_with p (c ∷ s) || occurs p s

-- `"\n".join(texts)`
unfoldable pub join_lines : List (List ℕ) → List ℕ
join_lines [] = []
join_lines (t ∷ []) = t
join_lines (t ∷ u ∷ ts) = t ++ (10 ∷ join_lines (u ∷ ts))

abbrev pub is_empty : List (List ℕ) → Bool
is_empty [] = true
is_empty (t ∷ ts) = false

-- `self.proof or self.validation_check`
abbrev pub expected_proof : DeveloperExpectation → String
expected_proof e = elim e.proof [
  | none ↦ e.validation_check
  | some p ↦ if p == "" then e.validation_check else p
]

abbrev pub is_blocked : List String → DeveloperExpectation → Bool
is_blocked checks e = any (λ c. occurs (lower (codes c)) (lower (codes e.validation_check))) checks

abbrev pub is_proven : List (List ℕ) → DeveloperExpectation → Bool
is_proven proofs e =
    not (is_empty proofs)
    && (expected_proof e == ""
        || occurs (lower (codes (expected_proof e))) (lower (join_lines proofs)))

-- the status of `to_checklist_item`
unfoldable pub to_checklist_item : List (List ℕ) → List String → DeveloperExpectation → ItemStatus
unfolding occurs join_lines lower
to_checklist_item proofs checks e =
    if is_blocked checks e
    then ItemStatus.blocked
    else if is_proven proofs e
    then ItemStatus.passed
    else ItemStatus.needs_proof

abbrev pub is_needs_proof : ItemStatus → Bool
is_needs_proof ItemStatus.needs_proof = true
is_needs_proof _ = false

abbrev pub is_blocked_item : ItemStatus → Bool
is_blocked_item ItemStatus.blocked = true
is_blocked_item _ = false

pub record Checklist : Type 0 where
  pub valid : Bool
  pub expectation_count : ℕ
  pub items : List ItemStatus
  pub missing_proof_count : ℕ
  pub blocked_count : ℕ
  -- `Unknown expectation: …`
  pub error : Bool

abbrev pub unknown_expectation : Checklist
unknown_expectation = record {
  valid = false;
  expectation_count = 0;
  items = [];
  missing_proof_count = 0;
  blocked_count = 0;
  error = true;
}

abbrev pub none_left : List DeveloperExpectation → Bool
none_left [] = true
none_left (e ∷ es) = false

-- `ledger` gives the proof texts of the passed evidence of an expectation, by its name.
unfoldable pub checklist_of :
    (String → List (List ℕ)) → List (List ℕ) → List String → List DeveloperExpectation → Checklist
unfolding to_checklist_item
checklist_of ledger proofs checks es =
    let items = map (λ e. to_checklist_item (proofs ++ ledger e.name) checks e) es in
    let missing = length (keep is_needs_proof items) in
    let stopped = length (keep is_blocked_item items) in
    record {
      valid = eqb missing 0 && eqb stopped 0;
      expectation_count = length items;
      items = items;
      missing_proof_count = missing;
      blocked_count = stopped;
      error = false;
    }

abbrev pub named : String → DeveloperExpectation → Bool
named name e = same_codes (lower (codes e.name)) (lower (codes name))

-- an absent name, or the empty one, selects every expectation
unfoldable pub build_checklist :
    (String → List (List ℕ))
    → List (List ℕ)
    → List String
    → Option String
    → List DeveloperExpectation
    → Checklist
unfolding checklist_of
build_checklist ledger proofs checks none es = checklist_of ledger proofs checks es
build_checklist ledger proofs checks (some name) es =
    if name == ""
    then checklist_of ledger proofs checks es
    else (let chosen = keep (named name) es in
        if none_left chosen then unknown_expectation else checklist_of ledger proofs checks chosen)
