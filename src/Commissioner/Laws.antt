-- ===== src/Commissioner/Laws.antt =====
-- A checklist is valid exactly when every expectation is proven and none is blocked.
use entigram.Base.{
  ℕ, String, Bool, true, false, ◌≡◌, ◌↔◌, refl, ◌&&◌, List, [], ◌∷◌, ◌++◌, arith, All, all, all-map,
  map, keep, length, eqb,
}
use entigram.Commissioner.{
  ItemStatus, DeveloperExpectation, to_checklist_item, is_needs_proof, is_blocked_item,
  checklist_of, is_blocked, is_proven,
}

-- an expectation that is not blocked and has its proof among the texts given or on record
pub record IsCommissioned (ledger : String → List (List ℕ)) (proofs : List (List ℕ))
    (checks : List String) (e : DeveloperExpectation) : Type 0 where
  pub unblocked : is_blocked checks e ≡ false
  pub proven : is_proven (proofs ++ ledger e.name) e ≡ true

abbrev is_passed : ItemStatus → Bool
is_passed ItemStatus.passed = true
is_passed _ = false

counts-is_passed :
    (items : List ItemStatus)
    → (eqb (length (keep is_needs_proof items)) 0 && eqb (length (keep is_blocked_item items)) 0)
      ≡ all is_passed items
counts-is_passed [] = refl
counts-is_passed (ItemStatus.passed ∷ items) = counts-is_passed items
counts-is_passed (ItemStatus.needs_proof ∷ items) = ground arith
counts-is_passed (ItemStatus.blocked ∷ items) = ground arith

module _ (ledger : String → List (List ℕ)) (proofs : List (List ℕ)) (checks : List String) where
  item-IsCommissioned :
      (e : DeveloperExpectation)
      → (is_passed (to_checklist_item (proofs ++ ledger e.name) checks e) ≡ true)
        ↔ IsCommissioned ledger proofs checks e
  unfolding to_checklist_item
  item-IsCommissioned e =
      (λ h. record { unblocked = ground arith; proven = ground arith }, λ c. ground arith)

  -- A checklist is valid exactly when every expectation that it lists is proven and none is blocked.
  pub checklist_of-valid_iff :
      (es : List DeveloperExpectation)
      → ((checklist_of ledger proofs checks es).valid ≡ true)
        ↔ All (IsCommissioned ledger proofs checks) es
  unfolding checklist_of
  checklist_of-valid_iff es =
      let item =
        λ (e : DeveloperExpectation). to_checklist_item (proofs ++ ledger e.name) checks e in
      let m = all-map is_passed item es item-IsCommissioned in rw (counts-is_passed (map item es)) m
