-- ===== src/Admission/Contracts/Admitted.antt =====
-- An action that the engine admits on a contract of `actions.yaml`: `validate` with `get_contract`
-- (entigram/governance/action_admission.py).
use entigram.Base.{
  ℕ, String, true, ◌≡◌, ◌≤◌, Option, none, some, List, [], ◌∷◌, refl, arith, contains, length, Some,
  Bool-cases, inl, inr,
}
use entigram.Base.Json.{Json, get_text}
use entigram.Admission.{
  Contract, Request, Collaborators, Policy, approval_required, allow, deny, conflicted,
}
use entigram.Admission.Approvals.{is_required, has_role, asks_approval}
use entigram.Admission.Contracts.{valid}
use entigram.Admission.Contracts.Loading.{get_contract}
use entigram.Admission.Contracts.Parts.{IsWellFormed}
use entigram.Admission.Contracts.Laws.{get_contract-IsWellFormed}
use entigram.Admission.Engine.{validate}
use entigram.Admission.Engine.Laws.{IsBinding, validate-ok_iff, approvals-IsBinding}

-- The contracts that an engine takes are those of the file, which may fail to load.
abbrev pub Reads : Collaborators → Option Json → Type 0
Reads c document =
    (name : String) (contract : Contract)
    → c.get_contract name ≡ some contract
    → get_contract name document ≡ valid contract

-- an approval that binds, given in a role that the contract names
abbrev pub IsNamed : Collaborators → String → Contract → Request → ℕ → Json → Type 0
IsNamed c name contract request now artifact =
    (b : IsBinding c name contract request now artifact) × (role : String) × (get_text "role"
        b.claims
      ≡ some role)
    × (contains contract.approval_roles role ≡ true)

-- what the engine has of the contract on which it admits
pub record IsFounded (c : Collaborators) (document : Option Json) (name : String)
    (request : Request) (now : ℕ) : Type 0 where
  pub contract : Contract
  pub on_file : get_contract name document ≡ valid contract
  pub well_formed : IsWellFormed contract
  pub endorsed :
      is_required contract ≡ true → Some (IsNamed c name contract request now) request.approvals

asks-required : (p : Policy) → asks_approval p ≡ true → p ≡ approval_required
asks-required approval_required h = refl
asks-required allow h = absurd (ground arith)
asks-required deny h = absurd (ground arith)
asks-required conflicted h = absurd (ground arith)

required-needs :
    (contract : Contract)
    → IsWellFormed contract
    → is_required contract ≡ true
    → contract.needs_approval ≡ true
required-needs contract w h = elim (Bool-cases contract.needs_approval) [
  | inl e ↦ e
  | inr e ↦ w.asks_approval (asks-required contract.policy (ground arith))
]

has_role-contains :
    (roles : List String) (o : Option String)
    → 1 ≤ length roles
    → has_role roles o ≡ true
    → (role : String) × (o ≡ some role) × (contains roles role ≡ true)
has_role-contains [] o l h = absurd (omega arith)
has_role-contains (x ∷ xs) none l h = absurd (ground arith)
has_role-contains (x ∷ xs) (some role) l h = (role, refl, h)

Some-map :
    {A : Type 0} (P Q : A → Type 0) (xs : List A) → ((x : A) → P x → Q x) → Some P xs → Some Q xs
Some-map P Q [] f s = elim s [ ]
Some-map P Q (x ∷ xs) f (inl p) = inl (f x p)
Some-map P Q (x ∷ xs) f (inr s) = inr (Some-map P Q xs f s)

module _ (c : Collaborators) (document : Option Json) (name : String) (request : Request)
    (now : ℕ) where
  binding-IsNamed :
      (contract : Contract)
      → 1 ≤ length contract.approval_roles
      → (artifact : Json) → IsBinding c name contract request now artifact
      → IsNamed c name contract request now artifact
  binding-IsNamed contract l artifact b =
      let named =
        has_role-contains contract.approval_roles (get_text "role" b.claims) l b.in_role in
      (b, named.0, named.1, named.2)

  -- An engine that takes its contracts from a file admits an action only on a contract of that file
  -- which is well formed; where the contract requires approval, by itself or by its policy, one of the
  -- approvals of the request binds and is given in a role that the contract names.
  pub validate-IsFounded :
      Reads c document
      → (validate c name request now).ok ≡ true
      → IsFounded c document name request now
  validate-IsFounded reads h =
      let a = (validate-ok_iff c name request now).0 h in
      let w = get_contract-IsWellFormed name document a.contract (reads name a.contract a.known) in
      record {
        contract = a.contract;
        on_file = reads name a.contract a.known;
        well_formed = w;
        endorsed = λ required.
            Some-map (IsBinding c name a.contract request now)
              (IsNamed c name a.contract request now) request.approvals
              (binding-IsNamed a.contract (w.has_role (required-needs a.contract w required)))
              (approvals-IsBinding c name a.contract request now required a.approved);
      }
