-- ===== src/Admission/Contracts/Laws.antt =====
-- What the engine may rely on in a contract that was loaded (entigram/governance/action_admission.py).
use mathlib.Core.Path.{subst}
use entigram.Base.{
  option-elim, if-elim, ◌==◌, String, not, ◌≡◌, Option, none, some, List, [], ◌∷◌, codes, All,
}
use entigram.Base.Json.{
  Json, boolean, number, string, array, object, null, Entries, empty, entry, get,
}
use entigram.Admission.{Contract, is_identifier}
use entigram.Admission.Contracts.{Validation, valid, raised, contract_fault, action_contract_error}
use entigram.Admission.Contracts.Loading.{
  Contracts, loaded, failed, _validate_contract, load_actions, load_contracts, format_fault, stored,
  find_contract, get_contract,
}
use entigram.Admission.Contracts.Parts.{
  IsWellFormed, contract_fault-Checks, contract_of-IsWellFormed,
}

abbrev Good : Validation → Type 0
Good (valid contract) = IsWellFormed contract
Good (raised fault) = Unit

abbrev AllGood : Contracts → Type 0
AllGood (loaded contracts) = All (λ p. IsWellFormed p.1) contracts
AllGood (failed fault) = Unit

validate_contract-Good : (v : Json) → Good (_validate_contract v)
unfolding _validate_contract
validate_contract-Good (object d) =
    option-elim Good (contract_fault d)
      (λ e. contract_of-IsWellFormed d (contract_fault-Checks d e)) (λ fault e. tt)
validate_contract-Good null = tt
validate_contract-Good (boolean b) = tt
validate_contract-Good (number s n) = tt
validate_contract-Good (string s) = tt
validate_contract-Good (array xs) = tt

stored-AllGood :
    (name : String) (checked : Validation) (rest : Contracts)
    → Good checked
    → AllGood rest
    → AllGood
        (elim checked [ raised fault ↦ failed fault | valid contract ↦ stored name contract rest ])
stored-AllGood name (raised fault) rest g a = tt
stored-AllGood name (valid contract) (failed fault) g a = tt
stored-AllGood name (valid contract) (loaded contracts) g a = (g, a)

load_actions-AllGood : (actions : Entries) → AllGood (load_actions actions)
unfolding load_actions
load_actions-AllGood empty = tt
load_actions-AllGood (entry name v actions) =
    if-elim AllGood (not (is_identifier (codes name))) (λ _. tt)
      (λ _.
        stored-AllGood name (_validate_contract v) (load_actions actions) (validate_contract-Good v)
          (load_actions-AllGood actions))

find_contract-Good :
    (name : String) (contracts : List (String × Contract))
    → AllGood (loaded contracts)
    → Good (find_contract name contracts)
unfolding find_contract
find_contract-Good name [] a = tt
find_contract-Good name ((key, contract) ∷ rest) a =
    if-elim Good (key == name) (λ _. a.0) (λ _. find_contract-Good name rest a.1)

actions-AllGood :
    (o : Option Json)
    → AllGood (elim o [
      | some (object (entry name v actions)) ↦ load_actions (entry name v actions)
      | _ ↦ failed action_contract_error
    ])
actions-AllGood none = tt
actions-AllGood (some (object (entry name v actions))) = load_actions-AllGood (entry name v actions)
actions-AllGood (some (object empty)) = tt
actions-AllGood (some null) = tt
actions-AllGood (some (boolean b)) = tt
actions-AllGood (some (number s n)) = tt
actions-AllGood (some (string s)) = tt
actions-AllGood (some (array xs)) = tt

load_contracts-AllGood : (document : Option Json) → AllGood (load_contracts document)
unfolding load_contracts
load_contracts-AllGood (some (object document)) =
    option-elim AllGood (format_fault (get "format" document))
      (λ _. actions-AllGood (get "actions" document)) (λ fault e. tt)
load_contracts-AllGood none = tt
load_contracts-AllGood (some null) = tt
load_contracts-AllGood (some (boolean b)) = tt
load_contracts-AllGood (some (number s n)) = tt
load_contracts-AllGood (some (string s)) = tt
load_contracts-AllGood (some (array xs)) = tt

found-Good :
    (name : String) (contracts : Contracts)
    → AllGood contracts
    → Good (elim contracts [
      | failed fault ↦ raised fault
      | loaded contracts ↦ find_contract name contracts
    ])
found-Good name (failed fault) a = tt
found-Good name (loaded contracts) a = find_contract-Good name contracts a

-- Every contract that `get_contract` returns, whatever the file holds, is well formed: it demands
-- at least one scope, an audience that it names is an identifier, the path of each precondition is
-- not blank and the id of each evidence requirement is an identifier, a policy that asks for
-- approval makes the approval required, and a required approval names at least one role.
pub get_contract-IsWellFormed :
    (name : String) (document : Option Json) (contract : Contract)
    → get_contract name document ≡ valid contract
    → IsWellFormed contract
unfolding get_contract
get_contract-IsWellFormed name document contract h =
    subst Good h (found-Good name (load_contracts document) (load_contracts-AllGood document))
