-- ===== src/Admission/Contracts/Loading.antt =====
-- The `Contract` that the engine reads, from a contract that passes the checks: `load_contracts` and
-- `get_contract` (entigram/governance/action_admission.py).
use entigram.Base.{
  ℕ, String, not, ◌==◌, if◌then◌else◌, Option, none, some, List, [], ◌∷◌, codes, map, strip_text,
}
use entigram.Base.Json.{Json, number, string, array, object, Entries, empty, entry, get}
use entigram.Admission.{
  Contract, Predicate, Requirement, Policy, allow, deny, approval_required, conflicted,
  is_identifier,
}
use entigram.Admission.Contracts.{
  Fault, Validation, one_of_names, is_set, to_list, part, contract_fault, action_contract_error,
  valid, raised,
}

abbrev pub items : Option Json → List Json
items (some (array xs)) = to_list xs
items _ = []

abbrev pub text_of : Json → String
text_of (string s) = s
text_of _ = ""

abbrev pub text_at : String → Entries → String
text_at key d = elim (get key d) [ none ↦ "" | some v ↦ text_of v ]

abbrev pub entries_of : Json → Entries
entries_of (object d) = d
entries_of _ = empty

abbrev natural_of : Json → Option ℕ
natural_of (number s n) = some n
natural_of _ = none

abbrev pub choices_of : Json → Option (List Json)
choices_of (array xs) = some (to_list xs)
choices_of _ = none

abbrev pub predicate_of : Json → Predicate
predicate_of v = record {
  path = text_at "path" (entries_of v);
  equals = get "equals" (entries_of v);
  one_of = elim (get "one_of" (entries_of v)) [ none ↦ none | some xs ↦ choices_of xs ];
}

-- The roles and the kinds of sources are kept as they are written.
abbrev pub requirement_of : Json → Requirement
requirement_of v = record {
  id = text_at "id" (entries_of v);
  freshness_seconds = elim (get "freshness_seconds" (entries_of v)) [
    | none ↦ none
    | some n ↦ natural_of n
  ];
  verified = is_set (get "verified" (entries_of v));
  issuer_roles = map text_of (items (get "issuer_roles" (entries_of v)));
  source_kinds = map text_of (items (get "source_kinds" (entries_of v)));
}

abbrev pub policy_of : String → Policy
policy_of s =
    if s == "allow"
    then allow
    else (if s == "deny"
        then deny
        else (if s == "approval_required" then approval_required else conflicted))

-- `[item.strip() for item in value]`
abbrev pub stripped : Option Json → List String
stripped value = map (λ v. strip_text (text_of v)) (items value)

abbrev pub audience_of : Option Json → Option String
audience_of none = none
audience_of (some v) = some (text_of v)

-- the contract as the engine reads it, once the checks are passed
unfoldable pub contract_of : Entries → Contract
contract_of d = record {
  scopes = stripped (get "scopes" (part "authority" d));
  principals = stripped (get "principals" (part "authority" d));
  agents = stripped (get "agents" (part "authority" d));
  audience = audience_of (get "audience" (part "authority" d));
  preconditions = map predicate_of (items (get "preconditions" d));
  evidence = map requirement_of (items (get "evidence" d));
  policy = policy_of (text_at "decision" (part "policy" d));
  needs_approval = is_set (get "required" (part "approval" d));
  approval_roles = map text_of (items (get "roles" (part "approval" d)));
}

unfoldable pub _validate_contract : Json → Validation
unfolding contract_fault contract_of
_validate_contract (object d) = elim (contract_fault d) [
  | some fault ↦ raised fault
  | none ↦ valid (contract_of d)
]
_validate_contract _ = raised action_contract_error

-- `contracts`, in the order of the file
pub data Contracts : Type 0 where
  loaded : List (String × Contract) → Contracts
  failed : Fault → Contracts

abbrev pub stored : String → Contract → Contracts → Contracts
stored name contract (loaded contracts) = loaded ((name, contract) ∷ contracts)
stored name contract (failed fault) = failed fault

-- the loop of `load_contracts`
unfoldable pub load_actions : Entries → Contracts
unfolding _validate_contract
load_actions empty = loaded []
load_actions (entry name v actions) =
    let rest = load_actions actions in
    if not (is_identifier (codes name))
    then failed action_contract_error
    else elim (_validate_contract v) [
      | raised fault ↦ failed fault
      | valid contract ↦ stored name contract rest
    ]

abbrev pub format_fault : Option Json → Option Fault
format_fault none = none
format_fault (some Json.null) = none
format_fault v = one_of_names ("entigram.action-contract.v1" ∷ []) v

-- `load_contracts` on what the file holds; `none` is a file that is missing or does not parse
unfoldable pub load_contracts : Option Json → Contracts
unfolding load_actions
load_contracts (some (object document)) = elim (format_fault (get "format" document)) [
  | some fault ↦ failed fault
  | none ↦ elim (get "actions" document) [
    | some (object (entry name v actions)) ↦ load_actions (entry name v actions)
    | _ ↦ failed action_contract_error
  ]
]
load_contracts _ = failed action_contract_error

unfoldable pub find_contract : String → List (String × Contract) → Validation
find_contract name [] = raised action_contract_error
find_contract name ((key, contract) ∷ rest) =
    if key == name then valid contract else find_contract name rest

unfoldable pub get_contract : String → Option Json → Validation
unfolding load_contracts find_contract
get_contract name document = elim (load_contracts document) [
  | failed fault ↦ raised fault
  | loaded contracts ↦ find_contract name contracts
]
