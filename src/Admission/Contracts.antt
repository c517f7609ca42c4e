-- ===== src/Admission/Contracts.antt =====
-- The contract of an action as `actions.yaml` holds it: `_validate_contract` and
-- `_validate_predicate` (entigram/governance/action_admission.py).
pub mod Admitted
pub mod Loading
pub mod Parts
pub mod Laws
use entigram.Base.{
  ℕ, zero, String, Bool, true, false, not, ◌&&◌, ◌||◌, ◌==◌, if◌then◌else◌, Option, none, some,
  List, [], ◌∷◌, contains, codes, is_blank, map, all, strip_text,
}
use entigram.Base.Json.{
  Json, boolean, number, string, array, object, Jsons, nil, cons, Entries, empty, entry, get,
}
use entigram.Admission.{
  Contract, Predicate, Requirement, Policy, allow, deny, approval_required, conflicted,
  is_identifier,
}

-- What a contract that is not taken raises. A test `x in {…}` raises `TypeError` on a list or an
-- object, which has no hash.
pub data Fault : Type 0 where
  action_contract_error type_error : Fault

pub data Validation : Type 0 where
  valid : Contract → Validation
  raised : Fault → Validation

abbrev pub unless : Bool → Option Fault
unless true = none
unless false = some action_contract_error

-- the first of the checks that fails
unfoldable pub first_fault : List (Option Fault) → Option Fault
first_fault [] = none
first_fault (none ∷ checks) = first_fault checks
first_fault (some fault ∷ checks) = some fault

abbrev pub has : String → Entries → Bool
has key d = elim (get key d) [ none ↦ false | some v ↦ true ]

-- a test of a field that may be left out
abbrev pub absent_or : (Json → Bool) → Option Json → Bool
absent_or test none = true
absent_or test (some v) = test v

abbrev pub present_and : (Json → Bool) → Option Json → Bool
present_and test none = false
present_and test (some v) = test v

-- `value in names`
abbrev pub one_of_names : List String → Option Json → Option Fault
one_of_names names (some (string s)) = unless (contains names s)
one_of_names names (some (array xs)) = some type_error
one_of_names names (some (object d)) = some type_error
one_of_names names _ = some action_contract_error

abbrev pub is_boolean : Json → Bool
is_boolean (boolean b) = true
is_boolean _ = false

abbrev pub is_set : Option Json → Bool
is_set (some (boolean true)) = true
is_set _ = false

abbrev is_list : Json → Bool
is_list (array xs) = true
is_list _ = false

abbrev pub is_filled_text : Json → Bool
is_filled_text (string s) = not (is_blank (codes s))
is_filled_text _ = false

-- `_require_identifier`
abbrev pub is_identifier_text : Json → Bool
is_identifier_text (string s) = is_identifier (codes s)
is_identifier_text _ = false

-- `isinstance(v, int) and not isinstance(v, bool) and v >= 0`
abbrev is_natural : Json → Bool
is_natural (number false n) = true
is_natural (number true zero) = true
is_natural _ = false

abbrev pub to_list : Jsons → List Json
to_list nil = []
to_list (cons v vs) = v ∷ to_list vs

-- `_require_string_list`
abbrev is_string_list : Json → Bool
is_string_list (array xs) = all is_filled_text (to_list xs)
is_string_list _ = false

-- `_require_string_list(…, allow_empty=False)`
abbrev pub is_filled_list : Json → Bool
is_filled_list (array (cons x xs)) = is_filled_text x && all is_filled_text (to_list xs)
is_filled_list _ = false

-- `str(version).strip()` of a text or an integer, of which a Boolean is one
abbrev is_version : Json → Bool
is_version (number s n) = true
is_version (boolean b) = true
is_version v = is_filled_text v

unfoldable pub _validate_predicate : Json → Bool
_validate_predicate (object d) =
    present_and is_filled_text (get "path" d)
    && ((has "equals" d || (has "one_of" d || is_set (get "exists" d)))
        && absent_or is_list (get "one_of" d))
_validate_predicate _ = false

unfoldable pub is_requirement : Json → Bool
is_requirement (object d) =
    present_and is_identifier_text (get "id" d)
    && (absent_or is_natural (get "freshness_seconds" d)
        && (absent_or is_boolean (get "verified" d)
            && (absent_or is_filled_list (get "issuer_roles" d)
                && absent_or is_filled_list (get "source_kinds" d))))
is_requirement _ = false

unfoldable pub is_authority : Json → Bool
is_authority (object a) =
    present_and is_filled_list (get "scopes" a)
    && (absent_or is_string_list (get "principals" a)
        && (absent_or is_string_list (get "agents" a)
            && absent_or is_identifier_text (get "audience" a)))
is_authority _ = false

-- a list of which each value passes the test
abbrev pub is_list_of : (Json → Bool) → Json → Bool
is_list_of test (array xs) = all test (to_list xs)
is_list_of test _ = false

abbrev assurance_levels : List String
assurance_levels = "advisory" ∷ "mediated" ∷ "enforced" ∷ []

abbrev policy_decisions : List String
policy_decisions = "allow" ∷ "deny" ∷ "approval_required" ∷ "conflicted" ∷ []

abbrev pub inside : Option Json → Entries
inside (some (object p)) = p
inside _ = empty

-- an object of the contract; what `.get` on the default `{"required": False}` gives is as on `{}`
abbrev pub part : String → Entries → Entries
part key d = inside (get key d)

unfoldable pub policy_fault : Json → Option Fault
policy_fault (object p) = elim (one_of_names policy_decisions (get "decision" p)) [
  | some fault ↦ some fault
  | none ↦ unless (absent_or is_identifier_text (get "id" p))
]
policy_fault _ = some action_contract_error

-- `policy["decision"] == "approval_required"`
abbrev pub decides_approval : Option Json → Bool
decides_approval (some (string s)) = s == "approval_required"
decides_approval _ = false

abbrev pub asks_for_approval : Entries → Bool
asks_for_approval d = decides_approval (get "decision" (part "policy" d))

-- The roles are looked at if approval is required, and it has to be if the policy says so.
unfoldable pub is_approval : Bool → Json → Bool
is_approval asked (object a) =
    absent_or is_boolean (get "required" a)
    && (if is_set (get "required" a) then present_and is_filled_list (get "roles" a) else not asked)
is_approval asked _ = false

unfoldable pub is_postcondition : Json → Bool
unfolding _validate_predicate
is_postcondition (object d) =
    _validate_predicate (object d) && absent_or is_natural (get "observation_deadline_seconds" d)
is_postcondition _ = false

-- exactly one of a compensating action and `not_reversible: true`
unfoldable pub is_compensation : Json → Bool
is_compensation (object d) =
    if present_and is_filled_text (get "action" d)
    then not (is_set (get "not_reversible" d)) && present_and is_identifier_text (get "action" d)
    else is_set (get "not_reversible" d)
is_compensation _ = false

abbrev required_fields : List String
required_fields =
    "version" ∷ "assurance" ∷ "reads" ∷ "writes" ∷ "authority" ∷ "policy" ∷ "postcondition"
    ∷ "compensation" ∷ []

-- the checks of `_validate_contract`, in their order
abbrev pub contract_checks : Entries → List (Option Fault)
contract_checks d =
    unless (all (λ key. has key d) required_fields)
    ∷ unless (present_and is_version (get "version" d))
    ∷ one_of_names assurance_levels (get "assurance" d)
    ∷ unless (present_and is_string_list (get "reads" d))
    ∷ unless (present_and is_string_list (get "writes" d))
    ∷ unless (present_and is_authority (get "authority" d))
    ∷ unless (absent_or (is_list_of _validate_predicate) (get "preconditions" d))
    ∷ unless (absent_or (is_list_of is_requirement) (get "evidence" d))
    ∷ elim (get "policy" d) [ none ↦ some action_contract_error | some p ↦ policy_fault p ]
    ∷ elim (get "approval" d) [
      | none ↦ unless (not (asks_for_approval d))
      | some a ↦ unless (is_approval (asks_for_approval d) a)
    ]
    ∷ unless (present_and is_postcondition (get "postcondition" d))
    ∷ unless (present_and is_compensation (get "compensation" d))
    ∷ []

unfoldable pub contract_fault : Entries → Option Fault
unfolding first_fault
contract_fault d = first_fault (contract_checks d)
