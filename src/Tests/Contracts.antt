-- ===== src/Tests/Contracts.antt =====
-- The theorems on contracts at one file with the contract of an action.
use entigram.Base.{true, false, ◌≡◌, refl, Option, none, some, is_blank, strip, strip_text, arith}
use entigram.Base.Json.{
  Json, boolean, number, string, array, object, nil, cons, Entries, empty, entry, get, get_text,
  json_eq,
}
use entigram.Admission.{Contract, Collaborators, validate_request, is_identifier}
use entigram.Admission.Authority.{validate_authority, validate_agent_identity}
use entigram.Admission.Facts.{validate_preconditions, validate_evidence, segments}
use entigram.Admission.Approvals.{validate_approvals}
use entigram.Admission.Engine.{validate}
use entigram.Admission.Contracts.{
  Validation, valid, raised, type_error, action_contract_error, contract_fault, is_authority,
  _validate_predicate, policy_fault, is_approval, is_postcondition, is_compensation,
}
use entigram.Admission.Contracts.Loading.{
  get_contract, _validate_contract, contract_of, load_contracts, load_actions, find_contract,
}
use entigram.Admission.Contracts.Admitted.{Reads, IsFounded, validate-IsFounded}
use entigram.Admission.Contracts.Parts.{IsWellFormed}
use entigram.Admission.Contracts.Laws.{get_contract-IsWellFormed}
use entigram.Tests.Actions.{local, request, now}

abbrev authority : Json
authority = object (
    entry "scopes" (array (cons (string " repo.write ") nil))
      (entry "agents" (array (cons (string "builder") nil)) empty))

abbrev approval : Json
approval = object (
    entry "required" (boolean true)
      (entry "roles" (array (cons (string "release_manager") nil)) empty))

abbrev clean : Json
clean = object (entry "path" (string "repo.clean") (entry "equals" (boolean true) empty))

-- an action of the given assurance
abbrev action : Json → Entries
action assurance = entry "version" (number false 1) (
    entry "assurance" assurance (
      entry "reads" (array nil) (
        entry "writes" (array nil) (
          entry "authority" authority (
            entry "policy" (object (entry "decision" (string "approval_required") empty)) (
              entry "approval" approval (
                entry "preconditions" (array (cons clean nil)) (
                  entry "postcondition" clean (
                    entry "compensation" (object (entry "not_reversible" (boolean true) empty))
                      empty)))))))))

abbrev document : Option Json
document = some (
    object (
      entry "actions" (object (entry "release" (object (action (string "enforced"))) empty)) empty))

abbrev release : Contract
release = contract_of (action (string "enforced"))

release-on_file : get_contract "release" document ≡ valid release
unfolding get_contract load_contracts find_contract load_actions _validate_contract contract_fault
    is_identifier is_blank is_authority _validate_predicate policy_fault is_approval
    is_postcondition is_compensation get
release-on_file = refl

get_contract-IsWellFormed_example : IsWellFormed release
get_contract-IsWellFormed_example =
    get_contract-IsWellFormed "release" document release release-on_file

-- A list of levels is no error of the contract but a `TypeError`.
listed-type_error :
    _validate_contract (object (action (array (cons (string "enforced") nil)))) ≡ raised type_error
unfolding _validate_contract contract_fault is_blank get
listed-type_error = refl

unknown-refused :
    _validate_contract (object (action (string "trusted"))) ≡ raised action_contract_error
unfolding _validate_contract contract_fault is_blank get
unknown-refused = refl

abbrev taken : Validation → Option Contract
taken (valid contract) = some contract
taken (raised fault) = none

-- the engine that takes its contracts from the file
abbrev on_file : Collaborators
on_file = record local { get_contract = λ name. taken (get_contract name document) }

taken-valid : (v : Validation) (contract : Contract) → taken v ≡ some contract → v ≡ valid contract
taken-valid (valid c) contract e = cc
taken-valid (raised fault) contract e = absurd (ground arith)

on_file-Reads : Reads on_file document
on_file-Reads name contract e = taken-valid (get_contract name document) contract e

release-admitted_on_file : (validate on_file "release" request now).ok ≡ true
unfolding get_contract load_contracts find_contract load_actions _validate_contract contract_fault
    is_identifier is_blank contract_of strip_text validate validate_request validate_authority
    get_text strip validate_agent_identity validate_preconditions segments json_eq validate_evidence
    validate_approvals is_authority _validate_predicate policy_fault is_approval is_postcondition
    is_compensation
release-admitted_on_file = refl

validate-IsFounded_example : IsFounded on_file document "release" request now
validate-IsFounded_example =
    validate-IsFounded on_file document "release" request now on_file-Reads release-admitted_on_file
