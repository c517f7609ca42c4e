-- ===== src/Tests/Actions.antt =====
-- The theorems on admission at one action with its grant, its evidence and its approval.
use entigram.Base.{
  ℕ, String, true, false, ◌≡◌, ◌↔◌, refl, Option, none, some, List, [], ◌∷◌, All, all, ◌==◌,
  is_blank, strip, if◌then◌else◌,
}
use entigram.Base.Json.{
  Json, null, boolean, string, array, object, nil, cons, Entries, empty, entry, get_text, json_eq,
}
use entigram.Admission.{
  Policy, Contract, Evidence, Request, Collaborators, Observed, validate_request,
}
use entigram.Admission.Authority.{validate_authority, validate_agent_identity}
use entigram.Admission.Authority.Laws.{IsAuthorized, validate_authority_iff}
use entigram.Admission.Facts.{validate_preconditions, validate_evidence, is_satisfied, segments}
use entigram.Admission.Facts.Laws.{IsSupported, Unrepeated, validate_evidence_iff}
use entigram.Admission.Approvals.{is_approved, validate_approvals, check_approval, check_claims}
use entigram.Admission.Engine.{validate, decision_event, EventOutcome}
use entigram.Admission.Engine.Laws.{IsAdmissible, validate-ok_iff}
use entigram.Decisions.{DecisionLedger, history, revoke_action_grant, is_action_grant_revoked}
use entigram.Decisions.Guards.{consumed_checker, validate-revoked}
use entigram.Admission.Engine.Reasons.{decision_event-permits_iff}

abbrev contract : Contract
contract = record {
  scopes = "repo.write" ∷ [];
  principals = [];
  agents = "builder" ∷ [];
  audience = none;
  preconditions = record { path = "repo.clean"; equals = some (boolean true); one_of = none } ∷ [];
  evidence =
      record {
        id = "tests";
        freshness_seconds = some 600;
        verified = false;
        issuer_roles = [];
        source_kinds = [];
      }
      ∷ [];
  policy = Policy.approval_required;
  needs_approval = true;
  approval_roles = "release_manager" ∷ [];
}

abbrev tests : Evidence
tests = record {
  id = "tests";
  sha256 = "0123456789abcdef0123456789abcdef0123456789abcdef0123456789abcdef";
  observed_at = string "2026-01-01T00:00:00Z";
  verified = none;
  attestation = null;
}

abbrev pub request : Request
request = record {
  request_id = "request-1";
  principal = "alice";
  agent_id = "builder";
  target = some (string "repo");
  context = object (entry "repo" (object (entry "clean" (boolean true) empty)) empty);
  evidence = tests ∷ [];
  authority = string "grant";
  approvals = string "approval" ∷ [];
  agent_attestation = null;
}

abbrev grant : Entries
grant = entry "grant_id" (string "grant-1") (
    entry "principal" (string "alice") (
      entry "agent_id" (string "builder") (
        entry "scopes" (array (cons (string "repo.write") nil))
          (entry "expires_at" (string "later") empty))))

abbrev approval : Entries
approval = entry "role" (string "release_manager") (
    entry "action_name" (string "release") (
      entry "request_id" (string "request-1") (
        entry "action_digest" (string "digest-r") (
          entry "evidence_digest" (string "digest-e")
            (entry "expires_at" (string "later") empty)))))

abbrev verified : Json → String → Option Entries
verified (string s) kind = elim (s == "grant") [
  | true ↦ some grant
  | false ↦ elim (s == "approval") [ true ↦ some approval | false ↦ none ]
]
verified _ kind = none

abbrev times : Json → Option ℕ
times (string s) = some (if s == "later" then 2000000000 else 900000000)
times _ = none

-- a workspace without a trust registry, whose clock stands at 1000 seconds
abbrev pub local : Collaborators
local = record {
  project = false;
  verify = verified;
  signer_has_role = λ signer role. false;
  revoked_in_project = λ id. false;
  verify_agent_attestation = λ a n r d now. none;
  revocation_checker = some (λ id. id == "grant-0");
  attestation_consumed_checker = none;
  parse_timestamp = times;
  isoformat = λ t. "2026-01-01T00:00:00Z";
  get_contract = λ name. some contract;
  request_digest = λ name r. "digest-r";
  evidence_digest = λ r. "digest-e";
  intact = true;
}

abbrev pub now : ℕ
now = 1000000000

abbrev observed : List Observed
observed = record { item = tests; time = 900000000 } ∷ []

validate-ok_iff_example :
    ((validate local "release" request now).ok ≡ true) ↔ IsAdmissible local "release" request now
validate-ok_iff_example = validate-ok_iff local "release" request now

validate_authority_iff_example :
    (validate_authority local contract request now ≡ none) ↔ IsAuthorized local contract request now
validate_authority_iff_example = validate_authority_iff local contract request now

validate_evidence_iff_example :
    (all is_satisfied (validate_evidence local contract now observed) ≡ true)
    ↔ Unrepeated observed × All (IsSupported local now observed) contract.evidence
validate_evidence_iff_example = validate_evidence_iff local contract now observed

approval-given : is_approved local "release" contract request now ≡ true
unfolding validate_approvals check_approval check_claims get_text
approval-given = refl

decision_event-permits_iff_example :
    let e = decision_event (validate local "release" request now) in
    (e.outcome ≡ EventOutcome.permit) ↔ (e.reason_codes ≡ [])
decision_event-permits_iff_example = decision_event-permits_iff local "release" request now

-- the request is admitted as it stands
release-admitted : (validate local "release" request now).ok ≡ true
unfolding validate validate_request validate_authority get_text is_blank strip
    validate_agent_identity validate_preconditions segments json_eq validate_evidence
    validate_approvals
release-admitted = refl

abbrev empty_record : DecisionLedger
empty_record = record { decisions = []; consumptions = []; revocations = [] }

abbrev after_revocation : DecisionLedger
after_revocation = (revoke_action_grant "grant-1" "chief" "left the project" empty_record).1

abbrev revoking : Collaborators
revoking = record local {
  revocation_checker = some (λ g. is_action_grant_revoked g (history [] after_revocation));
}

grant-1_revoked :
    (revoke_action_grant "grant-1" "chief" "left the project" empty_record).0 ≡ some true
unfolding revoke_action_grant
grant-1_revoked = refl

validate-revoked_example : (validate revoking "release" request now).ok ≡ false
unfolding get_text
validate-revoked_example =
    validate-revoked revoking "release" request now grant "grant-1" "chief" "left the project" []
      empty_record refl refl refl grant-1_revoked refl

abbrev attested : Entries
attested =
    entry "_agent_id" (string "builder")
      (entry "attestation_id" (string "attestation-1") (entry "nonce" (string "nonce-1") empty))

abbrev consumed : DecisionLedger
consumed = record empty_record {
  consumptions =
      record {
        agent_id = "builder";
        attestation_id = "attestation-0";
        nonce = "nonce-1";
        request_digest = "digest-0";
        decision_id = "d0";
      }
      ∷ [];
}

abbrev shared : Collaborators
shared = record local {
  project = true;
  verify_agent_attestation = λ a n r d t. some attested;
  attestation_consumed_checker = some (consumed_checker consumed);
}
