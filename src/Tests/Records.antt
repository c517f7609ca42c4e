-- ===== src/Tests/Records.antt =====
-- The theorems on recorded decisions, alignments and expectations at concrete records.
use entigram.Base.{ℕ, All, codes, String, true, ◌≡◌, ◌≢◌, ◌↔◌, refl, none, some, List, [], ◌∷◌}
use entigram.Admission.Engine.{Status}
use entigram.Commissioner.{DeveloperExpectation, checklist_of}
use entigram.Commissioner.Laws.{IsCommissioned, checklist_of-valid_iff}
use entigram.Decisions.{
  ActionDecision, text, row, Consumption, DecisionLedger, recorded, consumption_of,
  record_action_decision, insert_decision, revoke_action_grant, DecisionCall, revoke, history,
}
use entigram.Decisions.Laws.{record-once}
use entigram.Grounding.{Alignment, is_trusted_alignment}
use entigram.Grounding.Laws.{IsGrounded, is_trusted_iff}

abbrev nothing_recorded : DecisionLedger
nothing_recorded = record { decisions = []; consumptions = []; revocations = [] }

abbrev decision : String → ActionDecision
decision id = record {
  decision_id = id;
  request_id = "request-1";
  action_name = "release";
  status = Status.admitted;
  observed_at = "2026-01-01T00:00:00Z";
  identity_required = true;
  agent_id = text "builder";
  request_digest = text "digest-r";
  attestation = some (record { attestation_id = text "attestation-1"; nonce = text "nonce-1" });
}

abbrev consumption : String → Consumption
consumption id = record {
  agent_id = "builder";
  attestation_id = "attestation-1";
  nonce = "nonce-1";
  request_digest = "digest-r";
  decision_id = id;
}

abbrev calls : List DecisionCall
calls = revoke "grant-1" "chief" "left the project" ∷ []

grant-revoked :
    (revoke_action_grant "grant-1" "chief" "left the project" nothing_recorded).0 ≡ some true
unfolding revoke_action_grant
grant-revoked = refl

shown : (id : String) → consumption_of (decision id) ≡ row (consumption id)
unfolding consumption_of
shown id = refl

decision-recorded : (record_action_decision (decision "d1") true nothing_recorded).0 ≡ recorded
unfolding record_action_decision insert_decision consumption_of
decision-recorded = refl

record-once_example :
    let r = history calls (record_action_decision (decision "d1") true nothing_recorded).1 in
    ((record_action_decision (decision "d2") true r).0 ≢ recorded)
    × ((record_action_decision (decision "d2") true r).1 ≡ r)
record-once_example =
    record-once (decision "d1") (decision "d2") (consumption "d1") (consumption "d2") calls
      nothing_recorded refl refl (shown "d1") refl refl (shown "d2") refl decision-recorded

abbrev alignment : Alignment
alignment = record {
  lifecycle_status = some "Verified";
  status = none;
  verified = true;
  confidence = some 900000;
  evidence_type = some "human_review";
}

is_trusted_iff_example :
    ((is_trusted_alignment 800000 true alignment).allowed ≡ true) ↔ IsGrounded 800000 true alignment
is_trusted_iff_example = is_trusted_iff 800000 true alignment

abbrev jump_arc : DeveloperExpectation
jump_arc = record {
  name = "Stable Jump Arc";
  validation_check = "tests/test_gameplay.py::test_jump_arc";
  proof = none;
}

abbrev on_record : String → List (List ℕ)
on_record name = codes "tests/test_gameplay.py::test_jump_arc passed" ∷ []

checklist_of-valid_iff_example :
    ((checklist_of on_record [] [] (jump_arc ∷ [])).valid ≡ true)
    ↔ All (IsCommissioned on_record [] []) (jump_arc ∷ [])
checklist_of-valid_iff_example = checklist_of-valid_iff on_record [] [] (jump_arc ∷ [])
