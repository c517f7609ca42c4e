-- ===== src/Tests/Plans.antt =====
-- The theorems on workflow plans and task envelopes at a plan of two actions and one envelope.
use entigram.Base.{String, true, false, ◌≡◌, refl, none, some, List, [], ◌∷◌, is_blank}
use entigram.Base.Json.{
  Json, string, object, array, nil, cons, Entries, empty, entry, get, get_text, json_eq,
  entry_count, entries_within, entries_eq,
}
use entigram.Plan.{
  WorkflowPlan, PlanStatus, PlanCall, ask, dispatch, released, reached, new_plan, next_proposal,
  mark_dispatched, offer, nothing, request_fingerprint, unique_ids, find_receipt, request_changed,
}
use entigram.Plan.Order.{follows, plan-follows}
use entigram.Plan.Flight.{mark-one_in_flight}
use entigram.Envelope.{
  document, Files, enveloped, accept_envelope, authorize_execution, EnvelopeCall, create, history,
  accepts, accepted_by, write, Proposal, all_texts, validate_envelope_id, is_id_tail, after_prefix,
}
use entigram.Envelope.Laws.{history-unauthorized}

abbrev action : String → String → Entries
action id name =
    entry "id" (string id) (entry "name" (string name) (entry "arguments" (object empty) empty))

abbrev proposals : List Entries
proposals = action "c1" "read_file" ∷ action "c2" "write_file" ∷ []

-- a digest that tells an empty conversation from any other
abbrev digest : List Entries → String
digest [] = "none"
digest (m ∷ ms) = "some"

abbrev plan : WorkflowPlan
plan = record {
  remaining = proposals;
  fingerprint = "none";
  awaiting = none;
  cancel_after_receipt = false;
  status = PlanStatus.ready;
  reason = none;
}

abbrev calls : List PlanCall
calls = ask [] [] ∷ dispatch (action "c1" "read_file") ∷ []

abbrev in_flight : WorkflowPlan
in_flight = record plan { awaiting = some "c1"; status = PlanStatus.awaiting_result }

plan-made : new_plan digest proposals [] ≡ some plan
unfolding new_plan request_fingerprint unique_ids get_text get
plan-made = refl

plan-follows_example : follows (released digest calls plan) proposals ≡ true
plan-follows_example = plan-follows digest proposals [] calls plan plan-made

abbrev revised : List Entries
revised = entry "role" (string "user") empty ∷ []

plan-changed : request_changed digest revised (reached digest calls plan) ≡ true
unfolding request_fingerprint reached next_proposal mark_dispatched offer get_text get entries_eq
    entry_count entries_within json_eq
plan-changed = refl

first-taken : mark_dispatched (action "c1" "read_file") plan ≡ some in_flight
unfolding mark_dispatched get_text get entries_eq entry_count entries_within json_eq
first-taken = refl

mark-one_in_flight_example :
    let other = action "c2" "write_file" in
    let r = next_proposal digest [] [] in_flight in
    (mark_dispatched other in_flight ≡ none) × (r.0 ≡ nothing) × (mark_dispatched other r.1 ≡ none)
unfolding find_receipt
mark-one_in_flight_example =
    mark-one_in_flight digest (action "c1" "read_file") (action "c2" "write_file") plan in_flight
      "c1" [] [] first-taken refl refl

abbrev texts : Json
texts = array (cons (string "src/parser.py") nil)

abbrev proposal : Proposal
proposal = record {
  proposed_entities = texts;
  invariants = texts;
  affected_paths = texts;
  validation_commands = texts;
  uncertainty_unknowns = texts;
}

abbrev envelope : Entries
envelope = entry "envelope_id" (string "task-envelope-1") (entry "status" (string "proposed") empty)

abbrev files : Files
files = ("task-envelope-1", document envelope) ∷ []

abbrev accepted : Entries
accepted = accepted_by "operator" "2026-01-01" envelope

envelope-accepted :
    accept_envelope "task-envelope-1" "operator" "2026-01-01" files
    ≡ (enveloped accepted, ("task-envelope-1", document accepted) ∷ [])
unfolding accept_envelope validate_envelope_id is_id_tail after_prefix get_text get write
envelope-accepted = refl

abbrev after_acceptance : Files
after_acceptance = ("task-envelope-1", document accepted) ∷ []

abbrev later : List EnvelopeCall
later = create "task-envelope-2" "agent" "Tidy up" proposal "2026-01-02" none ∷ []

later-authorized :
    authorize_execution "task-envelope-1" (history later after_acceptance) ≡ enveloped accepted
unfolding authorize_execution history is_blank all_texts get_text
later-authorized = refl

history-unauthorized_example :
    authorize_execution "task-envelope-1" after_acceptance ≡ enveloped accepted
unfolding accepts
history-unauthorized_example =
    history-unauthorized "task-envelope-1" later after_acceptance accepted refl later-authorized
