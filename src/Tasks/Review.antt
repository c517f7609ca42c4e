-- ===== src/Tasks/Review.antt =====
-- A person's part: `request_task_review`, `approve_agent_task` and `dismiss_agent_task`.
use entigram.Base.{
  String, Bool, not, ◌==◌, ◌&&◌, if◌then◌else◌, Option, none, some, codes, is_blank,
}
use entigram.Tasks.Types.{
  Status, Approval, Task, TaskEvent, EventType, Ledger, Reply, refused, task_not_found,
  task_summary_required, task_review_rejected, task_approval_rejected, task_dismiss_rejected,
}
use entigram.Tasks.Rows.{get_agent_task, transact, event, is_terminal, is_pending, is_needs_review}
use entigram.Tasks.Approval.{verified, Registry, Trust, assertion_fault}

abbrev pub open_task : String → Task → Bool
open_task id t = t.task_id == id && not (is_terminal t.status)

abbrev pub sent_to_review : String → Task → Task
sent_to_review summary t = record t {
  status = Status.needs_review;
  approval_status = Approval.pending;
  last_error = some summary;
  claimed_by = none;
  claimed_session_id = none;
  offered_session_id = none;
  lease_expires_at = none;
}

unfoldable pub request_task_review : String → String → String → Ledger → Reply × Ledger
request_task_review id actor summary l =
    transact id (open_task id) (sent_to_review summary) task_review_rejected
      (event id EventType.needs_review actor summary) l

abbrev pub approved_now : Task → Task
approved_now t = record t {
  approval_status = Approval.approved;
  status = if is_needs_review t.status then Status.queued else t.status;
  last_error = none;
}

abbrev pub awaits_approval : String → Task → Bool
awaits_approval id t =
    t.task_id == id && (is_pending t.approval_status && not (is_terminal t.status))

-- the signer of an assertion that the registry verifies
abbrev signer_of : Option Registry → String → String
signer_of none assertion = ""
signer_of (some registry) assertion = elim (registry.verify assertion) [
  | verified claims ↦ elim claims.signer_id [ none ↦ "" | some signer ↦ signer ]
  | _ ↦ ""
]

module _ (trust : Trust) where
  unfoldable pub approval_event : String → String → String → TaskEvent
  approval_event id assertion summary = record {
    task_id = id;
    event_type = EventType.approved;
    actor_id = signer_of trust.registry assertion;
    summary = summary;
    assertion = some assertion;
  }

  unfoldable pub approve_agent_task : String → String → String → Ledger → Reply × Ledger
  unfolding approval_event
  approve_agent_task id assertion summary l =
      if is_blank (codes summary)
      then (refused task_summary_required, l)
      else elim (get_agent_task id l) [
        | none ↦ (refused task_not_found, l)
        | some task ↦ elim (assertion_fault trust trust.registry task summary assertion) [
          | some reason ↦ (refused reason, l)
          | none ↦
              transact id (awaits_approval id) approved_now task_approval_rejected
                (approval_event id assertion summary) l
        ]
      ]

abbrev pub dismissed_now : String → Task → Task
dismissed_now summary t = record t {
  status = Status.cancelled;
  approval_status = Approval.denied;
  result_summary = some summary;
  last_error = none;
  claimed_by = none;
  claimed_session_id = none;
  offered_session_id = none;
  lease_expires_at = none;
}

unfoldable pub dismiss_agent_task : String → String → String → Ledger → Reply × Ledger
dismiss_agent_task id actor summary l =
    if is_blank (codes summary)
    then (refused task_summary_required, l)
    else transact id (open_task id) (dismissed_now summary) task_dismiss_rejected
        (event id EventType.dismissed actor summary) l
