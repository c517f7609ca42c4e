-- ===== src/Tests/Approvals.antt =====
-- The theorems on approvals at a high-risk task with a signed approval.
use entigram.Base.{ℕ, true, ◌≡◌, refl, none, some, List, [], ◌∷◌, ◌++◌, arith, zero, suc, is_blank}
use entigram.Tasks.Types.{Approval, Risk, Task, TaskEvent, EventType, Ledger, done}
use entigram.Tasks.Rows.{
  find_task, get_agent_task, get_agent, find_agent, transact, count_where, update_where, event,
}
use entigram.Tasks.Rows.Laws.{Unique}
use entigram.Tasks.Gate.{evaluate_agent_assignment}
use entigram.Tasks.Approval.{
  verify_task_approval, get_agent_task_events, task_approval_claims, assertion_fault,
  recorded_fault,
}
use entigram.Tasks.Approval.Laws.{IsEndorsed, IsOnRecord, verify-ignores_late}
use entigram.Tasks.Lease.{
  claim_agent_task, claim_agent_task_unlocked, claim_check, claim_faults, claim_commit,
  approval_fault, session_fault,
}
use entigram.Tasks.Review.{approve_agent_task, awaits_approval}
use entigram.Tasks.Grants.{IsChecked, claim-high_risk, approve-IsEndorsed}
use entigram.Tests.Ledgers.{ledger_of, queued_task, trust}

abbrev pending_task : Task
pending_task = queued_task Risk.high_risk Approval.pending

abbrev approved_task : Task
approved_task = queued_task Risk.high_risk Approval.approved

abbrev approval : TaskEvent
approval = record {
  task_id = "task-1";
  event_type = EventType.approved;
  actor_id = "chief";
  summary = "looks good";
  assertion = some "signed";
}

abbrev approved : Ledger
approved = record (ledger_of approved_task) { events = approval ∷ [] }

approval-good : verify_task_approval trust approved_task (approval ∷ []) ≡ none
unfolding verify_task_approval recorded_fault assertion_fault task_approval_claims
    get_agent_task_events is_blank
approval-good = refl

abbrev repeated : ℕ → List TaskEvent
repeated zero = []
repeated (suc n) = event "task-1" EventType.heartbeat "builder" "Task is running" ∷ repeated n

-- a hundred heartbeats, and then the approval
verify-ignores_late_example :
    verify_task_approval trust approved_task (repeated 100 ++ (approval ∷ []))
    ≡ verify_task_approval trust approved_task (repeated 100)
verify-ignores_late_example =
    verify-ignores_late trust approved_task (repeated 100) (approval ∷ []) (omega arith)

claim-done :
    (claim_agent_task trust "task-1" "builder" 60 none 1100000000 approved).0
    ≡ done (get_agent_task "task-1" (claim_commit "task-1" "builder" 60 none 1100000000 approved).1)
unfolding claim_agent_task claim_agent_task_unlocked claim_check claim_faults claim_commit
    approval_fault session_fault evaluate_agent_assignment transact count_where update_where
    get_agent_task get_agent find_task verify_task_approval recorded_fault assertion_fault
    task_approval_claims get_agent_task_events is_blank find_agent
claim-done = refl

claim-high_risk_example :
    IsChecked trust "builder" approved approved_task
    × (approved_task.approval_status ≡ Approval.approved)
    × IsOnRecord trust approved_task approved.events
unfolding find_task get_agent_task
claim-high_risk_example =
    claim-high_risk trust "task-1" "builder" 60 none 1100000000 approved approved_task refl refl
      (ground arith) claim-done

pending-Unique : Unique (ledger_of pending_task).tasks
unfolding find_task
pending-Unique = (refl, tt)

approve-done :
    (approve_agent_task trust "task-1" "signed" "looks good" (ledger_of pending_task)).0
    ≡ done (
        get_agent_task "task-1"
          (approve_agent_task trust "task-1" "signed" "looks good" (ledger_of pending_task)).1)
unfolding approve_agent_task assertion_fault task_approval_claims transact count_where update_where
    get_agent_task find_task is_blank
approve-done = refl

approve-IsEndorsed_example :
    IsEndorsed trust pending_task "looks good" "signed"
    × ((u : Task) × (find_task "task-1" (pending_task ∷ []) ≡ some u)
        × (awaits_approval "task-1" u ≡ true))
unfolding find_task get_agent_task
approve-IsEndorsed_example =
    approve-IsEndorsed trust "task-1" "signed" "looks good" (ledger_of pending_task) pending_task
      pending-Unique refl approve-done
