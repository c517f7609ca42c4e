-- ===== src/Tasks/Op.antt =====
-- The calls that change the task ledger, as data, and a history of them. The clock and the trust
-- registry belong to a call, since both change between calls.
use entigram.Base.{ℕ, String, Bool, Option, List, [], ◌∷◌}
use entigram.Tasks.Types.{Status, Ledger, Reply}
use entigram.Tasks.Approval.{Trust}
use entigram.Tasks.Queue.{
  NewRequest, register_agent_session, request_agent_task, enqueue_agent_task, assign_agent_task,
}
use entigram.Tasks.Lease.{
  claim_agent_task, heartbeat_agent_task, complete_agent_task, fail_agent_task,
}
use entigram.Tasks.Handoff.{handoff_agent_task, recover_expired_agent_tasks}
use entigram.Tasks.Review.{request_task_review, approve_agent_task, dismiss_agent_task}

-- No caller gives `enqueue` a status, so its default stands.
pub data Op : Type 0 where
  register : String → String → String → ℕ → Op
  request : NewRequest → Op
  enqueue : String → String → String → String → Option ℕ → String → Op
  assign : String → String → Op
  claim : Trust → String → String → ℕ → Option String → ℕ → Op
  heartbeat : String → String → ℕ → String → Option String → ℕ → Op
  complete : String → String → String → Option String → Option String → Op
  fail : String → String → String → Bool → Option String → Op
  handoff : Trust → String → String → String → String → String → String → ℕ → Op
  recover : ℕ → Op
  review : String → String → String → Op
  approve : Trust → String → String → String → Op
  dismiss : String → String → String → Op

unfoldable pub step : Op → Ledger → Reply × Ledger
step (register s a w now) = register_agent_session s a w now
step (request r) = request_agent_task r
step (enqueue id title kind risk score details) =
    enqueue_agent_task id title kind risk score details Status.queued
step (assign id a) = assign_agent_task id a
step (claim trust id a lease session now) = claim_agent_task trust id a lease session now
step (heartbeat id a lease summary session now) =
    heartbeat_agent_task id a lease summary session now
step (complete id a summary output session) = complete_agent_task id a summary output session
step (fail id a summary retryable session) = fail_agent_task id a summary retryable session
step (handoff trust id a s b t summary now) = handoff_agent_task trust id a s b t summary now
step (recover now) = recover_expired_agent_tasks now
step (review id actor summary) = request_task_review id actor summary
step (approve trust id assertion summary) = approve_agent_task trust id assertion summary
step (dismiss id actor summary) = dismiss_agent_task id actor summary

unfoldable pub run : List Op → Ledger → Ledger
run [] l = l
run (op ∷ ops) l = run ops (step op l).1
