-- ===== src/Tasks/Approval.antt =====
-- Signed approvals of tasks: `task_approval_claims` and `verify_task_approval`. The trust registry
-- (entigram/governance/trust.py) enters through the two methods that the ledger calls, and the
-- digests (SHA-256 over canonical JSON and over UTF-8) as functions.
pub mod Laws
use entigram.Base.{
  ℕ, String, Bool, true, false, not, ◌==◌, ◌&&◌, ◌||◌, if◌then◌else◌, holds, Option, none, some,
  List, codes, strip, is_blank, take, keep, last_where,
}
use entigram.Tasks.Types.{
  TaskRequest, Task, TaskEvent, EventType, Reason, task_approval_required,
  task_approval_evidence_missing, task_approval_signature_invalid, task_approver_not_authorized,
  task_approval_assertion_mismatch, task_approval_trust_unavailable,
}
use entigram.Tasks.Rows.{is_approved, is_high}

-- what a verified assertion claims, in texts; `none` is a missing key
pub record Claims : Type 0 where
  pub signer_id : Option String
  pub task_id : Option String
  pub task_digest : Option String
  pub summary_digest : Option String
  pub approval_id : Option String

-- What `verify` answers; `unreadable` is the `OSError` that it may raise.
pub data Verification : Type 0 where
  unverified unreadable : Verification
  verified : Claims → Verification

pub record Registry : Type 0 where
  -- `verify(assertion, "task_approval")`
  pub verify : String → Verification
  -- `none` is an error: the registry is loaded anew at the call.
  pub signer_has_role : String → String → Option Bool

-- `registry` is `none` where `_task_approval_registry` raises.
pub record Trust : Type 0 where
  pub registry : Option Registry
  pub request_digest : TaskRequest → String
  pub text_digest : List ℕ → String

-- the claims that an approval of the task must make
pub record Expected : Type 0 where
  pub task_id : String
  pub task_digest : String
  pub summary_digest : String
  pub approval_id : String

abbrev pub is_approval : TaskEvent → Bool
is_approval e = elim e.event_type [ EventType.approved ↦ true | _ ↦ false ]

-- `get_agent_task_events(task_id)`: the first hundred events of the task, in order
unfoldable pub get_agent_task_events : String → List TaskEvent → List TaskEvent
get_agent_task_events id events = take 100 (keep (λ e. e.task_id == id) events)

module _ (trust : Trust) where
  -- `none` is the `ValueError`
  unfoldable pub task_approval_claims : Task → String → Option String → Option Expected
  task_approval_claims task summary none = none
  task_approval_claims task summary (some approval_id) =
      if is_blank (codes summary) || is_blank (codes approval_id)
      then none
      else some (record {
        task_id = task.task_id;
        task_digest = trust.request_digest task.request;
        summary_digest = trust.text_digest (strip (codes summary));
        approval_id = approval_id;
      })

  abbrev matches : Claims → Expected → Bool
  matches claims e =
      holds claims.task_id e.task_id
      && holds claims.task_digest e.task_digest
      && holds claims.summary_digest e.summary_digest
      && holds claims.approval_id e.approval_id

  abbrev has_role : Registry → Option String → Option Bool
  has_role registry none = some false
  has_role registry (some signer) = registry.signer_has_role signer "task_approver"

  -- the role of the signer, then the comparison of the claims
  unfoldable pub claims_fault : Registry → Task → String → Claims → Option Reason
  unfolding task_approval_claims
  claims_fault registry task summary claims = elim (has_role registry claims.signer_id) [
    | none ↦ some task_approval_trust_unavailable
    | some false ↦ some task_approver_not_authorized
    | some true ↦ elim (task_approval_claims task summary claims.approval_id) [
      | none ↦ some task_approval_trust_unavailable
      | some e ↦ if matches claims e then none else some task_approval_assertion_mismatch
    ]
  ]

  -- The check that `verify_task_approval` and `approve_agent_task` share: the first fault of an
  -- assertion for a task and an approval note.
  unfoldable pub assertion_fault : Option Registry → Task → String → String → Option Reason
  unfolding claims_fault
  assertion_fault none task summary assertion = some task_approval_trust_unavailable
  assertion_fault (some registry) task summary assertion = elim (registry.verify assertion) [
    | unverified ↦ some task_approval_signature_invalid
    | unreadable ↦ some task_approval_trust_unavailable
    | verified claims ↦ claims_fault registry task summary claims
  ]

  unfoldable pub recorded_fault : Task → Option TaskEvent → Option Reason
  unfolding assertion_fault
  recorded_fault task none = some task_approval_evidence_missing
  recorded_fault task (some e) = elim e.assertion [
    | none ↦ some task_approval_evidence_missing
    | some assertion ↦ assertion_fault trust.registry task e.summary assertion
  ]

  -- `none` is `{"ok": True}`
  unfoldable pub verify_task_approval : Task → List TaskEvent → Option Reason
  unfolding recorded_fault get_agent_task_events
  verify_task_approval task events =
      if not (is_approved task.approval_status)
      then some task_approval_required
      else if not (is_high task.risk_level)
      then none
      else recorded_fault task (last_where is_approval (get_agent_task_events task.task_id events))
