-- ===== src/Tasks/Lease.antt =====
-- Leases: `claim_agent_task`, `heartbeat_agent_task`, `complete_agent_task` and `fail_agent_task`
-- (`_finish_agent_task`). Each call reads the clock once, as `now`.
use entigram.Base.{
  zero, ℕ, String, Bool, false, not, suc, ◌+◌, ◌*◌, ◌==◌, ◌&&◌, ◌||◌, if◌then◌else◌, ltb, holds,
  sql_eq, is_none, Option, none, some, codes, is_blank,
}
use entigram.Tasks.Types.{
  Status, Agent, Session, Task, EventType, Ledger, Reason, Reply, refused, decided,
  invalid_lease_seconds, task_not_found, agent_not_registered, session_not_registered_for_task,
  session_offline, task_offered_to_other_session, task_approval_required,
  task_assigned_to_other_agent, task_not_claimable, task_heartbeat_rejected, task_summary_required,
  task_finish_rejected, task_approval_trust_unavailable,
}
use entigram.Tasks.Rows.{
  get_agent_task, get_agent, get_agent_session, transact, event, is_queued, is_assigned, is_leased,
  is_approved, is_cleared, is_high,
}
use entigram.Tasks.Gate.{evaluate_agent_assignment}
use entigram.Tasks.Approval.{Trust, verify_task_approval}

-- `timedelta(seconds=…)` and `timedelta(minutes=2)`
abbrev pub seconds : ℕ → ℕ
seconds n = n * 1000000

abbrev pub presence : ℕ
presence = seconds 120

abbrev pub lease_refused : ℕ → Bool
lease_refused lease = ltb lease 30 || ltb 3600 lease

-- `last_seen_at < now - timedelta(minutes=2)`
abbrev pub offline : Session → ℕ → Bool
offline s now = ltb (s.last_seen_at + presence) now

-- the session that a claim names, if it names one (the empty text does not)
unfoldable pub session_fault : Option String → String → Task → ℕ → Ledger → Option Reason
session_fault none agent_id task now l = none
session_fault (some id) agent_id task now l =
    if id == "" then none else elim (get_agent_session id l.sessions) [
      | none ↦ some session_not_registered_for_task
      | some s ↦
          if not (s.agent_id == agent_id && s.workspace_id == task.workspace_id)
          then some session_not_registered_for_task
          else if offline s now
          then some session_offline
          else none
    ]

-- `a is not falsy and a != b`, for a nullable column and an optional argument
abbrev pub reserved_for_other : Option String → Option String → Bool
reserved_for_other none b = false
reserved_for_other (some a) b = not (a == "") && not (holds b a)

abbrev pub refuse_first : Option Reason → Option Reply → Option Reply
refuse_first none rest = rest
refuse_first (some reason) rest = some (refused reason)

module _ (trust : Trust) where
  -- the approval that a claim or a handoff needs
  unfoldable pub approval_fault : Task → Ledger → Option Reason
  approval_fault task l =
      if not (is_cleared task.approval_status)
      then some task_approval_required
      else if is_approved task.approval_status
      then verify_task_approval trust task l.events
      else none

  -- the checks of a claim once the task and the agent are found
  unfoldable pub claim_faults : Task → Agent → String → Option String → ℕ → Ledger → Option Reply
  unfolding session_fault approval_fault
  claim_faults task agent agent_id session now l =
      refuse_first (session_fault session agent_id task now l) (
        if reserved_for_other task.offered_session_id session
        then some (refused task_offered_to_other_session)
        else refuse_first (approval_fault task l) (
            if reserved_for_other task.assigned_agent_id (some agent_id)
            then some (refused task_assigned_to_other_agent)
            else (let d = evaluate_agent_assignment agent task in
                if d.ok then none else some (decided d))))

  -- What the reads before the update refuse, if they refuse.
  unfoldable pub claim_check : String → String → ℕ → Option String → ℕ → Ledger → Option Reply
  unfolding claim_faults
  claim_check id agent_id lease session now l =
      if lease_refused lease
      then some (refused invalid_lease_seconds)
      else elim (get_agent_task id l) [
        | none ↦ some (refused task_not_found)
        | some task ↦ elim (get_agent agent_id l) [
          | none ↦ some (refused agent_not_registered)
          | some agent ↦ claim_faults task agent agent_id session now l
        ]
      ]

abbrev pub claimable : String → String → Option String → Task → Bool
claimable id agent_id session t =
    t.task_id == id
    && ((is_queued t.status || is_assigned t.status)
        && (is_cleared t.approval_status
            && ((is_none t.assigned_agent_id || holds t.assigned_agent_id agent_id)
                && (is_none t.offered_session_id || sql_eq t.offered_session_id session))))

abbrev pub claimed_now : String → ℕ → Option String → ℕ → Task → Task
claimed_now agent_id lease session now t = record t {
  status = Status.claimed;
  claimed_by = some agent_id;
  claimed_session_id = session;
  offered_session_id = none;
  lease_expires_at = some (now + seconds lease);
  last_heartbeat_at = some now;
  attempt_count = suc t.attempt_count;
}

-- The update, which other connections may have come before.
unfoldable pub claim_commit : String → String → ℕ → Option String → ℕ → Ledger → Reply × Ledger
claim_commit id agent_id lease session now l =
    transact id (claimable id agent_id session) (claimed_now agent_id lease session now)
      task_not_claimable (event id EventType.claimed agent_id "Task lease claimed") l

module _ (trust : Trust) where
  unfoldable pub claim_agent_task_unlocked :
      String → String → ℕ → Option String → ℕ → Ledger → Reply × Ledger
  claim_agent_task_unlocked id agent_id lease session now l =
      elim (claim_check trust id agent_id lease session now l) [
        | some reply ↦ (reply, l)
        | none ↦ claim_commit id agent_id lease session now l
      ]

  abbrev pub needs_lock : Option Task → Bool
  needs_lock none = false
  needs_lock (some t) = is_high t.risk_level

  -- The registry that the lock belongs to must be there before high-risk work is claimed.
  unfoldable pub claim_agent_task :
      String → String → ℕ → Option String → ℕ → Ledger → Reply × Ledger
  unfolding claim_agent_task_unlocked
  claim_agent_task id agent_id lease session now l =
      if needs_lock (get_agent_task id l) && is_none trust.registry
      then (refused task_approval_trust_unavailable, l)
      else claim_agent_task_unlocked id agent_id lease session now l

-- `claimed_by = ? AND status IN ('Claimed', 'Running') AND (claimed_session_id IS NULL OR …)`
abbrev pub held_by : String → String → Option String → Task → Bool
held_by id agent_id session t =
    t.task_id == id
    && (holds t.claimed_by agent_id
        && (is_leased t.status
            && (is_none t.claimed_session_id || sql_eq t.claimed_session_id session)))

abbrev pub renewed : ℕ → ℕ → Task → Task
renewed lease now t = record t {
  status = Status.running;
  lease_expires_at = some (now + seconds lease);
  last_heartbeat_at = some now;
}

unfoldable pub heartbeat_agent_task :
    String → String → ℕ → String → Option String → ℕ → Ledger → Reply × Ledger
heartbeat_agent_task id agent_id lease summary session now l =
    if lease_refused lease
    then (refused invalid_lease_seconds, l)
    else transact id (held_by id agent_id session) (renewed lease now) task_heartbeat_rejected
        (event id EventType.heartbeat agent_id
          (if summary == "" then "Task is running" else summary))
        l

abbrev pub released : Status → Task → Task
released status t = record t {
  status = status;
  claimed_by = none;
  claimed_session_id = none;
  offered_session_id = none;
  lease_expires_at = none;
}

-- The output is cut to 50000 characters: `cut` is `(result_output or "")[:50000]`.
abbrev pub finished : Status → String → String → Task → Task
finished Status.completed summary cut t = record (released Status.completed t) {
  result_summary = some summary;
  result_output = some cut;
  last_error = none;
}
finished status summary cut t = record (released status t) { last_error = some summary }

unfoldable pub finish_agent_task :
    String → String → Status → EventType → String → String → Option String → Ledger → Reply × Ledger
finish_agent_task id agent_id status kind summary cut session l =
    if is_blank (codes summary)
    then (refused task_summary_required, l)
    else transact id (held_by id agent_id session) (finished status summary cut)
        task_finish_rejected (event id kind agent_id summary) l

unfoldable pub prefix : ℕ → String → String
prefix n String.[] = ""
prefix zero s = ""
prefix (suc n) (String.◌∷◌ c s) = String.◌∷◌ c (prefix n s)

abbrev pub or_empty : Option String → String
or_empty none = ""
or_empty (some s) = s

unfoldable pub complete_agent_task :
    String → String → String → Option String → Option String → Ledger → Reply × Ledger
unfolding prefix finish_agent_task
complete_agent_task id agent_id summary output session l =
    finish_agent_task id agent_id Status.completed EventType.completed summary
      (prefix 50000 (or_empty output)) session l

unfoldable pub fail_agent_task :
    String → String → String → Bool → Option String → Ledger → Reply × Ledger
unfolding finish_agent_task
fail_agent_task id agent_id summary retryable session l =
    finish_agent_task id agent_id (if retryable then Status.queued else Status.failed)
      EventType.failed summary "" session l
