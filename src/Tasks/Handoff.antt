-- ===== src/Tasks/Handoff.antt =====
-- Leases that change hands: `handoff_agent_task` and `recover_expired_agent_tasks`.
use entigram.Base.{
  ℕ, String, Bool, true, false, not, ◌==◌, ◌&&◌, ◌||◌, if◌then◌else◌, ltb, leb, holds, is_some,
  Option, none, some, List, [], ◌∷◌, ◌++◌, map, codes, is_blank, length, any, keep,
}
use entigram.Tasks.Types.{
  Status, Session, Task, TaskEvent, EventType, Ledger, Reply, refused, decided, recovered,
  handoff_summary_required, handoff_participant_not_found, handoff_agent_mismatch,
  handoff_workspace_mismatch, handoff_target_offline, handoff_target_is_source,
  handoff_source_lease_expired, handoff_source_not_owner, agent_not_registered,
  task_approval_required, task_approval_invalid,
}
use entigram.Tasks.Rows.{
  get_agent_task, get_agent, get_agent_session, transact, event, update_where, is_assigned,
  is_leased, is_approved, is_cleared,
}
use entigram.Tasks.Gate.{evaluate_agent_assignment}
use entigram.Tasks.Approval.{Trust, verify_task_approval}
use entigram.Tasks.Lease.{offline}

-- the lease is missing or no later than `now`
abbrev pub lease_over : Task → ℕ → Bool
lease_over t now = elim t.lease_expires_at [ none ↦ true | some e ↦ leb e now ]

module _ (trust : Trust) where
  abbrev invalid_approval : Task → List TaskEvent → Bool
  invalid_approval task events =
      is_approved task.approval_status && is_some (verify_task_approval trust task events)

  handoff_gate : Task → String → Ledger → Option Reply
  handoff_gate task to_agent l = elim (get_agent to_agent l) [
    | none ↦ some (refused agent_not_registered)
    | some agent ↦
        let d = evaluate_agent_assignment agent task in
        if not d.ok
        then some (decided d)
        else if not (is_cleared task.approval_status)
        then some (refused task_approval_required)
        else if invalid_approval task l.events
        then some (refused task_approval_invalid)
        else none
  ]

  handoff_faults : Task → Session → Session → String → String → ℕ → Ledger → Option Reply
  unfolding handoff_gate
  handoff_faults task source target from_agent to_agent now l =
      if not (source.agent_id == from_agent && target.agent_id == to_agent)
      then some (refused handoff_agent_mismatch)
      else if not
          (source.workspace_id == task.workspace_id && target.workspace_id == task.workspace_id)
      then some (refused handoff_workspace_mismatch)
      else if offline target now
      then some (refused handoff_target_offline)
      else if target.session_id == source.session_id
      then some (refused handoff_target_is_source)
      else if lease_over task now
      then some (refused handoff_source_lease_expired)
      else handoff_gate task to_agent l

  unfoldable pub handoff_check :
      String → String → String → String → String → String → ℕ → Ledger → Option Reply
  unfolding handoff_faults
  handoff_check id from_agent from_session to_agent to_session summary now l =
      if is_blank (codes summary) || ltb 4000 (length (codes summary))
      then some (refused handoff_summary_required)
      else elim (get_agent_task id l) [
        | none ↦ some (refused handoff_participant_not_found)
        | some task ↦ elim (get_agent_session from_session l.sessions) [
          | none ↦ some (refused handoff_participant_not_found)
          | some source ↦ elim (get_agent_session to_session l.sessions) [
            | none ↦ some (refused handoff_participant_not_found)
            | some target ↦ handoff_faults task source target from_agent to_agent now l
          ]
        ]
      ]

abbrev pub handed_over : String → String → Task → Task
handed_over to_agent to_session t = record t {
  status = Status.assigned;
  assigned_agent_id = some to_agent;
  claimed_by = none;
  claimed_session_id = none;
  offered_session_id = some to_session;
  lease_expires_at = none;
  last_heartbeat_at = none;
}

abbrev pub held_in : String → String → String → Task → Bool
held_in id agent_id session t =
    t.task_id == id
    && (holds t.claimed_by agent_id && (holds t.claimed_session_id session && is_leased t.status))

unfoldable pub handoff_commit :
    String → String → String → String → String → String → Ledger → Reply × Ledger
handoff_commit id from_agent from_session to_agent to_session summary l =
    transact id (held_in id from_agent from_session) (handed_over to_agent to_session)
      handoff_source_not_owner (event id EventType.handed_off from_agent summary) l

module _ (trust : Trust) where
  unfoldable pub handoff_agent_task :
      String → String → String → String → String → String → ℕ → Ledger → Reply × Ledger
  handoff_agent_task id from_agent from_session to_agent to_session summary now l =
      elim (handoff_check trust id from_agent from_session to_agent to_session summary now l) [
        | some reply ↦ (reply, l)
        | none ↦ handoff_commit id from_agent from_session to_agent to_session summary l
      ]

-- `status IN ('Claimed', 'Running') AND lease_expires_at < now`
abbrev pub lease_expired : ℕ → Task → Bool
lease_expired now t =
    is_leased t.status && elim t.lease_expires_at [ none ↦ false | some e ↦ ltb e now ]

abbrev pub requeued : Task → Task
requeued t = record t {
  status = Status.queued;
  claimed_by = none;
  claimed_session_id = none;
  offered_session_id = none;
  lease_expires_at = none;
  last_error = some "Agent lease expired; resume from recorded checkpoints.";
}

-- a session that was seen in the last two minutes
abbrev pub is_present : ℕ → List Session → String → Bool
is_present now sessions id = any (λ s. s.session_id == id && not (offline s now)) sessions

-- `status = 'Assigned'`, offered to a session that is not there any more
abbrev pub stale_offer : ℕ → List Session → Task → Bool
stale_offer now sessions t =
    is_assigned t.status
    && elim t.offered_session_id [ none ↦ false | some id ↦ not (is_present now sessions id) ]

abbrev pub offer_withdrawn : Task → Task
offer_withdrawn t = record t {
  status = Status.queued;
  assigned_agent_id = none;
  offered_session_id = none;
}

abbrev actor_of : Option String → String
actor_of none = "Entigram"
actor_of (some a) = if a == "" then "Entigram" else a

expiry_event : Task → TaskEvent
expiry_event t =
    event t.task_id EventType.lease_expired (actor_of t.claimed_by)
      "Agent connection ended; work is ready to resume from its last checkpoint."

withdrawal_event : Task → TaskEvent
withdrawal_event t =
    event t.task_id EventType.offer_expired "Entigram"
      "Receiving session disconnected; handoff is ready to be reassigned."

-- `[task for id in ids if (task := get_agent_task(id))]`
found_tasks : List String → Ledger → List Task
found_tasks [] l = []
found_tasks (id ∷ ids) l =
    let rest = found_tasks ids l in elim (get_agent_task id l) [ none ↦ rest | some t ↦ t ∷ rest ]

-- Rows are updated by id, one after the other, and ids are unique: so each loop is one update.
unfoldable pub recover_expired_agent_tasks : ℕ → Ledger → Reply × Ledger
unfolding found_tasks expiry_event withdrawal_event
recover_expired_agent_tasks now l =
    let expired = keep (lease_expired now) l.tasks in
    let requeued_tasks = update_where (lease_expired now) requeued l.tasks in
    let stale = keep (stale_offer now l.sessions) requeued_tasks in
    let l' = record l {
      tasks = update_where (stale_offer now l.sessions) offer_withdrawn requeued_tasks;
      events = l.events ++ (map expiry_event expired ++ map withdrawal_event stale);
    } in
    (recovered (found_tasks (map (λ t. t.task_id) expired ++ map (λ t. t.task_id) stale) l'), l')
