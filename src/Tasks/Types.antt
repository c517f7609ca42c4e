-- ===== src/Tasks/Types.antt =====
-- The rows of the task ledger (entigram/sqlite_ledger/manager.py): agents, sessions, tasks and task
-- events. A nullable column is an `Option`; a time is a number of microseconds; a score is a number
-- of hundredths, so 1.00 is 100. Column values that the code never reads back are left out.
use entigram.Base.{ℕ, String, Bool, Option, List}

pub data Status : Type 0 where
  queued assigned claimed running needs_review completed failed cancelled dead_letter : Status

pub data Approval : Type 0 where
  not_required pending approved denied : Approval

pub data Risk : Type 0 where
  read_only low_risk medium_risk high_risk critical : Risk

pub record Agent : Type 0 where
  pub agent_id : String
  pub reliability_score : ℕ
  pub capability_scores : List (String × ℕ)
  pub allowed_task_classes : List String
  pub restricted_task_classes : List String

pub record Session : Type 0 where
  pub session_id : String
  pub agent_id : String
  pub workspace_id : String
  pub last_seen_at : ℕ

-- the fields of a task that its requester fixes, and that an approval signs
pub record TaskRequest : Type 0 where
  pub task_id : String
  pub entity_id : String
  pub workspace_id : String
  pub requested_by : String
  pub idempotency_key : Option String
  pub title : String
  pub task_type : String
  pub risk_level : Risk
  pub required_score : ℕ
  pub details : String
  pub action_contract_ref : Option String

pub record Task : Type 0 where
  pub request : TaskRequest
  pub open request use *
  pub status : Status
  pub approval_status : Approval
  pub assigned_agent_id : Option String
  pub assignment_rationale : Option String
  pub claimed_by : Option String
  pub claimed_session_id : Option String
  pub offered_session_id : Option String
  pub lease_expires_at : Option ℕ
  pub last_heartbeat_at : Option ℕ
  pub attempt_count : ℕ
  pub last_error : Option String
  pub result_summary : Option String
  pub result_output : Option String

pub data EventType : Type 0 where
  requested assigned claimed heartbeat lease_expired offer_expired handed_off needs_review :
      EventType
  approved dismissed completed failed : EventType

-- The metadata is kept where the code reads it back: the assertion of an approval.
pub record TaskEvent : Type 0 where
  pub task_id : String
  pub event_type : EventType
  pub actor_id : String
  pub summary : String
  pub assertion : Option String

-- `agents` stands in the order of the last update, `tasks` in that of creation, the newest first;
-- `events` in that of insertion. `conflicts` holds the ids that were reported.
pub record Ledger : Type 0 where
  pub agents : List Agent
  pub sessions : List Session
  pub tasks : List Task
  pub events : List TaskEvent
  pub conflicts : List (String × String)

pub data Reason : Type 0 where
  task_request_fields_required invalid_approval_status task_approval_must_be_recorded : Reason
  task_request_conflict session_fields_required agent_not_registered : Reason
  session_identity_conflict handoff_summary_required handoff_participant_not_found : Reason
  handoff_agent_mismatch handoff_workspace_mismatch handoff_target_offline : Reason
  handoff_target_is_source handoff_source_lease_expired handoff_source_not_owner : Reason
  task_approval_required task_approval_invalid invalid_lease_seconds task_not_found : Reason
  session_not_registered_for_task session_offline task_offered_to_other_session : Reason
  task_assigned_to_other_agent task_not_claimable task_heartbeat_rejected : Reason
  task_review_rejected task_approval_rejected task_dismiss_rejected task_summary_required : Reason
  task_finish_rejected task_not_assignable task_approval_trust_unavailable : Reason
  task_approval_evidence_missing task_approval_signature_invalid : Reason
  task_approver_not_authorized task_approval_assertion_mismatch : Reason
  assignment_allowed task_class_restricted task_class_not_allowed capability_score_too_low : Reason

-- what `evaluate_agent_assignment` returns
pub record Decision : Type 0 where
  pub ok : Bool
  pub reason : Reason
  pub serious_conflict : Bool
  pub rationale : String

-- What a call returns: a refusal by its reason, a task, a decision on an assignment, the session, or
-- a `ValueError`, which leaves the method.
pub data Reply : Type 0 where
  refused : Reason → Reply
  done : Option Task → Reply
  created : Bool → Option Task → Reply
  decided : Decision → Reply
  registered : Reply
  recovered : List Task → Reply
  accepted : Bool → Reply
  value_error : Reply
