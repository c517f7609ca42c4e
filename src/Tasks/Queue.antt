-- ===== src/Tasks/Queue.antt =====
-- Work enters the ledger: `register_agent_session`, `request_agent_task`, `enqueue_agent_task` and
-- `assign_agent_task`.
pub mod Laws
use Prim.Native.String.{◌++◌ as ◌<>◌}
use entigram.Base.{
  ℕ, String, Bool, true, false, not, ◌==◌, ◌&&◌, ◌||◌, if◌then◌else◌, holds, is_none, is_some,
  Option, none, some, List, [], ◌∷◌, ◌++◌, codes, is_blank, any,
}
use entigram.Tasks.Types.{
  Status, Approval, Risk, Session, TaskRequest, Task, EventType, Ledger, Decision, Reply, refused,
  created, decided, registered, accepted, value_error, agent_not_registered,
  session_fields_required, session_identity_conflict, task_request_fields_required,
  invalid_approval_status, task_approval_must_be_recorded, task_request_conflict, task_not_found,
  task_not_assignable,
}
use entigram.Tasks.Rows.{
  get_agent_task, find_task, get_agent, get_agent_session, transact, event, is_queued, is_high,
}
use entigram.Tasks.Gate.{normalize_risk_level, task_score, evaluate_agent_assignment}

unfoldable pub blank : String → Bool
blank s = is_blank (codes s)

same_identity : Session → String → String → Bool
same_identity s agent_id workspace_id = s.agent_id == agent_id && s.workspace_id == workspace_id

touch_session : String → ℕ → List Session → List Session
touch_session id now [] = []
touch_session id now (s ∷ ss) =
    (if s.session_id == id then record s { last_seen_at = now } else s) ∷ touch_session id now ss

-- the upsert, and the check of the stored identity before and after it
store_session : String → String → String → ℕ → Ledger → Reply × Ledger
unfolding same_identity touch_session
store_session id agent_id workspace_id now l = elim (get_agent_session id l.sessions) [
  | none ↦
      let s : Session = record {
        session_id = id;
        agent_id = agent_id;
        workspace_id = workspace_id;
        last_seen_at = now;
      } in
      (registered, record l { sessions = l.sessions ++ (s ∷ []) })
  | some s ↦
      if same_identity s agent_id workspace_id
      then (registered, record l { sessions = touch_session id now l.sessions })
      else (refused session_identity_conflict, l)
]

unfoldable pub register_agent_session : String → String → String → ℕ → Ledger → Reply × Ledger
unfolding store_session blank
register_agent_session id agent_id workspace_id now l =
    if blank id || blank agent_id || blank workspace_id
    then (refused session_fields_required, l)
    else if is_none (get_agent agent_id l)
    then (refused agent_not_registered, l)
    else store_session id agent_id workspace_id now l

abbrev pub new_task : TaskRequest → Status → Approval → Option String → Task
new_task request status approval target = record {
  request = request;
  status = status;
  approval_status = approval;
  assigned_agent_id = target;
  assignment_rationale = none;
  claimed_by = none;
  claimed_session_id = none;
  offered_session_id = none;
  lease_expires_at = none;
  last_heartbeat_at = none;
  attempt_count = 0;
  last_error = none;
  result_summary = none;
  result_output = none;
}

-- the arguments of `request_agent_task`; an approval status that is none of the four is `none`
pub record NewRequest : Type 0 where
  pub task_id : String
  pub title : String
  pub task_type : String
  pub entity_id : String
  pub workspace_id : String
  pub requested_by : String
  pub idempotency_key : String
  pub risk_level : String
  pub required_score : Option ℕ
  pub details : String
  pub target_agent_id : Option String
  pub approval_status : Option Approval
  pub action_contract_ref : Option String

unfoldable pub fields_missing : NewRequest → Bool
unfolding blank
fields_missing r =
    blank r.task_id
    || blank r.title
    || blank r.task_type
    || blank r.entity_id
    || blank r.workspace_id
    || blank r.requested_by
    || blank r.idempotency_key

unfoldable pub find_key : String → List Task → Option Task
find_key key [] = none
find_key key (t ∷ ts) = if holds t.idempotency_key key then some t else find_key key ts

abbrev pub requested_task : NewRequest → Risk → Approval → Task
requested_task r risk approval =
    new_task
      (record {
        task_id = r.task_id;
        entity_id = r.entity_id;
        workspace_id = r.workspace_id;
        requested_by = r.requested_by;
        idempotency_key = some r.idempotency_key;
        title = r.title;
        task_type = r.task_type;
        risk_level = risk;
        required_score = task_score risk r.required_score;
        details = r.details;
        action_contract_ref = r.action_contract_ref;
      })
      Status.queued (if is_high risk then Approval.pending else approval) r.target_agent_id

-- The insertion. The columns `task_id` and `idempotency_key` are unique.
unfoldable pub insert_request : NewRequest → Risk → Approval → Ledger → Reply × Ledger
unfolding find_key
insert_request r risk approval l = elim (find_key r.idempotency_key l.tasks) [
  | some t ↦ (created false (get_agent_task t.task_id l), l)
  | none ↦
      if is_some (find_task r.task_id l.tasks)
      then (refused task_request_conflict, l)
      else (let l' = record l {
        tasks = requested_task r risk approval ∷ l.tasks;
        events = l.events ++ (event r.task_id EventType.requested r.requested_by r.title ∷ []);
      } in
          (created true (get_agent_task r.task_id l'), l'))
]

abbrev pub asks_approved : Approval → Bool
asks_approved Approval.approved = true
asks_approved _ = false

unfoldable pub request_agent_task : NewRequest → Ledger → Reply × Ledger
unfolding insert_request fields_missing
request_agent_task r l =
    if fields_missing r then (refused task_request_fields_required, l) else elim r.approval_status [
      | none ↦ (refused invalid_approval_status, l)
      | some approval ↦ elim (normalize_risk_level r.risk_level) [
        | none ↦ (value_error, l)
        | some risk ↦
            if asks_approved approval
            then (refused task_approval_must_be_recorded, l)
            else insert_request r risk approval l
      ]
    ]

-- The columns that `enqueue_agent_task` does not name take the defaults of the table.
unfoldable pub enqueue_agent_task :
    String → String → String → String → Option ℕ → String → Status → Ledger → Reply × Ledger
enqueue_agent_task id title task_type risk_level required details status l =
    elim (normalize_risk_level risk_level) [
      | none ↦ (value_error, l)
      | some risk ↦ if is_some (find_task id l.tasks) then (accepted true, l) else (
        accepted true,
        record l {
          tasks =
              new_task
                (record {
                  task_id = id;
                  entity_id = "default";
                  workspace_id = "default";
                  requested_by = "operator";
                  idempotency_key = none;
                  title = title;
                  task_type = task_type;
                  risk_level = risk;
                  required_score = task_score risk required;
                  details = details;
                  action_contract_ref = none;
                })
                status (if is_high risk then Approval.pending else Approval.not_required) none
              ∷ l.tasks;
        },
      )
    ]

abbrev pub assigned_now : String → String → Task → Task
assigned_now agent_id rationale t = record t {
  status = Status.assigned;
  assigned_agent_id = some agent_id;
  assignment_rationale = some rationale;
}

abbrev pub assignable : String → Task → Bool
assignable id t = t.task_id == id && (is_queued t.status && is_none t.claimed_by)

-- the reply of an assignment that was written is the decision
unfoldable pub assignment_reply : Decision → Reply × Ledger → Reply × Ledger
assignment_reply d (refused reason, l) = (refused reason, l)
assignment_reply d (_, l) = (decided d, l)

-- `record_conflict` keeps one row for each conflict id
report_conflict : String → String → Ledger → Ledger
report_conflict id entity_type l =
    if any (λ c. c.0 == id) l.conflicts
    then l
    else record l { conflicts = (id, entity_type) ∷ l.conflicts }

-- a gate that does not clear; a serious conflict is reported for a person's review
unfoldable pub refuse_assignment : String → String → Decision → Ledger → Reply × Ledger
unfolding report_conflict
refuse_assignment id agent_id d l = (
  decided d,
  (if d.serious_conflict
      then report_conflict ("agent-assignment:" <> id <> ":" <> agent_id) "Entigram_Agent_Task" l
      else l),
)

unfoldable pub assign_agent_task : String → String → Ledger → Reply × Ledger
unfolding assignment_reply refuse_assignment
assign_agent_task id agent_id l = elim (get_agent_task id l) [
  | none ↦ (refused task_not_found, l)
  | some task ↦ elim (get_agent agent_id l) [
    | none ↦ (refused agent_not_registered, l)
    | some agent ↦
        if not (is_queued task.status) || is_some task.claimed_by
        then (refused task_not_assignable, l)
        else (let d = evaluate_agent_assignment agent task in
            if not d.ok
            then refuse_assignment id agent_id d l
            else assignment_reply d (
                transact id (assignable id) (assigned_now agent_id d.rationale) task_not_assignable
                  (event id EventType.assigned agent_id d.rationale) l))
  ]
]
