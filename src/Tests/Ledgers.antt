-- ===== src/Tests/Ledgers.antt =====
-- Test data for the task ledger: two agents, a session, and a task in several states.
use entigram.Base.{true, false, ◌==◌, none, some, [], ◌∷◌}
use entigram.Tasks.Types.{Status, Approval, Risk, Agent, Session, TaskRequest, Task, Ledger}
use entigram.Tasks.Queue.{NewRequest, new_task}
use entigram.Tasks.Approval.{verified, unverified, Trust, Registry, Claims}

abbrev pub builder : Agent
builder = record {
  agent_id = "builder";
  reliability_score = 95;
  capability_scores = ("patch", 90) ∷ [];
  allowed_task_classes = [];
  restricted_task_classes = [];
}

abbrev pub reviewer : Agent
reviewer = record {
  agent_id = "reviewer";
  reliability_score = 60;
  capability_scores = [];
  allowed_task_classes = [];
  restricted_task_classes = "patch" ∷ [];
}

abbrev pub desk : Session
desk = record {
  session_id = "desk";
  agent_id = "builder";
  workspace_id = "main";
  last_seen_at = 1000000000;
}

abbrev pub bench : Session
bench = record {
  session_id = "bench";
  agent_id = "builder";
  workspace_id = "main";
  last_seen_at = 1000000000;
}

abbrev pub patch_request : Risk → TaskRequest
patch_request risk = record {
  task_id = "task-1";
  entity_id = "repo";
  workspace_id = "main";
  requested_by = "operator";
  idempotency_key = some "key-1";
  title = "Patch the parser";
  task_type = "patch";
  risk_level = risk;
  required_score = 85;
  details = "";
  action_contract_ref = none;
}

abbrev pub queued_task : Risk → Approval → Task
queued_task risk approval = new_task (patch_request risk) Status.queued approval none

abbrev pub leased_task : Task
leased_task = record (queued_task Risk.low_risk Approval.not_required) {
  status = Status.claimed;
  claimed_by = some "builder";
  claimed_session_id = some "desk";
  lease_expires_at = some 1300000000;
  last_heartbeat_at = some 1000000000;
  attempt_count = 1;
}

abbrev pub ledger_of : Task → Ledger
ledger_of t = record {
  agents = builder ∷ reviewer ∷ [];
  sessions = desk ∷ bench ∷ [];
  tasks = t ∷ [];
  events = [];
  conflicts = [];
}

abbrev pub new_request : NewRequest
new_request = record {
  task_id = "task-2";
  title = "Write the notes";
  task_type = "docs";
  entity_id = "repo";
  workspace_id = "main";
  requested_by = "operator";
  idempotency_key = "key-2";
  risk_level = "low_risk";
  required_score = none;
  details = "";
  target_agent_id = none;
  approval_status = some Approval.not_required;
  action_contract_ref = none;
}

-- a registry that knows one signed assertion, for the note "looks good" on `task-1`
abbrev pub known_claims : Claims
known_claims = record {
  signer_id = some "chief";
  task_id = some "task-1";
  task_digest = some "digest-of-task-1";
  summary_digest = some "digest-of-note";
  approval_id = some "approval-1";
}

abbrev pub registry : Registry
registry = record {
  verify = λ assertion. elim (assertion == "signed") [
    | true ↦ verified known_claims
    | false ↦ unverified
  ];
  signer_has_role = λ signer role. some (signer == "chief");
}

abbrev pub trust : Trust
trust = record {
  registry = some registry;
  request_digest = λ r. "digest-of-task-1";
  text_digest = λ s. "digest-of-note";
}
