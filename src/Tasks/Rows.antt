-- ===== src/Tasks/Rows.antt =====
-- The SQL statements of the task ledger: selection, conditional update with its row count, insertion.
pub mod Laws
use Prim.Native.Nat.{suc}
use entigram.Base.{
  ℕ, String, Bool, true, false, ◌==◌, ltb, eqb, if◌then◌else◌, Option, none, some, List, [], ◌∷◌,
  ◌++◌,
}
use entigram.Tasks.Types.{
  Status, Approval, Risk, Agent, Session, Task, EventType, TaskEvent, Ledger, Reason, Reply,
  refused, done,
}

unfoldable pub find_task : String → List Task → Option Task
find_task id [] = none
find_task id (t ∷ ts) = if t.task_id == id then some t else find_task id ts

-- `get_agent_tasks(task_id=…, limit=1)`: the empty text is no condition, and the newest row comes first
unfoldable pub get_agent_task : String → Ledger → Option Task
unfolding find_task
get_agent_task id l =
    if id == "" then elim l.tasks [ [] ↦ none | t ∷ _ ↦ some t ] else find_task id l.tasks

unfoldable pub find_agent : String → List Agent → Option Agent
find_agent id [] = none
find_agent id (a ∷ as') = if a.agent_id == id then some a else find_agent id as'

-- `ORDER BY reliability_score DESC, updated_at DESC`
top_agent : List Agent → Option Agent
top_agent [] = none
top_agent (a ∷ as') = elim (top_agent as') [
  | none ↦ some a
  | some b ↦ if ltb a.reliability_score b.reliability_score then some b else some a
]

unfoldable pub get_agent : String → Ledger → Option Agent
unfolding find_agent top_agent
get_agent id l = if id == "" then top_agent l.agents else find_agent id l.agents

unfoldable pub get_agent_session : String → List Session → Option Session
get_agent_session id [] = none
get_agent_session id (s ∷ ss) = if s.session_id == id then some s else get_agent_session id ss

-- `UPDATE agent_tasks SET … WHERE …`
unfoldable pub update_where : (Task → Bool) → (Task → Task) → List Task → List Task
update_where test set [] = []
update_where test set (t ∷ ts) = (if test t then set t else t) ∷ update_where test set ts

-- its `rowcount`
unfoldable pub count_where : (Task → Bool) → List Task → ℕ
count_where test [] = 0
count_where test (t ∷ ts) = let n = count_where test ts in if test t then suc n else n

abbrev pub event : String → EventType → String → String → TaskEvent
event id kind actor summary = record {
  task_id = id;
  event_type = kind;
  actor_id = actor;
  summary = summary;
  assertion = none;
}

-- A conditional update, refused if it did not change one row, with the event that it records.
unfoldable pub transact :
    String → (Task → Bool) → (Task → Task) → Reason → TaskEvent → Ledger → Reply × Ledger
unfolding update_where count_where
transact id test set reason e l =
    let updated = record l { tasks = update_where test set l.tasks } in
    if eqb (count_where test l.tasks) 1
    then (let l' = record updated { events = l.events ++ (e ∷ []) } in
        (done (get_agent_task id l'), l'))
    else (refused reason, updated)

abbrev pub is_leased : Status → Bool
is_leased Status.claimed = true
is_leased Status.running = true
is_leased _ = false

-- `status IN ('Completed', 'Cancelled', 'DeadLetter')`
abbrev pub is_terminal : Status → Bool
is_terminal Status.completed = true
is_terminal Status.cancelled = true
is_terminal Status.dead_letter = true
is_terminal _ = false

abbrev pub is_queued : Status → Bool
is_queued Status.queued = true
is_queued _ = false

abbrev pub is_assigned : Status → Bool
is_assigned Status.assigned = true
is_assigned _ = false

abbrev pub is_needs_review : Status → Bool
is_needs_review Status.needs_review = true
is_needs_review _ = false

abbrev pub is_approved : Approval → Bool
is_approved Approval.approved = true
is_approved _ = false

abbrev pub is_pending : Approval → Bool
is_pending Approval.pending = true
is_pending _ = false

-- `approval_status IN ('NotRequired', 'Approved')`
abbrev pub is_cleared : Approval → Bool
is_cleared Approval.not_required = true
is_cleared Approval.approved = true
is_cleared _ = false

-- `risk_level in {"high_risk", "critical"}`
abbrev pub is_high : Risk → Bool
is_high Risk.high_risk = true
is_high Risk.critical = true
is_high _ = false
