-- ===== src/Tasks/Machine/Requests.antt =====
-- The calls that bring tasks in and assign them are steps: sessions, requests and assignments.
use entigram.Base.{
  if-elim, option-elim, not, ◌||◌, ℕ, String, false, ◌≡◌, refl, Option, arith, Bool-cases,
  Option-cases, inl, inr, is_some,
}
use entigram.Tasks.Types.{Decision, Status, Approval, Risk, Ledger, Reply}
use entigram.Tasks.Gate.{normalize_risk_level, evaluate_agent_assignment}
use entigram.Tasks.Rows.{get_agent, get_agent_task, is_queued, find_task}
use entigram.Tasks.Queue.{
  fields_missing, asks_approved, refuse_assignment, find_key, NewRequest, register_agent_session,
  request_agent_task, enqueue_agent_task, assign_agent_task, requested_task, assignable,
  assigned_now, assignment_reply, insert_request,
}
use entigram.Tasks.Machine.{Moves, IsNew, Steps}
use entigram.Tasks.Machine.Updates.{same, transact-Steps, IsStep}

requested_task-IsNew :
    (r : NewRequest) (risk : Risk) (a : Approval)
    → asks_approved a ≡ false
    → IsNew (requested_task r risk a)
requested_task-IsNew r risk a h = ground arith

pub register-Steps :
    (s a w : String) (now : ℕ) (l : Ledger) → (register_agent_session s a w now l).1.tasks ≡ l.tasks
unfolding register_agent_session
register-Steps s a w now l = ground arith

insert_request-Steps :
    (r : NewRequest) (risk : Risk) (a : Approval) (l : Ledger)
    → asks_approved a ≡ false
    → Steps l.tasks (insert_request r risk a l).1.tasks
unfolding insert_request
insert_request-Steps r risk a l h = elim (Option-cases (find_key r.idempotency_key l.tasks)) [
  | inr (t, e) ↦ rw (e, insert_request) (same l.tasks)
  | inl e ↦
      rw (e, insert_request)
        (elim (Bool-cases (is_some (find_task r.task_id l.tasks))) [
          | inl old ↦ rw old (same l.tasks)
          | inr new ↦ rw new (
              Steps.inserted (requested_task r risk a) (requested_task-IsNew r risk a h)
                (ground arith) refl)
        ])
]

pub request-Steps : (r : NewRequest) (l : Ledger) → IsStep l (request_agent_task r l)
unfolding request_agent_task
request-Steps r l =
    if-elim (IsStep l) (fields_missing r) (λ _. same l.tasks)
      λ _.
        option-elim (IsStep l) r.approval_status (λ _. same l.tasks)
          λ a _.
            option-elim (IsStep l) (normalize_risk_level r.risk_level) (λ _. same l.tasks)
              λ risk _.
                if-elim (IsStep l) (asks_approved a) (λ _. same l.tasks)
                  (insert_request-Steps r risk a l)

pub enqueue-Steps :
    (id title kind risk : String) (score : Option ℕ) (details : String) (l : Ledger)
    → IsStep l (enqueue_agent_task id title kind risk score details Status.queued l)
unfolding enqueue_agent_task
enqueue-Steps id title kind risk score details l =
    option-elim (IsStep l) (normalize_risk_level risk) (λ _. same l.tasks)
      λ level _.
        if-elim (IsStep l) (is_some (find_task id l.tasks)) (λ _. same l.tasks)
          λ new. Steps.inserted _ (ground arith) (ground arith) refl

refuse_assignment-tasks :
    (id a : String) (d : Decision) (l : Ledger) → (refuse_assignment id a d l).1.tasks ≡ l.tasks
unfolding refuse_assignment
refuse_assignment-tasks id a d l = ground arith

assignment_reply-ledger : (d : Decision) (r : Reply × Ledger) → (assignment_reply d r).1 ≡ r.1
unfolding assignment_reply
assignment_reply-ledger d (Reply.refused reason, l) = refl
assignment_reply-ledger d (_, l) = refl

pub assign-Steps : (id a : String) (l : Ledger) → IsStep l (assign_agent_task id a l)
unfolding assign_agent_task
assign-Steps id a l =
    option-elim (IsStep l) (get_agent_task id l) (λ _. same l.tasks)
      λ task _.
        option-elim (IsStep l) (get_agent a l) (λ _. same l.tasks)
          λ agent _.
            if-elim (IsStep l) (not (is_queued task.status) || is_some task.claimed_by)
              (λ _. same l.tasks)
              λ _.
                let d = evaluate_agent_assignment agent task in
                if-elim (IsStep l) (not d.ok)
                  (λ _. rw (refuse_assignment-tasks id a d l) (same l.tasks))
                  λ _. rw (assignment_reply-ledger d) (
                    transact-Steps id (assignable id) (assigned_now a d.rationale) _ _ l
                      λ t e. Moves.assign id a d.rationale e refl)
