-- ===== src/Tasks/Machine/Refines.antt =====
-- Every call of the task ledger is a step of the state machine.
use entigram.Base.{
  if-elim, option-elim, ◌&&◌, is_none, is_blank, codes, ℕ, String, Bool, true, false, ◌≡◌, refl,
  Option, List, [], ◌∷◌, Bool-cases, Option-cases, inl, inr, if◌then◌else◌, Pointwise,
}
use entigram.Tasks.Types.{EventType, Status, Task, Ledger}
use entigram.Tasks.Rows.{get_agent_task, update_where}
use entigram.Tasks.Approval.{assertion_fault, Trust}
use entigram.Tasks.Lease.{
  claim_check, claim_agent_task_unlocked, needs_lock, lease_refused, claim_agent_task, claim_commit,
  claimable, claimed_now, heartbeat_agent_task, held_by, renewed, complete_agent_task,
  fail_agent_task, finished, finish_agent_task,
}
use entigram.Tasks.Handoff.{
  handoff_check, handoff_agent_task, handoff_commit, held_in, handed_over,
  recover_expired_agent_tasks, lease_expired, requeued, stale_offer, offer_withdrawn,
}
use entigram.Tasks.Review.{
  request_task_review, approve_agent_task, dismiss_agent_task, open_task, sent_to_review,
  awaits_approval, approved_now, dismissed_now,
}
use entigram.Tasks.Op.{Op, step}
use entigram.Tasks.Machine.{Moves, Steps}
use entigram.Tasks.Machine.Updates.{same, transact-Steps, IsStep}
use entigram.Tasks.Machine.Requests.{register-Steps, request-Steps, enqueue-Steps, assign-Steps}

claim-Steps :
    (trust : Trust) (id a : String) (lease : ℕ) (session : Option String) (now : ℕ) (l : Ledger)
    → IsStep l (claim_agent_task trust id a lease session now l)
unfolding claim_agent_task claim_commit
claim-Steps trust id a lease session now l =
    if-elim (IsStep l) (needs_lock trust (get_agent_task id l) && is_none trust.registry)
      (λ _. same l.tasks)
      λ _. elim (Option-cases (claim_check trust id a lease session now l)) [
        | inr (r, e) ↦ rw (e, claim_agent_task_unlocked) (same l.tasks)
        | inl e ↦
            rw (e, claim_agent_task_unlocked)
              (transact-Steps id (claimable id a session) (claimed_now a lease session now) _ _ l
                λ t g. Moves.claim id a lease session now g refl)
      ]

heartbeat-Steps :
    (id a : String) (lease : ℕ) (summary : String) (session : Option String) (now : ℕ) (l : Ledger)
    → IsStep l (heartbeat_agent_task id a lease summary session now l)
unfolding heartbeat_agent_task
heartbeat-Steps id a lease summary session now l =
    if-elim (IsStep l) (lease_refused lease) (λ _. same l.tasks)
      λ _.
        transact-Steps id (held_by id a session) (renewed lease now) _ _ l
          λ t g. Moves.renew id a session lease now g refl

finish-Steps :
    (id a : String) (status : Status) (kind : EventType) (summary cut : String)
    (session : Option String) (l : Ledger)
    → ((t : Task) → held_by id a session t ≡ true → Moves t (finished status summary cut t))
    → IsStep l (finish_agent_task id a status kind summary cut session l)
unfolding finish_agent_task
finish-Steps id a status kind summary cut session l move =
    if-elim (IsStep l) (is_blank (codes summary)) (λ _. same l.tasks)
      λ _. transact-Steps id (held_by id a session) (finished status summary cut) _ _ l move

complete-Steps :
    (id a summary : String) (output session : Option String) (l : Ledger)
    → IsStep l (complete_agent_task id a summary output session l)
unfolding complete_agent_task
complete-Steps id a summary output session l =
    finish-Steps id a Status.completed EventType.completed summary _ session l
      λ t g. Moves.complete id a summary _ session g refl

fail-Steps :
    (id a summary : String) (retryable : Bool) (session : Option String) (l : Ledger)
    → IsStep l (fail_agent_task id a summary retryable session l)
unfolding fail_agent_task
fail-Steps id a summary true session l =
    finish-Steps id a Status.queued EventType.failed summary "" session l
      λ t g. Moves.retry id a summary "" session g refl
fail-Steps id a summary false session l =
    finish-Steps id a Status.failed EventType.failed summary "" session l
      λ t g. Moves.fail id a summary "" session g refl

handoff-Steps :
    (trust : Trust) (id a s b t summary : String) (now : ℕ) (l : Ledger)
    → IsStep l (handoff_agent_task trust id a s b t summary now l)
unfolding handoff_agent_task handoff_commit
handoff-Steps trust id a s b t summary now l =
    elim (Option-cases (handoff_check trust id a s b t summary now l)) [
      | inr (r, e) ↦ rw (e, handoff_agent_task) (same l.tasks)
      | inl e ↦
          rw (e, handoff_agent_task)
            (transact-Steps id (held_in id a s) (handed_over b t) _ _ l
              λ task g. Moves.hand_over id a s b t g refl)
    ]

-- a requeued task is not assigned, so no row makes both moves
recover-Moves :
    (now : ℕ) (l : Ledger) (t : Task)
    → let u = if lease_expired now t then requeued t else t in
      Moves t (if stale_offer now l.sessions u then offer_withdrawn u else u)
recover-Moves now l t = elim (Bool-cases (lease_expired now t)) [
  | inl e ↦ rw e (Moves.expire now e refl)
  | inr e ↦ rw e (elim (Bool-cases (stale_offer now l.sessions t)) [
    | inl g ↦ rw g (Moves.withdraw now l.sessions g refl)
    | inr g ↦ rw g (Moves.stay refl)
  ])
]

recover-Pointwise :
    (now : ℕ) (l : Ledger) (ts : List Task)
    → Pointwise Moves ts (
        update_where
          (stale_offer now l.sessions)
          offer_withdrawn
          (update_where (lease_expired now) requeued ts))
unfolding update_where
recover-Pointwise now l [] = tt
recover-Pointwise now l (t ∷ ts) = (recover-Moves now l t, recover-Pointwise now l ts)

recover-Steps : (now : ℕ) (l : Ledger) → IsStep l (recover_expired_agent_tasks now l)
unfolding recover_expired_agent_tasks
recover-Steps now l = Steps.moved (recover-Pointwise now l l.tasks)

review-Steps :
    (id actor summary : String) (l : Ledger) → IsStep l (request_task_review id actor summary l)
unfolding request_task_review
review-Steps id actor summary l =
    transact-Steps id (open_task id) (sent_to_review summary) _ _ l
      λ t g. Moves.review id summary g refl

approve-Steps :
    (trust : Trust) (id assertion summary : String) (l : Ledger)
    → IsStep l (approve_agent_task trust id assertion summary l)
unfolding approve_agent_task
approve-Steps trust id assertion summary l =
    if-elim (IsStep l) (is_blank (codes summary)) (λ _. same l.tasks)
      λ _.
        option-elim (IsStep l) (get_agent_task id l) (λ _. same l.tasks)
          λ task _.
            option-elim (IsStep l) (assertion_fault trust trust.registry task summary assertion)
              (λ _.
                transact-Steps id (awaits_approval id) approved_now _ _ l
                  λ t g. Moves.approve id g refl)
              λ reason _. same l.tasks

dismiss-Steps :
    (id actor summary : String) (l : Ledger) → IsStep l (dismiss_agent_task id actor summary l)
unfolding dismiss_agent_task
dismiss-Steps id actor summary l =
    if-elim (IsStep l) (is_blank (codes summary)) (λ _. same l.tasks)
      λ _.
        transact-Steps id (open_task id) (dismissed_now summary) _ _ l
          λ t g. Moves.dismiss id summary g refl

-- Whatever the call, the ledger and the arguments, the table of tasks makes a step of the state
-- machine: each row stays or makes one of its moves under the move's guard, or one new row is
-- inserted under an unused id.
pub step-Steps : (op : Op) (l : Ledger) → Steps l.tasks (step op l).1.tasks
unfolding step
step-Steps (Op.register s a w now) l = rw (register-Steps s a w now l) (same l.tasks)
step-Steps (Op.request r) l = request-Steps r l
step-Steps (Op.enqueue id title kind risk score details) l =
    enqueue-Steps id title kind risk score details l
step-Steps (Op.assign id a) l = assign-Steps id a l
step-Steps (Op.claim trust id a lease session now) l = claim-Steps trust id a lease session now l
step-Steps (Op.heartbeat id a lease summary session now) l =
    heartbeat-Steps id a lease summary session now l
step-Steps (Op.complete id a summary output session) l =
    complete-Steps id a summary output session l
step-Steps (Op.fail id a summary retryable session) l = fail-Steps id a summary retryable session l
step-Steps (Op.handoff trust id a s b t summary now) l =
    handoff-Steps trust id a s b t summary now l
step-Steps (Op.recover now) l = recover-Steps now l
step-Steps (Op.review id actor summary) l = review-Steps id actor summary l
step-Steps (Op.approve trust id assertion summary) l = approve-Steps trust id assertion summary l
step-Steps (Op.dismiss id actor summary) l = dismiss-Steps id actor summary l
