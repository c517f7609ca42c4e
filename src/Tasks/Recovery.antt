-- ===== src/Tasks/Recovery.antt =====
-- `recover_expired_agent_tasks` leaves no abandoned lease and no stale offer, and puts the work back
-- into the queue.
use entigram.Base.{
  ℕ, String, true, false, ◌≡◌, refl, some, List, [], ◌∷◌, All, arith, Bool-cases, inl, inr,
  if◌then◌else◌,
}
use entigram.Tasks.Types.{Task, Ledger}
use entigram.Tasks.Rows.{find_task, update_where}
use entigram.Tasks.Rows.Laws.{find-update}
use entigram.Tasks.Handoff.{
  recover_expired_agent_tasks, lease_expired, requeued, stale_offer, offer_withdrawn,
}

-- neither an expired lease nor an offer to a session that is gone
pub record IsFresh (now : ℕ) (l : Ledger) (t : Task) : Type 0 where
  pub leased_in_time : lease_expired now t ≡ false
  pub offered_to_present : stale_offer now l.sessions t ≡ false

IsFresh-row :
    (now : ℕ) (l : Ledger) (t : Task)
    → let u = if lease_expired now t then requeued t else t in
      IsFresh now l (if stale_offer now l.sessions u then offer_withdrawn u else u)
IsFresh-row now l t = elim (Bool-cases (lease_expired now t)) [
  | inl e ↦ rw e (ground arith)
  | inr e ↦ rw e (elim (Bool-cases (stale_offer now l.sessions t)) [
    | inl g ↦ rw g (ground arith)
    | inr g ↦ rw g (ground arith)
  ])
]

IsFresh-rows :
    (now : ℕ) (l : Ledger) (ts : List Task)
    → All (IsFresh now l) (
        update_where
          (stale_offer now l.sessions)
          offer_withdrawn
          (update_where (lease_expired now) requeued ts))
unfolding update_where
IsFresh-rows now l [] = tt
IsFresh-rows now l (t ∷ ts) = (IsFresh-row now l t, IsFresh-rows now l ts)

-- After a recovery no task has a lease that is over or an offer to a session that is gone.
pub recover-IsFresh :
    (now : ℕ) (l : Ledger) → All (IsFresh now l) (recover_expired_agent_tasks now l).1.tasks
unfolding recover_expired_agent_tasks
recover-IsFresh now l = IsFresh-rows now l l.tasks

-- A recovery puts a task whose lease was over into the queue again under its id, without a holder,
-- with its request, its approval and its count of attempts.
pub recover-requeues :
    (now : ℕ) (l : Ledger) (id : String) (t : Task)
    → find_task id l.tasks ≡ some t
    → lease_expired now t ≡ true
    → find_task id (recover_expired_agent_tasks now l).1.tasks ≡ some (requeued t)
unfolding recover_expired_agent_tasks
recover-requeues now l id t f e =
    rw
      (
        find-update id (stale_offer now l.sessions) offer_withdrawn _ (λ t. refl),
        find-update id (lease_expired now) requeued l.tasks (λ t. refl),
        f,
        e,
      )
      refl
