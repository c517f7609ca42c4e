-- ===== src/Tasks/Ownership.antt =====
-- Who may touch a leased task, who may claim an offered one, and what an approval takes.
use entigram.Base.{
  ℕ, String, Bool, true, false, ◌≡◌, ◌≢◌, refl, Option, some, arith, eq_iff, Option-cases, inl, inr,
  if◌then◌else◌, if-elim, is_none, ◌&&◌, is_blank, codes, holds-some,
}
use entigram.Tasks.Types.{Status, Task, TaskEvent, EventType, Ledger, Reason, Reply, refused}
use entigram.Tasks.Rows.{get_agent_task, find_task, transact, is_leased}
use entigram.Tasks.Rows.Laws.{Unique, Selects, count-find, transact-refused}
use entigram.Tasks.Approval.{Trust}
use entigram.Tasks.Lease.{
  prefix, or_empty, claim_agent_task, claim_agent_task_unlocked, claim_check, claim_commit,
  claimable, needs_lock, heartbeat_agent_task, finish_agent_task, complete_agent_task,
  fail_agent_task, held_by, renewed, finished, lease_refused,
}
use entigram.Tasks.Handoff.{handoff_agent_task, handoff_check, handoff_commit, held_in, handed_over}
use entigram.Tasks.Review.{awaits_approval}

pub claimable-Selects : (id a : String) (s : Option String) → Selects id (claimable id a s)
claimable-Selects id a s = record { at_id = λ t h. ground (arith, eq_iff t.task_id id) }

held_by-Selects : (id a : String) (s : Option String) → Selects id (held_by id a s)
held_by-Selects id a s = record { at_id = λ t h. ground (arith, eq_iff t.task_id id) }

pub held_in-Selects : (id a s : String) → Selects id (held_in id a s)
held_in-Selects id a s = record { at_id = λ t h. ground (arith, eq_iff t.task_id id) }

pub awaits_approval-Selects : (id : String) → Selects id (awaits_approval id)
awaits_approval-Selects id = record { at_id = λ t h. ground (arith, eq_iff t.task_id id) }

-- A conditional update on a row that does not pass its guard is refused and changes nothing.
pub blocked :
    (id : String) (test : Task → Bool) (set : Task → Task) (reason : Reason) (e : TaskEvent)
    (l : Ledger) {t : Task}
    → Selects id test
    → Unique l.tasks
    → find_task id l.tasks ≡ some t
    → test t ≡ false
    → transact id test set reason e l ≡ (refused reason, l)
blocked id test set reason e l {t} sel u f no_pass =
    transact-refused id test set reason e l (ground (arith, count-find id test sel l.tasks u))

-- a call that leaves the whole ledger as it was: rows, events, sessions and conflicts
abbrev pub Unchanged : Ledger → Reply × Ledger → Type 0
Unchanged l r = r.1 ≡ l

module _ (l : Ledger) (id : String) {t : Task} (u : Unique l.tasks)
    (f : find_task id l.tasks ≡ some t) (leased : is_leased t.status ≡ true) where
  claim_commit-leased :
      (b : String) (lease : ℕ) (s : Option String) (now : ℕ)
      → claim_commit id b lease s now l ≡ (refused Reason.task_not_claimable, l)
  unfolding claim_commit
  claim_commit-leased b lease s now =
      blocked id _ _ _ _ l (claimable-Selects id b s) u f (ground arith)

  -- On a table whose ids are unique, while a task is leased, a claim of it changes nothing, whoever
  -- makes it and in whatever session; and even a claim whose checks passed before the lease was
  -- taken is refused by its update.
  pub claim-leased :
      (trust : Trust) (b : String) (lease : ℕ) (s : Option String) (now : ℕ)
      → Unchanged l (claim_agent_task trust id b lease s now l)
        × (claim_commit id b lease s now l ≡ (refused Reason.task_not_claimable, l))
  unfolding claim_agent_task
  claim-leased trust b lease s now = (
    if-elim (Unchanged l) (needs_lock trust (get_agent_task id l) && is_none trust.registry)
        (λ _. refl)
        λ _. elim (Option-cases (claim_check trust id b lease s now l)) [
          | inr (r, e) ↦ rw (e, claim_agent_task_unlocked) refl
          | inl e ↦ rw (e, claim_agent_task_unlocked, claim_commit-leased b lease s now) refl
        ],
    claim_commit-leased b lease s now,
  )

  module _ (b : String) (other : t.claimed_by ≢ some b) where
    not_held_by : (s : Option String) → held_by id b s t ≡ false
    not_held_by s = ground (arith, holds-some t.claimed_by b)

    not_held_in : (from : String) → held_in id b from t ≡ false
    not_held_in from = ground (arith, holds-some t.claimed_by b)

    heartbeat-other :
        (lease now : ℕ) (summary : String) (s : Option String)
        → Unchanged l (heartbeat_agent_task id b lease summary s now l)
    unfolding heartbeat_agent_task
    heartbeat-other lease now summary s =
        if-elim (Unchanged l) (lease_refused lease) (λ _. refl)
          λ _.
            rw
              (blocked id (held_by id b s) (renewed lease now) _ _ l (held_by-Selects id b s) u f
                (not_held_by s))
              refl

    finish-other :
        (status : Status) (kind : EventType) (summary cut : String) (s : Option String)
        → Unchanged l (finish_agent_task id b status kind summary cut s l)
    unfolding finish_agent_task
    finish-other status kind summary cut s =
        if-elim (Unchanged l) (is_blank (codes summary)) (λ _. refl)
          λ _.
            rw
              (blocked id (held_by id b s) (finished status summary cut) _ _ l
                (held_by-Selects id b s) u f (not_held_by s))
              refl

    handoff-other :
        (trust : Trust) (from to_agent to summary : String) (now : ℕ)
        → Unchanged l (handoff_agent_task trust id b from to_agent to summary now l)
    unfolding handoff_agent_task handoff_commit
    handoff-other trust from to_agent to summary now =
        elim (Option-cases (handoff_check trust id b from to_agent to summary now l)) [
          | inr (r, e) ↦ rw (e, handoff_agent_task) refl
          | inl e ↦
              rw
                (
                  e,
                  handoff_agent_task,
                  blocked id (held_in id b from) (handed_over to_agent to) _ _ l
                      (held_in-Selects id b from) u f (not_held_in from),
                )
                refl
        ]

    complete-other :
        (summary : String) (output s : Option String)
        → Unchanged l (complete_agent_task id b summary output s l)
    unfolding complete_agent_task
    complete-other summary output s =
        finish-other Status.completed EventType.completed summary (prefix 50000 (or_empty output)) s

    fail-other :
        (summary : String) (retry : Bool) (s : Option String)
        → Unchanged l (fail_agent_task id b summary retry s l)
    unfolding fail_agent_task
    fail-other summary retry s =
        finish-other (if retry then Status.queued else Status.failed) EventType.failed summary "" s

    -- On a table whose ids are unique, while a task is leased, an agent that does not hold it can
    -- neither renew the lease, nor finish or fail the task, nor hand it over: each of these calls
    -- leaves the ledger as it was.
    pub lease_exclusive :
        (trust : Trust) (lease now : ℕ) (s output : Option String)
        (summary from to_agent to : String) (retry : Bool)
        → Unchanged l (heartbeat_agent_task id b lease summary s now l)
          × Unchanged l (complete_agent_task id b summary output s l)
          × Unchanged l (fail_agent_task id b summary retry s l)
          × Unchanged l (handoff_agent_task trust id b from to_agent to summary now l)
    lease_exclusive trust lease now s output summary from to_agent to retry = (
      heartbeat-other lease now summary s,
      complete-other summary output s,
      fail-other summary retry s,
      handoff-other trust from to_agent to summary now,
    )
