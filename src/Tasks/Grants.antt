-- ===== src/Tasks/Grants.antt =====
-- What a granted claim, approval or handoff stands on.
use entigram.Base.{
  ℕ, String, true, false, ◌≡◌, ◌≢◌, refl, Option, none, some, arith, eq_iff, ◌==◌, sql_eq,
  Option-cases, inl, inr, if-elim, option-elim, ◌&&◌, is_blank, codes, sql_eq,
}
use entigram.Tasks.Types.{Approval, Agent, Task, Ledger, Reason, refused, done}
use entigram.Tasks.Rows.{find_task, get_agent_task, get_agent, transact, is_high, is_pending}
use entigram.Tasks.Rows.Laws.{
  Unique, find-update, update_where-Unique, transact-found, transact-done,
}
use entigram.Tasks.Gate.{evaluate_agent_assignment}
use entigram.Tasks.Approval.{Trust, assertion_fault, verify_task_approval}
use entigram.Tasks.Approval.Laws.{
  IsEndorsed, IsOnRecord, assertion_fault-IsEndorsed, verify-IsOnRecord,
}
use entigram.Tasks.Lease.{
  claim_agent_task, claim_agent_task_unlocked, claim_check, claim_faults, claim_commit, claimable,
  approval_fault, lease_refused,
}
use entigram.Tasks.Handoff.{handoff_commit, held_in, handed_over}
use entigram.Tasks.Review.{approve_agent_task, awaits_approval, approved_now, approval_event}
use entigram.Tasks.Ownership.{
  Unchanged, blocked, claimable-Selects, held_in-Selects, awaits_approval-Selects,
}

-- the facts that the checks of a claim establish
pub record IsChecked (trust : Trust) (agent_id : String) (l : Ledger) (t : Task) : Type 0 where
  pub agent : Agent
  pub known : get_agent agent_id l ≡ some agent
  pub capable : (evaluate_agent_assignment agent t).ok ≡ true
  pub approved : approval_fault trust t l ≡ none

module _ (trust : Trust) (id a : String) (lease : ℕ) (s : Option String) (now : ℕ)
    (l : Ledger) where
  claim_faults-IsChecked :
      (t : Task) (agent : Agent)
      → get_agent a l ≡ some agent
      → claim_faults trust t agent a s now l ≡ none
      → IsChecked trust a l t
  unfolding claim_faults
  claim_faults-IsChecked t agent k h = record {
    agent = agent;
    known = k;
    capable = ground arith;
    approved = ground arith;
  }

  claim_check-IsChecked :
      (t : Task)
      → get_agent_task id l ≡ some t
      → claim_check trust id a lease s now l ≡ none
      → IsChecked trust a l t
  unfolding claim_check
  claim_check-IsChecked t f h = elim (Option-cases (get_agent a l)) [
    | inl e ↦ absurd (ground arith)
    | inr (agent, e) ↦ claim_faults-IsChecked t agent e (ground arith)
  ]

  claim_faults-not_done :
      (t : Task) (agent : Agent) (o : Option Task)
      → claim_faults trust t agent a s now l ≢ some (done o)
  unfolding claim_faults
  claim_faults-not_done t agent o = ground arith

  claim_check-not_done : (o : Option Task) → claim_check trust id a lease s now l ≢ some (done o)
  unfolding claim_check
  claim_check-not_done o =
      if-elim (λ r. r ≢ some (done o)) (lease_refused lease) (λ _. ground arith)
        λ _.
          option-elim (λ r. r ≢ some (done o)) (get_agent_task id l) (λ _. ground arith)
            λ t _.
              option-elim (λ r. r ≢ some (done o)) (get_agent a l) (λ _. ground arith)
                λ agent _. claim_faults-not_done t agent o

  claim-IsChecked :
      (t : Task) {o : Option Task}
      → get_agent_task id l ≡ some t
      → (claim_agent_task trust id a lease s now l).0 ≡ done o
      → IsChecked trust a l t
  unfolding claim_agent_task claim_agent_task_unlocked
  claim-IsChecked t {o} f h = elim (Option-cases (claim_check trust id a lease s now l)) [
    | inl e ↦ claim_check-IsChecked t f e
    | inr (r, e) ↦ absurd (claim_check-not_done o (ground arith))
  ]

  -- A claim of high-risk work that is not exempt from approval is answered with a task only if the
  -- task is approved, a good approval of it is on record under the registry, and the agent is
  -- registered and passes the assignment gate.
  pub claim-high_risk :
      (t : Task) {o : Option Task}
      → get_agent_task id l ≡ some t
      → is_high t.risk_level ≡ true
      → t.approval_status ≢ Approval.not_required
      → (claim_agent_task trust id a lease s now l).0 ≡ done o
      → IsChecked trust a l t
        × (t.approval_status ≡ Approval.approved)
        × IsOnRecord trust t l.events
  unfolding approval_fault
  claim-high_risk t f high guarded h =
      let c = claim-IsChecked t f h in
      let v : verify_task_approval trust t l.events ≡ none = ground arith in
      (c, ground arith, verify-IsOnRecord trust t l.events high v)

module _ (trust : Trust) (id assertion summary : String) (l : Ledger) where
  -- On a table whose ids are unique, an approval is answered with a task only if its assertion
  -- endorses the task as it stands, and the row of that id was pending and open.
  pub approve-IsEndorsed :
      (t : Task) {o : Option Task}
      → Unique l.tasks
      → get_agent_task id l ≡ some t
      → (approve_agent_task trust id assertion summary l).0 ≡ done o
      → IsEndorsed trust t summary assertion
        × ((u : Task) × (find_task id l.tasks ≡ some u) × (awaits_approval id u ≡ true))
  unfolding approve_agent_task
  approve-IsEndorsed t {o} u f h =
      elim (Option-cases (assertion_fault trust trust.registry t summary assertion)) [
        | inr (r, e) ↦ absurd (ground arith)
        | inl e ↦
            let g : (transact id (awaits_approval id) approved_now Reason.task_approval_rejected
                  (approval_event trust id assertion summary) l).0
                ≡ done o =
              ground arith in
            let (v, fv, p, _) =
              transact-found id (awaits_approval id) approved_now _ _ l (awaits_approval-Selects id)
                u g in
            (assertion_fault-IsEndorsed trust t summary assertion e, (v, fv, p))
      ]

  -- On a table whose ids are unique, a task that is not pending, an approved one for instance,
  -- cannot be approved again: the call leaves the ledger as it was.
  pub approve-once :
      (t : Task)
      → Unique l.tasks
      → find_task id l.tasks ≡ some t
      → is_pending t.approval_status ≡ false
      → Unchanged l (approve_agent_task trust id assertion summary l)
  unfolding approve_agent_task
  approve-once t u f p =
      if-elim (Unchanged l) (is_blank (codes summary)) (λ _. refl)
        λ _.
          option-elim (Unchanged l) (get_agent_task id l) (λ _. refl)
            λ v _. elim (Option-cases (assertion_fault trust trust.registry v summary assertion)) [
              | inr (r, e) ↦ rw e refl
              | inl e ↦
                  rw
                    (
                      e,
                      blocked id (awaits_approval id) approved_now _ _ l
                          (awaits_approval-Selects id) u f (ground arith),
                    )
                    refl
            ]

module _ (id a from b to summary : String) (l : Ledger) where
  handed-over_row :
      {o : Option Task}
      → Unique l.tasks
      → (handoff_commit id a from b to summary l).0 ≡ done o
      → (t : Task) × (find_task id (handoff_commit id a from b to summary l).1.tasks
          ≡ some (handed_over b to t))
  unfolding handoff_commit
  handed-over_row u h =
      let (t, f, p, n) =
        transact-found id (held_in id a from) (handed_over b to) _ _ l (held_in-Selects id a from) u
          h in
      (
        t,
        rw
            (
              transact-done id (held_in id a from) (handed_over b to) _ _ l n,
              find-update id (held_in id a from) (handed_over b to) l.tasks (λ t. refl),
              f,
              p,
            )
            refl,
      )

  handoff-Unique :
      {o : Option Task}
      → Unique l.tasks
      → (handoff_commit id a from b to summary l).0 ≡ done o
      → Unique (handoff_commit id a from b to summary l).1.tasks
  unfolding handoff_commit
  handoff-Unique u h =
      let (_, _, _, n) =
        transact-found id (held_in id a from) (handed_over b to) _ _ l (held_in-Selects id a from) u
          h in
      rw (transact-done id (held_in id a from) (handed_over b to) _ _ l n)
        (update_where-Unique (held_in id a from) (handed_over b to) (λ t. refl) l.tasks u)

  -- On a table whose ids are unique, a handoff reserves the task: from the state that it leaves,
  -- the update of a claim by anybody but that agent in that session is refused and changes nothing.
  pub handoff-reserves :
      {o : Option Task} (c : String) (s : Option String) (lease now : ℕ)
      → Unique l.tasks
      → (handoff_commit id a from b to summary l).0 ≡ done o
      → sql_eq (some to) s && b == c ≡ false
      → let l' = (handoff_commit id a from b to summary l).1 in
        claim_commit id c lease s now l' ≡ (refused Reason.task_not_claimable, l')
  unfolding claim_commit
  handoff-reserves c s lease now u h other =
      let l' = (handoff_commit id a from b to summary l).1 in
      let (t, f) = handed-over_row u h in
      blocked id (claimable id c s) _ _ _ l' (claimable-Selects id c s) (handoff-Unique u h) f
        (ground (arith, eq_iff b c))
