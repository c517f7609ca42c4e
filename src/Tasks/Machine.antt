-- ===== src/Tasks/Machine.antt =====
-- The life of a task as an abstract state machine: the moves that a call may make with one row, and
-- what a call may do to the table. `Machine/Refines` shows that every call is such a step.
pub mod Updates
pub mod Requests
pub mod Refines
pub mod Safety
pub mod Frozen
pub mod Identity
use entigram.Base.{ℕ, String, Bool, true, false, ◌≡◌, ◌≢◌, ◌⊎◌, Option, none, List, ◌∷◌, Pointwise}
use entigram.Tasks.Types.{Status, Approval, Task, Session, Ledger}
use entigram.Tasks.Rows.{find_task, is_high}
use entigram.Tasks.Queue.{assignable, assigned_now}
use entigram.Tasks.Lease.{claimable, claimed_now, held_by, renewed, finished}
use entigram.Tasks.Handoff.{
  held_in, handed_over, lease_expired, requeued, stale_offer, offer_withdrawn,
}
use entigram.Tasks.Review.{open_task, sent_to_review, awaits_approval, approved_now, dismissed_now}

-- One row before and after a call: its guard holds, and the row is what the call writes.
pub data Moves (t u : Task) : Type 0 where
  stay : u ≡ t → Moves t u
  assign :
      (id agent why : String) → assignable id t ≡ true → u ≡ assigned_now agent why t → Moves t u
  claim :
      (id agent : String) (lease : ℕ) (session : Option String) (now : ℕ)
      → claimable id agent session t ≡ true
      → u ≡ claimed_now agent lease session now t
      → Moves t u
  renew :
      (id agent : String) (session : Option String) (lease now : ℕ)
      → held_by id agent session t ≡ true
      → u ≡ renewed lease now t
      → Moves t u
  complete :
      (id agent summary cut : String) (session : Option String)
      → held_by id agent session t ≡ true
      → u ≡ finished Status.completed summary cut t
      → Moves t u
  retry :
      (id agent summary cut : String) (session : Option String)
      → held_by id agent session t ≡ true
      → u ≡ finished Status.queued summary cut t
      → Moves t u
  fail :
      (id agent summary cut : String) (session : Option String)
      → held_by id agent session t ≡ true
      → u ≡ finished Status.failed summary cut t
      → Moves t u
  hand_over :
      (id agent session to_agent to_session : String)
      → held_in id agent session t ≡ true
      → u ≡ handed_over to_agent to_session t
      → Moves t u
  expire : (now : ℕ) → lease_expired now t ≡ true → u ≡ requeued t → Moves t u
  withdraw :
      (now : ℕ) (sessions : List Session)
      → stale_offer now sessions t ≡ true
      → u ≡ offer_withdrawn t
      → Moves t u
  review : (id summary : String) → open_task id t ≡ true → u ≡ sent_to_review summary t → Moves t u
  approve : (id : String) → awaits_approval id t ≡ true → u ≡ approved_now t → Moves t u
  dismiss : (id summary : String) → open_task id t ≡ true → u ≡ dismissed_now summary t → Moves t u

-- A row that a call inserts: queued, without a holder, and not approved; high-risk work is pending.
pub record IsNew (t : Task) : Type 0 where
  pub queued : t.status ≡ Status.queued
  pub unclaimed : t.claimed_by ≡ none
  pub unleased : t.lease_expires_at ≡ none
  pub unapproved : t.approval_status ≢ Approval.approved
  pub guarded : is_high t.risk_level ≡ true → t.approval_status ≡ Approval.pending

-- The table before and after a call: each row makes one move, or a new row stands before the others
-- under an id that none of them has.
pub data Steps (ts us : List Task) : Type 0 where
  moved : Pointwise Moves ts us → Steps ts us
  inserted : (t : Task) → IsNew t → find_task t.task_id ts ≡ none → us ≡ t ∷ ts → Steps ts us
