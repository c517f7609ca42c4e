-- ===== src/Tasks/Machine/Safety.antt =====
-- What holds of every task after any history of calls: a lease stands on a cleared approval, and
-- high-risk work is never exempt from approval.
use entigram.Base.{true, ◌≡◌, ◌≢◌, List, [], ◌∷◌, All, is_some, arith, Pointwise}
use entigram.Tasks.Types.{Approval, Task, Ledger}
use entigram.Tasks.Rows.{is_leased, is_cleared, is_high}
use entigram.Tasks.Op.{Op, step, run}
use entigram.Tasks.Machine.{Moves, IsNew, Steps}
use entigram.Tasks.Machine.Refines.{step-Steps}

-- A leased task has a holder, an expiry and a cleared approval; any other has neither holder nor
-- expiry; and a high-risk task is never exempt from approval.
pub record IsSafe (t : Task) : Type 0 where
  pub cleared : is_leased t.status ≡ true → is_cleared t.approval_status ≡ true
  pub held : is_leased t.status ≡ is_some t.claimed_by
  pub timed : is_leased t.status ≡ is_some t.lease_expires_at
  pub guarded : is_high t.risk_level ≡ true → t.approval_status ≢ Approval.not_required

abbrev pub AllSafe : Ledger → Type 0
AllSafe l = All IsSafe l.tasks

Moves-IsSafe : (t u : Task) → Moves t u → IsSafe t → IsSafe u
Moves-IsSafe t u (Moves.stay e) h = rw e h
Moves-IsSafe t u (Moves.assign id agent why g e) h = rw e (ground arith)
Moves-IsSafe t u (Moves.claim id agent lease session now g e) h = rw e (ground arith)
Moves-IsSafe t u (Moves.renew id agent session lease now g e) h = rw e (ground arith)
Moves-IsSafe t u (Moves.complete id agent summary cut session g e) h = rw e (ground arith)
Moves-IsSafe t u (Moves.retry id agent summary cut session g e) h = rw e (ground arith)
Moves-IsSafe t u (Moves.fail id agent summary cut session g e) h = rw e (ground arith)
Moves-IsSafe t u (Moves.hand_over id agent session a s g e) h = rw e (ground arith)
Moves-IsSafe t u (Moves.expire now g e) h = rw e (ground arith)
Moves-IsSafe t u (Moves.withdraw now sessions g e) h = rw e (ground arith)
Moves-IsSafe t u (Moves.review id summary g e) h = rw e (ground arith)
Moves-IsSafe t u (Moves.approve id g e) h = rw e (ground arith)
Moves-IsSafe t u (Moves.dismiss id summary g e) h = rw e (ground arith)

Pointwise-IsSafe : (ts us : List Task) → Pointwise Moves ts us → All IsSafe ts → All IsSafe us
Pointwise-IsSafe [] [] m h = tt
Pointwise-IsSafe [] (u ∷ us) m h = elim m [ ]
Pointwise-IsSafe (t ∷ ts) [] m h = elim m [ ]
Pointwise-IsSafe (t ∷ ts) (u ∷ us) m h = (Moves-IsSafe t u m.0 h.0, Pointwise-IsSafe ts us m.1 h.1)

IsNew-IsSafe : (t : Task) → IsNew t → IsSafe t
IsNew-IsSafe t n = ground arith

Steps-IsSafe : (ts us : List Task) → Steps ts us → All IsSafe ts → All IsSafe us
Steps-IsSafe ts us (Steps.moved m) h = Pointwise-IsSafe ts us m h
Steps-IsSafe ts us (Steps.inserted t n fresh e) h = rw e (IsNew-IsSafe t n, h)

-- From a ledger whose tasks are safe, every history of calls, refused ones included, leads to one
-- whose tasks are safe: no task is ever leased without a holder, an expiry and a cleared approval,
-- and no high-risk task is ever exempt from approval.
pub run-AllSafe : (ops : List Op) (l : Ledger) → AllSafe l → AllSafe (run ops l)
unfolding run
run-AllSafe [] l h = h
run-AllSafe (op ∷ ops) l h =
    run-AllSafe ops (step op l).1 (Steps-IsSafe l.tasks (step op l).1.tasks (step-Steps op l) h)
