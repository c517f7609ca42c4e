-- ===== src/Tasks/Machine/Frozen.antt =====
-- What no call changes: a closed task, what its requester asked for, and the count of attempts
-- except by one at a claim.
use entigram.Base.{
  String, true, ◌≡◌, ◌≤◌, some, List, [], ◌∷◌, arith, eq_iff, Pointwise, ◌==◌, Bool-cases, inl, inr,
}
use entigram.Tasks.Types.{Task, Ledger}
use entigram.Tasks.Rows.{find_task, is_terminal}
use entigram.Tasks.Op.{Op, step, run}
use entigram.Tasks.Machine.{Moves, Steps}
use entigram.Tasks.Machine.Refines.{step-Steps}

-- a relation of a row to the row that it becomes later
pub record Later (t u : Task) : Type 0 where
  pub same_request : u.request ≡ t.request
  pub attempts : t.attempt_count ≤ u.attempt_count
  pub closed : is_terminal t.status ≡ true → u ≡ t

pub Moves-Later : (t u : Task) → Moves t u → Later t u
Moves-Later t u (Moves.stay e) = rw e (ground arith)
Moves-Later t u (Moves.assign id agent why g e) = rw e (ground arith)
Moves-Later t u (Moves.claim id agent lease session now g e) = rw e (ground arith)
Moves-Later t u (Moves.renew id agent session lease now g e) = rw e (ground arith)
Moves-Later t u (Moves.complete id agent summary cut session g e) = rw e (ground arith)
Moves-Later t u (Moves.retry id agent summary cut session g e) = rw e (ground arith)
Moves-Later t u (Moves.fail id agent summary cut session g e) = rw e (ground arith)
Moves-Later t u (Moves.hand_over id agent session a s g e) = rw e (ground arith)
Moves-Later t u (Moves.expire now g e) = rw e (ground arith)
Moves-Later t u (Moves.withdraw now sessions g e) = rw e (ground arith)
Moves-Later t u (Moves.review id summary g e) = rw e (ground arith)
Moves-Later t u (Moves.approve id g e) = rw e (ground arith)
Moves-Later t u (Moves.dismiss id summary g e) = rw e (ground arith)

-- the row of an id, found again with what it became
abbrev pub Found : String → Task → List Task → Type 0
Found id t us = (u : Task) × (find_task id us ≡ some u) × Later t u

Pointwise-Found :
    (id : String) (t : Task) (ts us : List Task)
    → Pointwise Moves ts us
    → find_task id ts ≡ some t
    → Found id t us
unfolding find_task
Pointwise-Found id t [] us m f = ground arith
Pointwise-Found id t (x ∷ ts) [] m f = elim m [ ]
Pointwise-Found id t (x ∷ ts) (y ∷ us) m f =
    let later = Moves-Later x y m.0 in
    elim (Bool-cases (x.task_id == id)) [
      | inl e ↦ (y, ground arith, ground arith)
      | inr e ↦
          let (u, fu, l) = Pointwise-Found id t ts us m.1 (ground arith) in (u, ground arith, l)
    ]

Steps-Found :
    (id : String) (t : Task) (ts us : List Task)
    → Steps ts us
    → find_task id ts ≡ some t
    → Found id t us
unfolding find_task
Steps-Found id t ts us (Steps.moved m) f = Pointwise-Found id t ts us m f
Steps-Found id t ts us (Steps.inserted n new fresh e) f =
    (t, rw e (ground (arith, eq_iff n.task_id id)), ground arith)

Later-trans : (t u v : Task) → Later t u → Later u v → Later t v
Later-trans t u v h k = ground arith

-- A row that is there stays under its id whatever calls follow: what its requester asked for never
-- changes, the count of attempts never falls, and a task that is completed, cancelled or in the dead
-- letters keeps every column.
pub run-Later :
    (ops : List Op) (l : Ledger) (id : String) (t : Task)
    → find_task id l.tasks ≡ some t
    → Found id t (run ops l).tasks
unfolding run
run-Later [] l id t f = (t, f, ground arith)
run-Later (op ∷ ops) l id t f =
    let (u, fu, h) = Steps-Found id t l.tasks (step op l).1.tasks (step-Steps op l) f in
    let (v, fv, k) = run-Later ops (step op l).1 id u fu in (v, fv, Later-trans t u v h k)
