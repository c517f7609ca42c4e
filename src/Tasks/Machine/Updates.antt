-- ===== src/Tasks/Machine/Updates.antt =====
-- Statements of the task ledger as steps of the state machine.
use entigram.Base.{
  String, Bool, true, ◌≡◌, refl, List, [], ◌∷◌, Bool-cases, inl, inr, eqb, Pointwise,
}
use entigram.Tasks.Types.{Task, TaskEvent, Ledger, Reason, Reply}
use entigram.Tasks.Rows.{update_where, count_where, transact}
use entigram.Tasks.Machine.{Moves, Steps}

pub Pointwise-same : (ts : List Task) → Pointwise Moves ts ts
Pointwise-same [] = tt
Pointwise-same (t ∷ ts) = (Moves.stay refl, Pointwise-same ts)

-- nothing in the table changes
pub same : (ts : List Task) → Steps ts ts
same ts = Steps.moved (Pointwise-same ts)

pub update_where-Pointwise :
    (test : Task → Bool) (set : Task → Task) (ts : List Task)
    → ((t : Task) → test t ≡ true → Moves t (set t))
    → Pointwise Moves ts (update_where test set ts)
unfolding update_where
update_where-Pointwise test set [] move = tt
update_where-Pointwise test set (t ∷ ts) move = (
  elim (Bool-cases (test t)) [ inl e ↦ rw e (move t e) | inr e ↦ rw e (Moves.stay refl) ],
  update_where-Pointwise test set ts move,
)

-- A conditional update whose single updates are moves is a step, refused or not.
pub transact-Steps :
    (id : String) (test : Task → Bool) (set : Task → Task) (reason : Reason) (e : TaskEvent)
    (l : Ledger)
    → ((t : Task) → test t ≡ true → Moves t (set t))
    → Steps l.tasks (transact id test set reason e l).1.tasks
unfolding transact
transact-Steps id test set reason e l move = elim (Bool-cases (eqb (count_where test l.tasks) 1)) [
  | inl one ↦ rw one (Steps.moved (update_where-Pointwise test set l.tasks move))
  | inr other ↦ rw other (Steps.moved (update_where-Pointwise test set l.tasks move))
]

abbrev pub IsStep : Ledger → Reply × Ledger → Type 0
IsStep l r = Steps l.tasks r.1.tasks
