-- ===== src/Tasks/Machine/Identity.antt =====
-- Ids stay unique: no call inserts a row under an id that the table has.
use entigram.Base.{◌≡◌, refl, none, List, [], ◌∷◌, String, arith, Pointwise, ap}
use entigram.Tasks.Types.{Task, Ledger}
use entigram.Tasks.Rows.{find_task}
use entigram.Tasks.Rows.Laws.{Unique}
use entigram.Tasks.Op.{Op, step, run}
use entigram.Tasks.Machine.{Moves, Steps}
use entigram.Tasks.Machine.Frozen.{Moves-Later}
use entigram.Tasks.Machine.Refines.{step-Steps}

Moves-same_id : (t u : Task) → Moves t u → u.task_id ≡ t.task_id
Moves-same_id t u m = ap (λ r. r.task_id) (Moves-Later t u m).same_request

Pointwise-absent :
    (id : String) (ts us : List Task)
    → Pointwise Moves ts us
    → find_task id ts ≡ none
    → find_task id us ≡ none
unfolding find_task
Pointwise-absent id [] [] m f = refl
Pointwise-absent id [] (u ∷ us) m f = elim m [ ]
Pointwise-absent id (t ∷ ts) [] m f = elim m [ ]
Pointwise-absent id (t ∷ ts) (u ∷ us) m f =
    ground (arith, Moves-same_id t u m.0, Pointwise-absent id ts us m.1)

Pointwise-Unique : (ts us : List Task) → Pointwise Moves ts us → Unique ts → Unique us
Pointwise-Unique [] [] m h = tt
Pointwise-Unique [] (u ∷ us) m h = elim m [ ]
Pointwise-Unique (t ∷ ts) [] m h = elim m [ ]
Pointwise-Unique (t ∷ ts) (u ∷ us) m h = (
  rw (Moves-same_id t u m.0) (Pointwise-absent t.task_id ts us m.1 h.0),
  Pointwise-Unique ts us m.1 h.1,
)

Steps-Unique : (ts us : List Task) → Steps ts us → Unique ts → Unique us
Steps-Unique ts us (Steps.moved m) h = Pointwise-Unique ts us m h
Steps-Unique ts us (Steps.inserted t n fresh e) h = rw e (fresh, h)

-- From a table whose ids are unique, every history of calls leads to one whose ids are unique.
pub run-Unique : (ops : List Op) (l : Ledger) → Unique l.tasks → Unique (run ops l).tasks
unfolding run
run-Unique [] l h = h
run-Unique (op ∷ ops) l h =
    run-Unique ops (step op l).1 (Steps-Unique l.tasks (step op l).1.tasks (step-Steps op l) h)
