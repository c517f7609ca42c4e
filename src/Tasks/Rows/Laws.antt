-- ===== src/Tasks/Rows/Laws.antt =====
-- The statements on a table whose ids are unique: what a conditional update on one id does.
use entigram.Base.{
  ℕ, String, Bool, true, ◌≡◌, refl, ◌==◌, eq_iff, Option, none, some, List, [], ◌∷◌, ◌++◌, arith,
  Bool-cases, Option-cases, inl, inr, if◌then◌else◌,
}
use entigram.Tasks.Types.{Task, TaskEvent, Ledger, Reason, refused, done}
use entigram.Tasks.Rows.{find_task, update_where, count_where, transact}

-- the column `task_id` is unique
abbrev pub Unique : List Task → Type 0
Unique [] = Unit
Unique (t ∷ ts) = (find_task t.task_id ts ≡ none) × Unique ts

-- A test that looks for one id.
pub record Selects (id : String) (test : Task → Bool) : Type 0 where
  pub at_id : (t : Task) → test t ≡ true → t.task_id ≡ id

abbrev pub hits : (Task → Bool) → Option Task → ℕ
hits test none = 0
hits test (some t) = if test t then 1 else 0

module _ (id : String) (test : Task → Bool) (sel : Selects id test) where
  count-absent : (ts : List Task) → find_task id ts ≡ none → count_where test ts ≡ 0
  unfolding find_task count_where
  count-absent [] f = refl
  count-absent (t ∷ ts) f = ground (arith, count-absent ts, sel.at_id t, eq_iff t.task_id id)

  pub count-find : (ts : List Task) → Unique ts → count_where test ts ≡ hits test (find_task id ts)
  unfolding find_task count_where
  count-find [] u = refl
  count-find (t ∷ ts) (fresh, u) = elim (Bool-cases (t.task_id == id)) [
    | inl e ↦
        let same : t.task_id ≡ id = (eq_iff t.task_id id).0 e in
        let absent : find_task id ts ≡ none = rw same at fresh in
        rw e (ground (arith, count-absent ts absent))
    | inr e ↦ ground (arith, count-find ts u, sel.at_id t, eq_iff t.task_id id)
  ]

-- no row passes: nothing changes
pub update_where-same :
    (test : Task → Bool) (set : Task → Task) (ts : List Task)
    → count_where test ts ≡ 0
    → update_where test set ts ≡ ts
unfolding update_where count_where
update_where-same test set [] h = refl
update_where-same test set (t ∷ ts) h = ground (arith, update_where-same test set ts)

abbrev pub updated : (Task → Bool) → (Task → Task) → Option Task → Option Task
updated test set none = none
updated test set (some t) = some (if test t then set t else t)

pub find-update :
    (id : String) (test : Task → Bool) (set : Task → Task) (ts : List Task)
    → ((t : Task) → (set t).task_id ≡ t.task_id)
    → find_task id (update_where test set ts) ≡ updated test set (find_task id ts)
unfolding find_task update_where
find-update id test set [] k = refl
find-update id test set (t ∷ ts) k = ground (arith, find-update id test set ts k, k t)

module _ (id : String) (test : Task → Bool) (set : Task → Task) (reason : Reason) (e : TaskEvent)
    (l : Ledger) where
  -- an update that selects no row is refused, and leaves the whole ledger as it was
  pub transact-refused :
      count_where test l.tasks ≡ 0 → transact id test set reason e l ≡ (refused reason, l)
  unfolding transact
  transact-refused h = rw (h, update_where-same test set l.tasks h) refl

  pub transact-done :
      count_where test l.tasks ≡ 1
      → (transact id test set reason e l).1
        ≡ record l { tasks = update_where test set l.tasks; events = l.events ++ (e ∷ []) }
  unfolding transact
  transact-done h = rw h refl

module _ (test : Task → Bool) (set : Task → Task)
    (k : (t : Task) → (set t).task_id ≡ t.task_id) where
  absent-update :
      (id : String) (ts : List Task)
      → find_task id ts ≡ none
      → find_task id (update_where test set ts) ≡ none
  absent-update id ts f = rw (find-update id test set ts k, f)

  pub update_where-Unique : (ts : List Task) → Unique ts → Unique (update_where test set ts)
  unfolding update_where
  update_where-Unique [] u = tt
  update_where-Unique (t ∷ ts) (fresh, u) = (
    elim (Bool-cases (test t)) [
      | inl e ↦ rw (e, k t) (absent-update t.task_id ts fresh)
      | inr e ↦ rw e (absent-update t.task_id ts fresh)
    ],
    update_where-Unique ts u,
  )

-- an update that is answered with `done` has changed the one row of its id, which passed its test
pub transact-found :
    (id : String) (test : Task → Bool) (set : Task → Task) (reason : Reason) (e : TaskEvent)
    (l : Ledger) {o : Option Task}
    → Selects id test
    → Unique l.tasks
    → (transact id test set reason e l).0 ≡ done o
    → (t : Task) × (find_task id l.tasks ≡ some t)
      × (test t ≡ true)
      × (count_where test l.tasks ≡ 1)
unfolding transact
transact-found id test set reason e l sel u h = elim (Option-cases (find_task id l.tasks)) [
  | inl absent ↦ absurd (ground (arith, count-find id test sel l.tasks u))
  | inr (t, f) ↦ (
    t,
    f,
    ground (arith, count-find id test sel l.tasks u),
    ground (arith, count-find id test sel l.tasks u),
  )
]
