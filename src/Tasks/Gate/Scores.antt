-- ===== src/Tasks/Gate/Scores.antt =====
-- The classes and the scores that the capability gate compares (entigram/sqlite_ledger/manager.py).
use entigram.Base.{
  eq_iff, lookup, contains, All, Some, String, Bool-cases, ◌==◌, ◌||◌, ◌≢◌, ◌⊎◌, inl, inr, List, [],
  ◌∷◌, some, none, refl, ℕ, true, ◌≡◌, ◌↔◌, arith,
}
use entigram.Tasks.Types.{Risk, Agent, Task}
use entigram.Tasks.Gate.{risk_name, score_for, risk_required_score}

-- what a table holds for a key, by its first entry for it
pub data Holds (k : String) : List (String × ℕ) → ℕ → Type 0 where
  here : (j : String) (n : ℕ) (rest : List (String × ℕ)) → j ≡ k → Holds k ((j, n) ∷ rest) n
  there :
      (j : String) (m n : ℕ) (rest : List (String × ℕ))
      → j ≢ k
      → Holds k rest n
      → Holds k ((j, m) ∷ rest) n

-- The score that counts for a class of tasks: the capability score of the class if the agent has one,
-- its reliability otherwise.
pub data Scores (agent : Agent) (task_type : String) : ℕ → Type 0 where
  by_capability : (n : ℕ) → Holds task_type agent.capability_scores n → Scores agent task_type n
  by_reliability :
      All (λ p. p.0 ≢ task_type) agent.capability_scores
      → Scores agent task_type agent.reliability_score

-- the least score, in hundredths, that work of a risk takes
pub data Least : Risk → ℕ → Type 0 where
  least_read_only : Least Risk.read_only 10
  least_low : Least Risk.low_risk 35
  least_medium : Least Risk.medium_risk 60
  least_high : Least Risk.high_risk 80
  least_critical : Least Risk.critical 95

-- a class list that names the class or the risk of the task
abbrev pub Names : List String → Task → Type 0
Names classes task = Some (λ c. (c ≡ task.task_type) ⊎ (c ≡ risk_name task.risk_level)) classes

-- lists of classes: what `contains` says
pub contains_iff : (xs : List String) (s : String) → (contains xs s ≡ true) ↔ Some (λ x. x ≡ s) xs
contains_iff [] s = (λ h. absurd (ground arith), λ n. elim n [ ])
contains_iff (x ∷ xs) s =
    let rest = contains_iff xs s in
    (
      λ h. elim (Bool-cases (x == s)) [
        | inl e ↦ inl ((eq_iff x s).0 e)
        | inr e ↦ inr (rest.0 (ground arith))
      ],
      λ m. elim m [
        | inl e ↦ ground (arith, eq_iff x s)
        | inr n ↦ (let c = rest.1 n in ground arith)
      ],
    )

names_left :
    (xs : List String) (s t : String) → Some (λ c. c ≡ s) xs → Some (λ c. (c ≡ s) ⊎ (c ≡ t)) xs
names_left (x ∷ xs) s t (inl e) = inl (inl e)
names_left (x ∷ xs) s t (inr n) = inr (names_left xs s t n)
names_left [] s t n = elim n [ ]

names_right :
    (xs : List String) (s t : String) → Some (λ c. c ≡ t) xs → Some (λ c. (c ≡ s) ⊎ (c ≡ t)) xs
names_right (x ∷ xs) s t (inl e) = inl (inr e)
names_right (x ∷ xs) s t (inr n) = inr (names_right xs s t n)
names_right [] s t n = elim n [ ]

pub names_either :
    (xs : List String) (s t : String)
    → Some (λ c. (c ≡ s) ⊎ (c ≡ t)) xs
    → contains xs s || contains xs t ≡ true
names_either (x ∷ xs) s t (inl (inl e)) = ground (arith, eq_iff x s)
names_either (x ∷ xs) s t (inl (inr e)) = ground (arith, eq_iff x t)
names_either (x ∷ xs) s t (inr n) = ground (arith, names_either xs s t n)
names_either [] s t n = elim n [ ]

pub contains-Names :
    (xs : List String) (s t : String)
    → contains xs s || contains xs t ≡ true
    → Some (λ c. (c ≡ s) ⊎ (c ≡ t)) xs
contains-Names xs s t h = elim (Bool-cases (contains xs s)) [
  | inl e ↦ names_left xs s t ((contains_iff xs s).0 e)
  | inr e ↦ names_right xs s t ((contains_iff xs t).0 (ground arith))
]

lookup-Holds :
    (d : List (String × ℕ)) (k : String)
    → ((n : ℕ) × (lookup k d ≡ some n) × Holds k d n) ⊎ ((lookup k d ≡ none) × All (λ p. p.0 ≢ k) d)
lookup-Holds [] k = inr (refl, tt)
lookup-Holds ((j, m) ∷ d) k = elim (Bool-cases (j == k)) [
  | inl e ↦ inl (m, rw e refl, here j m d ((eq_iff j k).0 e))
  | inr e ↦
      let differs : j ≢ k = λ s. ground (arith, eq_iff j k) in
      elim (lookup-Holds d k) [
        | inl (n, p, h) ↦ inl (n, rw e p, there j m n d differs h)
        | inr (p, a) ↦ inr (rw e p, (differs, a))
      ]
]

pub score_for-Scores :
    (agent : Agent) (task : Task) → Scores agent task.task_type (score_for agent task)
score_for-Scores agent task = elim (lookup-Holds agent.capability_scores task.task_type) [
  | inl (n, p, h) ↦ rw (p, score_for) (by_capability n h)
  | inr (p, a) ↦ rw (p, score_for) (by_reliability a)
]

Holds-lookup : {k : String} {d : List (String × ℕ)} {n : ℕ} → Holds k d n → lookup k d ≡ some n
Holds-lookup {k} (here j n rest e) = ground (arith, eq_iff j k)
Holds-lookup {k} (there j m n rest differs h) = ground (arith, eq_iff j k, Holds-lookup h)

absent-lookup : (k : String) (d : List (String × ℕ)) → All (λ p. p.0 ≢ k) d → lookup k d ≡ none
absent-lookup k [] a = refl
absent-lookup k ((j, m) ∷ d) a = ground (arith, a.0, eq_iff j k, absent-lookup k d a.1)

pub Scores-score_for :
    (agent : Agent) (task : Task) (n : ℕ) → Scores agent task.task_type n → score_for agent task ≡ n
Scores-score_for agent task _ (by_capability n h) = rw (Holds-lookup h, score_for) refl
Scores-score_for agent task _ (by_reliability a) =
    rw (absent-lookup task.task_type agent.capability_scores a, score_for) refl

pub risk-Least : (risk : Risk) → Least risk (risk_required_score risk)
risk-Least Risk.read_only = least_read_only
risk-Least Risk.low_risk = least_low
risk-Least Risk.medium_risk = least_medium
risk-Least Risk.high_risk = least_high
risk-Least Risk.critical = least_critical

pub Least-risk : {risk : Risk} {n : ℕ} → Least risk n → risk_required_score risk ≡ n
Least-risk least_read_only = refl
Least-risk least_low = refl
Least-risk least_medium = refl
Least-risk least_high = refl
Least-risk least_critical = refl
