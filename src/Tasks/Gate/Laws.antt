-- ===== src/Tasks/Gate/Laws.antt =====
-- The capability gate against its specification.
use entigram.Base.{
  List-cases, contains, Some, Never, Bool-cases, ◌⊎◌, inl, inr, [], refl, ℕ, true, false, ◌≡◌, ◌≤◌,
  ◌↔◌, Option, arith, if◌then◌else◌,
}
use entigram.Tasks.Types.{Risk, Agent, Task}
use entigram.Tasks.Rows.{is_high}
use entigram.Tasks.Gate.{
  risk_name, evaluate_agent_assignment, is_restricted, is_allowed, score_for, risk_required_score,
  task_score, full_score,
}
use entigram.Tasks.Gate.Scores.{
  Scores, Least, Names, contains_iff, names_either, contains-Names, score_for-Scores,
  Scores-score_for, risk-Least, Least-risk,
}

-- The agent is not restricted from the task's class or risk; its allow-list is empty, has the star, or
-- names them; and its score reaches what the task asks for and what the risk takes.
pub record IsQualified (agent : Agent) (task : Task) : Type 0 where
  pub unrestricted : (Names agent.restricted_task_classes task → Never {0})
  pub allowed :
      (agent.allowed_task_classes ≡ [])
      ⊎ (Some (λ c. c ≡ "*") agent.allowed_task_classes)
      ⊎ (Names agent.allowed_task_classes task)
  pub score : ℕ
  pub scored : Scores agent task.task_type score
  pub asked : task.required_score ≤ score
  pub least : ℕ
  pub taken : Least task.risk_level least
  pub reached : least ≤ score

allowed-Names :
    (agent : Agent) (task : Task)
    → is_allowed agent task ≡ true
    → (agent.allowed_task_classes ≡ [])
      ⊎ (Some (λ c. c ≡ "*") agent.allowed_task_classes)
      ⊎ (Names agent.allowed_task_classes task)
allowed-Names agent task h = elim (List-cases agent.allowed_task_classes) [
  | inl e ↦ inl e
  | inr (c, cs, e) ↦ elim (Bool-cases (contains agent.allowed_task_classes "*")) [
    | inl s ↦ inr (inl ((contains_iff agent.allowed_task_classes "*").0 s))
    | inr s ↦ inr (
        inr (
          contains-Names agent.allowed_task_classes task.task_type (risk_name task.risk_level)
            (ground arith)))
  ]
]

Names-allowed :
    (agent : Agent) (task : Task)
    → (agent.allowed_task_classes ≡ [])
      ⊎ (Some (λ c. c ≡ "*") agent.allowed_task_classes)
      ⊎ (Names agent.allowed_task_classes task)
    → is_allowed agent task ≡ true
Names-allowed agent task h = elim (List-cases agent.allowed_task_classes) [
  | inl e ↦ rw e refl
  | inr (c, cs, e) ↦ elim h [
    | inl n ↦ absurd (ground arith)
    | inr (inl s) ↦ (let k = (contains_iff agent.allowed_task_classes "*").1 s in ground arith)
    | inr (inr n) ↦
        (let k =
            names_either agent.allowed_task_classes task.task_type (risk_name task.risk_level) n in
          ground arith)
  ]
]

evaluate-IsQualified :
    (agent : Agent) (task : Task)
    → (evaluate_agent_assignment agent task).ok ≡ true
    → IsQualified agent task
unfolding evaluate_agent_assignment
evaluate-IsQualified agent task h = record {
  unrestricted = λ n.
      (let k =
          names_either agent.restricted_task_classes task.task_type (risk_name task.risk_level) n in
        absurd (ground arith));
  allowed = allowed-Names agent task (ground arith);
  score = score_for agent task;
  scored = score_for-Scores agent task;
  asked = ground arith;
  least = risk_required_score task.risk_level;
  taken = risk-Least task.risk_level;
  reached = ground arith;
}

IsQualified-evaluate :
    (agent : Agent) (task : Task)
    → IsQualified agent task
    → (evaluate_agent_assignment agent task).ok ≡ true
unfolding evaluate_agent_assignment
IsQualified-evaluate agent task q =
    let clear : is_restricted agent task ≡ false = elim (Bool-cases (is_restricted agent task)) [
      | inr e ↦ e
      | inl e ↦
          elim (q.unrestricted (
            contains-Names agent.restricted_task_classes task.task_type (risk_name task.risk_level)
              e)) [ ]
    ] in
    ground (
      arith,
      clear,
      Names-allowed agent task q.allowed,
      Scores-score_for agent task q.score q.scored,
      Least-risk q.taken,
      q.asked,
      q.reached,
    )

-- The gate clears an assignment exactly when no restriction of the agent names the task's class or its
-- risk, the allow-list is empty, has the star or names them, and the score that counts for the class
-- reaches both the task's required score and the least score of its risk.
pub evaluate-ok_iff :
    (agent : Agent) (task : Task)
    → ((evaluate_agent_assignment agent task).ok ≡ true) ↔ IsQualified agent task
evaluate-ok_iff agent task = (evaluate-IsQualified agent task, IsQualified-evaluate agent task)

-- A refusal is reported as a serious conflict exactly when the task is of high or critical risk; an
-- assignment that clears never is.
pub evaluate-serious :
    (agent : Agent) (task : Task)
    → (evaluate_agent_assignment agent task).serious_conflict
      ≡ (if (evaluate_agent_assignment agent task).ok then false else is_high task.risk_level)
unfolding evaluate_agent_assignment
evaluate-serious agent task = ground arith

-- The score that a new task requires is never below the minimum of its risk, nor above 1.00, and a
-- requester can only raise it.
pub task_score_bounds :
    (risk : Risk) (asked : Option ℕ)
    → (risk_required_score risk ≤ task_score risk asked) × (task_score risk asked ≤ full_score)
unfolding task_score
task_score_bounds risk asked = ground arith
