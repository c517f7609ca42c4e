-- ===== src/Tasks/Gate.antt =====
-- The capability gate: `_normalize_risk_level`, `TASK_RISK_REQUIRED_SCORE` and
-- `evaluate_agent_assignment`.
pub mod Scores
pub mod Laws
use Prim.Native.Nat.{min, max}
use Prim.Native.Nat.{◌%◌}
use Prim.Native.String.{◌++◌ as ◌<>◌}
use entigram.Base.{
  zero, suc, ◌/◌, eqb, ℕ, String, Bool, true, false, not, ◌==◌, ◌&&◌, ◌||◌, ltb, if◌then◌else◌,
  Option, none, some, List, [], ◌∷◌, codes, lower, strip, replace_char, same_codes, contains,
  lookup,
}
use entigram.Tasks.Types.{
  Risk, read_only, low_risk, medium_risk, high_risk, critical, Agent, Task, Reason, Decision,
}
use entigram.Tasks.Rows.{is_high}

-- 1.0
abbrev pub full_score : ℕ
full_score = 100

abbrev pub risk_required_score : Risk → ℕ
risk_required_score read_only = 10
risk_required_score low_risk = 35
risk_required_score medium_risk = 60
risk_required_score high_risk = 80
risk_required_score critical = 95

abbrev pub risk_name : Risk → String
risk_name read_only = "read_only"
risk_name low_risk = "low_risk"
risk_name medium_risk = "medium_risk"
risk_name high_risk = "high_risk"
risk_name critical = "critical"

risk_of_codes : List ℕ → Option Risk
risk_of_codes s =
    if same_codes s (codes "read_only")
    then some read_only
    else if same_codes s (codes "low_risk")
    then some low_risk
    else if same_codes s (codes "medium_risk")
    then some medium_risk
    else if same_codes s (codes "high_risk")
    then some high_risk
    else if same_codes s (codes "critical")
    then some critical
    else none

-- `none` is the `ValueError`
unfoldable pub normalize_risk_level : String → Option Risk
unfolding risk_of_codes lower strip
normalize_risk_level s =
    if s == ""
    then some low_risk
    else risk_of_codes (replace_char b'-' b'_' (lower (strip (codes s))))

-- the score that a new task requires: never below the minimum of its risk
unfoldable pub task_score : Risk → Option ℕ → ℕ
task_score risk none = risk_required_score risk
task_score risk (some s) = max (risk_required_score risk) (min full_score s)

abbrev pub score_for : Agent → Task → ℕ
score_for agent task = elim (lookup task.task_type agent.capability_scores) [
  | some s ↦ s
  | none ↦ agent.reliability_score
]

abbrev pub required_for : Task → ℕ
required_for task = max task.required_score (risk_required_score task.risk_level)

abbrev pub is_restricted : Agent → Task → Bool
is_restricted agent task =
    contains agent.restricted_task_classes task.task_type
    || contains agent.restricted_task_classes (risk_name task.risk_level)

abbrev pub is_allowed : Agent → Task → Bool
is_allowed agent task = elim agent.allowed_task_classes [
  | [] ↦ true
  | c ∷ cs ↦
      contains (c ∷ cs) "*"
      || contains (c ∷ cs) task.task_type
      || contains (c ∷ cs) (risk_name task.risk_level)
]

abbrev digit : ℕ → String
digit n =
    if eqb n 0
    then "0"
    else if eqb n 1
    then "1"
    else if eqb n 2
    then "2"
    else if eqb n 3
    then "3"
    else if eqb n 4
    then "4"
    else if eqb n 5
    then "5"
    else if eqb n 6
    then "6"
    else if eqb n 7
    then "7"
    else if eqb n 8
    then "8"
    else "9"

-- the fuel is the number itself, which has fewer digits than its value plus one
decimal : ℕ → ℕ → String → String
decimal zero n rest = rest
decimal (suc fuel) n rest =
    let shown = digit (n % 10) <> rest in
    let more = decimal fuel (n / 10) shown in if ltb n 10 then shown else more

-- `f"{score:.2f}"`
unfoldable pub two_places : ℕ → String
unfolding decimal
two_places s = decimal (suc s) (s / 100) "" <> "." <> digit (s / 10 % 10) <> digit (s % 10)

unfoldable pub scored_rationale : Agent → Task → String
unfolding two_places
scored_rationale agent task =
    agent.agent_id
    <> " scored "
    <> two_places (score_for agent task)
    <> " for "
    <> task.task_type
    <> "; "
    <> risk_name task.risk_level
    <> " requires "
    <> two_places (required_for task)
    <> "."

abbrev class_rationale : Agent → Task → String → String
class_rationale agent task words =
    agent.agent_id <> words <> task.task_type <> "/" <> risk_name task.risk_level <> "."

abbrev pub decision : Agent → Task → Bool → Reason → String → Decision
decision agent task ok reason rationale = record {
  ok = ok;
  reason = reason;
  serious_conflict = not ok && is_high task.risk_level;
  rationale = rationale;
}

unfoldable pub evaluate_agent_assignment : Agent → Task → Decision
evaluate_agent_assignment agent task =
    if is_restricted agent task
    then decision agent task false Reason.task_class_restricted
        (class_rationale agent task " is restricted from ")
    else if not (is_allowed agent task)
    then decision agent task false Reason.task_class_not_allowed
        (class_rationale agent task " is not allow-listed for ")
    else if ltb (score_for agent task) (required_for task)
    then decision agent task false Reason.capability_score_too_low (scored_rationale agent task)
    else decision agent task true Reason.assignment_allowed (scored_rationale agent task)
