-- ===== src/Runs/Step/Budget.antt =====
-- The budget of a step's session (cys_core/application/use_cases/run_step.py,
-- cys_core/application/runs/run_budget.py).
use cys_agi.Prelude.{at_least_zero, String, ◌≡◌, none, string_eq}
use cys_agi.Dict
use cys_agi.Floats.{FloatOps}
use cys_agi.JobBudget
use cys_agi.JobBudget.{JobBudgetState}
use cys_agi.Budgets.{PersonaBudget}
use cys_agi.Runs.{RunDesk}
use cys_agi.Runs.Step.Keeps.{Keeps}

abbrev HasNoBudget : {F : Type 0} → String → RunDesk F → Type 0
HasNoBudget session_id d = JobBudget.get d.budget session_id ≡ none

-- A budget of which nothing is used.
abbrev pub unused : {F : Type 0} ⦃fl : FloatOps F⦄ → PersonaBudget F → JobBudgetState F
unused ⦃fl⦄ b = record {
  max_tokens = at_least_zero b.max_tokens;
  max_cost_usd = b.max_cost_usd;
  max_tool_calls = at_least_zero b.max_tool_calls;
  tokens_used = 0;
  cost_usd = fl.of_ℕ 0;
  tool_calls = 0;
}
