-- ===== src/Budgets.antt =====
-- The budgets of personas: `persona_budget_pure` of cys_core/domain/policy/pure.py with the table of
-- cys_core/domain/policy/defaults.py, and `enrich_job_budget` of cys_core/domain/workers/budgets.py.
-- The catalog's entry of a persona is an argument.
pub mod Positive
use cys_agi.Prelude.{
  ℤ, pos, or_ℤ, ℕ, String, Option, none, some, List, [], ◌∷◌, string_eq, if◌then◌else◌,
}
use cys_agi.Dict
use cys_agi.Dict.{Dict}
use cys_agi.Floats.{FloatOps}
use cys_agi.Spawn.{WorkerJob}

pub record PersonaBudget (F : Type 0) : Type 0 where
  pub max_tokens : ℤ
  pub max_cost_usd : F
  pub max_tool_calls : ℤ

-- The budget fields of `AgentCatalogEntry`, which are not validated.
pub record BudgetEntry (F : Type 0) : Type 0 where
  pub budget_max_tokens : Option ℤ
  pub budget_max_cost_usd : Option F
  pub budget_max_tool_calls : Option ℤ

-- `a or b` of numbers
abbrev pub or_ℕ : ℕ → ℕ → ℕ
or_ℕ Prim.Native.Nat.zero b = b
or_ℕ (Prim.Native.Nat.suc a) b = Prim.Native.Nat.suc a

module _ {F : Type 0} ⦃fl : FloatOps F⦄ where
  -- `a or b` of floats: `a` is no zero if it is above or below it
  abbrev pub or_float : F → F → F
  or_float a b = if fl.gt a (fl.of_ℕ 0) then a else if fl.gt (fl.of_ℕ 0) a then a else b

  -- a row of the table, with the default number of tool calls
  abbrev budget : ℕ → (tenths : ℕ) → PersonaBudget F
  budget max_tokens tenths = record {
    max_tokens = pos max_tokens;
    max_cost_usd = fl.decimal tenths 1;
    max_tool_calls = pos 50;
  }

  abbrev pub default_budget : PersonaBudget F
  default_budget = budget 40000 20

  abbrev pub persona_budgets : Dict String (PersonaBudget F)
  persona_budgets =
      ("soc", budget 50000 20)
      ∷ ("network", budget 50000 20)
      ∷ ("compliance", budget 40000 15)
      ∷ ("redteam", budget 80000 50)
      ∷ ("intel", budget 45000 20)
      ∷ ("hunter", budget 55000 25)
      ∷ ("identity", budget 50000 20)
      ∷ ("dfir", budget 60000 30)
      ∷ ("cloud", budget 50000 20)
      ∷ ("purple", budget 45000 15)
      ∷ ("consultant", budget 35000 10)
      ∷ ("conductor", budget 60000 30)
      ∷ ("gaia_solver", budget 80000 40)
      ∷ ("research", budget 55000 25)
      ∷ ("coding", budget 70000 35)
      ∷ []

  unfoldable pub persona_budget_pure : String → Option (BudgetEntry F) → PersonaBudget F
  persona_budget_pure persona entry =
      let by_table : PersonaBudget F = Dict.get_or persona_budgets persona default_budget in
      elim entry [
        | none ↦ by_table
        | some e ↦
            let by_entry : PersonaBudget F = record {
              max_tokens = elim e.budget_max_tokens [
                | none ↦ pos 40000
                | some n ↦ or_ℤ n (pos 40000)
              ];
              max_cost_usd = elim e.budget_max_cost_usd [
                | none ↦ fl.decimal 20 1
                | some x ↦ or_float x (fl.decimal 20 1)
              ];
              max_tool_calls = elim e.budget_max_tool_calls [
                | none ↦ pos 50
                | some n ↦ or_ℤ n (pos 50)
              ];
            } in
            elim e.budget_max_tokens [
              | some _ ↦ by_entry
              | none ↦ elim e.budget_max_cost_usd [ some _ ↦ by_entry | none ↦ by_table ]
            ]
      ]

  unfoldable pub enrich_job_budget : Option (BudgetEntry F) → WorkerJob F → WorkerJob F
  unfolding persona_budget_pure
  enrich_job_budget entry j =
      let b = persona_budget_pure j.persona entry in
      record j {
        max_tokens = or_ℤ j.max_tokens b.max_tokens;
        max_cost_usd = or_float j.max_cost_usd b.max_cost_usd;
        max_tool_calls = or_ℤ j.max_tool_calls b.max_tool_calls;
      }
