-- ===== src/Budgets/Positive.antt =====
-- What a job may spend after `enrich_job_budget` (cys_core/domain/workers/budgets.py).
use cys_agi.Prelude.{
  ℤ, pos, negsuc, or_ℤ, ℕ, zero, suc, ◌<◌, String, ◌≡◌, refl, Option, none, some, arith,
  Option-cases, inl, inr, string_eq,
}
use cys_agi.Dict
use cys_agi.Floats.{FloatOps}
use cys_agi.Spawn.{WorkerJob}
use cys_agi.Budgets.{
  PersonaBudget, BudgetEntry, persona_budgets, default_budget, persona_budget_pure,
  enrich_job_budget,
}

abbrev pub IsPositive : ℤ → Type 0
IsPositive (pos n) = 0 < n
IsPositive (negsuc n) = ⊥

abbrev pub IsNatural : ℤ → Type 0
IsNatural (pos n) = Unit
IsNatural (negsuc n) = ⊥

abbrev IsPositiveBudget : {F : Type 0} → PersonaBudget F → Type 0
IsPositiveBudget b = IsPositive b.max_tokens × IsPositive b.max_tool_calls

-- The limits that an entry states are not below zero.
abbrev pub IsNaturalEntry : {F : Type 0} → Option (BudgetEntry F) → Type 0
IsNaturalEntry none = Unit
IsNaturalEntry (some e) =
    ((n : ℤ) → e.budget_max_tokens ≡ some n → IsNatural n)
    × ((n : ℤ) → e.budget_max_tool_calls ≡ some n → IsNatural n)

or_ℤ-IsPositive : (a b : ℤ) → IsNatural a → IsPositive b → IsPositive (or_ℤ a b)
or_ℤ-IsPositive (pos zero) b natural h = h
or_ℤ-IsPositive (pos (suc a)) b natural h = omega arith
or_ℤ-IsPositive (negsuc a) b natural h = absurd natural

-- What an optional limit or a positive default comes to.
or_default-IsPositive :
    (o : Option ℤ) (n : ℕ)
    → 0 < n
    → ((a : ℤ) → o ≡ some a → IsNatural a)
    → IsPositive (elim o [ none ↦ pos n | some a ↦ or_ℤ a (pos n) ])
or_default-IsPositive none n h natural = h
or_default-IsPositive (some a) n h natural = or_ℤ-IsPositive a (pos n) (natural a refl) h

table-IsPositive :
    (F : Type 0) ⦃fl : FloatOps F⦄
    → Dict.AllPairs
        (λ (k : String) (b : PersonaBudget F). IsPositiveBudget b)
        (persona_budgets {F = F})
table-IsPositive F = (
  (omega arith, omega arith),
  (
    (omega arith, omega arith),
    (
      (omega arith, omega arith),
      (
        (omega arith, omega arith),
        (
          (omega arith, omega arith),
          (
            (omega arith, omega arith),
            (
              (omega arith, omega arith),
              (
                (omega arith, omega arith),
                (
                  (omega arith, omega arith),
                  (
                    (omega arith, omega arith),
                    (
                      (omega arith, omega arith),
                      (
                        (omega arith, omega arith),
                        (
                          (omega arith, omega arith),
                          ((omega arith, omega arith), ((omega arith, omega arith), tt)),
                        ),
                      ),
                    ),
                  ),
                ),
              ),
            ),
          ),
        ),
      ),
    ),
  ),
)

by_table-IsPositive :
    (F : Type 0) ⦃fl : FloatOps F⦄ (persona : String)
    → IsPositiveBudget (Dict.get_or (persona_budgets {F = F}) persona default_budget)
by_table-IsPositive F persona = elim (Option-cases (Dict.get (persona_budgets {F = F}) persona)) [
  | inl absent ↦ rw (absent, Dict.get_or) (omega arith, omega arith)
  | inr (b, found) ↦
      rw (found, Dict.get_or)
        (Dict.AllPairs-get (λ (k : String) (x : PersonaBudget F). IsPositiveBudget x)
          (persona_budgets {F = F}) persona b (table-IsPositive F) found)
]

module _ {F : Type 0} ⦃fl : FloatOps F⦄ where
  persona_budget_pure-IsPositive :
      (persona : String) (entry : Option (BudgetEntry F))
      → IsNaturalEntry entry
      → IsPositiveBudget (persona_budget_pure persona entry)
  unfolding persona_budget_pure
  persona_budget_pure-IsPositive persona none natural = by_table-IsPositive F persona
  persona_budget_pure-IsPositive persona (some e) natural =
      let tokens = or_default-IsPositive e.budget_max_tokens 40000 (omega arith) natural.0 in
      let calls = or_default-IsPositive e.budget_max_tool_calls 50 (omega arith) natural.1 in
      elim (Option-cases e.budget_max_tokens) [
        | inr (n, found) ↦ rw (found, persona_budget_pure) (tokens, calls)
        | inl absent ↦ elim (Option-cases e.budget_max_cost_usd) [
          | inr (x, found) ↦ rw (absent, found, persona_budget_pure) (tokens, calls)
          | inl free ↦ rw (absent, free, persona_budget_pure) (by_table-IsPositive F persona)
        ]
      ]

  -- A job that was enriched may use at least one token and make at least one tool call, whatever it
  -- and the catalog's entry of its persona say, unless one of them states a limit below zero.
  pub enrich_job_budget-IsPositive :
      (entry : Option (BudgetEntry F)) (j : WorkerJob F)
      → IsNaturalEntry entry
      → IsNatural j.max_tokens
      → IsNatural j.max_tool_calls
      → IsPositive (enrich_job_budget entry j).max_tokens
        × IsPositive (enrich_job_budget entry j).max_tool_calls
  unfolding enrich_job_budget
  enrich_job_budget-IsPositive entry j of_entry of_tokens of_calls =
      let (tokens, calls) = persona_budget_pure-IsPositive j.persona entry of_entry in
      (
        or_ℤ-IsPositive j.max_tokens _ of_tokens tokens,
        or_ℤ-IsPositive j.max_tool_calls _ of_calls calls,
      )
