-- ===== src/JobBudget/Tokens.antt =====
-- The token and cost budgets of cys_core/domain/workers/job_budget.py.
use cys_agi.Prelude.{ℕ, ◌+◌, ◌≤◌, ◌<◌, String, ◌≡◌, ◌≢◌, ◌↔◌, false, some, arith, string_eq, ok}
use cys_agi.Floats.{FloatOps}
use cys_agi.Dict
use cys_agi.JobBudget.{
  JobBudgetState, JobBudgetTracker, charged, check_limits, record_tokens, record_tool_call,
}

module _ {F : Type 0} ⦃fl : FloatOps F⦄ (t : JobBudgetTracker F) (s : String) (n : ℕ)
    (state : JobBudgetState F) where
  abbrev spent : JobBudgetState F
  spent = charged t s n state

  record_tokens_charge :
      Dict.get t.states s ≡ some state
      → 0 < n
      → record_tokens s n t ≡ (check_limits spent, record t { states = Dict.set t.states s spent })
  unfolding record_tokens
  record_tokens_charge found pos = ground arith

  check_limits_iff : (check_limits spent ≡ ok tt) ↔ (
      (state.tokens_used + n ≤ state.max_tokens)
      × (fl.gt spent.cost_usd state.max_cost_usd ≡ false))
  unfolding check_limits charged
  check_limits_iff = ground arith

  -- A charge of at least one token is written to the session whether or not the limits hold after
  -- it, and is accepted exactly if neither the tokens nor the cost are then above their maximum.
  pub record_tokens_outcome :
      Dict.get t.states s ≡ some state
      → 0 < n
      → (Dict.get (record_tokens s n t).1.states s ≡ some (charged t s n state))
        × (((record_tokens s n t).0 ≡ ok tt) ↔ (
            (state.tokens_used + n ≤ state.max_tokens)
            × (fl.gt (charged t s n state).cost_usd state.max_cost_usd ≡ false)))
  record_tokens_outcome found pos =
      rw (record_tokens_charge found pos) (Dict.get-set_self t.states s spent, check_limits_iff)

-- What one session records never changes what another session has.
pub record_isolated :
    {F : Type 0} ⦃fl : FloatOps F⦄ (t : JobBudgetTracker F) (s other : String) (n : ℕ)
    → s ≢ other
    → (Dict.get (record_tokens s n t).1.states other ≡ Dict.get t.states other)
      × (Dict.get (record_tool_call s t).1.states other ≡ Dict.get t.states other)
unfolding record_tokens record_tool_call
record_isolated t s other n ne = grind (arith, Dict.get-set, string_eq.beq_iff s other)
