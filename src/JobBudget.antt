-- ===== src/JobBudget.antt =====
-- cys_core/domain/workers/job_budget.py: the counters of tokens, cost and tool calls of a session.
-- Class attributes and module globals are the fields of one record. A count of tokens is a natural
-- number; the code treats a negative one as it treats 0. Limits are natural numbers too: a limit
-- below zero refuses what one of zero refuses, so the callers of `configure` pass it as zero.
pub mod Quota
pub mod Tokens
use cys_agi.Prelude.{
  ℕ, ◌+◌, ◌/◌, max, String, Bool, true, false, ◌&&◌, Option, none, some, [], leb, ltb,
  if◌then◌else◌, truthy, string_eq, Result, ok, err, Exec, ◌>>=◌, ◌>>◌,
}
use cys_agi.Floats.{FloatOps}
use cys_agi.Dict
use cys_agi.Dict.{Dict}

pub data JobBudgetExceeded (F : Type 0) : Type 0 where
  tool_call_budget : (max_tool_calls : ℕ) → JobBudgetExceeded F
  token_budget : (max_tokens : ℕ) → JobBudgetExceeded F
  cost_budget : (max_cost_usd : F) → JobBudgetExceeded F

pub record JobBudgetState (F : Type 0) : Type 0 where
  pub max_tokens : ℕ
  pub max_cost_usd : F
  pub max_tool_calls : ℕ
  pub tokens_used : ℕ
  pub cost_usd : F
  pub tool_calls : ℕ

pub record JobBudgetTracker (F : Type 0) : Type 0 where
  pub states : Dict String (JobBudgetState F)
  pub profile_ids : Dict String String
  pub cost_per_1k_tokens_usd : F
  pub profile_costs : Dict String F

module _ {F : Type 0} ⦃fl : FloatOps F⦄ where
  -- the state at import: no session, and the default rate
  abbrev pub empty : JobBudgetTracker F
  empty = record {
    states = [];
    profile_ids = [];
    cost_per_1k_tokens_usd = fl.decimal 3 3;
    profile_costs = [];
  }

  unfoldable pub configure_job_cost : F → Option String → JobBudgetTracker F → JobBudgetTracker F
  configure_job_cost rate none t = record t { cost_per_1k_tokens_usd = rate }
  configure_job_cost rate (some profile_id) t =
      if truthy profile_id
      then record t { profile_costs = Dict.set t.profile_costs profile_id rate }
      else record t { cost_per_1k_tokens_usd = rate }

  unfoldable pub cost_rate : JobBudgetTracker F → Option String → F
  cost_rate t none = t.cost_per_1k_tokens_usd
  cost_rate t (some profile_id) =
      if truthy profile_id
      then Dict.get_or t.profile_costs profile_id t.cost_per_1k_tokens_usd
      else t.cost_per_1k_tokens_usd

  unfoldable pub configure : String → ℕ → F → ℕ → String → JobBudgetTracker F → JobBudgetTracker F
  configure session_id max_tokens max_cost_usd max_tool_calls profile_id t = record t {
    states = Dict.set t.states session_id (record {
      max_tokens = max_tokens;
      max_cost_usd = max_cost_usd;
      max_tool_calls = max_tool_calls;
      tokens_used = 0;
      cost_usd = fl.of_ℕ 0;
      tool_calls = 0;
    });
    profile_ids = Dict.set t.profile_ids session_id profile_id;
  }

  -- `_check_limits`
  unfoldable pub check_limits : JobBudgetState F → Result (JobBudgetExceeded F) (Unit {0})
  check_limits state =
      if ltb state.max_tokens state.tokens_used
      then err (token_budget state.max_tokens)
      else if fl.gt state.cost_usd state.max_cost_usd
      then err (cost_budget state.max_cost_usd)
      else ok tt

  -- `tokens_used += tokens` and `cost_usd += (tokens / 1000.0) * rate`
  unfoldable pub charged : JobBudgetTracker F → String → ℕ → JobBudgetState F → JobBudgetState F
  charged t session_id tokens state = record state {
    tokens_used = state.tokens_used + tokens;
    cost_usd = fl.add state.cost_usd (
        fl.mul (fl.div (fl.of_ℕ tokens) (fl.of_ℕ 1000))
          (cost_rate t (Dict.get t.profile_ids session_id)));
  }

  -- The counters stay written when the check after them raises.
  unfoldable pub record_tokens :
      String → ℕ → Exec (JobBudgetTracker F) (JobBudgetExceeded F) (Unit {0})
  record_tokens session_id tokens t = elim (Dict.get t.states session_id) [
    | none ↦ (ok tt, t)
    | some state ↦ if leb tokens 0 then (ok tt, t) else (
      check_limits (charged t session_id tokens state),
      record t { states = Dict.set t.states session_id (charged t session_id tokens state) },
    )
  ]

module _ {F : Type 0} where
  unfoldable pub get : JobBudgetTracker F → String → Option (JobBudgetState F)
  get t session_id = Dict.get t.states session_id

  unfoldable pub clear : String → JobBudgetTracker F → JobBudgetTracker F
  clear session_id t = record t {
    states = Dict.pop t.states session_id;
    profile_ids = Dict.pop t.profile_ids session_id;
  }

  -- The profile ids stay.
  unfoldable pub clear_all : JobBudgetTracker F → JobBudgetTracker F
  clear_all t = record t { states = [] }

  unfoldable pub check_tool_call :
      String → Exec (JobBudgetTracker F) (JobBudgetExceeded F) (Unit {0})
  check_tool_call session_id t = elim (Dict.get t.states session_id) [
    | none ↦ (ok tt, t)
    | some state ↦
        if leb state.max_tool_calls state.tool_calls
        then (err (tool_call_budget state.max_tool_calls), t)
        else (ok tt, t)
  ]

  -- `state.tool_calls += 1`, of the session's state if it has one
  unfoldable pub count_tool_call :
      String → Exec (JobBudgetTracker F) (JobBudgetExceeded F) (Unit {0})
  count_tool_call session_id t = elim (Dict.get t.states session_id) [
    | none ↦ (ok tt, t)
    | some state ↦ (
      ok tt,
      record t {
        states = Dict.set t.states session_id (record state { tool_calls = state.tool_calls + 1 });
      },
    )
  ]

  unfoldable pub record_tool_call :
      String → Exec (JobBudgetTracker F) (JobBudgetExceeded F) (Unit {0})
  unfolding check_tool_call count_tool_call
  record_tool_call session_id = do check_tool_call session_id; count_tool_call session_id

-- `len(text) // 4`, at least 1, from the length of the text
unfoldable pub estimate_tokens : ℕ → ℕ
estimate_tokens len = max 1 (len / 4)
