-- ===== src/ToolChain.antt =====
-- interfaces/gateways/tool/policy.py: the limit on high-risk tool calls in a row. The module's dict
-- of states is the argument `chains`, and the limit is `settings.max_high_risk_tool_chain_depth`.
pub mod Streaks
use cys_agi.Prelude.{
  ℕ, ◌+◌, String, Bool, Option, none, some, leb, string_eq, if◌then◌else◌, ◌or_else◌, Result, ok,
  err, Exec, [],
}
use cys_agi.Dict
use cys_agi.Dict.{Dict}
use cys_agi.Json.{Fields}
use cys_agi.Policy.{RiskLevel, high, risk_le, classify_tool_risk}

pub record ToolInvokeRequest : Type 0 where
  pub tool_name : String
  pub args : Fields
  pub persona : String
  pub sandbox_id : String
  pub job_id : String
  pub correlation_id : String

-- `_chains`, with `consecutive_high_risk` of each state
abbrev pub ToolChainStates : Type 0
ToolChainStates = Dict String ℕ

pub data ToolChainDepthExceeded : Type 0 where
  tool_chain_depth_exceeded : (limit : ℕ) → ToolChainDepthExceeded

abbrev pub chain_key : ToolInvokeRequest → String
chain_key request = request.job_id or_else request.sandbox_id

unfoldable pub is_high_risk_tool : String → Bool
is_high_risk_tool tool_name = risk_le high (classify_tool_risk tool_name none)

-- `get_chain_state`, which makes a state where there is none
unfoldable pub get_chain_state : String → ToolChainStates → ℕ × ToolChainStates
get_chain_state key chains = elim (Dict.get chains key) [
  | some n ↦ (n, chains)
  | none ↦ (0, Dict.set chains key 0)
]

unfoldable pub check_tool_chain :
    ℕ → ToolInvokeRequest → Exec ToolChainStates ToolChainDepthExceeded (Unit {0})
unfolding get_chain_state
check_tool_chain limit request chains =
    let key = chain_key request in
    let (n, chains') = get_chain_state key chains in
    if is_high_risk_tool request.tool_name
    then (if leb limit n
        then (err (tool_chain_depth_exceeded limit), chains')
        else (ok tt, Dict.set chains' key (n + 1)))
    else (ok tt, Dict.set chains' key 0)

unfoldable pub clear_chain_state : String → ToolChainStates → ToolChainStates
clear_chain_state key chains = Dict.pop chains key

abbrev pub clear_all_chain_states : ToolChainStates → ToolChainStates
clear_all_chain_states chains = []
