-- ===== src/Policy.antt =====
-- The pure policies of cys_core/domain/policy/pure.py, with cys_core/domain/security/risk_level.py,
-- cys_core/domain/security/risk.py and `ModePolicy` of cys_core/domain/runs/mode_policy.py. Looking up
-- the policy of a profile in the catalog may raise; it is an argument, `none` where it raised.
pub mod Tables
pub mod Modes
use cys_agi.Prelude.{
  ℕ, String, Bool, true, false, not, ◌&&◌, ◌||◌, Option, none, some, List, [], ◌∷◌, any, elem, keep,
  leb, string_eq, ◌==◌, if◌then◌else◌, Result, ok, err, truthy, starts_with,
}
use cys_agi.Dict
use cys_agi.Dict.{Dict}
use cys_agi.Events.{nonempty}
use cys_agi.Policy.Tables.{
  mutating_tools, read_only_tools, plan_blocked_tools, action_risk_mapping, profile_tool_allowlist,
}

pub data RiskLevel : Type 0 where
  low medium high critical : RiskLevel

abbrev pub risk_order : RiskLevel → ℕ
risk_order low = 0
risk_order medium = 1
risk_order high = 2
risk_order critical = 3

-- `__le__`; `a >= b` is `risk_le b a`
unfoldable pub risk_le : RiskLevel → RiskLevel → Bool
risk_le a b = leb (risk_order a) (risk_order b)

-- `RiskLevel(raw)`, and `none` where it raises `ValueError`
unfoldable pub risk_of : String → Option RiskLevel
risk_of raw =
    if raw == "low"
    then some low
    else if raw == "medium"
    then some medium
    else if raw == "high"
    then some high
    else if raw == "critical"
    then some critical
    else none

-- `parse_threshold` of a text in lower case
unfoldable pub parse_threshold : String → RiskLevel
parse_threshold value = elim (risk_of value) [ some r ↦ r | none ↦ low ]

pub record ModePolicyPayload : Type 0 where
  pub read_only_tools : List String
  pub plan_blocked_tools : List String
  pub mutating_tools : List String

-- The fields of `ProfilePolicyPayload` that these policies read.
pub record ProfilePolicyPayload : Type 0 where
  pub tool_risk : Dict String String
  pub tool_allowlist : Dict String (Option (List String))
  pub mode_policy : ModePolicyPayload

-- `classify_tool_risk_pure`, and `none` where it raises
unfoldable pub classify_tool_risk_pure : String → Option ProfilePolicyPayload → Option RiskLevel
classify_tool_risk_pure tool_name policy =
    let own : String = elim policy [ none ↦ "" | some p ↦ Dict.get_or p.tool_risk tool_name "" ] in
    if truthy own then risk_of own else risk_of (Dict.get_or action_risk_mapping tool_name "high")

-- `classify_tool_risk`: when the policy cannot be read, or raises, the table counts. The table has
-- no text that raises, so the last case is never reached.
unfoldable pub classify_tool_risk : String → Option ProfilePolicyPayload → RiskLevel
unfolding classify_tool_risk_pure
classify_tool_risk tool_name policy = elim (classify_tool_risk_pure tool_name policy) [
  | some r ↦ r
  | none ↦ elim (classify_tool_risk_pure tool_name none) [ some r ↦ r | none ↦ high ]
]

pub data InteractionMode : Type 0 where
  plan ask agent debug : InteractionMode

abbrev pub or_default : List String → List String → List String
or_default [] d = d
or_default (x ∷ xs) d = x ∷ xs

-- `mode_sets_from_policy`, of a policy that is given
unfoldable pub mode_sets_from_policy : ModePolicyPayload → List String × List String × List String
mode_sets_from_policy p =
    if nonempty p.read_only_tools || nonempty p.plan_blocked_tools
    then (
      or_default p.read_only_tools read_only_tools,
      or_default p.plan_blocked_tools plan_blocked_tools,
      or_default p.mutating_tools mutating_tools,
    )
    else (read_only_tools, plan_blocked_tools, mutating_tools)

abbrev pub mutating_tool_prefixes : List String
mutating_tool_prefixes = "run_" ∷ "write_" ∷ "spawn_" ∷ "execute_" ∷ []

-- `_is_mutating`
unfoldable pub is_mutating : String → List String → Bool
is_mutating tool_name mutating =
    elem tool_name mutating || any (λ p. starts_with tool_name p) mutating_tool_prefixes

unfoldable pub allow_tool_pure : Option InteractionMode → String → ModePolicyPayload → Bool
allow_tool_pure mode tool_name mode_policy =
    let (read_only, plan_blocked, mutating) = mode_sets_from_policy mode_policy in
    elim mode [
      | some plan ↦ not (elem tool_name plan_blocked) && not (is_mutating tool_name mutating)
      | some ask ↦ elem tool_name read_only || starts_with tool_name "search_"
      | _ ↦ true
    ]

-- `DEFAULT_MODE_POLICY`
abbrev pub default_mode_policy : ModePolicyPayload
default_mode_policy = record {
  read_only_tools = read_only_tools;
  plan_blocked_tools = plan_blocked_tools;
  mutating_tools = mutating_tools;
}

unfoldable pub allowlist_for_profile : String → Option ProfilePolicyPayload → Option (List String)
allowlist_for_profile profile_id policy =
    let own : Option (Option (List String)) = elim policy [
      | none ↦ none
      | some p ↦ Dict.get p.tool_allowlist profile_id
    ] in
    elim own [
      | some allowed ↦ allowed
      | none ↦ elim (Dict.get profile_tool_allowlist profile_id) [
        | none ↦ none
        | some allowed ↦ allowed
      ]
    ]

unfoldable pub filter_tools_pure : List String → String → Option ProfilePolicyPayload → List String
filter_tools_pure tool_names profile_id policy = elim (allowlist_for_profile profile_id policy) [
  | none ↦ tool_names
  | some allowlist ↦ keep (λ name. elem name allowlist) tool_names
]

-- `ModePolicy.allow_spawn`
unfoldable pub allow_spawn : Option InteractionMode → Bool
allow_spawn none = true
allow_spawn (some agent) = true
allow_spawn (some debug) = true
allow_spawn (some _) = false

-- `ModePolicy.allow_bus_message`
unfoldable pub allow_bus_message : Option InteractionMode → String → Bool
allow_bus_message (some plan) message_type = not (message_type == "spawn_worker")
allow_bus_message (some ask) message_type = not (message_type == "spawn_worker")
allow_bus_message _ message_type = true
