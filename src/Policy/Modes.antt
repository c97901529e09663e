-- ===== src/Policy/Modes.antt =====
-- What the modes forbid (cys_core/domain/policy/pure.py).
use cys_agi.Prelude.{
  String, ◌≡◌, true, false, some, [], ◌∷◌, List, any, elem, starts_with, string_eq, arith, nat_eq,
  Bool,
}
use cys_agi.Policy.{
  ModePolicyPayload, plan, allow_tool_pure, is_mutating, mode_sets_from_policy,
  mutating_tool_prefixes,
}

any-elem :
    (p : String → Bool) (x : String) (xs : List String)
    → elem x xs ≡ true
    → p x ≡ true
    → any p xs ≡ true
any-elem p x [] here holds = absurd (ground arith)
any-elem p x (y ∷ ys) here holds = ground (arith, any-elem p x ys, string_eq.beq_iff y x)

-- No policy of a profile, whatever it lists, lets plan mode use a tool whose name begins with one of
-- the four prefixes of tools that change something.
pub plan_blocks_prefixes :
    (policy : ModePolicyPayload) (tool_name prefix : String)
    → elem prefix mutating_tool_prefixes ≡ true
    → starts_with tool_name prefix ≡ true
    → allow_tool_pure (some plan) tool_name policy ≡ false
unfolding allow_tool_pure is_mutating mode_sets_from_policy
plan_blocks_prefixes policy tool_name prefix listed begins =
    ground
      (arith, any-elem (λ p. starts_with tool_name p) prefix mutating_tool_prefixes listed begins)

-- A policy that lists tools that change something, and nothing else, is not read: plan mode goes by
-- the default tables, as it does for a policy that lists nothing.
pub mutating_tools_ignored :
    (policy : ModePolicyPayload) (tool_name : String)
    → policy.read_only_tools ≡ []
    → policy.plan_blocked_tools ≡ []
    → allow_tool_pure (some plan) tool_name policy
      ≡ allow_tool_pure
          (some plan)
          tool_name
          (record { read_only_tools = []; plan_blocked_tools = []; mutating_tools = [] })
unfolding allow_tool_pure mode_sets_from_policy
mutating_tools_ignored policy tool_name no_read no_blocked = simp (no_read, no_blocked)
