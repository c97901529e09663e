-- ===== src/Router/Control.antt =====
-- When the control plane is notified of an event (cys_core/application/routing/event_router.py).
use cys_agi.Prelude.{
  ℕ, suc, ◌+◌, String, ◌≡◌, Bool, ◌&&◌, ◌||◌, List, [], ◌∷◌, elem, any, count, string_eq,
  if◌then◌else◌, arith, Bool-cases, inl, inr,
}
use cys_agi.Events.{
  SecurityEvent, RoutingRule, PlanRoutingConfig, rule_matches, no_matching_rule, matched_rules,
  severity_name, nonempty,
}
use cys_agi.Router.{Collected, start, collect, try_rules, try_plans, route}

-- A rule of the plan matches the event and asks for the control plane.
abbrev pub plan_notifies : SecurityEvent → PlanRoutingConfig → Bool
plan_notifies event plan =
    any (λ rule. rule_matches rule event.type event.severity && rule.notify_control) plan.rules

abbrev pub plan_matches : SecurityEvent → PlanRoutingConfig → ℕ
plan_matches event plan = count (λ rule. rule_matches rule event.type event.severity) plan.rules

-- The number of rules, over all plans, that match the event.
abbrev pub match_count : SecurityEvent → List PlanRoutingConfig → ℕ
match_count event [] = 0
match_count event (plan ∷ plans) = plan_matches event plan + match_count event plans

flags-try_rules :
    (event : SecurityEvent) (plan : PlanRoutingConfig) (idx : ℕ) (rules : List RoutingRule)
    (c : Collected)
    → ((try_rules event plan idx rules c).notify_control ≡ (
        c.notify_control
        || any (λ rule. rule_matches rule event.type event.severity && rule.notify_control) rules))
      × ((try_rules event plan idx rules c).matched_count
          ≡ c.matched_count + count (λ rule. rule_matches rule event.type event.severity) rules)
unfolding try_rules collect
flags-try_rules event plan idx [] c = (ground arith, omega arith)
flags-try_rules event plan idx (rule ∷ rules) c =
    elim (Bool-cases (rule_matches rule event.type event.severity)) [
      | inl fits ↦
          let (notified, counted) =
            flags-try_rules event plan (suc idx) rules (collect plan idx rule c) in
          (ground arith, ground arith)
      | inr other ↦
          let (notified, counted) = flags-try_rules event plan (suc idx) rules c in
          (ground arith, ground arith)
    ]

flags-try_plans :
    (event : SecurityEvent) (plans : List PlanRoutingConfig) (c : Collected)
    → ((try_plans event plans c).notify_control
        ≡ (c.notify_control || any (plan_notifies event) plans))
      × ((try_plans event plans c).matched_count ≡ c.matched_count + match_count event plans)
unfolding try_plans
flags-try_plans event [] c = (ground arith, omega arith)
flags-try_plans event (plan ∷ plans) c =
    let (notified, counted) = flags-try_rules event plan 0 plan.rules c in
    let (notified', counted') = flags-try_plans event plans (try_rules event plan 0 plan.rules c) in
    (ground arith, omega (arith, counted, counted'))

-- The control plane is notified exactly if the decision names a persona, and the severity is one
-- that notifies or a matching rule asks for it: with no persona it is not notified, whatever the
-- severity. The reason has the number of matching rules if the decision names a persona.
pub route_control :
    (notify_severities : List String) (plans : List PlanRoutingConfig) (event : SecurityEvent)
    → let decision = route notify_severities plans event in
      let asked =
        elem (severity_name event.severity) notify_severities || any (plan_notifies event) plans in
      (decision.notify_control ≡ (nonempty decision.personas && asked))
      × (decision.reason ≡ (
          if nonempty decision.personas
          then matched_rules (match_count event plans)
          else no_matching_rule))
unfolding route
route_control notify plans event =
    let (notified, counted) = flags-try_plans event plans start in (ground arith, ground arith)
