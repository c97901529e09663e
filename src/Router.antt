-- ===== src/Router.antt =====
-- cys_core/application/routing/event_router.py: the rules of all plans are tried on an event, and
-- what the matching ones say is collected. The severities that notify the control plane come from
-- the policy of the profile, as an argument.
pub mod Personas
pub mod Control
use Prim.Native.String.{◌++◌ as ◌<>◌}
use cys_agi.Prelude.{
  ℕ, zero, suc, ◌+◌, String, Bool, true, false, not, ◌&&◌, ◌||◌, Option, none, some, List, [], ◌∷◌,
  ◌++◌, map, elem, truthy, string_eq, ◌==◌, if◌then◌else◌,
}
use cys_agi.Events.{
  SecurityEvent, EventType, Severity, severity_name, RoutingRule, PlanRoutingConfig,
  RoutingDecision, Reason, no_matching_rule, matched_rules, rule_matches,
}

-- The local variables of `route`.
pub record Collected : Type 0 where
  pub personas : List String
  pub playbook_id : String
  pub notify_control : Bool
  pub matched_count : ℕ
  pub matched_plan_id : String
  pub matched_rule_idx : Option ℕ

abbrev pub start : Collected
start = record {
  personas = [];
  playbook_id = "";
  notify_control = false;
  matched_count = 0;
  matched_plan_id = "";
  matched_rule_idx = none;
}

-- `for persona in rule.personas: if persona not in personas: personas.append(persona)`
pub add_personas : List String → List String → List String
add_personas personas [] = personas
add_personas personas (p ∷ ps) =
    add_personas (if elem p personas then personas else personas ++ p ∷ []) ps

-- the body of the inner loop behind the test of the rule
unfoldable pub collect : PlanRoutingConfig → ℕ → RoutingRule → Collected → Collected
collect plan rule_idx rule c = record {
  personas = add_personas c.personas rule.personas;
  playbook_id =
      if truthy rule.playbook_id
      then rule.playbook_id
      else if truthy plan.id && not (truthy c.playbook_id)
      then plan.id
      else c.playbook_id;
  notify_control = c.notify_control || rule.notify_control;
  matched_count = c.matched_count + 1;
  matched_plan_id = plan.id;
  matched_rule_idx = some rule_idx;
}

-- the loop over the rules of a plan, from the index of the first
pub try_rules : SecurityEvent → PlanRoutingConfig → ℕ → List RoutingRule → Collected → Collected
try_rules event plan rule_idx [] c = c
try_rules event plan rule_idx (rule ∷ rules) c =
    try_rules event plan (suc rule_idx) rules
      (if rule_matches rule event.type event.severity then collect plan rule_idx rule c else c)

pub try_plans : SecurityEvent → List PlanRoutingConfig → Collected → Collected
try_plans event [] c = c
try_plans event (plan ∷ plans) c = try_plans event plans (try_rules event plan 0 plan.rules c)

-- the decision on what was collected
unfoldable pub conclude : List String → SecurityEvent → Collected → RoutingDecision
conclude notify_severities event c = elim c.personas [
  | [] ↦ record {
    event_id = event.id;
    jobs = [];
    playbook_id = "";
    personas = [];
    notify_control = false;
    reason = no_matching_rule;
    matched_plan_id = c.matched_plan_id;
    matched_rule_idx = c.matched_rule_idx;
  }
  | p ∷ ps ↦ record {
    event_id = event.id;
    jobs = map (λ q. q <> (":" <> event.id)) (p ∷ ps);
    playbook_id = c.playbook_id;
    personas = p ∷ ps;
    notify_control = elem (severity_name event.severity) notify_severities || c.notify_control;
    reason = matched_rules c.matched_count;
    matched_plan_id = c.matched_plan_id;
    matched_rule_idx = c.matched_rule_idx;
  }
]

-- `EventRouter(plans).route(event)`
unfoldable pub route : List String → List PlanRoutingConfig → SecurityEvent → RoutingDecision
unfolding conclude
route notify_severities plans event = conclude notify_severities event (try_plans event plans start)
