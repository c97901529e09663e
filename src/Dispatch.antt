-- ===== src/Dispatch.antt =====
-- From an event to jobs: `DispatchEvent` of cys_core/application/use_cases/dispatch_event.py. The
-- plans as hints, the printers of pydantic and the plan executors are ports, and the planner has the
-- default profile. The correlation id of the traces is left out.
pub mod Jobs
pub mod Ingress
pub mod Parents
use cys_agi.Prelude.{
  ℕ, String, Bool, true, false, ◌&&◌, Option, none, some, List, [], ◌∷◌, ◌++◌, map, truthy,
  ◌or_else◌, string_eq, ◌==◌, if◌then◌else◌,
}
use cys_agi.Floats.{FloatOps}
use cys_agi.Json.{Value, Fields, arr, lookup, put, merge}
use cys_agi.Events.{
  SecurityEvent, EventType, Severity, event_type_name, nonempty, PlanRoutingConfig, RoutingDecision,
  Reason, llm_planner, async_planner_pending, conductor_meta_worker,
}
use cys_agi.Router.{route}
use cys_agi.Spawn.{RunContext, from_event}
use cys_agi.Planner.{
  event_investigation, begin_planning, plan_investigation, to_worker_jobs_payload,
}
use cys_agi.Planner.Parse.{
  InvestigationPlan, PlannerPorts, str_items, goal_from_event, fallback_plan,
}
use cys_agi.Worker.Station.{Station}
use cys_agi.Worker.Orchestrate.{RoutingRequest, enqueue_from_routing}

pub record DispatchPorts (F : Type 0) : Type 0 where
  pub notify_severities : List String
  pub plans : List PlanRoutingConfig
  pub use_conductor_for_events : Bool
  pub plan_hints : Value
  pub dump_context : RunContext → Value
  pub dump_goals : List (String × String) → Value
  pub dump_dependencies : List (String × List String) → Value
  -- `plan_investigation`, with the limit on recursion of its parser
  pub planner : Option (PlannerPorts F)
  pub recursion_limit : ℕ
  pub manual_investigation_async : Bool
  pub plan_executor : Option (SecurityEvent → InvestigationPlan)
  pub async_plan_executor : Option (SecurityEvent → InvestigationPlan)
  pub fresh : ℕ → String

-- the decision that names these personas and no plan
abbrev pub decision_for : SecurityEvent → List String → Reason → RoutingDecision
decision_for event personas reason = record {
  event_id = event.id;
  jobs = [];
  playbook_id = "manual-investigation";
  personas = personas;
  notify_control = true;
  reason = reason;
  matched_plan_id = "";
  matched_rule_idx = none;
}

abbrev pub is_manual : SecurityEvent → Bool
is_manual event = event_type_name event.type == "manual.investigation"

module _ {F : Type 0} (d : DispatchPorts F) where
  unfoldable pub enrich_payload_with_run_context : SecurityEvent → Fields → Fields
  enrich_payload_with_run_context event payload =
      put payload "run_context" (d.dump_context (from_event event))

  unfoldable pub apply_conductor_routing :
      SecurityEvent → RoutingDecision → Fields → RoutingDecision × Fields
  unfolding enrich_payload_with_run_context
  apply_conductor_routing event decision payload =
      let enriched = enrich_payload_with_run_context event payload in
      if d.use_conductor_for_events && nonempty decision.personas
      then (
        record {
          event_id = decision.event_id;
          jobs = [];
          playbook_id = decision.playbook_id;
          personas = "conductor" ∷ [];
          notify_control = decision.notify_control;
          reason = conductor_meta_worker;
          matched_plan_id = "";
          matched_rule_idx = none;
        },
        put (put enriched "routing_hints" d.plan_hints) "suggested_personas"
            (arr (str_items decision.personas)),
      )
      else (decision, enriched)

  -- the plan of `dispatch_sync`
  unfoldable pub sync_plan : PlannerPorts F → SecurityEvent → InvestigationPlan
  sync_plan planner event = elim d.plan_executor [
    | none ↦ fallback_plan planner (goal_from_event planner event) "sync_fallback_plan"
    | some plan_for ↦ plan_for event
  ]

  -- the request for the jobs of a decision
  abbrev pub request_for : SecurityEvent → RoutingDecision → Fields → Bool → RoutingRequest
  request_for event decision payload sequential = record {
    event_id = event.id;
    playbook_id = decision.playbook_id;
    payload = payload;
    correlation_id = event_investigation event;
    tenant_id = event.tenant_id;
    sequential = sequential;
    fresh = d.fresh;
  }

module _ {F : Type 0} ⦃fl : FloatOps F⦄ (d : DispatchPorts F) where
  -- the part of both dispatchers behind the branch of manual investigations
  unfoldable pub dispatch_routed :
      SecurityEvent → Fields → Station F → (RoutingDecision × List String) × Station F
  dispatch_routed event payload s =
      let decision = route d.notify_severities d.plans event in
      if nonempty decision.personas
      then (let (final, enriched) = apply_conductor_routing d event decision payload in
          let (ids, s') =
            enqueue_from_routing (request_for d event final enriched false) final.personas s in
          ((final, ids), s'))
      else ((decision, []), s)

  -- the decision on a plan, and its jobs
  unfoldable pub dispatch_plan :
      SecurityEvent
      → Fields
      → InvestigationPlan
      → Bool
      → Station F
      → (RoutingDecision × List String) × Station F
  dispatch_plan event payload plan sequential s =
      let decision = decision_for event plan.personas llm_planner in
      let enriched = merge payload (to_worker_jobs_payload d.dump_goals d.dump_dependencies plan) in
      let (ids, s') =
        enqueue_from_routing (request_for d event decision enriched sequential) plan.personas s in
      ((decision, ids), s')

  unfoldable pub dispatch_sync :
      SecurityEvent → Fields → Station F → (RoutingDecision × List String) × Station F
  unfolding dispatch_plan dispatch_routed
  dispatch_sync event payload s = elim d.planner [
    | none ↦ dispatch_routed event payload s
    | some planner ↦
        if is_manual event
        then dispatch_plan event payload (sync_plan d planner event) true s
        else dispatch_routed event payload s
  ]

  -- the plan of `dispatch_async`, and the investigations behind it
  unfoldable pub async_plan :
      PlannerPorts F → SecurityEvent → Station F → InvestigationPlan × Station F
  async_plan planner event s = elim d.async_plan_executor [
    | some plan_for ↦ (plan_for event, s)
    | none ↦
        let (plan, states) = plan_investigation planner d.recursion_limit event s.investigations in
        (plan, record s { investigations = states })
  ]

  -- a manual investigation in `dispatch_async`
  unfoldable pub dispatch_manual :
      PlannerPorts F
      → SecurityEvent
      → Fields
      → Station F
      → (RoutingDecision × List String) × Station F
  dispatch_manual planner event payload s =
      if d.manual_investigation_async
      then (
        (decision_for event [] async_planner_pending, []),
        record s { investigations = (begin_planning planner event s.investigations).1 },
      )
      else (let (plan, s') = async_plan planner event s in
          dispatch_plan event payload plan (nonempty plan.depends_on) s')

  unfoldable pub dispatch_async :
      SecurityEvent → Fields → Station F → (RoutingDecision × List String) × Station F
  dispatch_async event payload s = elim d.planner [
    | none ↦ dispatch_routed event payload s
    | some planner ↦
        if is_manual event
        then dispatch_manual planner event payload s
        else dispatch_routed event payload s
  ]
