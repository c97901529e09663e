-- ===== src/Planner.antt =====
-- The planner of manual investigations: cys_core/application/use_cases/plan_investigation.py, with
-- `rank_personas_by_quality` of cys_core/registry/discovery_tools.py. The plans and their parser are
-- in the child module Parse. The runtime and the catalog are ports. The runtime's answer does not
-- touch the investigations.
pub mod Plans
pub mod Vetting
pub mod Parse
use Prim.Native.String.{◌++◌ as ◌<>◌}
use cys_agi.Prelude.{
  ℕ, zero, suc, String, Bool, true, false, not, Option, none, some, List, [], ◌∷◌, ◌++◌, map, keep,
  sort, elem, truthy, ◌or_else◌, string_eq, ◌==◌, if◌then◌else◌, Result, ok, err,
}
use cys_agi.Floats.{FloatOps}
use cys_agi.Json.{Value, Items, Fields, str, arr, obj, end, item, nil, field, lookup, is_true}
use cys_agi.Events.{SecurityEvent, event_type_name, severity_name}
use cys_agi.Memory.{
  InvestigationState, InvestigationStates, PlannerStatus, planning, planned, fallback, in_progress,
  started, get_state, upsert_state,
}
use cys_agi.Planner.Parse.{
  InvestigationPlan, PlannerPorts, as_text, fallback_personas, fallback_plan, goal_from_event,
  goal_pairs, item_texts, listed, parse_plan, plan_of, plan_of_json, plan_of_raw, raw_response,
  str_items, text_at, true_texts,
}

-- `event.correlation_id or event.id`
abbrev pub event_investigation : SecurityEvent → String
event_investigation event = event.correlation_id or_else event.id

-- `_apply_plan_to_state`
unfoldable pub apply_plan_to_state :
    InvestigationState
    → InvestigationPlan
    → PlannerStatus
    → String
    → InvestigationStates
    → InvestigationStates
apply_plan_to_state state plan status error = upsert_state (record state {
  planner_plan = some plan.personas;
  planner_status = some status;
  planner_rationale = plan.rationale;
  planner_error = error;
  status = started state.status;
})

module _ {F : Type 0} (p : PlannerPorts F) where
  -- the state of the event's investigation, or a new one
  unfoldable pub planner_state : SecurityEvent → InvestigationStates → InvestigationState
  planner_state event states = elim (get_state states event.tenant_id (event_investigation event)) [
    | some state ↦ state
    | none ↦ record {
      investigation_id = event_investigation event;
      tenant_id = event.tenant_id;
      goal = goal_from_event p event;
      status = in_progress;
      completed_personas = [];
      findings_summary = [];
      planner_plan = none;
      planner_status = none;
      planner_rationale = "";
      planner_error = "";
    }
  ]

  unfoldable pub begin_planning :
      SecurityEvent → InvestigationStates → InvestigationState × InvestigationStates
  unfolding planner_state
  begin_planning event states =
      let state : InvestigationState = record (planner_state event states) {
        goal = goal_from_event p event;
        status = in_progress;
        planner_status = some planning;
        planner_plan = none;
        planner_rationale = "";
        planner_error = "";
      } in
      (state, upsert_state state states)

  -- the state that `execute` plans on: a state that is there only gets the status
  unfoldable pub take_up :
      SecurityEvent → InvestigationStates → InvestigationState × InvestigationStates
  take_up event states = elim (get_state states event.tenant_id (event_investigation event)) [
    | none ↦ begin_planning event states
    | some state ↦ elim state.planner_status [
      | some planning ↦ (state, states)
      | _ ↦
          let state' : InvestigationState = record state {
            planner_status = some planning;
            planner_error = "";
          } in
          (state', upsert_state state' states)
    ]
  ]

  unfoldable pub planner_prompt : SecurityEvent → String
  planner_prompt event = p.dumps (
      obj (
        field "goal" (str (goal_from_event p event)) (
          field "event_type" (str (event_type_name event.type)) (
            field "severity" (str (severity_name event.severity)) (
              field "available_personas" (arr (str_items p.available_personas)) (
                field "instructions"
                  (str (
                    "Return JSON with keys: personas (ordered list), sub_goals (map persona->task), "
                    <> ("rationale. Use consultant alone for general IB advisory questions.")))
                  nil))))))

  -- the plan, or the fallback plan with the rationale if it has no persona
  abbrev pub or_fallback : SecurityEvent → String → InvestigationPlan → InvestigationPlan
  or_fallback event rationale plan = elim plan.personas [
    | [] ↦ fallback_plan p (goal_from_event p event) rationale
    | _ ∷ _ ↦ plan
  ]

module _ {F : Type 0} ⦃fl : FloatOps F⦄ (p : PlannerPorts F) where
  -- `rank_personas_by_quality`
  unfoldable pub rank_personas_by_quality : List String → List String
  rank_personas_by_quality personas =
      sort (λ a b. not (fl.gt (p.trust_score b) (p.trust_score a)))
        (keep (λ persona. not (fl.gt p.trust_floor (p.trust_score persona))) personas)

  -- the plan behind the tests of its personas
  unfoldable pub vetted : SecurityEvent → InvestigationPlan → InvestigationPlan
  unfolding rank_personas_by_quality
  vetted event parsed =
      let plan = or_fallback p event "fallback_default_plan" parsed in
      let allowed : InvestigationPlan = record plan {
        personas = keep (λ q. elem q p.available_personas) plan.personas;
      } in
      let chosen = or_fallback p event "planner_invalid_personas_fallback" allowed in
      record chosen { personas = rank_personas_by_quality chosen.personas }

  -- the body of the `try`, up to the state
  unfoldable pub propose : ℕ → SecurityEvent → Result String InvestigationPlan
  propose depth event =
      elim (p.arun ("planner:" <> event_investigation event) (planner_prompt p event)) [
        | err e ↦ err e
        | ok result ↦ elim (parse_plan p depth (goal_from_event p event) result) [
          | err e ↦ err e
          | ok parsed ↦ ok (vetted event parsed)
        ]
      ]

  -- `PlanInvestigation.execute`
  unfoldable pub plan_investigation :
      ℕ → SecurityEvent → InvestigationStates → InvestigationPlan × InvestigationStates
  plan_investigation depth event states =
      let (state, states') = take_up p event states in
      elim (propose depth event) [
        | ok plan ↦ (plan, apply_plan_to_state state plan planned "" states')
        | err e ↦
            let plan = fallback_plan p (goal_from_event p event) "planner_unavailable_fallback" in
            (plan, apply_plan_to_state state plan fallback e states')
      ]

-- `to_worker_jobs_payload`, from printers of the plan's dicts
unfoldable pub to_worker_jobs_payload :
    (List (String × String) → Value)
    → (List (String × List String) → Value)
    → InvestigationPlan
    → Fields
to_worker_jobs_payload goals dependencies plan =
    field "planner_plan" (arr (str_items plan.personas)) (
      field "sub_goals" (goals plan.sub_goals) (
        field "rationale" (str plan.rationale)
          (field "depends_on" (dependencies plan.depends_on) nil)))
