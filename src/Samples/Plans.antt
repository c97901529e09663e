-- ===== src/Samples/Plans.antt =====
-- Plans of the planner, and dispatched events, at concrete inputs.
use cys_agi.Prelude.{◌≡◌, ◌≢◌, ◌⊎◌, refl, false, some, none, [], ◌∷◌, All, ok, string_eq}
use cys_agi.Dict
use cys_agi.Floats.{Milli, milli}
use cys_agi.Json.{Fields, nil, field, str, arr, obj, item, end, lookup}
use cys_agi.Events.{SecurityEvent, manual_investigation, high}
use cys_agi.Memory.{get_state, planned, fallback, query_investigation}
use cys_agi.Planner.{plan_investigation}
use cys_agi.Planner.Parse.{
  PlannerPorts, InvestigationPlan, fallback_plan, goal_from_event, parse_plan, plan_of, listed,
}
use cys_agi.Planner.Vetting.{
  IsKnown, IsTrusted, KeysMatch, IsRecorded, plan_investigation_sound,
  plan_investigation-IsRecorded, available,
}
use cys_agi.Worker.Steps.{memory_investigation_id, prior_entries}
use cys_agi.Dispatch.{DispatchPorts, dispatch_sync, dispatch_async}
use cys_agi.Dispatch.Jobs.{Adds, IsJobOf, IsFreeJobOf, dispatch_both-Adds, dispatch_async_unordered}
use cys_agi.Dispatch.Parents.{dispatch_sync_reads_parent}
use cys_agi.Samples.Workers.{ports, station}

-- an answer that names one persona, of a low score
abbrev answer : Fields
answer = field "personas" (arr (item (str "intel") end)) nil

abbrev planner : PlannerPorts Milli
planner = record {
  arun = λ _ _. ok answer;
  available_personas = "soc" ∷ "intel" ∷ [];
  default_personas = none;
  env_personas = none;
  trust_score = λ _. 200;
  trust_floor = 500;
  loads = λ _. none;
  dumps = λ _. "{}";
  text_of = λ _. "";
  texts_of = λ _. ok [];
}

abbrev event : SecurityEvent
event = record {
  id = "e1";
  type = manual_investigation;
  source = "console";
  severity = high;
  payload = field "goal" (str "who was here") nil;
  tenant_id = "acme";
  correlation_id = "i1";
}

plan_investigation_sound_example :
    let plan = (plan_investigation ⦃fl = milli⦄ planner 9 event []).0 in
    (plan ≡ fallback_plan planner (goal_from_event planner event) "planner_unavailable_fallback")
    ⊎ All (λ q. IsKnown ⦃fl = milli⦄ planner q × IsTrusted ⦃fl = milli⦄ planner q) plan.personas
plan_investigation_sound_example = plan_investigation_sound ⦃fl = milli⦄ planner 9 event []

no_state_matches : KeysMatch event []
unfolding get_state Dict.get
no_state_matches st found = absurd (Dict.none≢some found)

plan_investigation-IsRecorded_example :
    let (plan, states') = plan_investigation ⦃fl = milli⦄ planner 9 event [] in
    ((plan ≡ fallback_plan planner (goal_from_event planner event) "planner_unavailable_fallback")
      × IsRecorded event plan fallback states')
    ⊎ IsRecorded event plan planned states'
plan_investigation-IsRecorded_example =
    plan_investigation-IsRecorded ⦃fl = milli⦄ planner 9 event [] no_state_matches

abbrev parsed : InvestigationPlan
parsed = record {
  personas = "intel" ∷ [];
  sub_goals = [];
  rationale = "";
  depends_on = [];
  reasoning_steps = [];
  plan_status = "";
}

answer_is_parsed : parse_plan planner 9 (goal_from_event planner event) answer ≡ ok parsed
unfolding parse_plan plan_of listed lookup
answer_is_parsed = refl

intel_is_available : available ⦃fl = milli⦄ planner 9 event [] parsed.personas ≢ []
intel_is_available e = cc

abbrev dispatcher : DispatchPorts Milli
dispatcher = record {
  notify_severities = "critical" ∷ [];
  plans = [];
  use_conductor_for_events = false;
  plan_hints = arr end;
  dump_context = λ _. obj nil;
  dump_goals = λ _. obj nil;
  dump_dependencies = λ _. obj nil;
  planner = some planner;
  recursion_limit = 9;
  manual_investigation_async = false;
  plan_executor = none;
  async_plan_executor = none;
  fresh = λ _. "00c0ffee";
}

-- a payload that names another investigation as its parent
abbrev payload : Fields
payload = field "parent_correlation_key" (str "i2") nil

dispatch_both-Adds_example :
    Adds
      (IsJobOf event payload)
      station
      (dispatch_sync ⦃fl = milli⦄ dispatcher event payload station)
    × Adds
        (IsJobOf event payload)
        station
        (dispatch_async ⦃fl = milli⦄ dispatcher event payload station)
dispatch_both-Adds_example = dispatch_both-Adds ⦃fl = milli⦄ dispatcher event payload station

dispatch_async_unordered_example :
    Adds
      (IsFreeJobOf event payload)
      station
      (dispatch_async ⦃fl = milli⦄ dispatcher event payload station)
dispatch_async_unordered_example =
    dispatch_async_unordered ⦃fl = milli⦄ dispatcher event payload refl station

parent_is_named : lookup payload "parent_correlation_key" ≡ some (str "i2")
unfolding lookup
parent_is_named = refl

dispatch_sync_reads_parent_example :
    Adds
      (λ j.
        (memory_investigation_id ⦃fl = milli⦄ ports j ≡ "i2")
        × ((t : _)
            → prior_entries ⦃fl = milli⦄ ports j t
              ≡ query_investigation ⦃fl = milli⦄ ports.validator 100 "acme" "i2" 10
                  (some "acme")
                  t.memory))
      station
      (dispatch_sync ⦃fl = milli⦄ dispatcher event payload station)
dispatch_sync_reads_parent_example =
    dispatch_sync_reads_parent ⦃fl = milli⦄ dispatcher event payload "i2" ports station
      parent_is_named refl
