-- ===== src/Planner/Plans.antt =====
-- What a plan of the planner holds (cys_core/application/use_cases/plan_investigation.py).
use Prim.Native.String.{◌++◌ as ◌<>◌}
use cys_agi.Prelude.{
  ℕ, zero, suc, String, ◌≡◌, refl, sym, subst, Option, none, some, [], truthy, string_eq, arith,
  Result, ok, err, Result-cases, Bool-cases, Option-cases, inl, inr, ◌⊎◌,
}
use cys_agi.Floats.{FloatOps}
use cys_agi.Json.{Value, Items, Fields, null, str, obj, lookup}
use cys_agi.Events.{SecurityEvent}
use cys_agi.Memory.{InvestigationStates, planned, fallback}
use cys_agi.Planner.{
  event_investigation, take_up, apply_plan_to_state, or_fallback, planner_prompt, vetted, propose,
  plan_investigation,
}
use cys_agi.Planner.Parse.{
  InvestigationPlan, PlannerPorts, fallback_plan, plan_of, plan_of_json, plan_of_raw, raw_response,
  listed, parse_plan, goal_from_event,
}

-- A plan that is there names no dependencies.
abbrev IsUnordered : Result String InvestigationPlan → Type 0
IsUnordered (ok plan) = plan.depends_on ≡ []
IsUnordered (err _) = Unit

module _ {F : Type 0} (p : PlannerPorts F) where
  plan_of-IsUnordered : (result : Fields) (items : Items) → IsUnordered (plan_of p result items)
  unfolding plan_of
  plan_of-IsUnordered result items = ground arith

  plan_of_json-IsUnordered :
      (parse : Fields → Result String InvestigationPlan) (goal : String) (o : Option Value)
      → ((f : Fields) → IsUnordered (parse f))
      → IsUnordered (plan_of_json p parse goal o)
  unfolding plan_of_json fallback_plan
  plan_of_json-IsUnordered parse goal none h = refl
  plan_of_json-IsUnordered parse goal (some (obj f)) h = h f
  plan_of_json-IsUnordered parse goal (some null) h = tt
  plan_of_json-IsUnordered parse goal (some _) h = tt

  plan_of_raw-IsUnordered :
      (parse : Fields → Result String InvestigationPlan) (goal : String) (v : Value)
      → ((f : Fields) → IsUnordered (parse f))
      → IsUnordered (plan_of_raw p parse goal v)
  unfolding plan_of_raw fallback_plan
  plan_of_raw-IsUnordered parse goal (str s) h = elim (Bool-cases (truthy s)) [
    | inl given ↦ rw given (plan_of_json-IsUnordered parse goal (p.loads s) h)
    | inr blank ↦ rw blank refl
  ]
  plan_of_raw-IsUnordered parse goal null h = refl
  plan_of_raw-IsUnordered parse goal v h = ground arith

  -- the two ways of parsing a dict
  parse_plan_cases :
      (depth : ℕ) (goal : String) (result : Fields)
      → ((v : Value) × (parse_plan p (suc depth) goal result
            ≡ plan_of_raw p (parse_plan p depth goal) goal v))
        ⊎ ((items : Items) × (parse_plan p (suc depth) goal result ≡ plan_of p result items))
  unfolding parse_plan
  parse_plan_cases depth goal result = elim (Option-cases (listed (lookup result "personas"))) [
    | inl absent ↦ inl (raw_response result, rw (parse_plan, absent) refl)
    | inr (items, there) ↦ inr (items, rw (parse_plan, there) refl)
  ]

  parse_plan-IsUnordered :
      (depth : ℕ) (goal : String) (result : Fields) → IsUnordered (parse_plan p depth goal result)
  parse_plan-IsUnordered zero goal result = unfold parse_plan in tt
  parse_plan-IsUnordered (suc depth) goal result = elim (parse_plan_cases depth goal result) [
    | inl (v, same) ↦ subst IsUnordered (sym same) (
        plan_of_raw-IsUnordered (parse_plan p depth goal) goal v
          (parse_plan-IsUnordered depth goal))
    | inr (items, same) ↦ subst IsUnordered (sym same) (plan_of-IsUnordered result items)
  ]

  or_fallback_unordered :
      (event : SecurityEvent) (rationale : String) (plan : InvestigationPlan)
      → plan.depends_on ≡ []
      → (or_fallback p event rationale plan).depends_on ≡ []
  unfolding fallback_plan
  or_fallback_unordered event rationale plan h = ground arith

-- What holds of every answer of the planner.
module _ {F : Type 0} ⦃fl : FloatOps F⦄ (p : PlannerPorts F) (depth : ℕ)
    (event : SecurityEvent) where
  -- the proposal is an error, or it is what is left of a parsed plan
  propose_cases :
      ((e : String) × (propose p depth event ≡ err e))
      ⊎ ((result : Fields) × (parsed : InvestigationPlan) × (parse_plan p depth
              (goal_from_event p event)
              result
            ≡ ok parsed)
          × (propose p depth event ≡ ok (vetted p event parsed)))
  unfolding propose
  propose_cases =
      elim (Result-cases
        (p.arun ("planner:" <> event_investigation event) (planner_prompt p event))) [
          | inr (e, failed) ↦ inl (e, rw (propose, failed) refl)
          | inl (result, answered) ↦
              elim (Result-cases (parse_plan p depth (goal_from_event p event) result)) [
                | inr (e, failed) ↦ inl (e, rw (propose, answered, failed) refl)
                | inl (parsed, good) ↦ inr (result, parsed, good, rw (propose, answered, good) refl)
              ]
        ]

  vetted_unordered :
      (plan : InvestigationPlan) → plan.depends_on ≡ [] → (vetted p event plan).depends_on ≡ []
  unfolding vetted
  vetted_unordered plan h =
      or_fallback_unordered p event _ _ (or_fallback_unordered p event _ plan h)

  abbrev pub planned_by : InvestigationStates → InvestigationPlan × InvestigationStates
  planned_by = plan_investigation p depth event

  -- The plan is the fallback plan, or what is left of a parsed plan.
  pub plan_investigation_cases :
      (states : InvestigationStates)
      → ((e : String) × (planned_by states ≡ (
            let plan = fallback_plan p (goal_from_event p event) "planner_unavailable_fallback" in
            let (state, states') = take_up p event states in
            (plan, apply_plan_to_state state plan fallback e states'))))
        ⊎ ((result : Fields) × (parsed : InvestigationPlan) × (parse_plan p depth
                (goal_from_event p event)
                result
              ≡ ok parsed)
            × (planned_by states ≡ (
                let (state, states') = take_up p event states in
                let plan = vetted p event parsed in
                (plan, apply_plan_to_state state plan planned "" states'))))
  unfolding plan_investigation
  plan_investigation_cases states = elim propose_cases [
    | inl (e, failed) ↦ inl (e, rw (plan_investigation, failed) refl)
    | inr (result, parsed, good, same) ↦
        inr (result, parsed, good, rw (plan_investigation, same) refl)
  ]

  -- No plan of the planner names a dependency, whatever the runtime answers.
  pub plan_investigation_unordered :
      (states : InvestigationStates) → (planned_by states).0.depends_on ≡ []
  unfolding fallback_plan
  plan_investigation_unordered states = elim (plan_investigation_cases states) [
    | inl (e, same) ↦ rw same refl
    | inr (result, parsed, good, same) ↦ rw same (
        vetted_unordered parsed (
          subst IsUnordered good (parse_plan-IsUnordered p depth (goal_from_event p event) result)))
  ]
