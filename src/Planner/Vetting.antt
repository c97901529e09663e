-- ===== src/Planner/Vetting.antt =====
-- Which personas a plan of the planner holds, and what is recorded of it
-- (cys_core/application/use_cases/plan_investigation.py).
use mathlib.Core.Path.{ap₂}
use Prim.Native.String.{◌++◌ as ◌<>◌}
use cys_agi.Prelude.{
  ℕ, String, ◌≡◌, ◌≢◌, refl, sym, subst, ap, ◌∙◌, true, false, not, ◌||◌, some, List, [], All,
  All-keep, All-sort, All-of, All-map, keep_none, All-both, All-elem, List-cases, keep, sort,
  sort_nil, elem, string_eq, pair_eq, arith, ok, Option-cases, inl, inr, ◌⊎◌,
}
use cys_agi.Dict
use cys_agi.Floats.{FloatOps}
use cys_agi.Json.{Fields}
use cys_agi.Events.{SecurityEvent}
use cys_agi.Memory.{
  InvestigationState, InvestigationStates, PlannerStatus, planned, fallback, get_state,
  upsert_state,
}
use cys_agi.Planner.{
  event_investigation, planner_state, begin_planning, take_up, apply_plan_to_state, or_fallback,
  rank_personas_by_quality, planner_prompt, vetted, propose, plan_investigation,
}
use cys_agi.Planner.Parse.{
  InvestigationPlan, PlannerPorts, fallback_personas, fallback_plan, parse_plan, goal_from_event,
}
use cys_agi.Planner.Plans.{plan_investigation_cases}

module _ {F : Type 0} ⦃fl : FloatOps F⦄ (p : PlannerPorts F) where
  -- The catalog has the persona, or it is one to fall back on.
  abbrev pub IsKnown : String → Type 0
  IsKnown persona = (elem persona p.available_personas || elem persona (fallback_personas p)) ≡ true

  -- The persona's score is not below the floor.
  abbrev pub IsTrusted : String → Type 0
  IsTrusted persona = fl.gt p.trust_floor (p.trust_score persona) ≡ false

  ranked-IsTrusted : (personas : List String) → All IsTrusted (rank_personas_by_quality p personas)
  unfolding rank_personas_by_quality
  ranked-IsTrusted personas =
      All-sort IsTrusted _ _
        (All-keep IsTrusted _ personas (All-of _ personas (λ q h. ground arith)))

  ranked-IsKnown :
      (personas : List String)
      → All IsKnown personas
      → All IsKnown (rank_personas_by_quality p personas)
  unfolding rank_personas_by_quality
  ranked-IsKnown personas known =
      All-sort IsKnown _ _ (All-keep IsKnown _ personas (All-map _ personas (λ q h _. h) known))

  fallback-IsKnown : All IsKnown (fallback_personas p)
  fallback-IsKnown = All-map IsKnown _ (λ q h. ground arith) (All-elem (fallback_personas p))

  or_fallback_cases :
      (event : SecurityEvent) (rationale : String) (plan : InvestigationPlan)
      → ((plan.personas ≡ [])
          × ((or_fallback p event rationale plan).personas ≡ fallback_personas p))
        ⊎ ((or_fallback p event rationale plan).personas ≡ plan.personas)
  unfolding fallback_plan
  or_fallback_cases event rationale plan = elim (List-cases plan.personas) [
    | inl empty ↦ inl (empty, ground arith)
    | inr (q, qs, full) ↦ inr (ground arith)
  ]

  or_fallback-IsKnown :
      (event : SecurityEvent) (rationale : String) (plan : InvestigationPlan)
      → All IsKnown plan.personas
      → All IsKnown (or_fallback p event rationale plan).personas
  or_fallback-IsKnown event rationale plan known = elim (or_fallback_cases event rationale plan) [
    | inl (_, same) ↦ subst (All IsKnown) (sym same) fallback-IsKnown
    | inr same ↦ subst (All IsKnown) (sym same) known
  ]

  vetted_sound :
      (event : SecurityEvent) (plan : InvestigationPlan)
      → All (λ q. IsKnown q × IsTrusted q) (vetted p event plan).personas
  unfolding vetted
  vetted_sound event parsed =
      let plan = or_fallback p event "fallback_default_plan" parsed in
      let allowed : InvestigationPlan = record plan {
        personas = keep (λ q. elem q p.available_personas) plan.personas;
      } in
      let chosen = or_fallback p event "planner_invalid_personas_fallback" allowed in
      let known =
        or_fallback-IsKnown event "planner_invalid_personas_fallback" allowed
          (All-keep IsKnown _ plan.personas (All-of _ plan.personas (λ q h. ground arith))) in
      All-both _ _ _ (ranked-IsKnown chosen.personas known) (ranked-IsTrusted chosen.personas)

  -- Whatever the runtime answers, the plan's personas are all known to the catalog or ones to fall
  -- back on, and none is below the floor of trust, or else the plan is the fallback plan.
  pub plan_investigation_sound :
      (depth : ℕ) (event : SecurityEvent) (states : InvestigationStates)
      → let plan = (plan_investigation p depth event states).0 in
        (plan ≡ fallback_plan p (goal_from_event p event) "planner_unavailable_fallback")
        ⊎ All (λ q. IsKnown q × IsTrusted q) plan.personas
  plan_investigation_sound depth event states =
      elim (plan_investigation_cases p depth event states) [
        | inl (e, same) ↦ inl (ap (λ r. r.0) same)
        | inr (result, parsed, good, same) ↦ inr (rw same (vetted_sound event parsed))
      ]

-- The state of the event's investigation, if there is one, has the investigation's ids.
abbrev pub KeysMatch : SecurityEvent → InvestigationStates → Type 0
KeysMatch event states =
    (st : InvestigationState)
    → get_state states event.tenant_id (event_investigation event) ≡ some st
    → (st.tenant_id ≡ event.tenant_id) × (st.investigation_id ≡ event_investigation event)

-- What the state of the event's investigation records of the plan.
pub record IsRecorded (event : SecurityEvent) (plan : InvestigationPlan) (status : PlannerStatus)
    (states : InvestigationStates) : Type 0 where
  pub state : InvestigationState
  pub found : get_state states event.tenant_id (event_investigation event) ≡ some state
  pub plan_kept : state.planner_plan ≡ some plan.personas
  pub status_kept : state.planner_status ≡ some status

apply_plan-IsRecorded :
    (event : SecurityEvent) (state : InvestigationState) (plan : InvestigationPlan)
    (status : PlannerStatus) (error : String) (states : InvestigationStates)
    → state.tenant_id ≡ event.tenant_id
    → state.investigation_id ≡ event_investigation event
    → IsRecorded event plan status (apply_plan_to_state state plan status error states)
unfolding apply_plan_to_state upsert_state get_state
apply_plan-IsRecorded event state plan status error states same same' = record {
  state = _;
  found =
      ap (λ k. Dict.get (apply_plan_to_state state plan status error states) k)
        (sym (ap₂ (λ a b. (a, b)) same same'))
      ∙ Dict.get-set_self states (state.tenant_id, state.investigation_id) _;
  plan_kept = refl;
  status_kept = refl;
}

module _ {F : Type 0} ⦃fl : FloatOps F⦄ (p : PlannerPorts F) (depth : ℕ) (event : SecurityEvent)
    (states : InvestigationStates) where
  take_up_keys :
      KeysMatch event states
      → ((take_up p event states).0.tenant_id ≡ event.tenant_id)
        × ((take_up p event states).0.investigation_id ≡ event_investigation event)
  unfolding take_up begin_planning planner_state
  take_up_keys keys =
      elim (Option-cases (get_state states event.tenant_id (event_investigation event))) [
        | inl absent ↦ (ground arith, ground arith)
        | inr (st, found) ↦ let (t, i) = keys st found in (ground arith, ground arith)
      ]

  -- Whatever the runtime answers or raises, the state of the event's investigation holds the
  -- personas of the plan when the planner returns, and its status is no longer that of planning: it
  -- is the fallback's if the plan is the fallback plan for an exception, and the planned one's
  -- otherwise. (A state that was there had the investigation's ids.)
  pub plan_investigation-IsRecorded :
      KeysMatch event states
      → let (plan, states') = plan_investigation p depth event states in
        ((plan ≡ fallback_plan p (goal_from_event p event) "planner_unavailable_fallback")
          × IsRecorded event plan fallback states')
        ⊎ IsRecorded event plan planned states'
  plan_investigation-IsRecorded keys =
      let (tenant, investigation) = take_up_keys keys in
      let (state, states') = take_up p event states in
      elim (plan_investigation_cases p depth event states) [
        | inl (e, same) ↦ inl (
          ap (λ r. r.0) same,
          rw same (apply_plan-IsRecorded event state _ fallback e states' tenant investigation),
        )
        | inr (result, parsed, good, same) ↦
            inr (
              rw same (apply_plan-IsRecorded event state _ planned "" states' tenant investigation))
      ]

  -- the available ones of the personas
  abbrev pub available : List String → List String
  available = keep (λ q. elem q p.available_personas)

  or_fallback_none :
      (rationale : String) (plan : InvestigationPlan)
      → plan.personas ≢ []
      → (or_fallback p event rationale plan).personas ≡ plan.personas
  or_fallback_none rationale plan some_persona = elim (or_fallback_cases p event rationale plan) [
    | inl (empty, _) ↦ absurd (some_persona empty)
    | inr same ↦ same
  ]

  vetted_empty :
      (parsed : InvestigationPlan)
      → available parsed.personas ≢ []
      → All (λ q. fl.gt p.trust_floor (p.trust_score q) ≡ true) (available parsed.personas)
      → (vetted p event parsed).personas ≡ []
  unfolding vetted rank_personas_by_quality
  vetted_empty parsed some_persona below =
      let plan = or_fallback p event "fallback_default_plan" parsed in
      let kept : plan.personas ≡ parsed.personas =
        or_fallback_none _ parsed (λ empty. some_persona (ap available empty)) in
      let allowed : InvestigationPlan = record plan { personas = available plan.personas } in
      let same = ap available kept in
      let chosen =
        or_fallback_none "planner_invalid_personas_fallback" allowed
          (λ empty. some_persona (sym same ∙ empty)) in
      ap (rank_personas_by_quality p) (chosen ∙ same)
      ∙ ap (sort _) (keep_none _ (available parsed.personas) (All-map _ _ (λ q h. ap not h) below))
      ∙ sort_nil _

  -- If the answer names available personas and the score of each of these is below the floor of
  -- trust, then the plan has no persona at all, no fallback takes its place, and the plan is
  -- recorded as a planned one.
  pub plan_investigation_empty :
      (result : Fields) (parsed : InvestigationPlan)
      → KeysMatch event states
      → p.arun ("planner:" <> event_investigation event) (planner_prompt p event) ≡ ok result
      → parse_plan p depth (goal_from_event p event) result ≡ ok parsed
      → available parsed.personas ≢ []
      → All (λ q. fl.gt p.trust_floor (p.trust_score q) ≡ true) (available parsed.personas)
      → let (plan, states') = plan_investigation p depth event states in
        (plan.personas ≡ []) × IsRecorded event plan planned states'
  unfolding propose plan_investigation
  plan_investigation_empty result parsed keys answered good some_persona below =
      let (tenant, investigation) = take_up_keys keys in
      let (state, states') = take_up p event states in
      let proposed : propose p depth event ≡ ok (vetted p event parsed) =
        rw (propose, answered, good) refl in
      rw (plan_investigation, proposed)
        (
          vetted_empty parsed some_persona below,
          apply_plan-IsRecorded event state _ planned "" states' tenant investigation,
        )
