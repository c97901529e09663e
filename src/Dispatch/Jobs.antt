-- ===== src/Dispatch/Jobs.antt =====
-- The jobs that a dispatched event puts into the queue
-- (cys_core/application/use_cases/dispatch_event.py, interfaces/worker/orchestrator.py).
use mathlib.Core.List.{append-nil, append_assoc}
use cys_agi.Prelude.{
  ℕ, suc, String, ◌≡◌, refl, sym, subst, ap, ◌∙◌, Bool, true, false, none, List, [], ◌∷◌, ◌++◌, map,
  All, All-map, ◌or_else◌, string_eq, if◌then◌else◌, arith, Bool-cases, Option-cases, inl, inr, ◌⊎◌,
}
use cys_agi.Floats.{FloatOps}
use cys_agi.Json.{Fields, arr, lookup, put, merge}
use cys_agi.Json.Lookup.{lookup-put, lookup-merge}
use cys_agi.Events.{SecurityEvent, RoutingDecision, nonempty, llm_planner}
use cys_agi.Spawn.{WorkerJob}
use cys_agi.Planner.{to_worker_jobs_payload, event_investigation}
use cys_agi.Planner.Parse.{InvestigationPlan, PlannerPorts, str_items}
use cys_agi.Planner.Plans.{plan_investigation_unordered}
use cys_agi.Worker.Station.{Station}
use cys_agi.Worker.Orchestrate.{
  RoutingRequest, routed_job, jobs_from, jobs_for_routing, persist_and_enqueue_jobs,
  enqueue_from_routing,
}
use cys_agi.Router.{route}
use cys_agi.Dispatch.{
  decision_for, DispatchPorts, is_manual, enrich_payload_with_run_context, apply_conductor_routing,
  request_for, sync_plan, dispatch_routed, dispatch_plan, async_plan, dispatch_manual,
  dispatch_sync, dispatch_async,
}

module _ {F : Type 0} where
  -- Enqueueing puts the jobs behind the others and answers their ids.
  persist_and_enqueue_jobs_lem :
      (jobs : List (WorkerJob F)) (s : Station F)
      → ((persist_and_enqueue_jobs jobs s).0 ≡ map (λ j. j.job_id) jobs)
        × ((persist_and_enqueue_jobs jobs s).1.queue ≡ s.queue ++ jobs)
  unfolding persist_and_enqueue_jobs
  persist_and_enqueue_jobs_lem [] s = (refl, sym (append-nil s.queue))
  persist_and_enqueue_jobs_lem (job ∷ jobs) s =
      let (ids, queue) = persist_and_enqueue_jobs_lem jobs _ in
      (ap (λ xs. job.job_id ∷ xs) ids, queue ∙ append_assoc s.queue (job ∷ []) jobs)

  -- What a call adds to the queue satisfies a predicate, and the ids are those of the new jobs.
  abbrev pub Adds :
      (WorkerJob F → Type 0) → Station F → (RoutingDecision × List String) × Station F → Type 0
  Adds P s ((decision, ids), t) =
      (new : List (WorkerJob F)) × (t.queue ≡ s.queue ++ new)
      × (ids ≡ map (λ j. j.job_id) new)
      × All P new

module _ {F : Type 0} ⦃fl : FloatOps F⦄ where
  -- What holds of each job that a request can ask for.
  jobs_from-All :
      (P : WorkerJob F → Type 0) (r : RoutingRequest)
      → ((n : ℕ) (persona previous : String) → P (routed_job r n persona previous))
      → (n : ℕ) (previous : String) (personas : List String)
      → All P (jobs_from r n previous personas)
  unfolding jobs_from
  jobs_from-All P r h n previous [] = tt
  jobs_from-All P r h n previous (persona ∷ personas) =
      (h n persona previous, jobs_from-All P r h (suc n) _ personas)

  enqueue_from_routing-Adds :
      (P : WorkerJob F → Type 0) (r : RoutingRequest)
      → ((n : ℕ) (persona previous : String) → P (routed_job r n persona previous))
      → (decision : RoutingDecision) (personas : List String) (s : Station F)
      → Adds P s
          ((decision, (enqueue_from_routing r personas s).0), (enqueue_from_routing r personas s).1)
  unfolding enqueue_from_routing jobs_for_routing
  enqueue_from_routing-Adds P r h decision personas s =
      let (ids, queue) = persist_and_enqueue_jobs_lem (jobs_for_routing r personas) s in
      (jobs_for_routing r personas, queue, ids, jobs_from-All P r h 0 "" personas)

  Adds-nothing :
      (P : WorkerJob F → Type 0) (s t : Station F) (decision : RoutingDecision)
      → t.queue ≡ s.queue
      → Adds P s ((decision, []), t)
  Adds-nothing P s t decision same = ([], same ∙ sym (append-nil s.queue), refl, tt)

-- The job is for the event, and its payload names the same parent as the given one.
pub record IsJobOf {F : Type 0} (event : SecurityEvent) (payload : Fields) (j : WorkerJob F)
    : Type 0 where
  pub event_id : j.event_id ≡ event.id
  pub tenant : j.tenant_id ≡ event.tenant_id
  pub correlation : j.correlation_id ≡ event_investigation event or_else event.id
  pub parent : lookup j.payload "parent_correlation_key" ≡ lookup payload "parent_correlation_key"

-- The job is for the event and waits for no other.
abbrev pub IsFreeJobOf : {F : Type 0} → SecurityEvent → Fields → WorkerJob F → Type 0
IsFreeJobOf event payload j = IsJobOf event payload j × (j.depends_on_persona ≡ "")

module _ {F : Type 0} ⦃fl : FloatOps F⦄ (d : DispatchPorts F) (event : SecurityEvent)
    (payload : Fields) where
  routed_job-IsJobOf :
      (decision : RoutingDecision) (enriched : Fields) (sequential : Bool)
      → lookup enriched "parent_correlation_key" ≡ lookup payload "parent_correlation_key"
      → (n : ℕ) (persona previous : String)
      → IsJobOf {F = F} event payload
          (routed_job (request_for d event decision enriched sequential) n persona previous)
  unfolding routed_job
  routed_job-IsJobOf decision enriched sequential same n persona previous = record {
    event_id = refl;
    tenant = refl;
    correlation = refl;
    parent = same;
  }

  -- The key of the parent passes through the enrichments.
  enriched_parent :
      lookup (enrich_payload_with_run_context d event payload) "parent_correlation_key"
      ≡ lookup payload "parent_correlation_key"
  unfolding enrich_payload_with_run_context
  enriched_parent = lookup-put payload "run_context" _ "parent_correlation_key"

  routed_parent :
      (decision : RoutingDecision)
      → lookup (apply_conductor_routing d event decision payload).1 "parent_correlation_key"
        ≡ lookup payload "parent_correlation_key"
  unfolding apply_conductor_routing
  routed_parent decision = ground (
    arith,
    enriched_parent,
    lookup-put (enrich_payload_with_run_context d event payload) "routing_hints" d.plan_hints
        "parent_correlation_key",
    lookup-put (put (enrich_payload_with_run_context d event payload) "routing_hints" d.plan_hints)
        "suggested_personas" (arr (str_items decision.personas)) "parent_correlation_key",
  )

  dispatch_routed-Adds :
      (s : Station F) → Adds (IsFreeJobOf event payload) s (dispatch_routed d event payload s)
  unfolding dispatch_routed
  dispatch_routed-Adds s =
      let decision = route d.notify_severities d.plans event in
      let (final, enriched) = apply_conductor_routing d event decision payload in
      let jobs = routed_job-IsJobOf final enriched false (routed_parent decision) in
      elim (Bool-cases (nonempty decision.personas)) [
        | inr silent ↦ rw silent (Adds-nothing (IsFreeJobOf event payload) s s decision refl)
        | inl found ↦ rw found (
            enqueue_from_routing-Adds (IsFreeJobOf event payload)
              (request_for d event final enriched false)
              (λ n q previous. (jobs n q previous, unfold routed_job in refl)) final final.personas
              s)
      ]

  dispatch_plan-Adds :
      (plan : InvestigationPlan) (sequential : Bool) (s : Station F)
      → Adds
          (λ j. IsJobOf event payload j × (sequential ≡ false → j.depends_on_persona ≡ ""))
          s
          (dispatch_plan d event payload plan sequential s)
  unfolding dispatch_plan
  dispatch_plan-Adds plan sequential s =
      let decision = decision_for event plan.personas llm_planner in
      let enriched = merge payload (to_worker_jobs_payload d.dump_goals d.dump_dependencies plan) in
      let jobs = routed_job-IsJobOf decision enriched sequential (
        unfold to_worker_jobs_payload in
        lookup-merge payload _ "parent_correlation_key" (unfold lookup in refl)) in
      enqueue_from_routing-Adds
        (λ j. IsJobOf event payload j × (sequential ≡ false → j.depends_on_persona ≡ ""))
        (request_for d event decision enriched sequential)
        (λ n q previous. (jobs n q previous, λ par. unfold routed_job in rw par refl)) decision
        plan.personas s

  pub Adds-map :
      {P Q : WorkerJob F → Type 0} (s : Station F) (o : (RoutingDecision × List String) × Station F)
      → ((j : WorkerJob F) → P j → Q j)
      → Adds P s o
      → Adds Q s o
  Adds-map s ((decision, ids), t) f (new, queue, same, all) =
      (new, queue, same, All-map _ new f all)

  if_both : {A : Type 0} (P : A → Type 0) (b : Bool) {x y : A} → P x → P y → P (if b then x else y)
  if_both P true h k = h
  if_both P false h k = k

  async_plan_unordered :
      d.async_plan_executor ≡ none
      → (planner : PlannerPorts F) (s : Station F)
      → ((async_plan d planner event s).0.depends_on ≡ [])
        × ((async_plan d planner event s).1.queue ≡ s.queue)
  unfolding async_plan
  async_plan_unordered own planner s =
      rw own (plan_investigation_unordered planner d.recursion_limit event s.investigations, refl)

  dispatch_manual-Adds :
      d.async_plan_executor ≡ none
      → (planner : PlannerPorts F) (s : Station F)
      → Adds (IsFreeJobOf event payload) s (dispatch_manual d planner event payload s)
  unfolding dispatch_manual
  dispatch_manual-Adds own planner s =
      let (plan, s') = async_plan d planner event s in
      let (free, kept) = async_plan_unordered own planner s in
      let (new, same, ids, all) = dispatch_plan-Adds plan (nonempty plan.depends_on) s' in
      if_both (Adds (IsFreeJobOf event payload) s) d.manual_investigation_async
        ([], sym (append-nil s.queue), refl, tt)
        (
          new,
          same ∙ ap (λ q. q ++ new) kept,
          ids,
          All-map _ new (λ j h. (h.0, h.1 (ap nonempty free))) all,
        )

  async_plan_queue :
      (planner : PlannerPorts F) (s : Station F) → (async_plan d planner event s).1.queue ≡ s.queue
  unfolding async_plan
  async_plan_queue planner s = elim (Option-cases d.async_plan_executor) [
    | inl own ↦ rw (own, async_plan) refl
    | inr (plan_for, there) ↦ rw (there, async_plan) refl
  ]

  dispatch_manual-IsJobOf :
      (planner : PlannerPorts F) (s : Station F)
      → Adds (IsJobOf event payload) s (dispatch_manual d planner event payload s)
  unfolding dispatch_manual
  dispatch_manual-IsJobOf planner s =
      let (plan, s') = async_plan d planner event s in
      let (new, same, ids, all) = dispatch_plan-Adds plan (nonempty plan.depends_on) s' in
      if_both (Adds (IsJobOf event payload) s) d.manual_investigation_async
        ([], sym (append-nil s.queue), refl, tt)
        (
          new,
          same ∙ ap (λ q. q ++ new) (async_plan_queue planner s),
          ids,
          All-map _ new (λ j h. h.0) all,
        )

  -- the ways of the dispatchers
  dispatch_sync_cases :
      (s : Station F)
      → (dispatch_sync d event payload s ≡ dispatch_routed d event payload s)
        ⊎ ((planner : PlannerPorts F) × (dispatch_sync d event payload s
              ≡ dispatch_plan d event payload (sync_plan d planner event) true s))
  unfolding dispatch_sync
  dispatch_sync_cases s = elim (Option-cases d.planner) [
    | inl absent ↦ inl (ground arith)
    | inr (planner, there) ↦ elim (Bool-cases (is_manual event)) [
      | inr other ↦ inl (ground arith)
      | inl manual ↦ inr (planner, ground arith)
    ]
  ]

  dispatch_async_cases :
      (s : Station F)
      → (dispatch_async d event payload s ≡ dispatch_routed d event payload s)
        ⊎ ((planner : PlannerPorts F) × (dispatch_async d event payload s
              ≡ dispatch_manual d planner event payload s))
  unfolding dispatch_async
  dispatch_async_cases s = elim (Option-cases d.planner) [
    | inl absent ↦ inl (ground arith)
    | inr (planner, there) ↦ elim (Bool-cases (is_manual event)) [
      | inr other ↦ inl (ground arith)
      | inl manual ↦ inr (planner, ground arith)
    ]
  ]

  -- What `dispatch_sync` adds are jobs of the event.
  pub dispatch_sync-Adds :
      (s : Station F) → Adds (IsJobOf event payload) s (dispatch_sync d event payload s)
  dispatch_sync-Adds s = elim (dispatch_sync_cases s) [
    | inl same ↦
        subst (Adds (IsJobOf event payload) s) (sym same)
          (Adds-map s (dispatch_routed d event payload s) (λ j h. h.0) (dispatch_routed-Adds s))
    | inr (planner, same) ↦ subst (Adds (IsJobOf event payload) s) (sym same) (
        Adds-map s (dispatch_plan d event payload (sync_plan d planner event) true s) (λ j h. h.0)
          (dispatch_plan-Adds (sync_plan d planner event) true s))
  ]

  -- Be it with `dispatch_sync` or with `dispatch_async`, and whatever the planner or the plans from
  -- outside say: what the dispatch of an event adds to the queue are jobs for the event and its
  -- tenant, in the event's investigation and with the parent that the given payload names; the
  -- answer lists their ids, and the other jobs stay in front.
  pub dispatch_both-Adds :
      (s : Station F)
      → Adds (IsJobOf event payload) s (dispatch_sync d event payload s)
        × Adds (IsJobOf event payload) s (dispatch_async d event payload s)
  dispatch_both-Adds s = (
    dispatch_sync-Adds s,
    elim (dispatch_async_cases s) [
      | inl same ↦
          subst (Adds (IsJobOf event payload) s) (sym same)
            (Adds-map s (dispatch_routed d event payload s) (λ j h. h.0) (dispatch_routed-Adds s))
      | inr (planner, same) ↦
          subst (Adds (IsJobOf event payload) s) (sym same) (dispatch_manual-IsJobOf planner s)
    ],
  )

  -- With the planner's own plans, no job that `dispatch_async` adds waits for another, while the
  -- jobs are for the event as ever: the personas of a manual investigation run in no order.
  pub dispatch_async_unordered :
      d.async_plan_executor ≡ none
      → (s : Station F) → Adds (IsFreeJobOf event payload) s (dispatch_async d event payload s)
  dispatch_async_unordered own s = elim (dispatch_async_cases s) [
    | inl same ↦ subst (Adds (IsFreeJobOf event payload) s) (sym same) (dispatch_routed-Adds s)
    | inr (planner, same) ↦
        subst (Adds (IsFreeJobOf event payload) s) (sym same) (dispatch_manual-Adds own planner s)
  ]
