-- ===== src/Worker/Orchestrate.antt =====
-- `WorkerOrchestrator` (interfaces/worker/orchestrator.py): the registration of the agents, the run
-- of a job with its budget, the next job of the queue, and the jobs of a routing decision. The
-- correlation id of the traces is left out.
use Prim.Native.String.{◌++◌ as ◌<>◌}
use cys_agi.Prelude.{
  pos, at_least_zero, ℕ, suc, String, Bool, false, not, ◌&&◌, Option, none, some, List, [], ◌∷◌,
  ◌++◌, elem, truthy, ◌or_else◌, string_eq, ◌==◌, if◌then◌else◌,
}
use cys_agi.Floats.{FloatOps}
use cys_agi.Json.{Fields, nil, lookup, is_true}
use cys_agi.JobStore.{upsert_pending, pending}
use cys_agi.JobBudget
use cys_agi.JobBudget.{JobBudgetState, configure, configure_job_cost, clear}
use cys_agi.ToolChain.{clear_chain_state}
use cys_agi.Budgets.{enrich_job_budget}
use cys_agi.Bus.{
  AgentTrustLevel, untrusted, internal, privileged, system, SecureAgentBus, BusPolicy, new_bus,
  register_agent,
}
use cys_agi.Memory.{get_state}
use cys_agi.Spawn.{WorkerJob, default_profile_id}
use cys_agi.Hitl.Session.{worker_session_id}
use cys_agi.Worker.Station.{RunResult, dependency_not_ready, Station, Ports, enqueue, dequeue}
use cys_agi.Worker.Steps.{own_investigation, to_text}
use cys_agi.Worker.Run.{execute}

-- The fields of an agent's definition that the bus is told.
pub record AgentRow : Type 0 where
  pub name : String
  pub trust_level : String
  pub bus_recipients : List String

-- `_TRUST_MAP.get(level, AgentTrustLevel.INTERNAL)`
unfoldable pub trust_of : String → AgentTrustLevel
trust_of level =
    if level == "untrusted"
    then untrusted
    else if level == "privileged"
    then privileged
    else if level == "system"
    then system
    else internal

abbrev pub register_all : List AgentRow → SecureAgentBus → SecureAgentBus
register_all [] bus = bus
register_all (row ∷ rows) bus =
    register_all rows (register_agent row.name (trust_of row.trust_level) row.bus_recipients bus)

-- `build_agent_bus`, with the policy of the profile
unfoldable pub build_agent_bus : String → BusPolicy → List AgentRow → SecureAgentBus
build_agent_bus signing_key policy rows = register_all rows (new_bus signing_key policy)

module _ {F : Type 0} where
  -- the dependency of the job, if it has one that is not done
  unfoldable pub open_dependency : WorkerJob F → Station F → Option String
  open_dependency job s =
      if truthy job.depends_on_persona
        && not (
            elem job.depends_on_persona
              (elim (get_state s.investigations job.tenant_id (own_investigation job)) [
                | none ↦ []
                | some state ↦ state.completed_personas
              ]))
      then some job.depends_on_persona
      else none

  -- the answer for a job that goes back to the queue
  abbrev pub postponed : WorkerJob F → String → RunResult
  postponed job persona = record {
    job_id = job.job_id;
    persona = job.persona;
    success = false;
    finding = nil;
    error = dependency_not_ready persona;
    sandbox_id = "";
  }

module _ {F : Type 0} ⦃fl : FloatOps F⦄ (p : Ports F) where
  -- `resolve_profile_id(payload=..., catalog_entry=...)`
  unfoldable pub resolve_profile_id : Fields → Option String → String
  resolve_profile_id payload of_entry =
      let by_entry : String = elim of_entry [
        | none ↦ default_profile_id
        | some profile_id ↦ profile_id or_else default_profile_id
      ] in
      elim (lookup payload "profile_id") [
        | none ↦ by_entry
        | some v ↦ if is_true v then to_text p v else by_entry
      ]

  -- the budget of the session, set before the run
  unfoldable pub open_session : WorkerJob F → String → Station F → Station F
  unfolding resolve_profile_id
  open_session job session_id s =
      let budgeted = enrich_job_budget (p.budget_entry job.persona) job in
      let profile_id = resolve_profile_id job.payload (p.profile_of_persona job.persona) in
      record s {
        budget =
            configure session_id (at_least_zero budgeted.max_tokens) budgeted.max_cost_usd
              (at_least_zero budgeted.max_tool_calls) profile_id
              (configure_job_cost (p.cost_per_1k_tokens profile_id) (some profile_id) s.budget);
      }

  -- the `finally` of `run_job`
  unfoldable pub close_session : WorkerJob F → String → Station F → Station F
  close_session job session_id s = record s {
    job_usages = elim (JobBudget.get s.budget session_id) [
      | none ↦ s.job_usages
      | some state ↦ s.job_usages ++ (job.persona, (state.tokens_used, state.cost_usd)) ∷ []
    ];
    budget = clear session_id s.budget;
    chains = clear_chain_state job.job_id s.chains;
  }

  -- the part of `run_job` behind the test of the dependency
  unfoldable pub run_ready : WorkerJob F → Station F → RunResult × Station F
  run_ready job s =
      let session_id = worker_session_id job.persona job.job_id in
      let (answer, s') = execute p job session_id (open_session job session_id s) in
      (answer, close_session job session_id s')

  unfoldable pub run_job : WorkerJob F → Station F → RunResult × Station F
  run_job job s = elim (open_dependency job s) [
    | some persona ↦ (postponed job persona, enqueue job s)
    | none ↦ run_ready job s
  ]

  unfoldable pub process_next : Station F → Option RunResult × Station F
  unfolding dequeue
  process_next s = elim (dequeue s).0 [
    | none ↦ (none, (dequeue s).1)
    | some job ↦ let (answer, s') = run_job job (dequeue s).1 in (some answer, s')
  ]

-- The arguments of `enqueue_from_routing`, and the fresh digits of the id of each job in turn.
pub record RoutingRequest : Type 0 where
  pub event_id : String
  pub playbook_id : String
  pub payload : Fields
  pub correlation_id : String
  pub tenant_id : String
  pub sequential : Bool
  pub fresh : ℕ → String

module _ {F : Type 0} ⦃fl : FloatOps F⦄ where
  unfoldable pub routed_job : RoutingRequest → ℕ → (persona previous_persona : String) → WorkerJob F
  routed_job r n persona previous_persona = record {
    job_id = persona <> ("-" <> (r.event_id <> ("-" <> r.fresh n)));
    event_id = r.event_id;
    persona = persona;
    playbook_id = r.playbook_id;
    payload = r.payload;
    correlation_id = r.correlation_id or_else r.event_id;
    tenant_id = r.tenant_id;
    status = pending;
    sandbox_id = "";
    feedback = "";
    depends_on_persona = if r.sequential then previous_persona else "";
    max_tokens = pos 0;
    max_cost_usd = fl.of_ℕ 0;
    max_tool_calls = pos 0;
  }

  -- the loop of `_jobs_for_routing`, from the number of the jobs and the persona before
  unfoldable pub jobs_from : RoutingRequest → ℕ → String → List String → List (WorkerJob F)
  unfolding routed_job
  jobs_from r n previous_persona [] = []
  jobs_from r n previous_persona (persona ∷ personas) =
      routed_job r n persona previous_persona
      ∷ jobs_from r (suc n) (if r.sequential then persona else previous_persona) personas

  -- `_jobs_for_routing`
  unfoldable pub jobs_for_routing : RoutingRequest → List String → List (WorkerJob F)
  jobs_for_routing r personas = jobs_from r 0 "" personas

module _ {F : Type 0} where
  -- `_persist_and_enqueue_jobs`: the ids, and the station
  unfoldable pub persist_and_enqueue_jobs : List (WorkerJob F) → Station F → List String × Station F
  persist_and_enqueue_jobs [] s = ([], s)
  persist_and_enqueue_jobs (job ∷ jobs) s =
      let recorded : Station F = record s {
        jobs =
            (upsert_pending job.job_id job.persona job.correlation_id job.tenant_id job.event_id
              s.jobs).1;
      } in
      let (ids, s') = persist_and_enqueue_jobs jobs (enqueue job recorded) in (job.job_id ∷ ids, s')

-- `enqueue_from_routing`
unfoldable pub enqueue_from_routing :
    {F : Type 0} ⦃fl : FloatOps F⦄
    → RoutingRequest
    → List String
    → Station F
    → List String × Station F
enqueue_from_routing r personas s = persist_and_enqueue_jobs (jobs_for_routing r personas) s
