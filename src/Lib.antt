-- ===== src/Lib.antt =====
-- The control logic of cys_agi, a platform of LLM security agents: what limits the agents, what
-- they may say to each other, who must approve their tool calls, what they
-- remember, and where events are sent.
--
-- The parts, the files that model them, and the code:
--   RateLimit   cys_core/security/rate_limit.py, `InMemoryRateLimiter`
--   JobBudget   cys_core/domain/workers/job_budget.py, `JobBudgetTracker`
--   JobStore    cys_core/infrastructure/job_store/in_memory.py, `InMemoryJobStore`, with the records
--               of cys_core/application/ports/job_store.py and cys_core/domain/workers/models.py
--   Hitl        cys_core/middleware/hitl_pause.py, the preview of a call that waits for a human and
--               the answer; cys_core/application/use_cases/resume_hitl_job.py,
--               `ResumeHitlJob.execute`; and the audit records of
--               interfaces/gateways/tool/approval.py
--   Events      cys_core/domain/events/models.py and plans.py, events and routing rules
--   Router      cys_core/application/routing/event_router.py, `EventRouter.route`
--   Breaker     `CircuitBreaker` of cys_core/domain/security/agent_bus.py
--   Bus         `SecureAgentBus` of the same file, with cys_core/domain/security/a2a.py
--   Policy      cys_core/domain/policy/pure.py, with risk_level.py and risk.py of
--               cys_core/domain/security, cys_core/domain/runs/mode_policy.py, and the tables of
--               cys_core/domain/policy/defaults.py in Policy/Tables
--   ToolChain   interfaces/gateways/tool/policy.py, the limit on high-risk calls in a row
--   Gateway     cys_core/application/use_cases/invoke_tool.py, `InvokeTool`
--   Guard       cys_core/middleware/security_middleware.py, `SecurityMiddleware`
--   Memory      the in-memory stores of cys_core/infrastructure/memory/stores.py, and services.py and
--               validator.py of cys_core/domain/memory
--   Spawn       cys_core/application/spawn_broker.py, `SubagentSpawnBroker`, with `RunContext` of
--               cys_core/domain/runs/models.py, and spawn.py and checkpoint.py beside it
--   Budgets     `persona_budget_pure` of cys_core/domain/policy/pure.py, its table in defaults.py, and
--               cys_core/domain/workers/budgets.py
--   Planner     cys_core/application/use_cases/plan_investigation.py, `PlanInvestigation`, with
--               `planner_fallback_personas` of cys_core/application/policy_resolver.py and
--               `rank_personas_by_quality` of cys_core/registry/discovery_tools.py
--   Dispatch    cys_core/application/use_cases/dispatch_event.py, `DispatchEvent`, and
--               route_and_enqueue.py beside it, `RouteAndEnqueueEvent`
--   Worker      cys_core/application/use_cases/run_worker_job.py, `RunWorkerJob` (Worker/Steps and
--               Worker/Run), and interfaces/worker/orchestrator.py, `WorkerOrchestrator`
--               (Worker/Orchestrate), on the objects of Worker/Station: the job store, the bus, the
--               memory, the budgets, and the queue and the sandboxes of
--               cys_core/infrastructure/queue.py and sandbox.py
--   Todos       cys_core/application/runs/plan_helpers.py, `apply_plan_delta`, on the records of
--               cys_core/domain/runs/plan_models.py, with plan_strict.py beside the former, and the
--               printed snapshot of the todos in Todos/Snapshot
--   Runs        interactive runs: the states, plans and todos of cys_core/domain/runs and their stores
--               in memory; the step of a run, `RunStep` of
--               cys_core/application/use_cases/run_step.py (Runs/Prompt, Runs/Answer, Runs/Turn,
--               Runs/Step and Runs/Step/Execute), with the critic of its trace in
--               evaluate_trace_critic.py (Runs/Critic); and `ManageRun` of manage_run.py with the creation of runs and
--               the upload of attachments in interfaces/api/runs.py (Runs/Manage)
--   Assessment  cys_core/domain/security/guardrails.py, `OutputGuardrails`, and
--               cys_core/domain/assessment/services.py, `HitlPolicy` and `AssessmentReportBuilder`
--   Classification  cys_core/domain/security/classification.py, `SecureContextBuilder`
--   Monitor     cys_core/security/monitor.py, `AgentMonitor`
--   Delegate    cys_core/application/use_cases/delegate_research.py, `DelegateResearch`, under
--               `nested_delegate_budget` of cys_core/application/runs/run_budget.py
-- Prelude holds shared names, tests, lists and the type of code that raises; Dict is Python's dict
-- as an association list in the order of insertion; Json the values of `dict[str, Any]`; Floats an
-- interface for Python's float; Samples runs the theorems at concrete inputs.
--
-- How they interact: Dispatch turns an event into jobs by a routing decision or by a plan of the
-- planner, and puts them into the queue; a worker takes the next job, runs it under the
-- session id of Hitl/Session and opens a budget for that session; before a tool call Guard asks the
-- budget, the limiter and, for a risk of Policy above the threshold, a human, which pauses the job in
-- the job store under the preview of Hitl until `execute` resumes it; the tools of a sandbox are
-- called through Gateway, which asks ToolChain; the jobs of an investigation share its memory; a worker
-- may spawn others; and agents exchange findings over the bus, which asks a breaker per sender.
-- Interactive runs go beside the jobs: a request finds the state of its run, a step calls the runtime
-- under the budget of its session, takes over the todos of its answer and asks the critic, which may
-- have the runtime called again; and a plan waits for the approval of a human, which starts a step.
-- A conductor may delegate a subtask, which calls the runtime again in a session of its own.
--
-- State is passed explicitly: an operation takes the object's record last and returns it changed,
-- and one that raises is an `Exec`, a result beside the state that was written before the raise.
-- The clock is an argument, a natural number of ticks. Names follow the code, operation by
-- operation. Every loop is structural but two: the parser of the planner's answers recurs on a JSON
-- text, and its fuel is the interpreter's limit on recursion, past which the code raises too; and the
-- turns of a conductor recur on one more than the reruns that the limit leaves, since every rerun
-- counts one. Floats are any type with the
-- operations of `FloatOps`, and no law is assumed of them.
--
-- Arguments of the model, since they are not code of the repository: SHA-256 over printed JSON,
-- HMAC, JSON and times in print, Redis, the LLM runtime that runs and resumes a session, the `interrupt` of
-- its graph, and the tools. The sanitizer and the redaction of texts rest on regular expressions and
-- are arguments too.
--
-- Not modelled: connectors to Postgres, Kafka and Redis, the LLM runtime, the API, the command line,
-- observability and settings, which are I/O and wiring; the critic of findings and
-- the catalog.
pub mod Assessment
pub mod Breaker
pub mod Budgets
pub mod Bus
pub mod Classification
pub mod Delegate
pub mod Dict
pub mod Dispatch
pub mod Events
pub mod Floats
pub mod Gateway
pub mod Guard
pub mod Hitl
pub mod JobBudget
pub mod JobStore
pub mod Json
pub mod Memory
pub mod Monitor
pub mod Planner
pub mod Policy
pub mod Prelude
pub mod RateLimit
pub mod Router
pub mod Runs
pub mod Samples
pub mod Spawn
pub mod Todos
pub mod ToolChain
pub mod Worker
