-- ===== src/Worker/Station.antt =====
-- What a worker works with: the objects that `RunWorkerJob` and `WorkerOrchestrator` are built from
-- (cys_core/application/use_cases/run_worker_job.py, interfaces/worker/orchestrator.py), with the
-- queue and the sandboxes in memory. The agent runtime, the registries, the sanitizer and pydantic
-- are ports, and what is read of the clock and of fresh identifiers is one of their fields. A tool
-- stands for its name.
use Prim.Native.String.{◌++◌ as ◌<>◌}
use cys_agi.Prelude.{
  ℕ, String, Bool, Option, none, some, List, [], ◌∷◌, ◌++◌, string_eq, Result, ok, err, Exec,
}
use cys_agi.Dict
use cys_agi.Dict.{Dict}
use cys_agi.Json.{Value, Fields}
use cys_agi.JobStore.{InMemoryJobStore}
use cys_agi.JobBudget.{JobBudgetTracker}
use cys_agi.ToolChain.{ToolChainStates}
use cys_agi.Budgets.{BudgetEntry}
use cys_agi.Bus.{SecureAgentBus, SecurityViolation, Primitives, Envelope}
use cys_agi.Memory.{MemoryEntry, MemoryType, Validator, InvestigationState, InvestigationStates}
use cys_agi.Spawn.{WorkerJob}

pub record SandboxCredentials : Type 0 where
  pub sandbox_id : String
  pub endpoint : String
  pub token : String

-- The exceptions that a run may raise. `bus_violation` is the `SecurityViolation` of the bus, with
-- its cause, and `security_violation` one of another origin, with its text.
pub data Failure : Type 0 where
  job_budget_exceeded : (text : String) → Failure
  security_violation : (text : String) → Failure
  bus_violation : SecurityViolation → Failure
  other_exception : (text : String) → Failure

-- `RunResult.error`
pub data RunError : Type 0 where
  no_error : RunError
  dependency_not_ready : (persona : String) → RunError
  raised : Failure → RunError

pub record RunResult : Type 0 where
  pub job_id : String
  pub persona : String
  pub success : Bool
  pub finding : Fields
  pub error : RunError
  pub sandbox_id : String

-- The fields of `AgentDefinition` that a run reads.
pub record AgentDefinition : Type 0 where
  pub tools : List String
  pub skills : List String
  pub schema_name : String
  pub bus_recipients : List String

-- The arguments of `arun`.
pub record RunCall : Type 0 where
  pub persona : String
  pub user_input : String
  pub session_id : String
  pub sandbox_tools : List String
  pub job_id : String
  pub event_id : String
  pub correlation_id : String
  pub tenant_id : String
  pub investigation_id : String
  pub sandbox_id : String

-- The objects that a worker shares with the rest of the program. `published` is what the transport
-- was given; `sanitizer_blocks`, `memory_writes` and `job_usages` are metrics.
pub record Station (F : Type 0) : Type 0 where
  pub jobs : InMemoryJobStore
  pub queue : List (WorkerJob F)
  pub sandboxes : Dict String SandboxCredentials
  pub bus : SecureAgentBus
  pub published : List (String × Envelope)
  pub memory : List (MemoryEntry F)
  pub investigations : InvestigationStates
  pub budget : JobBudgetTracker F
  pub chains : ToolChainStates
  pub sanitizer_blocks : List (String × String)
  pub memory_writes : List (String × MemoryType)
  pub job_usages : List (String × (ℕ × F))

-- What a run of a job uses and does not implement. The runtime may change all the objects.
pub record Ports (F : Type 0) : Type 0 where
  pub prim : Primitives
  pub validator : Validator
  pub now : ℕ
  -- eight hexadecimal digits, and the id of a memory entry
  pub fresh : String
  pub memory_id : String
  pub definition : String → Result Failure AgentDefinition
  pub use_tool_gateway : Bool
  pub resolve_mcp_tools :
      List String
      → (sandbox_id persona job_id correlation_id : String) → Result Failure (List String)
  pub resolve_legacy_tools : List String → Result Failure (List String)
  pub make_load_skill_tool : List String → (persona job_id : String) → String
  pub sanitize : String → Result Failure String
  -- the schema of a name, as its validation, if the name has one
  pub schema : String → Result Failure (Option (Fields → Result Failure Fields))
  pub stage : String
  pub self_refine_max : ℕ
  pub arun : RunCall → Exec (Station F) Failure Fields
  pub parse_json_text : String → Option Fields
  pub dumps : Value → String
  pub dump_state : InvestigationState → Value
  -- `str(value)` of a value that is no text, and of an index
  pub text_of : Value → String
  pub decimal : ℕ → String
  -- the catalog: the budget and the profile of a persona, and the token costs of a profile
  pub budget_entry : String → Option (BudgetEntry F)
  pub profile_of_persona : String → Option String
  pub cost_per_1k_tokens : String → F

module _ {F : Type 0} where
  -- `InMemoryJobQueue.enqueue`
  abbrev pub enqueue : WorkerJob F → Station F → Station F
  enqueue job s = record s { queue = s.queue ++ job ∷ [] }

  -- `InMemoryJobQueue.dequeue`
  unfoldable pub dequeue : Station F → Option (WorkerJob F) × Station F
  dequeue s = elim s.queue [ [] ↦ (none, s) | job ∷ rest ↦ (some job, record s { queue = rest }) ]

  -- `LocalSandboxConnector.create`, with the default policy
  unfoldable pub create :
      (fresh run_id persona : String) → Station F → SandboxCredentials × Station F
  create fresh run_id persona s =
      let creds : SandboxCredentials = record {
        sandbox_id = "local-" <> (run_id <> ("-" <> fresh));
        endpoint = "sandbox://local/" <> (persona <> ("/" <> run_id));
        token = "tok-default-" <> run_id;
      } in
      (creds, record s { sandboxes = Dict.set s.sandboxes run_id creds })

  -- `LocalSandboxConnector.destroy`
  unfoldable pub destroy : String → Station F → Station F
  destroy run_id s = record s { sandboxes = Dict.pop s.sandboxes run_id }

  -- `LocalSandboxConnector.is_active`
  abbrev pub is_active : String → Station F → Bool
  is_active run_id s = Dict.has s.sandboxes run_id

  -- a computation that may raise and changes nothing
  abbrev pub lift : {A : Type 0} → Result Failure A → Exec (Station F) Failure A
  lift r s = (r, s)

  -- a change that raises nothing
  abbrev pub change : (Station F → Station F) → Exec (Station F) Failure (Unit {0})
  change f s = (ok tt, f s)

  -- a call of the bus; its exception is passed on
  abbrev pub on_bus :
      {A : Type 0} → Exec SecureAgentBus SecurityViolation A → Exec (Station F) Failure A
  on_bus m s =
      let (r, bus') = m s.bus in
      (elim r [ ok a ↦ ok a | err e ↦ err (bus_violation e) ], record s { bus = bus' })
