-- ===== src/Spawn.antt =====
-- Spawning workers: `RunContext` of cys_core/domain/runs/models.py, the payload of
-- cys_core/domain/runs/spawn.py, `SubagentSpawnBroker` of cys_core/application/spawn_broker.py and the
-- budgets of cys_core/domain/workers/budgets.py. The catalog and the policy of a profile are
-- arguments.
pub mod Depth
use Prim.Native.String.{◌++◌ as ◌<>◌}
use cys_agi.Prelude.{
  ℤ, pos, ℕ, ◌+◌, String, Bool, true, false, not, ◌&&◌, ◌||◌, Option, none, some, List, [], ◌∷◌,
  elem, keep, leb, truthy, ◌or_else◌, string_eq, ◌==◌, if◌then◌else◌,
}
use cys_agi.Floats.{FloatOps}
use cys_agi.Events.{SecurityEvent, nonempty}
use cys_agi.Json.{Value, bool, Fields, nil, field, str, nat, lookup}
use cys_agi.JobStore.{WorkerJobStatus, pending}
use cys_agi.Policy.{InteractionMode, agent, allow_spawn}

pub data ContextKind : Type 0 where
  job event investigation session batch stream : ContextKind

abbrev pub kind_value : ContextKind → String
kind_value job = "job"
kind_value event = "event"
kind_value investigation = "investigation"
kind_value session = "session"
kind_value batch = "batch"
kind_value stream = "stream"

abbrev pub build_correlation_key : ContextKind → String → String
build_correlation_key kind context_id = kind_value kind <> (":" <> context_id)

pub record RunContext : Type 0 where
  pub context_id : String
  pub kind : ContextKind
  pub tenant_id : String
  pub parent_context_id : Option String
  pub parent_kind : Option ContextKind
  pub mode : Option InteractionMode
  pub profile_id : String
  pub spawn_depth : ℕ
  pub correlation_key : String

abbrev pub default_profile_id : String
default_profile_id = "cybersec-soc"

-- `RunContext(context_id=..., kind=..., tenant_id=...)`, with the key that the validator fills in
abbrev pub new_context : String → ContextKind → String → RunContext
new_context context_id kind tenant_id = record {
  context_id = context_id;
  kind = kind;
  tenant_id = tenant_id;
  parent_context_id = none;
  parent_kind = none;
  mode = none;
  profile_id = default_profile_id;
  spawn_depth = 0;
  correlation_key = build_correlation_key kind context_id;
}

unfoldable pub from_event : SecurityEvent → RunContext
from_event e = new_context (e.correlation_id or_else e.id) event e.tenant_id

unfoldable pub from_session_id : String → String → Option InteractionMode → String → RunContext
from_session_id session_id tenant_id mode profile_id =
    record (new_context session_id session tenant_id) { mode = mode; profile_id = profile_id }

unfoldable pub one_shot_job : String → String → Option InteractionMode → String → RunContext
one_shot_job job_id tenant_id mode profile_id = record (new_context job_id job tenant_id) {
  mode = mode;
  profile_id = profile_id;
}

unfoldable pub spawn_child : String → RunContext → RunContext
spawn_child child_id c = record {
  context_id = child_id;
  kind = job;
  tenant_id = c.tenant_id;
  parent_context_id = some c.context_id;
  parent_kind = some c.kind;
  mode = c.mode;
  profile_id = c.profile_id;
  spawn_depth = c.spawn_depth + 1;
  correlation_key = build_correlation_key job child_id;
}

abbrev pub is_stateful : RunContext → Bool
is_stateful c = elim c.kind [ session ↦ true | investigation ↦ true | _ ↦ false ]

unfoldable pub checkpoint_key : RunContext → String → String
checkpoint_key c persona =
    let by_run = "run:" <> (kind_value c.kind <> (":" <> c.context_id)) in
    elim c.kind [
      | job ↦ if truthy persona then "worker:" <> (persona <> (":" <> c.context_id)) else by_run
      | _ ↦ by_run
    ]

pub record WorkerJob (F : Type 0) : Type 0 where
  pub job_id : String
  pub event_id : String
  pub persona : String
  pub playbook_id : String
  pub payload : Fields
  pub correlation_id : String
  pub tenant_id : String
  pub status : WorkerJobStatus
  pub sandbox_id : String
  pub feedback : String
  pub depends_on_persona : String
  pub max_tokens : ℤ
  pub max_cost_usd : F
  pub max_tool_calls : ℤ

-- The overlay is the text that the validator has cut to its maximal length.
pub record SpawnWorkerPayload : Type 0 where
  pub parent_context : RunContext
  pub persona : String
  pub sub_goal : String
  pub persona_overlay : String

-- The fields of `AgentCatalogEntry` that the broker reads.
pub record AgentCatalogEntry (F : Type 0) : Type 0 where
  pub enabled : Bool
  pub capabilities : List String
  pub empirical_trust : F
  pub profile_id : String

pub record SubagentSpawnBroker (F : Type 0) : Type 0 where
  pub catalog : String → Option (AgentCatalogEntry F)
  pub max_spawn_depth_override : Option ℕ
  pub policy_max_spawn_depth : String → ℕ
  pub policy_trust_floor : String → F

pub data SpawnRefusal : Type 0 where
  spawn_not_allowed_in_mode max_spawn_depth_exceeded unknown_persona : SpawnRefusal
  persona_not_in_conductor_capabilities persona_quality_below_floor : SpawnRefusal

abbrev pub max_spawn_depth : ℕ
max_spawn_depth = 5

-- the personas that the conductor's capabilities name
unfoldable pub spawn_targets : List String → List String
spawn_targets = keep (λ cap. not (elem cap ("spawn_worker" ∷ "conductor" ∷ [])))

-- Python's `int()`: `other` is what it makes of a value that is no natural number and no Boolean,
-- and `none` where it raises. (A number below zero, which the broker never writes, is left out.)
unfoldable pub int : (other : Value → Option ℕ) → Value → Option ℕ
int other (nat n) = some n
int other (bool b) = some (if b then 1 else 0)
int other v = other v

-- `int(payload.get("spawn_depth", 0))`
unfoldable pub payload_depth : (other : Value → Option ℕ) → Fields → Option ℕ
unfolding int
payload_depth other payload = elim (lookup payload "spawn_depth") [
  | none ↦ some 0
  | some v ↦ int other v
]

module _ {F : Type 0} where
  -- `none` where it raises
  unfoldable pub from_job : (other : Value → Option ℕ) → WorkerJob F → Option RunContext
  unfolding payload_depth
  from_job other j =
      let parent_id = j.correlation_id in
      elim (payload_depth other j.payload) [
        | none ↦ none
        | some depth ↦ some (record (new_context j.job_id job j.tenant_id) {
          parent_context_id =
              if truthy parent_id && not (parent_id == j.job_id) then some parent_id else none;
          parent_kind = if truthy parent_id then some event else none;
          spawn_depth = depth;
        })
      ]

  unfoldable pub resolve_max_spawn_depth : SubagentSpawnBroker F → String → ℕ
  resolve_max_spawn_depth b profile_id = elim b.max_spawn_depth_override [
    | some n ↦ n
    | none ↦ b.policy_max_spawn_depth profile_id
  ]

  -- the conductor may not spawn this persona
  unfoldable pub conductor_blocks : SubagentSpawnBroker F → (parent_persona persona : String) → Bool
  unfolding spawn_targets
  conductor_blocks b parent_persona persona =
      parent_persona == "conductor" && (elim (b.catalog "conductor") [
        | none ↦ false
        | some conductor ↦
            nonempty (spawn_targets conductor.capabilities)
            && not (elem persona (spawn_targets conductor.capabilities))
      ])

  unfoldable pub validate :
      ⦃fl : FloatOps F⦄
      → SubagentSpawnBroker F
      → SpawnWorkerPayload
      → Option InteractionMode
      → (profile_id parent_persona : String) → Option SpawnRefusal
  validate ⦃fl⦄ b payload mode profile_id parent_persona =
      let depth = payload.parent_context.spawn_depth in
      if not (allow_spawn mode)
      then some spawn_not_allowed_in_mode
      else if leb (resolve_max_spawn_depth b profile_id) depth || leb max_spawn_depth depth
      then some max_spawn_depth_exceeded
      else elim (b.catalog payload.persona) [
        | none ↦ some unknown_persona
        | some entry ↦
            if not entry.enabled
            then some unknown_persona
            else if conductor_blocks b parent_persona payload.persona
            then some persona_not_in_conductor_capabilities
            else if fl.gt (b.policy_trust_floor entry.profile_id) entry.empirical_trust
            then some persona_quality_below_floor
            else none
      ]

  -- `to_worker_job`, with a fresh job id
  unfoldable pub to_worker_job :
      ⦃fl : FloatOps F⦄ → (fresh : String) → SpawnWorkerPayload → (event_id : String) → WorkerJob F
  unfolding spawn_child
  to_worker_job ⦃fl⦄ fresh payload event_id =
      let child = spawn_child fresh payload.parent_context in
      record {
        job_id = child.context_id;
        event_id = event_id or_else child.context_id;
        persona = payload.persona;
        playbook_id = "";
        payload = field "sub_goal" (str payload.sub_goal) (
            field "persona_overlay" (str payload.persona_overlay) (
              field "spawn_depth" (nat child.spawn_depth)
                (field "parent_correlation_key" (str payload.parent_context.correlation_key) nil)));
        correlation_id = payload.parent_context.context_id;
        tenant_id = payload.parent_context.tenant_id;
        status = pending;
        sandbox_id = "";
        feedback = "";
        depends_on_persona = "";
        max_tokens = pos 0;
        max_cost_usd = fl.of_ℕ 0;
        max_tool_calls = pos 0;
      }
