-- ===== src/Delegate.antt =====
-- A subtask that a conductor delegates: `DelegateResearch` of
-- cys_core/application/use_cases/delegate_research.py, under `nested_delegate_budget` of
-- cys_core/application/runs/run_budget.py and with the fraction of
-- cys_core/application/policy_resolver.py. The catalog and the runtime are ports, and so is the
-- redaction of the monitor; the clock is read before and after the runtime.
pub mod Unbudgeted
use Prim.Native.String.{◌++◌ as ◌<>◌}
use cys_agi.Prelude.{
  ℕ, ◌-◌, max, String, Bool, not, ◌&&◌, Option, none, some, List, [], ◌∷◌, ◌++◌, keep, string_eq,
  ◌==◌, ◌or_else◌, if◌then◌else◌, Result, ok, err, Exec,
}
use cys_agi.Floats.{FloatOps}
use cys_agi.Json.{Value, Fields, str, nil, field, lookup}
use cys_agi.JobBudget.{JobBudgetTracker, configure, clear}
use cys_agi.JobBudget
use cys_agi.Memory.{cut}
use cys_agi.Monitor.{
  AnomalyPolicy, AgentMonitor, AgentSecurityEvent, new_monitor, log_orchestration_tool,
}
use cys_agi.Spawn.{AgentCatalogEntry, default_profile_id}
use cys_agi.Runs.Answer.{RunFailure}
use cys_agi.Runs.Turn.{RunTurn, as_result}

pub record DelegatePorts (F : Type 0) : Type 0 where
  pub get_agent : String → Option (AgentCatalogEntry F)
  pub arun : RunTurn → Exec (JobBudgetTracker F) RunFailure Value
  pub thresholds : String → AnomalyPolicy
  pub redact : Fields → Value
  pub env_delegate_budget_fraction : Option F
  pub policy_delegate_budget_fraction : String → F

-- The budgets, and the events that monitors logged.
pub record DelegateDesk (F : Type 0) : Type 0 where
  pub budget : JobBudgetTracker F
  pub logged : List AgentSecurityEvent

module _ {F : Type 0} where
  -- `_resolve_delegate_persona`
  unfoldable pub resolve_delegate_persona : Option (AgentCatalogEntry F) → String
  resolve_delegate_persona none = "research"
  resolve_delegate_persona (some conductor) =
      elim (keep (λ c. not (c == "spawn_worker") && not (c == "conductor"))
        conductor.capabilities) [ [] ↦ "research" | cap ∷ _ ↦ cap ]

  -- `resolve_profile_id(catalog_entry=conductor)`
  abbrev pub profile_of : Option (AgentCatalogEntry F) → String
  profile_of none = default_profile_id
  profile_of (some conductor) = conductor.profile_id or_else default_profile_id

  unfoldable pub delegate_budget_fraction : DelegatePorts F → String → F
  delegate_budget_fraction p profile_id = elim p.env_delegate_budget_fraction [
    | some fraction ↦ fraction
    | none ↦ p.policy_delegate_budget_fraction profile_id
  ]

abbrev pub investigation_of : (context_id tenant_id : String) → String
investigation_of context_id tenant_id = context_id or_else ("delegate-" <> tenant_id)

abbrev pub parent_session : String → String
parent_session inv_id = "delegate:research:" <> inv_id

abbrev pub child_session : String → String
child_session inv_id = parent_session inv_id <> ":child"

module _ {F : Type 0} ⦃fl : FloatOps F⦄ where
  -- `nested_delegate_budget` around a body
  unfoldable pub nested_delegate_budget :
      {A : Type 0}
      → (parent_session_id child_session_id : String) → (fraction : F)
      → Exec (JobBudgetTracker F) RunFailure A
      → Exec (JobBudgetTracker F) RunFailure A
  nested_delegate_budget parent_session_id child_session_id fraction body t =
      elim (JobBudget.get t parent_session_id) [
        | none ↦ body t
        | some parent ↦
            let remaining_tools = max 1 (parent.max_tool_calls - parent.tool_calls) in
            let remaining_tokens = max 1000 (parent.max_tokens - parent.tokens_used) in
            let (r, t') = body (
              configure child_session_id
                (max 1000 (fl.trunc (fl.mul (fl.of_ℕ remaining_tokens) fraction)))
                (fl.fmax (fl.decimal 5 2) (fl.mul parent.max_cost_usd fraction))
                (max 1 (fl.trunc (fl.mul (fl.of_ℕ remaining_tools) fraction))) default_profile_id
                t) in
            (r, clear child_session_id t')
      ]

module _ {F : Type 0} ⦃fl : FloatOps F⦄ (p : DelegatePorts F) where
  -- the call of the runtime
  abbrev pub delegated : (subtask context_id tenant_id : String) → RunTurn
  delegated subtask context_id tenant_id =
      let conductor = p.get_agent "conductor" in
      let inv_id = investigation_of context_id tenant_id in
      record {
        name = resolve_delegate_persona conductor;
        user_input = subtask;
        session_id = child_session inv_id;
        tenant_id = tenant_id;
        investigation_id = inv_id;
        profile_id = profile_of conductor;
      }

  -- an entry of the monitor, which belongs to this call alone
  unfoldable pub note :
      (now : ℕ) (context_id tenant_id : String)
      → Fields
      → (outcome : String) → AgentMonitor
      → AgentMonitor
  note now context_id tenant_id params outcome =
      log_orchestration_tool p.redact now (context_id or_else tenant_id) "delegate_research" params
        outcome "system"

  abbrev pub outcome_of : Fields → String
  outcome_of payload = elim (lookup payload "error") [ none ↦ "ok" | some v ↦ "error" ]

  unfoldable pub execute :
      (started ended : ℕ) (subtask context_id tenant_id : String)
      → Exec (DelegateDesk F) RunFailure Fields
  unfolding note nested_delegate_budget
  execute started ended subtask context_id tenant_id d =
      let turn = delegated subtask context_id tenant_id in
      let short = field "subtask" (str (cut 200 subtask)) in
      let monitor =
        note started context_id tenant_id (short (field "context_id" (str context_id) nil)) "ok"
          (new_monitor "conductor" (p.thresholds turn.profile_id)) in
      let (answer, budget) =
        nested_delegate_budget (parent_session turn.investigation_id) turn.session_id
          (delegate_budget_fraction p turn.profile_id) (p.arun turn) d.budget in
      elim answer [
        | err e ↦ (err e, record { budget = budget; logged = d.logged ++ monitor.events })
        | ok v ↦ (
          ok (as_result v),
          record {
            budget = budget;
            logged =
                d.logged
                ++ (note ended context_id tenant_id (short nil) (outcome_of (as_result v))
                    monitor).events;
          },
        )
      ]
