-- ===== src/Guard.antt =====
-- `SecurityMiddleware` of cys_core/middleware/security_middleware.py, which stands between an agent
-- and its tools. `awrap_tool_call` does the same as `wrap_tool_call` with awaited calls, and this
-- is both. The limiter's answer, the tool and the human are arguments: the limiter is Redis's.
pub mod Calls
use cys_agi.Prelude.{
  String, Bool, true, false, Option, none, some, List, [], ◌∷◌, ◌++◌, string_eq, ◌==◌,
  if◌then◌else◌, Result, ok, err, Exec,
}
use Prim.Native.String.{◌++◌ as ◌<>◌}
use cys_agi.Json.{Value, Fields}
use cys_agi.JobBudget.{JobBudgetExceeded, JobBudgetTracker, check_tool_call, record_tool_call}
use cys_agi.JobStore.{InMemoryJobStore, pause_for_hitl}
use cys_agi.Hitl.{build_hitl_preview, resume_decision_approved}
use cys_agi.Policy.{RiskLevel, risk_le, low, medium, high, critical}

-- `request.tool_call`
pub record ToolCall : Type 0 where
  pub name : String
  pub args : Fields
  pub id : String

-- The attributes of the middleware, and `risk.value` of a tool for its profile.
pub record SecurityMiddleware : Type 0 where
  pub agent_id : String
  pub session_id : String
  pub stage : String
  pub auto_approve_threshold : RiskLevel
  pub risk_of_tool : String → RiskLevel

-- What the middleware answers without the tool, or the tool's own answer.
pub data Outcome (F : Type 0) : Type 0 where
  budget_refusal : JobBudgetExceeded F → Outcome F
  rate_refusal needs_approval rejected_by_human : (tool : String) → Outcome F
  tool_result : Value → Outcome F

-- What the tool raises: also the middleware of a nested agent may raise that its budget is used up.
pub data ToolFailure (F : Type 0) : Type 0 where
  budget_exceeded : JobBudgetExceeded F → ToolFailure F
  other_exception : (text : String) → ToolFailure F

-- What is raised to the caller: the pause of the graph, a decision that is no answer, or the
-- tool's exception.
pub data Raised : Type 0 where
  graph_interrupt type_error : Raised
  tool_error : String → Raised

pub data MonitorEvent : Type 0 where
  rate_limit_event tool_failure_event tool_call_event : (tool : String) → MonitorEvent

-- The objects that a call changes, and the calls that the tool got.
pub record World (F : Type 0) : Type 0 where
  pub budget : JobBudgetTracker F
  pub jobs : InMemoryJobStore
  pub events : List MonitorEvent
  pub tool_calls : List ToolCall

-- What comes from outside during one call. `interrupt` raises on the first pass, and on a resumed
-- one returns the human's answer.
pub record Answers (F : Type 0) : Type 0 where
  pub rate_allowed : Bool
  pub interrupt : Option Value
  pub tool : Result (ToolFailure F) Value
  pub fresh : String
  pub params_hash : Fields → String

abbrev pub risk_value : RiskLevel → String
risk_value low = "low"
risk_value medium = "medium"
risk_value high = "high"
risk_value critical = "critical"

module _ {F : Type 0} where
  abbrev pub log : MonitorEvent → World F → World F
  log e w = record w { events = w.events ++ e ∷ [] }

  -- `register_hitl_pause(build_hitl_preview(...))`
  unfoldable pub pause : SecurityMiddleware → Answers F → ToolCall → World F → World F
  unfolding build_hitl_preview pause_for_hitl
  pause m a call w =
      let (action, preview) =
        build_hitl_preview a.params_hash a.fresh call.name call.args
          (risk_value (m.risk_of_tool call.name)) m.session_id m.agent_id in
      record w { jobs = (pause_for_hitl action preview w.jobs).1 }

  -- `_await_hitl_if_needed`: `none` lets the call through
  unfoldable pub await_hitl_if_needed :
      SecurityMiddleware → Answers F → ToolCall → Exec (World F) Raised (Option (Outcome F))
  await_hitl_if_needed m a call w =
      if risk_le (m.risk_of_tool call.name) m.auto_approve_threshold
      then (ok none, w)
      else if m.stage == "dev"
      then (ok (some (needs_approval call.name)), w)
      else elim a.interrupt [
        | none ↦ (err graph_interrupt, pause m a call w)
        | some decision ↦ elim (resume_decision_approved decision) [
          | none ↦ (err type_error, pause m a call w)
          | some true ↦ (ok none, pause m a call w)
          | some false ↦ (ok (some (rejected_by_human call.name)), pause m a call w)
        ]
      ]

  -- the `try` around the tool
  unfoldable pub run_tool :
      SecurityMiddleware → Answers F → ToolCall → Exec (World F) Raised (Outcome F)
  run_tool m a call w =
      let w' : World F = record w { tool_calls = w.tool_calls ++ call ∷ [] } in
      elim a.tool [
        | err (budget_exceeded e) ↦ (ok (budget_refusal e), w')
        | err (other_exception e) ↦ (err (tool_error e), log (tool_failure_event call.name) w')
        | ok result ↦
            let (recorded, budget) = record_tool_call m.session_id w'.budget in
            elim recorded [
              | ok _ ↦ (
                ok (tool_result result),
                log (tool_call_event call.name) (record w' { budget = budget }),
              )
              | err e ↦ (ok (budget_refusal e), record w' { budget = budget })
            ]
      ]

  unfoldable pub wrap_tool_call :
      SecurityMiddleware → Answers F → ToolCall → Exec (World F) Raised (Outcome F)
  wrap_tool_call m a call w =
      let (checked, budget) = check_tool_call m.session_id w.budget in
      let w0 : World F = record w { budget = budget } in
      elim checked [
        | err e ↦ (ok (budget_refusal e), w0)
        | ok _ ↦
            if a.rate_allowed
            then (let (hitl, w1) = await_hitl_if_needed m a call w0 in
                elim hitl [
                  | err e ↦ (err e, w1)
                  | ok (some block) ↦ (ok block, w1)
                  | ok none ↦ run_tool m a call w1
                ])
            else (ok (rate_refusal call.name), log (rate_limit_event call.name) w0)
      ]
