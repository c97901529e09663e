-- ===== src/Runs/Manage.antt =====
-- Runs as a caller sees them: `ManageRun` of cys_core/application/use_cases/manage_run.py, and the
-- creation of a run with attachments by interfaces/api/runs.py.
pub mod Tenants
pub mod Approval
pub mod Requests
use cys_agi.Prelude.{
  ℕ, String, Bool, true, false, ◌or_else◌, Option, none, some, List, [], ◌∷◌, ◌++◌, string_eq, ◌==◌,
  if◌then◌else◌, Result, ok, err, Exec, ◌>>=◌,
}
use cys_agi.Floats.{FloatOps}
use cys_agi.Json.{Items, Fields, str, obj, end, item, nil, field}
use cys_agi.Policy.{InteractionMode, agent}
use cys_agi.Spawn.{ContextKind, job, session, investigation, RunContext, kind_value}
use cys_agi.Todos.{WorkTodo}
use cys_agi.Runs.{
  WorkPlan, RunStatus, in_progress, closed, RunState, new_state, RunDesk, state_key, get_state,
  upsert, replace_todos,
}
use cys_agi.Runs.Answer.{RunFailure, run_not_found}
use cys_agi.Runs.Turn.{StepPorts, RunOutcome}
use cys_agi.Runs.Step.Execute.{execute}

-- `PlanApproval`
pub data Decision : Type 0 where
  approve reject edit : Decision

pub record PlanApproval : Type 0 where
  pub decision : Decision
  pub edited_plan : Option WorkPlan
  pub actor : String

abbrev pub with_mode : InteractionMode → RunContext → RunContext
with_mode mode ctx = record ctx { mode = some mode }

-- The attachments of paths; `name` is the last part of a path
abbrev attached : (name : String → String) → List String → Items → Items
attached name [] items = items
attached name (path ∷ paths) items =
    item (obj (field "path" (str path) (field "name" (str (name path)) nil)))
      (attached name paths items)

abbrev append_items : Items → Items → Items
append_items end items = items
append_items (item v rest) items = item v (append_items rest items)

module _ {F : Type 0} where
  -- the first state of a kind of the list
  abbrev pub find_state :
      RunDesk F → (tenant_id run_id : String) → List ContextKind → Option RunState
  find_state d tenant_id run_id [] = none
  find_state d tenant_id run_id (kind ∷ kinds) =
      elim (get_state d (tenant_id, (run_id, kind_value kind))) [
        | some state ↦ some state
        | none ↦ find_state d tenant_id run_id kinds
      ]

  unfoldable pub get_context :
      RunDesk F → (run_id tenant_id : String) → Result RunFailure RunContext
  get_context d run_id tenant_id =
      elim (find_state d tenant_id run_id (session ∷ job ∷ investigation ∷ [])) [
        | some state ↦ ok state.run_context
        | none ↦ err (run_not_found run_id)
      ]

  unfoldable pub save_context : RunContext → (goal : String) → RunDesk F → RunDesk F
  save_context ctx goal d = elim (get_state d (state_key ctx)) [
    | none ↦ upsert (new_state ctx goal ctx.mode in_progress) d
    | some state ↦ upsert (record state { run_context = ctx }) d
  ]

  -- the todos of a plan, if there are some, in the state and in their store
  abbrev pub file_todos : RunContext → List WorkTodo → RunState → RunDesk F → RunDesk F
  file_todos ctx [] state d = upsert state d
  file_todos ctx (t ∷ ts) state d =
      upsert (record state { todos = t ∷ ts })
        (replace_todos ctx.tenant_id ctx.context_id (t ∷ ts) d)

  abbrev pub file_plan : RunContext → Option WorkPlan → RunState → RunDesk F → RunDesk F
  file_plan ctx none state d = upsert (record state { plan = none }) d
  file_plan ctx (some work) state d =
      file_todos ctx work.todos (record state { plan = some work }) d

  -- the edited plan or the state's own
  abbrev pub adopt_plan : RunContext → Option WorkPlan → RunState → RunDesk F → RunDesk F
  adopt_plan ctx (some work) state d = file_plan ctx (some work) state d
  adopt_plan ctx none state d = file_plan ctx state.plan state d

  -- the desk with the plan in the state, if the store has one
  unfoldable pub approved_desk : RunContext → Option WorkPlan → RunDesk F → RunDesk F
  approved_desk ctx edited d = elim (get_state d (state_key ctx)) [
    | none ↦ d
    | some state ↦ adopt_plan ctx edited state d
  ]

  -- `_attach_paths_to_run` of the API
  unfoldable pub attach_paths :
      (name : String → String) → RunContext → List String → RunDesk F → RunDesk F
  attach_paths name ctx paths d = elim (get_state d (state_key ctx)) [
    | none ↦ d
    | some state ↦
        upsert
          (record state { attachments = append_items state.attachments (attached name paths end) })
          d
  ]

  -- `upload_attachment` of the API, on a file that `save` stores and tells the path of
  unfoldable pub upload_attachment :
      (save : (tenant_id run_id file_name : String) → String)
      → (run_id file_name tenant_id : String) → Exec (RunDesk F) RunFailure String
  unfolding get_context
  upload_attachment save run_id file_name tenant_id d = elim (get_context d run_id tenant_id) [
    | err e ↦ (err e, d)
    | ok ctx ↦
        let name = file_name or_else "attachment.bin" in
        let path = save tenant_id run_id name in
        elim (get_state d (tenant_id, (run_id, kind_value ctx.kind))) [
          | none ↦ (ok path, d)
          | some state ↦ (
            ok path,
            upsert
                (record state {
                  attachments =
                      append_items state.attachments
                        (item (obj (field "path" (str path) (field "name" (str name) nil))) end);
                })
                d,
          )
        ]
  ]

module _ {F : Type 0} ⦃fl : FloatOps F⦄ (p : StepPorts F) where
  unfoldable pub create_and_step :
      RunContext → (user_input persona : String) → Exec (RunDesk F) RunFailure RunOutcome
  create_and_step ctx user_input persona d =
      execute p ctx user_input persona (save_context ctx user_input d)

  -- `create_run` of the API
  unfoldable pub create_run :
      (name : String → String)
      → RunContext
      → (user_input persona : String) → (file_paths : List String)
      → Exec (RunDesk F) RunFailure RunOutcome
  unfolding create_and_step
  create_run name ctx user_input persona file_paths d =
      let saved = save_context ctx user_input d in
      let ready : RunDesk F = elim file_paths [
        | [] ↦ saved
        | path ∷ paths ↦ attach_paths name ctx (path ∷ paths) saved
      ] in
      create_and_step ctx user_input persona ready

  -- a step of the context that was found
  abbrev pub step_in :
      RunContext
      → Option InteractionMode
      → (message persona : String) → Exec (RunDesk F) RunFailure RunOutcome
  step_in ctx none message persona d = execute p ctx message persona d
  step_in ctx (some mode) message persona d =
      execute p (with_mode mode ctx) message persona (save_context (with_mode mode ctx) "" d)

  unfoldable pub step :
      (run_id message tenant_id : String)
      → Option InteractionMode
      → (persona : String) → Exec (RunDesk F) RunFailure RunOutcome
  step run_id message tenant_id mode persona d = elim (get_context d run_id tenant_id) [
    | err e ↦ (err e, d)
    | ok ctx ↦ step_in ctx mode message persona d
  ]

  -- the answer to a plan that was not rejected
  unfoldable pub accept_plan : RunContext → Option WorkPlan → Exec (RunDesk F) RunFailure RunOutcome
  accept_plan ctx edited d =
      let ctx' = with_mode agent ctx in
      execute p ctx' "execute approved plan" "conductor"
        (approved_desk ctx' edited (save_context ctx' "" d))

  -- A rejection returns no status; here it is that of the state.
  abbrev pub decide_plan :
      Decision → Option WorkPlan → RunContext → Exec (RunDesk F) RunFailure RunOutcome
  decide_plan reject edited ctx d = (
    ok (record {
      run_context = ctx;
      result = field "status" (str "rejected") nil;
      status = closed;
    }),
    upsert (new_state ctx "" none closed) d,
  )
  decide_plan approve edited ctx d = accept_plan ctx edited d
  decide_plan edit edited ctx d = accept_plan ctx edited d

  unfoldable pub approve_plan :
      (run_id : String)
      → PlanApproval
      → (tenant_id : String) → Exec (RunDesk F) RunFailure RunOutcome
  unfolding accept_plan
  approve_plan run_id approval tenant_id d = elim (get_context d run_id tenant_id) [
    | err e ↦ (err e, d)
    | ok ctx ↦ decide_plan approval.decision approval.edited_plan ctx d
  ]
