-- ===== src/Runs.antt =====
-- Interactive runs: the records of cys_core/domain/runs/state_models.py, plan_models.py and
-- trace_models.py beside it, and the stores in memory of cys_core/infrastructure/runs/memory.py and
-- todo_store.py, and of cys_core/infrastructure/reflexion/memory.py. The steps of a run and the
-- approval of its plan are in the children.
pub mod Prompt
pub mod Answer
pub mod Critic
pub mod Turn
pub mod Step
pub mod Isolation
pub mod Manage
use mathlib.Core.List.{reverse}
use cys_agi.Prelude.{
  ℕ, zero, suc, String, Bool, ◌&&◌, Option, none, some, List, [], ◌∷◌, ◌++◌, string_eq, pair_eq,
  ◌==◌, if◌then◌else◌, Result, Exec, take, keep, map,
}
use cys_agi.Dict
use cys_agi.Dict.{Dict}
use cys_agi.Json.{Value, Items, Fields, end, nil}
use cys_agi.JobBudget.{JobBudgetTracker}
use cys_agi.Policy.{InteractionMode}
use cys_agi.Spawn.{RunContext, kind_value}
use cys_agi.Todos.{WorkTodo}

pub record ClarifyingQuestion : Type 0 where
  pub id : String
  pub question : String
  pub required : Bool

pub record WorkPlan : Type 0 where
  pub questions : List ClarifyingQuestion
  pub todos : List WorkTodo
  pub proposed_workers : List String
  pub rationale : String
  pub awaiting_user_input : Bool
  pub reasoning_steps : List String
  pub plan_status : String
  pub enough_data : Bool
  pub remaining_steps : List String

-- The constructor `run_open` is `RunStatus.OPEN`.
pub data RunStatus : Type 0 where
  run_open in_progress awaiting_user awaiting_plan_approval closed : RunStatus

pub record RunState : Type 0 where
  pub run_context : RunContext
  pub goal : String
  pub status : RunStatus
  pub mode : Option InteractionMode
  pub plan : Option WorkPlan
  pub pending_questions : List ClarifyingQuestion
  pub todos : List WorkTodo
  pub last_result : Fields
  pub step_count : ℕ
  pub context_summary : String
  pub reasoning_notes : List String
  pub attachments : Items
  pub last_trace_verdict : Fields
  pub trace_rerun_count : ℕ

-- `RunState(run_context=..., goal=..., mode=..., status=...)`
abbrev pub new_state : RunContext → String → Option InteractionMode → RunStatus → RunState
new_state ctx goal mode status = record {
  run_context = ctx;
  goal = goal;
  status = status;
  mode = mode;
  plan = none;
  pending_questions = [];
  todos = [];
  last_result = nil;
  step_count = 0;
  context_summary = "";
  reasoning_notes = [];
  attachments = end;
  last_trace_verdict = nil;
  trace_rerun_count = 0;
}

pub record ReflexionLesson : Type 0 where
  pub investigation_id : String
  pub tenant_id : String
  pub lesson : String
  pub source : String

-- A tenant, a context, and the name of its kind.
abbrev pub StateKey : Type 0
StateKey = String × (String × String)

-- What the steps of runs change: the three stores, the budgets of sessions, and the metric of what a
-- session used.
pub record RunDesk (F : Type 0) : Type 0 where
  pub states : Dict StateKey RunState
  pub todo_lists : Dict (String × String) (List WorkTodo)
  pub lessons : List ReflexionLesson
  pub budget : JobBudgetTracker F
  pub job_usages : List (String × (ℕ × F))

-- `InMemoryRunStateStore`
abbrev pub state_key : RunContext → StateKey
state_key ctx = (ctx.tenant_id, (ctx.context_id, kind_value ctx.kind))

module _ {F : Type 0} where
  unfoldable pub get_state : RunDesk F → StateKey → Option RunState
  get_state d key = Dict.get d.states key

  unfoldable pub upsert : RunState → RunDesk F → RunDesk F
  upsert state d = record d { states = Dict.set d.states (state_key state.run_context) state }

  unfoldable pub list_recent : RunDesk F → String → ℕ → List RunState
  list_recent d tenant_id limit =
      take limit
        (keep (λ (s : RunState). s.run_context.tenant_id == tenant_id) (Dict.values d.states))

  -- `InMemoryWorkTodoStore`
  unfoldable pub list_todos : RunDesk F → String → String → List WorkTodo
  list_todos d tenant_id context_id = Dict.get_or d.todo_lists (tenant_id, context_id) []

  unfoldable pub replace_todos : String → String → List WorkTodo → RunDesk F → RunDesk F
  replace_todos tenant_id context_id todos d = record d {
    todo_lists = Dict.set d.todo_lists (tenant_id, context_id) todos;
  }

  -- `InMemoryReflexionStore.append`; a lesson that the sanitizer refuses is replaced
  unfoldable pub append_lesson :
      (sanitize : String → Option String) → ReflexionLesson → RunDesk F → RunDesk F
  append_lesson sanitize lesson d = record d {
    lessons =
        d.lessons
        ++ record lesson {
          lesson = elim (sanitize lesson.lesson) [
            | some safe ↦ safe
            | none ↦ "[reflexion lesson removed by sanitizer]"
          ];
        }
          ∷ [];
  }

  unfoldable pub list_for_investigation : RunDesk F → String → String → ℕ → List String
  list_for_investigation d tenant_id investigation_id limit = take limit (
      map (λ (l : ReflexionLesson). l.lesson)
        (keep
          (λ (l : ReflexionLesson).
            l.tenant_id == tenant_id && l.investigation_id == investigation_id)
          (reverse d.lessons)))
