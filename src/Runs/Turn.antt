-- ===== src/Runs/Turn.antt =====
-- What a step of a run works on, and its call of the runtime
-- (cys_core/application/use_cases/run_step.py), under the budget of
-- cys_core/application/runs/run_budget.py. The runtime, pydantic, the summarizer and the model of
-- the hints are ports, and of these the last two do not raise.
use Prim.Native.String.{◌++◌ as ◌<>◌}
use cys_agi.Prelude.{
  at_least_zero, suc, String, Bool, Option, none, some, List, [], ◌∷◌, ◌++◌, elem, ◌or_else◌,
  string_eq, nat_eq, ◌==◌, if◌then◌else◌, Result, ok, err, Exec,
}
use cys_agi.Floats.{FloatOps}
use cys_agi.Json.{Value, Fields, str, arr, obj, nil, field, lookup, has_true, put}
use cys_agi.JobBudget.{JobBudgetTracker, configure, clear}
use cys_agi.JobBudget
use cys_agi.Policy.{InteractionMode, plan}
use cys_agi.Budgets.{BudgetEntry, persona_budget_pure}
use cys_agi.Spawn.{RunContext, default_profile_id}
use cys_agi.Todos.{WorkTodo, merge_plan_delta_with_policy}
use cys_agi.Runs.{
  WorkPlan, RunStatus, in_progress, awaiting_user, awaiting_plan_approval, RunState, RunDesk,
  upsert, replace_todos,
}
use cys_agi.Runs.Prompt.{PromptPorts}
use cys_agi.Runs.Answer.{
  RunFailure, CriticPorts, add_note, filter_spawn_requests_by_sgr, persist_sgr_fields_to_state,
  enrich_conductor_result,
}

-- The arguments of `arun`.
pub record RunTurn : Type 0 where
  pub name : String
  pub user_input : String
  pub session_id : String
  pub tenant_id : String
  pub investigation_id : String
  pub profile_id : String

pub record StepPorts (F : Type 0) : Type 0 where
  pub prompt : PromptPorts
  pub critic : CriticPorts F
  pub arun : RunTurn → Exec (RunDesk F) RunFailure Value
  pub budget_entry : String → Option (BudgetEntry F)
  pub validate_plan : Fields → Result RunFailure WorkPlan
  pub dump_plan : WorkPlan → Value
  -- `[WorkTodo.model_validate(item) for item in v]`
  pub validate_todos : Value → Result RunFailure (List WorkTodo)
  pub sanitize_lesson : String → Option String
  pub summarize : (goal messages_text prior_summary : String) → String
  pub task_hints_enabled : Bool
  pub trace_critic_enabled : Bool
  pub trace_critic_hitl_on_exhausted : Bool
  -- the store hands out the states that it holds, as the one in memory does, and no copies
  pub shares_states : Bool

-- A step under way: the objects of the program, the state of the run, and whether this is the object
-- that the store holds.
pub record Turn (F : Type 0) : Type 0 where
  pub desk : RunDesk F
  pub state : RunState
  pub is_held : Bool

-- What `execute` returns.
pub record RunOutcome : Type 0 where
  pub run_context : RunContext
  pub result : Fields
  pub status : RunStatus

abbrev pub is_conductor : String → Bool
is_conductor persona = elem persona ("conductor" ∷ "gaia_solver" ∷ [])

-- `result if isinstance(result, dict) else {"raw": result}`
abbrev pub as_result : Value → Fields
as_result (obj d) = d
as_result v = field "raw" v nil

-- `_status_from_result`
unfoldable pub status_from_result : Fields → InteractionMode → RunStatus
status_from_result result mode =
    let by_mode = elim mode as (λ _. RunStatus) [
      | plan ↦ awaiting_plan_approval
      | _ ↦ in_progress
    ] in
    let by_critic = if has_true result "trace_critic_escalation" then awaiting_user else by_mode in
    elim (lookup result "status") [
      | some (str s) ↦ if s == "awaiting_user" then awaiting_user else by_critic
      | _ ↦ by_critic
    ]

-- `_inject_reflexion_hints`, for the given lessons
abbrev pub with_lessons : List String → List String → List String
with_lessons [] notes = notes
with_lessons (lesson ∷ lessons) notes =
    with_lessons lessons (add_note ("reflexion: " <> lesson) notes)

abbrev pub count_step : RunState → RunState
count_step s = record s { step_count = suc s.step_count }

module _ {F : Type 0} where
  -- an assignment to a field of the state
  unfoldable pub change_state : (RunState → RunState) → Turn F → Turn F
  change_state f t = record t {
    state = f t.state;
    desk = if t.is_held then upsert (f t.state) t.desk else t.desk;
  }

  -- the end of `run_session_budget`
  unfoldable pub close_session : (session_id persona : String) → RunDesk F → RunDesk F
  close_session session_id persona d = record d {
    job_usages = elim (JobBudget.get d.budget session_id) [
      | none ↦ d.job_usages
      | some state ↦ d.job_usages ++ (persona, (state.tokens_used, state.cost_usd)) ∷ []
    ];
    budget = clear session_id d.budget;
  }

module _ {F A : Type 0} where
  abbrev pub on_desk : Exec (RunDesk F) RunFailure A → Exec (Turn F) RunFailure A
  on_desk m t = let (r, d) = m t.desk in (r, record t { desk = d })

module _ {F : Type 0} ⦃fl : FloatOps F⦄ (p : StepPorts F) where
  -- The start of `run_session_budget`. A limit below zero refuses the same as one of zero, since it
  -- is compared with the calls made, and with the tokens used once there are some.
  unfoldable pub open_session : (session_id persona : String) → RunDesk F → RunDesk F
  open_session session_id persona d =
      let budget = persona_budget_pure persona (p.budget_entry persona) in
      record d {
        budget =
            configure session_id (at_least_zero budget.max_tokens) budget.max_cost_usd
              (at_least_zero budget.max_tool_calls) default_profile_id d.budget;
      }

  -- `run_session_budget` around the call of the runtime
  unfoldable pub call_runtime : RunTurn → Exec (RunDesk F) RunFailure Value
  unfolding open_session close_session
  call_runtime turn d =
      let (answer, d') = p.arun turn (open_session turn.session_id turn.name d) in
      (answer, close_session turn.session_id turn.name d')

  abbrev pub turn_of : (persona prompt session_id : String) → RunContext → RunTurn
  turn_of persona prompt session_id ctx = record {
    name = persona;
    user_input = prompt;
    session_id = session_id;
    tenant_id = ctx.tenant_id;
    investigation_id = ctx.context_id;
    profile_id = ctx.profile_id;
  }

  -- `_merge_todos_from_result`
  unfoldable pub merge_todos_from_result :
      Fields → List WorkTodo → Result RunFailure (List WorkTodo)
  merge_todos_from_result result todos =
      let merge = λ (base : List WorkTodo).
        elim (lookup result "plan_delta") as (λ _. List WorkTodo) [
          | some (obj delta) ↦
              merge_plan_delta_with_policy p.prompt.texts p.prompt.strict_plan base delta
          | _ ↦ base
        ] in
      elim (lookup result "todos") [
        | none ↦ ok (merge todos)
        | some v ↦
            if has_true result "todos"
            then elim (p.validate_todos v) [ ok given ↦ ok (merge given) | err e ↦ err e ]
            else ok (merge todos)
      ]

  -- the answer with its structured part, and with the spawn requests that are let through
  abbrev pub enriched : Fields → (goal : String) → Fields
  enriched answer goal =
      let result = enrich_conductor_result p.critic answer goal in
      put result "spawn_requests" (arr (filter_spawn_requests_by_sgr result))

  abbrev pub with_answer : Fields → List WorkTodo → RunState → RunState
  with_answer last merged s =
      persist_sgr_fields_to_state p.prompt.texts last (record s { todos = merged })

  -- what a turn keeps of the runtime's answer
  unfoldable pub absorb :
      RunContext
      → (prompt : String) → List WorkTodo
      → Fields
      → Exec (Turn F) RunFailure (Fields × List WorkTodo)
  unfolding merge_todos_from_result change_state
  absorb ctx prompt todos answer t = elim (merge_todos_from_result answer todos) [
    | err e ↦ (err e, t)
    | ok merged ↦
        let last = enriched answer (t.state.goal or_else prompt) in
        (
          ok (last, merged),
          change_state (with_answer last merged)
              (record t { desk = replace_todos ctx.tenant_id ctx.context_id merged t.desk }),
        )
  ]
