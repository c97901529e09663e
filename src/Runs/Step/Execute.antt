-- ===== src/Runs/Step/Execute.antt =====
-- `RunStep.execute` of cys_core/application/use_cases/run_step.py: what a step does before and after
-- the runtime is called.
use Prim.Native.String.{◌++◌ as ◌<>◌}
use cys_agi.Prelude.{
  suc, ◌-◌, String, Bool, true, false, ◌&&◌, ◌||◌, Option, none, some, List, [], ◌∷◌, ◌or_else◌,
  ltb, leb, string_eq, nat_eq, ◌==◌, if◌then◌else◌, Result, ok, err, Exec, ◌>>=◌,
}
use cys_agi.Floats.{FloatOps}
use cys_agi.Json.{Value, Fields, str, obj, nil, field, lookup, is_nonempty}
use cys_agi.Policy.{InteractionMode, plan, agent}
use cys_agi.Spawn.{RunContext, is_stateful, checkpoint_key}
use cys_agi.Todos.{WorkTodo, text_or}
use cys_agi.Todos.Snapshot.{has_failed_todos}
use cys_agi.Runs.{
  WorkPlan, in_progress, awaiting_plan_approval, RunState, new_state, RunDesk, state_key, get_state,
  upsert, list_todos, replace_todos, list_for_investigation,
}
use cys_agi.Runs.Prompt.{mode_of, build_step_prompt, task_hints}
use cys_agi.Runs.Answer.{RunFailure}
use cys_agi.Runs.Critic.{rerun_limit}
use cys_agi.Runs.Step.{run_conductor}
use cys_agi.Runs.Turn.{
  StepPorts, Turn, RunOutcome, is_conductor, as_result, status_from_result, with_lessons,
  change_state, on_desk, call_runtime, turn_of,
}

abbrev pub is_plan : InteractionMode → Bool
is_plan plan = true
is_plan _ = false

abbrev pub is_agent : InteractionMode → Bool
is_agent agent = true
is_agent _ = false

abbrev no_notes : List String → Bool
no_notes [] = true
no_notes _ = false

-- the state that the store has, or a new one
unfoldable pub begin : {F : Type 0} → Bool → RunContext → String → RunDesk F → Turn F
begin shares ctx user_input d = elim (get_state d (state_key ctx)) [
  | some state ↦ record { desk = d; state = state; is_held = shares }
  | none ↦ record {
    desk = d;
    state = new_state ctx user_input ctx.mode in_progress;
    is_held = false;
  }
]

-- `todo_store.list_todos(...) or state.todos`
abbrev pub todos_or : List WorkTodo → List WorkTodo → List WorkTodo
todos_or [] todos = todos
todos_or (t ∷ ts) todos = t ∷ ts

-- the plan and its todos in the state
abbrev pub with_plan : WorkPlan → (last : Fields) → RunState → RunState
with_plan work last s = record s {
  plan = some work;
  todos = todos_or work.todos s.todos;
  last_result = last;
  status = awaiting_plan_approval;
}

-- the result of a persona that is no conductor
abbrev pub with_result : Value → RunState → RunState
with_result answer s = record s { last_result = as_result answer; status = in_progress }

-- the session of a step
unfoldable pub session_of : (persona : String) → RunContext → String
session_of persona ctx =
    if is_plan (mode_of ctx) || (is_stateful ctx || is_conductor persona)
    then checkpoint_key ctx persona
    else "worker:" <> (persona <> (":" <> ctx.context_id))

-- the todos of a plan in their store, if it has some
abbrev pub store_plan : {F : Type 0} → RunContext → List WorkTodo → RunDesk F → RunDesk F
store_plan ctx [] d = d
store_plan ctx (t ∷ ts) d = replace_todos ctx.tenant_id ctx.context_id (t ∷ ts) d

-- the end of a step: the state in its store, unless the step raised
abbrev pub stored :
    {F : Type 0}
    → RunContext
    → Result RunFailure (Unit {0})
    → Turn F
    → Result RunFailure RunOutcome × RunDesk F
stored ctx (err e) t = (err e, t.desk)
stored ctx (ok _) t = (
  ok (record { run_context = ctx; result = t.state.last_result; status = t.state.status }),
  upsert t.state t.desk,
)

module _ {F : Type 0} (p : StepPorts F) where
  -- the summary of a long last result
  unfoldable pub summarized : String → RunState → RunState
  summarized user_input s =
      let blob = p.critic.dumps (obj s.last_result) in
      if leb 3 s.step_count && (is_nonempty s.last_result && ltb 2500 (p.critic.length blob))
      then record s {
        context_summary = p.summarize (s.goal or_else user_input) blob s.context_summary;
      }
      else s

  -- the hints of a first step
  unfoldable pub hinted : (persona user_input : String) → InteractionMode → RunState → RunState
  hinted persona user_input mode s =
      if is_conductor persona
        && (is_agent mode
            && (p.task_hints_enabled && (no_notes s.reasoning_notes && s.step_count == 0)))
      then record s { reasoning_notes = task_hints p.critic.hints (s.goal or_else user_input) }
      else s

  -- the state before the prompt
  unfoldable pub prepared :
      RunContext → (persona user_input : String) → RunDesk F → RunState → RunState
  unfolding summarized hinted
  prepared ctx persona user_input d s = summarized user_input (
      hinted persona user_input (mode_of ctx) (record s {
        reasoning_notes =
            with_lessons (list_for_investigation d ctx.tenant_id ctx.context_id 5)
              s.reasoning_notes;
      }))

  -- `_maybe_failed_summary`
  unfoldable pub maybe_failed_summary : String → RunState → RunState
  maybe_failed_summary user_input s =
      let is_fail : Bool = elim (lookup s.last_trace_verdict "verdict") [
        | some (str v) ↦ v == "fail"
        | _ ↦ false
      ] in
      if is_fail || has_failed_todos s.todos
      then record s {
        context_summary =
            p.summarize (s.goal or_else user_input) (p.critic.dumps (obj s.last_result))
              s.context_summary;
      }
      else s

  -- the state behind a turn of the conductor
  unfoldable pub with_kept : RunContext → (user_input : String) → Fields → RunState → RunState
  unfolding maybe_failed_summary
  with_kept ctx user_input last s =
      maybe_failed_summary user_input
        (record s { last_result = last; status = status_from_result last (mode_of ctx) })

  -- `_parse_work_plan`, or the plan of an answer without one
  abbrev plan_entry : Fields → List String → Option Fields
  plan_entry result [] = none
  plan_entry result (key ∷ keys) = elim (lookup result key) [
    | some (obj d) ↦ some d
    | _ ↦ plan_entry result keys
  ]

  unfoldable pub parse_work_plan : Value → Result RunFailure WorkPlan
  parse_work_plan answer =
      let result : Fields = elim answer [ obj d ↦ d | _ ↦ nil ] in
      elim (plan_entry result ("plan" ∷ "work_plan" ∷ "WorkPlan" ∷ [])) [
        | some d ↦ p.validate_plan d
        | none ↦ ok (record {
          questions = [];
          todos = [];
          proposed_workers = [];
          rationale = elim (lookup result "rationale") [
            | none ↦ "plan generated"
            | some v ↦ text_or p.prompt.texts "" (some v)
          ];
          awaiting_user_input = false;
          reasoning_steps = [];
          plan_status = "";
          enough_data = false;
          remaining_steps = [];
        })
      ]

  -- the plan of a step in plan mode, and its todos in their store
  unfoldable pub take_plan : RunContext → WorkPlan → Turn F → Turn F
  unfolding change_state
  take_plan ctx work t =
      change_state (with_plan work (field "plan" (p.dump_plan work) nil))
        (record t { desk = store_plan ctx work.todos t.desk })

module _ {F : Type 0} ⦃fl : FloatOps F⦄ (p : StepPorts F) where
  -- The branches of `execute` behind the prompt.
  unfoldable pub plan_step :
      (persona session_id : String)
      → RunContext
      → (prompt : String) → Exec (Turn F) RunFailure (Unit {0})
  unfolding call_runtime parse_work_plan take_plan
  plan_step persona session_id ctx prompt = do
    answer ← on_desk (call_runtime p (turn_of p persona prompt session_id ctx))
    λ t. elim (parse_work_plan p answer) [
      | err e ↦ (err e, t)
      | ok work ↦ (ok tt, take_plan p ctx work t)
    ]

  unfoldable pub conductor_step :
      (persona session_id : String)
      → RunContext
      → (user_input prompt : String) → List WorkTodo
      → Exec (Turn F) RunFailure (Unit {0})
  unfolding run_conductor with_kept change_state
  conductor_step persona session_id ctx user_input prompt todos = do
    kept ← λ t.
        run_conductor p (suc (rerun_limit p.critic ctx.profile_id - t.state.trace_rerun_count))
          persona session_id ctx prompt todos t
    λ t. (ok tt, change_state (with_kept p ctx user_input kept.0) t)

  unfoldable pub worker_step :
      (persona session_id : String)
      → RunContext
      → (prompt : String) → Exec (Turn F) RunFailure (Unit {0})
  unfolding call_runtime change_state
  worker_step persona session_id ctx prompt = do
    answer ← on_desk (call_runtime p (turn_of p persona prompt session_id ctx))
    λ t. (ok tt, change_state (with_result answer) t)

  -- the branch for a context and a persona
  unfoldable pub branch :
      (persona : String)
      → RunContext
      → (user_input prompt : String) → List WorkTodo
      → Exec (Turn F) RunFailure (Unit {0})
  unfolding plan_step conductor_step worker_step
  branch persona ctx user_input prompt todos =
      let session_id = session_of persona ctx in
      if is_plan (mode_of ctx)
      then plan_step persona session_id ctx prompt
      else if is_stateful ctx || is_conductor persona
      then conductor_step persona session_id ctx user_input prompt todos
      else worker_step persona session_id ctx prompt

  -- the turn until the state is stored
  unfoldable pub take_turn :
      RunContext → (user_input persona : String) → RunDesk F → Result RunFailure (Unit {0}) × Turn F
  unfolding begin prepared branch change_state
  take_turn ctx user_input persona d =
      let opened = begin p.shares_states ctx user_input d in
      let todos = todos_or (list_todos d ctx.tenant_id ctx.context_id) opened.state.todos in
      let t = change_state (prepared p ctx persona user_input d) opened in
      branch persona ctx user_input (build_step_prompt p.prompt t.state user_input ctx todos) todos
        t

  unfoldable pub execute :
      RunContext → (user_input persona : String) → Exec (RunDesk F) RunFailure RunOutcome
  unfolding take_turn
  execute ctx user_input persona d =
      let (result, t) = take_turn ctx user_input persona d in stored ctx result t
