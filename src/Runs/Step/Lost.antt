-- ===== src/Runs/Step/Lost.antt =====
-- The same for a whole step of a conductor
-- (cys_core/application/use_cases/run_step.py, `RunStep.execute`).
use cys_agi.Prelude.{
  suc, ◌-◌, String, ◌≡◌, ap, true, false, Option, none, some, List, [], ◌||◌, string_eq, pair_eq,
  Result, ok, err, and_then,
}
use cys_agi.Dict
use cys_agi.Floats.{FloatOps}
use cys_agi.Json.{Fields}
use cys_agi.Spawn.{RunContext, is_stateful}
use cys_agi.Todos.{WorkTodo}
use cys_agi.Runs.{RunDesk, upsert, list_todos}
use cys_agi.Runs.Prompt.{mode_of, build_step_prompt}
use cys_agi.Runs.Answer.{RunFailure}
use cys_agi.Runs.Critic.{rerun_limit}
use cys_agi.Runs.Step.{run_conductor}
use cys_agi.Runs.Turn.{StepPorts, Turn, RunOutcome, change_state, is_conductor}
use cys_agi.Runs.Step.Execute
use cys_agi.Runs.Step.Overwrites.{
  HasList, KeepsList, SilentRuntime, HasList-change_state, KeepsList-run_conductor,
}

list_todos-found :
    {F : Type 0} (d : RunDesk F) (tenant_id context_id : String) (todos : List WorkTodo)
    → Dict.get d.todo_lists (tenant_id, context_id) ≡ some todos
    → list_todos d tenant_id context_id ≡ todos
unfolding list_todos
list_todos-found d tenant_id context_id todos found =
    ap (λ (o : Option (List WorkTodo)). elim o [ none ↦ [] | some ts ↦ ts ]) found

module _ {F : Type 0} ⦃fl : FloatOps F⦄ (p : StepPorts F) (ctx : RunContext) where
  -- A step that does not raise leaves the list.
  abbrev StepKeeps : List WorkTodo → Result RunFailure (Unit {0}) → Turn F → Type 0
  StepKeeps todos (ok u) t = HasList p ctx todos t
  StepKeeps todos (err e) t = Unit

  kept-StepKeeps :
      (todos : List WorkTodo) (user_input : String)
      (kept : Result RunFailure (Fields × List WorkTodo)) (t : Turn F)
      → KeepsList p ctx todos kept t
      → let r =
          and_then kept
            (λ k u. (ok tt, change_state (Execute.with_kept p ctx user_input k.0) u))
            t in
        StepKeeps todos r.0 r.1
  kept-StepKeeps todos user_input (err e) t h = tt
  kept-StepKeeps todos user_input (ok k) t h =
      HasList-change_state p ctx todos (Execute.with_kept p ctx user_input k.0) t h.1

  StepKeeps-conductor_step :
      (persona session_id user_input prompt : String) (todos : List WorkTodo) (t : Turn F)
      → SilentRuntime p
      → let r = Execute.conductor_step p persona session_id ctx user_input prompt todos t in
        StepKeeps todos r.0 r.1
  unfolding Execute.conductor_step
  StepKeeps-conductor_step persona session_id user_input prompt todos t silent =
      let n = suc (rerun_limit p.critic ctx.profile_id - t.state.trace_rerun_count) in
      let (kept, u) = run_conductor p n persona session_id ctx prompt todos t in
      kept-StepKeeps todos user_input kept u
        (KeepsList-run_conductor p ctx todos n persona session_id prompt t silent)

  StepKeeps-branch :
      (persona user_input prompt : String) (todos : List WorkTodo) (t : Turn F)
      → SilentRuntime p
      → Execute.is_plan (mode_of ctx) ≡ false
      → (is_stateful ctx || is_conductor persona) ≡ true
      → let r = Execute.branch p persona ctx user_input prompt todos t in StepKeeps todos r.0 r.1
  unfolding Execute.branch
  StepKeeps-branch persona user_input prompt todos t silent other conducts =
      rw (other, Execute.branch)
        (rw conducts (
          StepKeeps-conductor_step persona (Execute.session_of persona ctx) user_input prompt todos
            t silent))

  stored-StepKeeps :
      (todos : List WorkTodo) (result : Result RunFailure (Unit {0})) (t : Turn F)
      → StepKeeps todos result t
      → (outcome : RunOutcome) → (Execute.stored ctx result t).0 ≡ ok outcome
      → Dict.get (Execute.stored ctx result t).1.todo_lists (ctx.tenant_id, ctx.context_id)
        ≡ some todos
  unfolding upsert
  stored-StepKeeps todos (ok u) t h outcome returned = h
  stored-StepKeeps todos (err e) t h outcome returned = cc

  -- the todos that a step begins with
  abbrev pub todos_before : (user_input : String) → RunDesk F → List WorkTodo
  todos_before user_input d =
      Execute.todos_or (list_todos d ctx.tenant_id ctx.context_id)
        (Execute.begin p.shares_states ctx user_input d).state.todos

  -- If the runtime's answers say nothing of todos, then after a step of a conductor that returns,
  -- the todos of the run are those from before the step, whatever the runtime wrote to their store
  -- meanwhile: what its tool `update_todos` wrote is lost. The run is not in plan mode.
  pub execute_overwrites_todos :
      (user_input persona : String) (d : RunDesk F) (outcome : RunOutcome)
      → SilentRuntime p
      → Execute.is_plan (mode_of ctx) ≡ false
      → (is_stateful ctx || is_conductor persona) ≡ true
      → (Execute.execute p ctx user_input persona d).0 ≡ ok outcome
      → list_todos (Execute.execute p ctx user_input persona d).1 ctx.tenant_id ctx.context_id
        ≡ todos_before user_input d
  unfolding Execute.execute Execute.take_turn
  execute_overwrites_todos user_input persona d outcome silent other conducts returned =
      let todos = todos_before user_input d in
      let opened = Execute.begin p.shares_states ctx user_input d in
      let t = change_state (Execute.prepared p ctx persona user_input d) opened in
      let prompt = build_step_prompt p.prompt t.state user_input ctx todos in
      let (result, u) = Execute.branch p persona ctx user_input prompt todos t in
      let kept =
        stored-StepKeeps todos result u
          (StepKeeps-branch persona user_input prompt todos t silent other conducts) outcome
          returned in
      list_todos-found (Execute.stored ctx result u).1 ctx.tenant_id ctx.context_id todos kept
