-- ===== src/Runs/Step.antt =====
-- The turns of the conductor in a step: `RunStep._run_conductor` of
-- cys_core/application/use_cases/run_step.py. The hooks of the quality of personas, whose exceptions
-- the code drops, are left out.
pub mod Execute
pub mod Keeps
pub mod Stored
pub mod Budget
pub mod Reruns
pub mod Fuel
pub mod Bounds
pub mod Overwrites
pub mod Lost
use Prim.Native.Nat.{◌%◌}
use Prim.Native.String.{◌++◌ as ◌<>◌}
use cys_agi.Prelude.{
  ℕ, zero, suc, ◌+◌, ◌-◌, max, String, Bool, true, false, not, ◌&&◌, ◌||◌, Option, none, some, List,
  [], ◌∷◌, ◌++◌, elem, truthy, ◌or_else◌, ltb, leb, string_eq, nat_eq, ◌==◌, if◌then◌else◌, Result,
  ok, err, Exec, ◌>>=◌, pure, raise,
}
use cys_agi.Dict
use cys_agi.Floats.{FloatOps}
use cys_agi.Json.{
  Value, Items, Fields, nat, bool, str, arr, obj, nil, field, lookup, has_true, is_nonempty, put,
}
use cys_agi.JobBudget.{JobBudgetTracker, configure, clear}
use cys_agi.JobBudget
use cys_agi.Policy.{InteractionMode, plan, agent}
use cys_agi.Budgets.{BudgetEntry, or_ℕ, persona_budget_pure}
use cys_agi.Spawn.{RunContext, is_stateful, checkpoint_key, default_profile_id}
use cys_agi.Todos.{WorkTodo, text_or, merge_plan_delta_with_policy}
use cys_agi.Todos.Snapshot.{has_failed_todos}
use cys_agi.Runs.{
  WorkPlan, RunStatus, in_progress, awaiting_user, awaiting_plan_approval, RunState, new_state,
  RunDesk, state_key, get_state, upsert, list_todos, replace_todos, append_lesson,
  list_for_investigation,
}
use cys_agi.Runs.Prompt.{PromptPorts, mode_of, build_step_prompt, task_hints}
use cys_agi.Runs.Answer.{
  RunFailure, recursion_error, TraceVerdict, CriticPorts, add_note, join_issues,
  filter_spawn_requests_by_sgr, persist_sgr_fields_to_state, enrich_conductor_result,
}
use cys_agi.Runs.Critic.{trace_critic_every_n, rerun_limit, dump_verdict, evaluate}
use cys_agi.Runs.Turn.{
  StepPorts, Turn, absorb, as_result, call_runtime, change_state, count_step, is_conductor, on_desk,
  turn_of,
}

module _ {F : Type 0} ⦃fl : FloatOps F⦄ (p : StepPorts F) where
  -- whether the critic looks at a turn
  unfoldable pub is_reviewed : String → String → Fields → (step_count : ℕ) → Bool
  is_reviewed persona profile_id last step_count =
      let every_n = max 1 (
        or_ℕ (p.critic.policy profile_id).every_n_steps
          (trace_critic_every_n p.critic profile_id)) in
      let enough : Bool = elim (lookup last "enough_data") [ some (bool b) ↦ b | _ ↦ false ] in
      not enough && (p.trace_critic_enabled && (is_conductor persona && step_count % every_n == 0))

  -- the verdict in the state, and the lesson of a failure
  unfoldable pub note_verdict : RunContext → TraceVerdict F → Turn F → Turn F
  unfolding change_state
  note_verdict ctx verdict t =
      let t' =
        change_state (λ s. record s { last_trace_verdict = dump_verdict p.critic verdict }) t in
      if verdict.verdict == "fail"
      then record t' {
        desk =
            append_lesson p.sanitize_lesson
              (record {
                investigation_id = ctx.context_id;
                tenant_id = ctx.tenant_id;
                lesson =
                    verdict.reasoning
                    or_else (join_issues verdict.issues or_else "trace critic failed");
                source = "trace_critic";
              })
              t'.desk;
      }
      else t'

  abbrev pub improvement_of : TraceVerdict F → String
  improvement_of verdict =
      verdict.reasoning or_else (join_issues verdict.issues or_else "Improve action trace.")

  -- a rerun begins
  abbrev pub with_rerun : TraceVerdict F → RunState → RunState
  with_rerun verdict s = record s {
    trace_rerun_count = suc s.trace_rerun_count;
    reasoning_notes = s.reasoning_notes ++ ("trace_critic: " <> improvement_of verdict) ∷ [];
  }

  unfoldable pub count_rerun : TraceVerdict F → Turn F → Turn F
  count_rerun verdict = change_state (with_rerun verdict)

  abbrev pub rerun_prompt : RunContext → TraceVerdict F → List WorkTodo → Turn F → String
  rerun_prompt ctx verdict todos t =
      build_step_prompt p.prompt t.state
        ("Rerun requested by trace critic. Address: " <> improvement_of verdict) ctx todos

  -- the answer when there are no reruns left
  abbrev pub when_exhausted : (profile_id : String) → Fields → Fields
  when_exhausted profile_id last =
      if (p.critic.policy profile_id).hitl_on_exhausted || p.trace_critic_hitl_on_exhausted
      then put (put last "trace_critic_escalation" (bool true)) "status" (str "awaiting_user")
      else last

  -- what follows from the verdict
  unfoldable pub act_on :
      ((prompt : String) → List WorkTodo → Exec (Turn F) RunFailure (Fields × List WorkTodo))
      → RunContext
      → TraceVerdict F
      → Fields
      → List WorkTodo
      → Exec (Turn F) RunFailure (Fields × List WorkTodo)
  unfolding count_rerun
  act_on rerun ctx verdict last todos t =
      let last' = put last "trace_critic" (obj (dump_verdict p.critic verdict)) in
      let t' = count_rerun verdict t in
      let again = rerun (rerun_prompt ctx verdict todos t') todos t' in
      if not verdict.should_rerun
      then (ok (last, todos), t)
      else if ltb t.state.trace_rerun_count (rerun_limit p.critic ctx.profile_id)
      then again
      else (ok (when_exhausted ctx.profile_id last', todos), t)

  unfoldable pub review :
      ((prompt : String) → List WorkTodo → Exec (Turn F) RunFailure (Fields × List WorkTodo))
      → RunContext
      → (prompt : String) → Fields × List WorkTodo
      → Exec (Turn F) RunFailure (Fields × List WorkTodo)
  unfolding note_verdict act_on
  review rerun ctx prompt (last, todos) t =
      elim (evaluate p.critic ctx.profile_id (t.state.goal or_else prompt) last
        t.state.step_count) [
          | err e ↦ (err e, t)
          | ok verdict ↦ act_on rerun ctx verdict last todos (note_verdict ctx verdict t)
        ]

  -- a turn behind the answer
  unfoldable pub finish_turn :
      ((prompt : String) → List WorkTodo → Exec (Turn F) RunFailure (Fields × List WorkTodo))
      → (persona : String) → RunContext
      → (prompt : String) → Fields × List WorkTodo
      → Exec (Turn F) RunFailure (Fields × List WorkTodo)
  unfolding review is_reviewed
  finish_turn rerun persona ctx prompt kept t =
      let t' = change_state count_step t in
      if is_reviewed persona ctx.profile_id kept.0 t'.state.step_count
      then review rerun ctx prompt kept t'
      else (ok kept, t')

  -- `_run_conductor`, with the call of itself as an argument
  unfoldable pub conductor_turn :
      ((prompt : String) → List WorkTodo → Exec (Turn F) RunFailure (Fields × List WorkTodo))
      → (persona session_id : String) → RunContext
      → (prompt : String) → List WorkTodo
      → Exec (Turn F) RunFailure (Fields × List WorkTodo)
  unfolding call_runtime absorb finish_turn
  conductor_turn rerun persona session_id ctx prompt todos = do
    answer ← on_desk (call_runtime p (turn_of p persona prompt session_id ctx))
    kept ← absorb p ctx prompt todos (as_result answer)
    finish_turn rerun persona ctx prompt kept

  -- The fuel is one more than the reruns that are left; a stack that ends earlier raises.
  unfoldable pub run_conductor :
      ℕ
      → (persona session_id : String) → RunContext
      → (prompt : String) → List WorkTodo
      → Exec (Turn F) RunFailure (Fields × List WorkTodo)
  unfolding conductor_turn
  run_conductor zero persona session_id ctx prompt todos = raise recursion_error
  run_conductor (suc n) persona session_id ctx prompt todos =
      conductor_turn (run_conductor n persona session_id ctx) persona session_id ctx prompt todos
