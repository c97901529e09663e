-- ===== src/Runs/Step/Bounds.antt =====
-- How many turns a whole step takes (cys_core/application/use_cases/run_step.py).
use cys_agi.Prelude.{
  suc, ◌-◌, String, ◌≡◌, refl, List, ◌||◌, Bool-cases, inl, inr, arith, Result-cases,
  and_then-leads, string_eq,
}
use cys_agi.Floats.{FloatOps}
use cys_agi.Json.{Fields}
use cys_agi.Spawn.{RunContext, is_stateful}
use cys_agi.Todos.{WorkTodo}
use cys_agi.Runs.{RunState, RunDesk, list_todos}
use cys_agi.Runs.Prompt.{mode_of, build_step_prompt}
use cys_agi.Runs.Critic.{rerun_limit}
use cys_agi.Runs.Step.{run_conductor}
use cys_agi.Runs.Turn.{StepPorts, Turn, change_state, call_runtime, turn_of, is_conductor}
use cys_agi.Runs.Step.Execute
use cys_agi.Runs.Step.Reruns.{IsBounded, limit, SameCounts, the_same, run_conductor-IsBounded}

module _ {F : Type 0} (p : StepPorts F) where
  prepared-SameCounts :
      (ctx : RunContext) (persona user_input : String) (d : RunDesk F) (s : RunState)
      → ((Execute.prepared p ctx persona user_input d s).step_count ≡ s.step_count)
        × ((Execute.prepared p ctx persona user_input d s).trace_rerun_count ≡ s.trace_rerun_count)
  unfolding Execute.prepared Execute.summarized Execute.hinted
  prepared-SameCounts ctx persona user_input d s = ground arith

  with_kept-SameCounts :
      (ctx : RunContext) (user_input : String) (last : Fields) (s : RunState)
      → ((Execute.with_kept p ctx user_input last s).step_count ≡ s.step_count)
        × ((Execute.with_kept p ctx user_input last s).trace_rerun_count ≡ s.trace_rerun_count)
  unfolding Execute.with_kept Execute.maybe_failed_summary
  with_kept-SameCounts ctx user_input last s = ground arith

module _ {F : Type 0} ⦃fl : FloatOps F⦄ (p : StepPorts F) (ctx : RunContext) where
  abbrev Within : Turn F → Turn F → Type 0
  Within t u = IsBounded 1 (limit p ctx) t.state u.state

  Within-plan_step :
      (persona session_id prompt : String) (t : Turn F)
      → Within t (Execute.plan_step p persona session_id ctx prompt t).1
  unfolding Execute.plan_step Execute.take_plan change_state
  Within-plan_step persona session_id prompt t =
      let (answer, d) = call_runtime p (turn_of p persona prompt session_id ctx) t.desk in
      let Same = λ (u : Turn F). SameCounts p ctx t.state u.state in
      let weaken = λ (u : Turn F) (same : Same u). the_same p ctx t.state u.state same in
      and_then-leads Same (Within t) answer _ (record t { desk = d }) weaken
        (λ v u same. elim (Result-cases (Execute.parse_work_plan p v)) [
          | inr (e, raised) ↦ rw raised (weaken u same)
          | inl (work, given) ↦ rw given (omega (arith, same))
        ])
        (refl, refl)

  Within-worker_step :
      (persona session_id prompt : String) (t : Turn F)
      → Within t (Execute.worker_step p persona session_id ctx prompt t).1
  unfolding Execute.worker_step change_state
  Within-worker_step persona session_id prompt t =
      let (answer, d) = call_runtime p (turn_of p persona prompt session_id ctx) t.desk in
      let Same = λ (u : Turn F). SameCounts p ctx t.state u.state in
      and_then-leads Same (Within t) answer _ (record t { desk = d })
        (λ u same. the_same p ctx t.state u.state same) (λ v u same. omega (arith, same))
        (refl, refl)

  Within-conductor_step :
      (persona session_id user_input prompt : String) (todos : List WorkTodo) (t : Turn F)
      → Within t (Execute.conductor_step p persona session_id ctx user_input prompt todos t).1
  unfolding Execute.conductor_step change_state
  Within-conductor_step persona session_id user_input prompt todos t =
      let n = suc (rerun_limit p.critic ctx.profile_id - t.state.trace_rerun_count) in
      let (kept, u) = run_conductor p n persona session_id ctx prompt todos t in
      and_then-leads (Within t) (Within t) kept _ u (λ w h. h)
        (λ k w h.
          let same = with_kept-SameCounts p ctx user_input k.0 w.state in omega (arith, h, same))
        (run_conductor-IsBounded p ctx n persona session_id prompt todos t)

  Within-branch :
      (persona user_input prompt : String) (todos : List WorkTodo) (t : Turn F)
      → Within t (Execute.branch p persona ctx user_input prompt todos t).1
  unfolding Execute.branch
  Within-branch persona user_input prompt todos t =
      let session_id = Execute.session_of persona ctx in
      elim (Bool-cases (Execute.is_plan (mode_of ctx))) [
        | inl planning ↦
            rw (planning, Execute.branch) (Within-plan_step persona session_id prompt t)
        | inr other ↦ elim (Bool-cases (is_stateful ctx || is_conductor persona)) [
          | inl conducts ↦
              rw (other, Execute.branch)
                (rw conducts (Within-conductor_step persona session_id user_input prompt todos t))
          | inr works ↦
              rw (other, Execute.branch) (rw works (Within-worker_step persona session_id prompt t))
        ]
      ]

  -- Whatever the runtime and the critic answer, and also if the step raises, in the state that one
  -- step works on: it adds at most one to the count of turns, and one more for each rerun that it
  -- adds; and it takes the count of reruns at most up to the limit, or leaves a count that is beyond
  -- it as it was. (A state that is not stored, as after a raise with a store of copies, takes its
  -- counts with it.)
  pub take_turn-IsBounded :
      (user_input persona : String) (d : RunDesk F)
      → IsBounded 1
          (rerun_limit p.critic ctx.profile_id)
          (Execute.begin p.shares_states ctx user_input d).state
          (Execute.take_turn p ctx user_input persona d).1.state
  unfolding Execute.take_turn change_state
  take_turn-IsBounded user_input persona d =
      let opened = Execute.begin p.shares_states ctx user_input d in
      let same = prepared-SameCounts p ctx persona user_input d opened.state in
      let t = change_state (Execute.prepared p ctx persona user_input d) opened in
      let todos = Execute.todos_or (list_todos d ctx.tenant_id ctx.context_id) opened.state.todos in
      let within =
        Within-branch persona user_input (build_step_prompt p.prompt t.state user_input ctx todos)
          todos t in
      omega (arith, same, within)
