-- ===== src/Runs/Step/Keeps.antt =====
-- A condition on the objects of the program that the runtime's call establishes and the other
-- actions of a turn keep holds after the turn (cys_core/application/use_cases/run_step.py).
use cys_agi.Prelude.{
  ℕ, zero, suc, String, ◌≡◌, refl, ◌∙◌, ltb, List, string_eq, ◌==◌, Exec, Bool-cases, inl, inr,
  Result-cases, and_then-keeps, ◌or_else◌,
}
use cys_agi.Floats.{FloatOps}
use cys_agi.Json.{Fields}
use cys_agi.Spawn.{RunContext}
use cys_agi.Todos.{WorkTodo}
use cys_agi.Runs.{RunState, ReflexionLesson, RunDesk, upsert, replace_todos, append_lesson}
use cys_agi.Runs.Answer.{RunFailure, persist_sgr_fields_to_state, TraceVerdict}
use cys_agi.Runs.Critic.{rerun_limit, dump_verdict, evaluate}
use cys_agi.Runs.Step.{
  is_reviewed, note_verdict, count_rerun, act_on, review, conductor_turn, run_conductor,
  finish_turn, with_rerun,
}
use cys_agi.Runs.Turn.{
  StepPorts, Turn, change_state, call_runtime, turn_of, absorb, merge_todos_from_result,
  with_answer, enriched, as_result, count_step,
}

-- What a step of the context `ctx` does to the objects keeps `After`, and its calls of the runtime
-- lead from `Before` to `After`. The state of the run has the context `own`.
pub record Keeps {F : Type 0} ⦃fl : FloatOps F⦄ (p : StepPorts F) (ctx own : RunContext)
    (persona session_id : String) (Before After : RunDesk F → Type 0) : Type 0 where
  pub weaken : (d : RunDesk F) → After d → Before d
  pub by_call :
      (prompt : String) (d : RunDesk F)
      → Before d
      → After (call_runtime p (turn_of p persona prompt session_id ctx) d).1
  pub early_upsert :
      (s : RunState) (d : RunDesk F) → s.run_context ≡ own → Before d → Before (upsert s d)
  pub by_upsert :
      (s : RunState) (d : RunDesk F) → s.run_context ≡ own → After d → After (upsert s d)
  pub by_todos :
      (todos : List WorkTodo) (d : RunDesk F)
      → After d
      → After (replace_todos ctx.tenant_id ctx.context_id todos d)
  pub by_lesson :
      (lesson : ReflexionLesson) (d : RunDesk F)
      → lesson.tenant_id ≡ ctx.tenant_id
      → After d
      → After (append_lesson p.sanitize_lesson lesson d)

abbrev pub Holds : {F : Type 0} → RunContext → (RunDesk F → Type 0) → Turn F → Type 0
Holds own P t = (t.state.run_context ≡ own) × P t.desk

module _ {F : Type 0} ⦃fl : FloatOps F⦄ (p : StepPorts F) (ctx own : RunContext)
    (persona session_id : String) (Before After : RunDesk F → Type 0)
    (k : Keeps p ctx own persona session_id Before After) where
  -- an assignment that leaves the context of the state
  pub Holds-change_state :
      (f : RunState → RunState) (t : Turn F)
      → (f t.state).run_context ≡ t.state.run_context
      → Holds own After t
      → Holds own After (change_state f t)
  unfolding change_state
  Holds-change_state f t same (mine, h) = elim (Bool-cases t.is_held) [
    | inl held ↦ (same ∙ mine, rw held (k.by_upsert (f t.state) t.desk (same ∙ mine) h))
    | inr free ↦ (same ∙ mine, rw free h)
  ]

  Holds-absorb :
      (prompt : String) (todos : List WorkTodo) (answer : Fields) (t : Turn F)
      → Holds own After t
      → Holds own After (absorb p ctx prompt todos answer t).1
  unfolding absorb persist_sgr_fields_to_state
  Holds-absorb prompt todos answer t (mine, h) =
      elim (Result-cases (merge_todos_from_result p answer todos)) [
        | inr (e, raised) ↦ rw (raised, absorb) (mine, h)
        | inl (merged, given) ↦
            rw (given, absorb)
              (Holds-change_state
                (with_answer p (enriched p answer (t.state.goal or_else prompt)) merged)
                (record t { desk = replace_todos ctx.tenant_id ctx.context_id merged t.desk }) refl
                (mine, k.by_todos merged t.desk h))
      ]

  Holds-note_verdict :
      (verdict : TraceVerdict F) (t : Turn F)
      → Holds own After t
      → Holds own After (note_verdict p ctx verdict t)
  unfolding note_verdict
  Holds-note_verdict verdict t h =
      let noted =
        Holds-change_state (λ s. record s { last_trace_verdict = dump_verdict p.critic verdict }) t
          refl h in
      elim (Bool-cases (verdict.verdict == "fail")) [
        | inl fails ↦ rw fails (noted.0, k.by_lesson _ _ refl noted.1)
        | inr passes ↦ rw passes noted
      ]

  abbrev Rerun : Type 0
  Rerun = (prompt : String) → List WorkTodo → Exec (Turn F) RunFailure (Fields × List WorkTodo)

  -- A rerun that starts where the condition holds.
  abbrev RerunHolds : Rerun → Type 0
  RerunHolds rerun =
      (prompt : String) (todos : List WorkTodo) (t : Turn F)
      → Holds own After t
      → Holds own After (rerun prompt todos t).1

  Holds-act_on :
      (rerun : Rerun) (verdict : TraceVerdict F) (last : Fields) (todos : List WorkTodo)
      (t : Turn F)
      → RerunHolds rerun
      → Holds own After t
      → Holds own After (act_on p rerun ctx verdict last todos t).1
  unfolding act_on
  Holds-act_on rerun verdict last todos t again h =
      let counted : Holds own After (count_rerun p verdict t) =
        unfold count_rerun in Holds-change_state (with_rerun p verdict) t refl h in
      elim (Bool-cases verdict.should_rerun) [
        | inr passes ↦ rw (passes, act_on) h
        | inl reruns ↦
            elim (Bool-cases
              (ltb t.state.trace_rerun_count (rerun_limit p.critic ctx.profile_id))) [
                | inl left ↦ rw (reruns, act_on) (rw left (again _ todos _ counted))
                | inr spent ↦ rw (reruns, act_on) (rw spent h)
              ]
      ]

  Holds-review :
      (rerun : Rerun) (prompt : String) (kept : Fields × List WorkTodo) (t : Turn F)
      → RerunHolds rerun
      → Holds own After t
      → Holds own After (review p rerun ctx prompt kept t).1
  unfolding review
  Holds-review rerun prompt (last, todos) t again h =
      elim (Result-cases
        (evaluate p.critic ctx.profile_id (t.state.goal or_else prompt) last t.state.step_count)) [
          | inr (e, raised) ↦ rw (raised, review) h
          | inl (verdict, given) ↦
              rw (given, review)
                (Holds-act_on rerun verdict last todos (note_verdict p ctx verdict t) again
                  (Holds-note_verdict verdict t h))
        ]

  Holds-finish_turn :
      (rerun : Rerun) (prompt : String) (kept : Fields × List WorkTodo) (t : Turn F)
      → RerunHolds rerun
      → Holds own After t
      → Holds own After (finish_turn p rerun persona ctx prompt kept t).1
  unfolding finish_turn
  Holds-finish_turn rerun prompt kept t again h =
      let counted : Holds own After (change_state count_step t) =
        Holds-change_state count_step t refl h in
      elim (Bool-cases (
        is_reviewed p persona ctx.profile_id kept.0 (change_state count_step t).state.step_count)) [
          | inl due ↦
              rw (due, finish_turn)
                (Holds-review rerun prompt kept (change_state count_step t) again counted)
          | inr skipped ↦ rw (skipped, finish_turn) counted
        ]

  Holds-conductor_turn :
      (rerun : Rerun) (prompt : String) (todos : List WorkTodo) (t : Turn F)
      → RerunHolds rerun
      → Holds own Before t
      → Holds own After (conductor_turn p rerun persona session_id ctx prompt todos t).1
  unfolding conductor_turn
  Holds-conductor_turn rerun prompt todos t again (mine, h) =
      let (answer, d) = call_runtime p (turn_of p persona prompt session_id ctx) t.desk in
      and_then-keeps (Holds own After) answer _ (record t { desk = d })
        (λ v t' held.
          let (kept, t'') = absorb p ctx prompt todos (as_result v) t' in
          and_then-keeps (Holds own After) kept _ t''
            (λ k u after. Holds-finish_turn rerun prompt k u again after)
            (Holds-absorb prompt todos (as_result v) t' held))
        (mine, k.by_call prompt t.desk h)

  pub Holds-run_conductor :
      (n : ℕ) (prompt : String) (todos : List WorkTodo) (t : Turn F)
      → Holds own Before t
      → Holds own After (run_conductor p (suc n) persona session_id ctx prompt todos t).1
  unfolding run_conductor
  Holds-run_conductor zero prompt todos t h =
      Holds-conductor_turn (run_conductor p zero persona session_id ctx) prompt todos t
        (λ prompt todos t after. after) h
  Holds-run_conductor (suc n) prompt todos t h =
      Holds-conductor_turn (run_conductor p (suc n) persona session_id ctx) prompt todos t
        (λ prompt todos t after.
          Holds-run_conductor n prompt todos t (after.0, k.weaken t.desk after.1))
        h
