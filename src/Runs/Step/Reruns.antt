-- ===== src/Runs/Step/Reruns.antt =====
-- How often the critic has a step run again
-- (cys_core/application/use_cases/run_step.py, `RunStep._run_conductor`).
use cys_agi.Prelude.{
  ℕ, zero, suc, ◌+◌, ◌-◌, ◌≤◌, String, ◌≡◌, refl, ◌∙◌, List, ◌≡◌, ◌or_else◌, string_eq, ◌==◌, Exec,
  Bool-cases, inl, inr, arith, Result-cases, and_then-leads,
}
use cys_agi.Floats.{FloatOps}
use cys_agi.Json.{Fields}
use cys_agi.Spawn.{RunContext}
use cys_agi.Todos.{WorkTodo}
use cys_agi.Runs.{RunState}
use cys_agi.Runs.Answer.{RunFailure, TraceVerdict, persist_sgr_fields_to_state}
use cys_agi.Runs.Critic.{rerun_limit, evaluate}
use cys_agi.Runs.Step.{
  note_verdict, count_rerun, act_on, rerun_prompt, review, finish_turn, conductor_turn,
  run_conductor,
}
use cys_agi.Runs.Turn.{
  StepPorts, Turn, change_state, call_runtime, turn_of, as_result, merge_todos_from_result, absorb,
  count_step,
}

-- Between two states the reruns grow, but not beyond the limit, and the steps by at most `own` more
-- than the reruns.
pub record IsBounded (own limit : ℕ) (s s' : RunState) : Type 0 where
  pub grows : s.trace_rerun_count ≤ s'.trace_rerun_count
  pub capped : s'.trace_rerun_count ≤ s.trace_rerun_count + (limit - s.trace_rerun_count)
  pub counted : s'.step_count + s.trace_rerun_count ≤ own + s.step_count + s'.trace_rerun_count

module _ {F : Type 0} ⦃fl : FloatOps F⦄ (p : StepPorts F) (ctx : RunContext) where
  abbrev pub limit : ℕ
  limit = rerun_limit p.critic ctx.profile_id

  abbrev pub Rerun : Type 0
  Rerun = (prompt : String) → List WorkTodo → Exec (Turn F) RunFailure (Fields × List WorkTodo)

  -- A rerun takes a step of its own.
  abbrev RerunBounded : Rerun → Type 0
  RerunBounded rerun =
      (prompt : String) (todos : List WorkTodo) (t : Turn F)
      → IsBounded 1 limit t.state (rerun prompt todos t).1.state

  -- The counters are what they were.
  abbrev pub SameCounts : RunState → RunState → Type 0
  SameCounts s s' = (s'.step_count ≡ s.step_count) × (s'.trace_rerun_count ≡ s.trace_rerun_count)

  pub the_same : (s s' : RunState) → SameCounts s s' → IsBounded 1 limit s s'
  the_same s s' same = omega (arith, same)

  pub absorb-SameCounts :
      (prompt : String) (todos : List WorkTodo) (answer : Fields) (t : Turn F)
      → SameCounts t.state (absorb p ctx prompt todos answer t).1.state
  unfolding absorb change_state persist_sgr_fields_to_state
  absorb-SameCounts prompt todos answer t =
      elim (Result-cases (merge_todos_from_result p answer todos)) [
        | inr (e, raised) ↦ rw (raised, absorb) (refl, refl)
        | inl (merged, given) ↦ rw (given, absorb) (refl, refl)
      ]

  pub note_verdict-SameCounts :
      (verdict : TraceVerdict F) (t : Turn F)
      → SameCounts t.state (note_verdict p ctx verdict t).state
  unfolding note_verdict change_state
  note_verdict-SameCounts verdict t = elim (Bool-cases (verdict.verdict == "fail")) [
    | inl fails ↦ rw (fails, note_verdict) (refl, refl)
    | inr passes ↦ rw (passes, note_verdict) (refl, refl)
  ]

  pub count_rerun-counts :
      (verdict : TraceVerdict F) (t : Turn F)
      → ((count_rerun p verdict t).state.step_count ≡ t.state.step_count)
        × ((count_rerun p verdict t).state.trace_rerun_count ≡ suc t.state.trace_rerun_count)
  unfolding count_rerun change_state
  count_rerun-counts verdict t = (refl, refl)

  act_on-IsBounded :
      (rerun : Rerun) (verdict : TraceVerdict F) (last : Fields) (todos : List WorkTodo)
      (t : Turn F)
      → RerunBounded rerun
      → IsBounded 0 limit t.state (act_on p rerun ctx verdict last todos t).1.state
  unfolding act_on
  act_on-IsBounded rerun verdict last todos t again =
      let t' = count_rerun p verdict t in
      let counts = count_rerun-counts verdict t in
      let rerun_bounded = again (rerun_prompt p ctx verdict todos t') todos t' in
      ground (arith, counts, rerun_bounded)

  review-IsBounded :
      (rerun : Rerun) (prompt : String) (kept : Fields × List WorkTodo) (t : Turn F)
      → RerunBounded rerun
      → IsBounded 0 limit t.state (review p rerun ctx prompt kept t).1.state
  unfolding review
  review-IsBounded rerun prompt (last, todos) t again =
      elim (Result-cases
        (evaluate p.critic ctx.profile_id (t.state.goal or_else prompt) last t.state.step_count)) [
          | inr (e, raised) ↦ rw (raised, review) (omega arith)
          | inl (verdict, given) ↦
              let noted = note_verdict p ctx verdict t in
              let same = note_verdict-SameCounts verdict t in
              let acted = act_on-IsBounded rerun verdict last todos noted again in
              rw (given, review) (omega (arith, same, acted))
        ]

  finish_turn-IsBounded :
      (rerun : Rerun) (persona prompt : String) (kept : Fields × List WorkTodo) (t : Turn F)
      → RerunBounded rerun
      → IsBounded 1 limit t.state (finish_turn p rerun persona ctx prompt kept t).1.state
  unfolding finish_turn change_state
  finish_turn-IsBounded rerun persona prompt kept t again =
      let reviewed = review-IsBounded rerun prompt kept (change_state count_step t) again in
      ground (arith, reviewed)

  conductor_turn-IsBounded :
      (rerun : Rerun) (persona session_id prompt : String) (todos : List WorkTodo) (t : Turn F)
      → RerunBounded rerun
      → IsBounded 1 limit t.state
          (conductor_turn p rerun persona session_id ctx prompt todos t).1.state
  unfolding conductor_turn
  conductor_turn-IsBounded rerun persona session_id prompt todos t again =
      let (answer, d) = call_runtime p (turn_of p persona prompt session_id ctx) t.desk in
      let Same = λ (u : Turn F). SameCounts t.state u.state in
      let Bounded = λ (u : Turn F). IsBounded 1 limit t.state u.state in
      let weaken = λ (u : Turn F) (same : Same u). the_same t.state u.state same in
      and_then-leads Same Bounded answer _ (record t { desk = d }) weaken
        (λ v u same.
          let (kept, u') = absorb p ctx prompt todos (as_result v) u in
          let absorbed = absorb-SameCounts prompt todos (as_result v) u in
          and_then-leads Same Bounded kept _ u' weaken
            (λ k w same'.
              let finished = finish_turn-IsBounded rerun persona prompt k w again in
              omega (arith, same', finished))
            (absorbed.0 ∙ same.0, absorbed.1 ∙ same.1))
        (refl, refl)

  pub run_conductor-IsBounded :
      (n : ℕ) (persona session_id prompt : String) (todos : List WorkTodo) (t : Turn F)
      → IsBounded 1 limit t.state (run_conductor p n persona session_id ctx prompt todos t).1.state
  unfolding run_conductor
  run_conductor-IsBounded zero persona session_id prompt todos t = omega arith
  run_conductor-IsBounded (suc n) persona session_id prompt todos t =
      conductor_turn-IsBounded (run_conductor p n persona session_id ctx) persona session_id prompt
        todos t (run_conductor-IsBounded n persona session_id)
