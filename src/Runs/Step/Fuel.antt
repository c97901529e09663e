-- ===== src/Runs/Step/Fuel.antt =====
-- The reruns of a step end: the fuel that a step is given is enough
-- (cys_core/application/use_cases/run_step.py, `RunStep._run_conductor`).
use cys_agi.Prelude.{
  ℕ, zero, suc, ◌+◌, ◌-◌, ◌≤◌, ◌<◌, String, ◌≡◌, refl, sym, subst, ap, ◌∙◌, List, ◌or_else◌,
  string_eq, Result, ok, err, inl, inr, arith, Result-cases, and_then, ◌>>=◌,
}
use cys_agi.Floats.{FloatOps}
use cys_agi.Json.{Value, Fields}
use cys_agi.Spawn.{RunContext}
use cys_agi.Todos.{WorkTodo}
use cys_agi.Runs.Answer.{RunFailure, TraceVerdict}
use cys_agi.Runs.Critic.{rerun_limit, evaluate}
use cys_agi.Runs.Step.{
  note_verdict, count_rerun, act_on, rerun_prompt, review, finish_turn, conductor_turn,
  run_conductor,
}
use cys_agi.Runs.Turn.{
  StepPorts, Turn, change_state, call_runtime, turn_of, as_result, absorb, count_step,
}
use cys_agi.Runs.Step.Reruns.{
  limit, Rerun, count_rerun-counts, note_verdict-SameCounts, absorb-SameCounts,
}

module _ {F : Type 0} ⦃fl : FloatOps F⦄ (p : StepPorts F) (ctx : RunContext)
    (r r' : Rerun p ctx) where
  -- The two reruns agree behind a turn whose state has this many reruns, if one more is allowed.
  abbrev Agree : ℕ → Type 0
  Agree n =
      (prompt : String) (todos : List WorkTodo) (u : Turn F)
      → n < limit p ctx
      → u.state.trace_rerun_count ≡ suc n
      → r prompt todos u ≡ r' prompt todos u

  act_on-Agree :
      (verdict : TraceVerdict F) (last : Fields) (todos : List WorkTodo) (t : Turn F)
      → Agree t.state.trace_rerun_count
      → act_on p r ctx verdict last todos t ≡ act_on p r' ctx verdict last todos t
  unfolding act_on
  act_on-Agree verdict last todos t agree =
      let t' = count_rerun p verdict t in
      let counts = count_rerun-counts p ctx verdict t in
      let same = λ (left : t.state.trace_rerun_count < limit p ctx).
        agree (rerun_prompt p ctx verdict todos t') todos t' left counts.1 in
      ground (arith, same)

  review-Agree :
      (prompt : String) (kept : Fields × List WorkTodo) (t : Turn F)
      → Agree t.state.trace_rerun_count
      → review p r ctx prompt kept t ≡ review p r' ctx prompt kept t
  unfolding review
  review-Agree prompt (last, todos) t agree =
      elim (Result-cases
        (evaluate p.critic ctx.profile_id (t.state.goal or_else prompt) last t.state.step_count)) [
          | inr (e, raised) ↦ rw (raised, review) refl
          | inl (verdict, given) ↦
              rw (given, review)
                (act_on-Agree verdict last todos (note_verdict p ctx verdict t)
                  (subst Agree (sym (note_verdict-SameCounts p ctx verdict t).1) agree))
        ]

  finish_turn-Agree :
      (persona prompt : String) (kept : Fields × List WorkTodo) (t : Turn F)
      → Agree t.state.trace_rerun_count
      → finish_turn p r persona ctx prompt kept t ≡ finish_turn p r' persona ctx prompt kept t
  unfolding finish_turn
  finish_turn-Agree persona prompt kept t agree =
      let t' = change_state count_step t in
      let same : t'.state.trace_rerun_count ≡ t.state.trace_rerun_count =
        unfold change_state in refl in
      let reviewed = review-Agree prompt kept t' (subst Agree (sym same) agree) in
      ground (arith, reviewed)

  absorbed-Agree :
      (persona prompt : String) (todos : List WorkTodo) (answer : Result RunFailure Value)
      (t : Turn F)
      → Agree t.state.trace_rerun_count
      → and_then answer
          (λ v. absorb p ctx prompt todos (as_result v) >>= finish_turn p r persona ctx prompt)
          t
        ≡ and_then answer
            (λ v. absorb p ctx prompt todos (as_result v) >>= finish_turn p r' persona ctx prompt)
            t
  absorbed-Agree persona prompt todos (err e) t agree = refl
  absorbed-Agree persona prompt todos (ok v) t agree =
      let (kept, u) = absorb p ctx prompt todos (as_result v) t in
      kept_agree kept u (absorb-SameCounts p ctx prompt todos (as_result v) t).1
    where
      kept_agree :
          (kept : Result RunFailure (Fields × List WorkTodo)) (u : Turn F)
          → u.state.trace_rerun_count ≡ t.state.trace_rerun_count
          → and_then kept (finish_turn p r persona ctx prompt) u
            ≡ and_then kept (finish_turn p r' persona ctx prompt) u
      kept_agree (err e) u same = refl
      kept_agree (ok k) u same = finish_turn-Agree persona prompt k u (subst Agree (sym same) agree)

  conductor_turn-Agree :
      (persona session_id prompt : String) (todos : List WorkTodo) (t : Turn F)
      → Agree t.state.trace_rerun_count
      → conductor_turn p r persona session_id ctx prompt todos t
        ≡ conductor_turn p r' persona session_id ctx prompt todos t
  unfolding conductor_turn
  conductor_turn-Agree persona session_id prompt todos t agree =
      let (answer, d) = call_runtime p (turn_of p persona prompt session_id ctx) t.desk in
      absorbed-Agree persona prompt todos answer (record t { desk = d }) agree

module _ {F : Type 0} ⦃fl : FloatOps F⦄ (p : StepPorts F) (ctx : RunContext) where
  -- one more unit of fuel
  run_conductor-suc :
      (n : ℕ) (persona session_id prompt : String) (todos : List WorkTodo) (t : Turn F)
      → limit p ctx ≤ n + t.state.trace_rerun_count
      → run_conductor p (suc n) persona session_id ctx prompt todos t
        ≡ run_conductor p (suc (suc n)) persona session_id ctx prompt todos t
  unfolding run_conductor
  run_conductor-suc zero persona session_id prompt todos t enough =
      conductor_turn-Agree p ctx (run_conductor p zero persona session_id ctx)
        (run_conductor p (suc zero) persona session_id ctx) persona session_id prompt todos t
        (λ q ts u left mine. absurd (omega (arith, left, enough)))
  run_conductor-suc (suc n) persona session_id prompt todos t enough =
      conductor_turn-Agree p ctx (run_conductor p (suc n) persona session_id ctx)
        (run_conductor p (suc (suc n)) persona session_id ctx) persona session_id prompt todos t
        (λ q ts u left mine.
          run_conductor-suc n persona session_id q ts u (omega (arith, left, mine, enough)))

  -- The fuel of a step, one more than the reruns that the limit leaves, is enough: with any fuel
  -- beyond it the turns of the conductor return or raise the same.
  pub run_conductor_enough :
      (extra : ℕ) (persona session_id prompt : String) (todos : List WorkTodo) (t : Turn F)
      → run_conductor p
          (suc (rerun_limit p.critic ctx.profile_id - t.state.trace_rerun_count))
          persona
          session_id
          ctx
          prompt
          todos
          t
        ≡ run_conductor p
            (suc (extra + (rerun_limit p.critic ctx.profile_id - t.state.trace_rerun_count)))
            persona
            session_id
            ctx
            prompt
            todos
            t
  run_conductor_enough zero persona session_id prompt todos t =
      ap (λ (n : ℕ). run_conductor p (suc n) persona session_id ctx prompt todos t) (omega arith)
  run_conductor_enough (suc extra) persona session_id prompt todos t =
      let left = rerun_limit p.critic ctx.profile_id - t.state.trace_rerun_count in
      run_conductor_enough extra persona session_id prompt todos t
      ∙ (run_conductor-suc (extra + left) persona session_id prompt todos t (omega arith)
          ∙ ap (λ (n : ℕ). run_conductor p (suc n) persona session_id ctx prompt todos t)
              (omega arith))
