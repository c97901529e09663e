-- ===== src/Runs/Step/Overwrites.antt =====
-- What becomes of the todos that the runtime itself writes to their store, as the tool
-- `update_todos` of cys_core/registry/tools.py does, in a step of
-- cys_core/application/use_cases/run_step.py.
use cys_agi.Prelude.{
  ℕ, zero, suc, String, ◌≡◌, refl, none, some, List, ltb, ◌or_else◌, string_eq, pair_eq, ◌==◌,
  Result, ok, err, Exec, Bool-cases, inl, inr, Result-cases, and_then, ◌>>=◌,
}
use cys_agi.Dict
use cys_agi.Floats.{FloatOps}
use cys_agi.Json.{Value, Fields, lookup}
use cys_agi.Spawn.{RunContext}
use cys_agi.Todos.{WorkTodo}
use cys_agi.Runs.{RunState, RunDesk, upsert, replace_todos, append_lesson}
use cys_agi.Runs.Answer.{RunFailure, TraceVerdict}
use cys_agi.Runs.Critic.{rerun_limit, evaluate, dump_verdict}
use cys_agi.Runs.Step.{
  is_reviewed, note_verdict, act_on, review, finish_turn, conductor_turn, run_conductor,
}
use cys_agi.Runs.Turn.{
  StepPorts, Turn, RunTurn, change_state, call_runtime, turn_of, as_result, merge_todos_from_result,
  absorb, with_answer, enriched, count_step, open_session,
}

-- The answer says nothing about todos.
abbrev pub IsSilent : Fields → Type 0
IsSilent answer = (lookup answer "todos" ≡ none) × (lookup answer "plan_delta" ≡ none)

module _ {F : Type 0} (p : StepPorts F) where
  -- Every answer of the runtime is silent.
  abbrev pub SilentRuntime : Type 0
  SilentRuntime =
      (turn : RunTurn) (d : RunDesk F) (v : Value)
      → (p.arun turn d).0 ≡ ok v
      → IsSilent (as_result v)

module _ {F : Type 0} ⦃fl : FloatOps F⦄ (p : StepPorts F) (ctx : RunContext)
    (todos : List WorkTodo) where
  abbrev Answer : Type 0
  Answer = Result RunFailure (Fields × List WorkTodo) × Turn F

  abbrev pub HasList : Turn F → Type 0
  HasList t = Dict.get t.desk.todo_lists (ctx.tenant_id, ctx.context_id) ≡ some todos

  -- An answer has the todos, and their store has them too.
  abbrev pub KeepsList : Result RunFailure (Fields × List WorkTodo) → Turn F → Type 0
  KeepsList (ok kept) t = (kept.1 ≡ todos) × HasList t
  KeepsList (err e) t = Unit

  abbrev RerunKeeps :
      ((prompt : String) → List WorkTodo → Exec (Turn F) RunFailure (Fields × List WorkTodo))
      → Type 0
  RerunKeeps rerun =
      (prompt : String) (t : Turn F) → KeepsList (rerun prompt todos t).0 (rerun prompt todos t).1

  pub HasList-change_state :
      (f : RunState → RunState) (t : Turn F) → HasList t → HasList (change_state f t)
  unfolding change_state upsert
  HasList-change_state f t h = elim (Bool-cases t.is_held) [
    | inl held ↦ rw held h
    | inr free ↦ rw free h
  ]

  HasList-note_verdict :
      (verdict : TraceVerdict F) (t : Turn F) → HasList t → HasList (note_verdict p ctx verdict t)
  unfolding note_verdict append_lesson
  HasList-note_verdict verdict t h =
      let noted =
        HasList-change_state (λ s. record s { last_trace_verdict = dump_verdict p.critic verdict })
          t h in
      elim (Bool-cases (verdict.verdict == "fail")) [
        | inl fails ↦ rw fails noted
        | inr passes ↦ rw passes noted
      ]

  merge_silent :
      (answer : Fields) → IsSilent answer → merge_todos_from_result p answer todos ≡ ok todos
  unfolding merge_todos_from_result
  merge_silent answer (no_todos, no_delta) =
      rw (no_todos, merge_todos_from_result) (rw no_delta refl)

  KeepsList-act_on :
      (rerun : (prompt : String)
        → List WorkTodo
        → Exec (Turn F) RunFailure (Fields × List WorkTodo))
      (verdict : TraceVerdict F) (last : Fields) (t : Turn F)
      → RerunKeeps rerun
      → HasList t
      → KeepsList
          (act_on p rerun ctx verdict last todos t).0
          (act_on p rerun ctx verdict last todos t).1
  unfolding act_on
  KeepsList-act_on rerun verdict last t again h = elim (Bool-cases verdict.should_rerun) [
    | inr passes ↦ rw (passes, act_on) (refl, h)
    | inl reruns ↦
        elim (Bool-cases (ltb t.state.trace_rerun_count (rerun_limit p.critic ctx.profile_id))) [
          | inl left ↦ rw (reruns, act_on) (rw left (again _ _))
          | inr spent ↦ rw (reruns, act_on) (rw spent (refl, h))
        ]
  ]

  KeepsList-review :
      (rerun : (prompt : String)
        → List WorkTodo
        → Exec (Turn F) RunFailure (Fields × List WorkTodo))
      (prompt : String) (last : Fields) (t : Turn F)
      → RerunKeeps rerun
      → HasList t
      → KeepsList
          (review p rerun ctx prompt (last, todos) t).0
          (review p rerun ctx prompt (last, todos) t).1
  unfolding review
  KeepsList-review rerun prompt last t again h =
      elim (Result-cases
        (evaluate p.critic ctx.profile_id (t.state.goal or_else prompt) last t.state.step_count)) [
          | inr (e, raised) ↦ rw (raised, review) tt
          | inl (verdict, given) ↦
              rw (given, review)
                (KeepsList-act_on rerun verdict last (note_verdict p ctx verdict t) again
                  (HasList-note_verdict verdict t h))
        ]

  KeepsList-finish_turn :
      (rerun : (prompt : String)
        → List WorkTodo
        → Exec (Turn F) RunFailure (Fields × List WorkTodo))
      (persona prompt : String) (last : Fields) (t : Turn F)
      → RerunKeeps rerun
      → HasList t
      → KeepsList
          (finish_turn p rerun persona ctx prompt (last, todos) t).0
          (finish_turn p rerun persona ctx prompt (last, todos) t).1
  unfolding finish_turn
  KeepsList-finish_turn rerun persona prompt last t again h =
      let t' = change_state count_step t in
      let counted = HasList-change_state count_step t h in
      elim (Bool-cases (is_reviewed p persona ctx.profile_id last t'.state.step_count)) [
        | inr skipped ↦ rw (skipped, finish_turn) (refl, counted)
        | inl due ↦ rw (due, finish_turn) (KeepsList-review rerun prompt last t' again counted)
      ]

  KeepsList-absorbed :
      (rerun : (prompt : String)
        → List WorkTodo
        → Exec (Turn F) RunFailure (Fields × List WorkTodo))
      (persona prompt : String) (answer : Fields) (t : Turn F)
      → RerunKeeps rerun
      → IsSilent answer
      → let r = (absorb p ctx prompt todos answer >>= finish_turn p rerun persona ctx prompt) t in
        KeepsList r.0 r.1
  unfolding absorb replace_todos
  KeepsList-absorbed rerun persona prompt answer t again silent =
      let last = enriched p answer (t.state.goal or_else prompt) in
      let stored = record t { desk = replace_todos ctx.tenant_id ctx.context_id todos t.desk } in
      rw (merge_silent answer silent, absorb)
        (KeepsList-finish_turn rerun persona prompt last
          (change_state (with_answer p last todos) stored) again
          (HasList-change_state (with_answer p last todos) stored
            (Dict.get-set_self t.desk.todo_lists (ctx.tenant_id, ctx.context_id) todos)))

  KeepsList-answered :
      (rerun : (prompt : String)
        → List WorkTodo
        → Exec (Turn F) RunFailure (Fields × List WorkTodo))
      (persona prompt : String) (answer : Result RunFailure Value) (t : Turn F)
      → RerunKeeps rerun
      → ((v : Value) → answer ≡ ok v → IsSilent (as_result v))
      → let r =
          and_then answer
            (λ v.
              absorb p ctx prompt todos (as_result v) >>= finish_turn p rerun persona ctx prompt)
            t in
        KeepsList r.0 r.1
  KeepsList-answered rerun persona prompt (err e) t again silent = tt
  KeepsList-answered rerun persona prompt (ok v) t again silent =
      KeepsList-absorbed rerun persona prompt (as_result v) t again (silent v refl)

  KeepsList-conductor_turn :
      (rerun : (prompt : String)
        → List WorkTodo
        → Exec (Turn F) RunFailure (Fields × List WorkTodo))
      (persona session_id prompt : String) (t : Turn F)
      → SilentRuntime p
      → RerunKeeps rerun
      → let r = conductor_turn p rerun persona session_id ctx prompt todos t in KeepsList r.0 r.1
  unfolding conductor_turn call_runtime
  KeepsList-conductor_turn rerun persona session_id prompt t silent again =
      let turn = turn_of p persona prompt session_id ctx in
      KeepsList-answered rerun persona prompt
        (p.arun turn (open_session p session_id persona t.desk)).0
        (record t { desk = (call_runtime p turn t.desk).1 }) again
        (silent turn (open_session p session_id persona t.desk))

  pub KeepsList-run_conductor :
      (n : ℕ) (persona session_id prompt : String) (t : Turn F)
      → SilentRuntime p
      → let r = run_conductor p n persona session_id ctx prompt todos t in KeepsList r.0 r.1
  unfolding run_conductor
  KeepsList-run_conductor zero persona session_id prompt t silent = tt
  KeepsList-run_conductor (suc n) persona session_id prompt t silent =
      KeepsList-conductor_turn (run_conductor p n persona session_id ctx) persona session_id prompt
        t silent (λ q u. KeepsList-run_conductor n persona session_id q u silent)
