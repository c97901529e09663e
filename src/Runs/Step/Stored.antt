-- ===== src/Runs/Step/Stored.antt =====
-- The same for a whole step, until its state is stored
-- (cys_core/application/use_cases/run_step.py, `RunStep.execute`).
use cys_agi.Prelude.{
  String, ◌≡◌, refl, sym, subst, ◌∙◌, Bool, List, [], ◌∷◌, ◌||◌, string_eq, Bool-cases, inl, inr,
  arith, Result-cases, and_then-keeps, ◌-◌,
}
use cys_agi.Floats.{FloatOps}
use cys_agi.Json.{Fields, field, nil}
use cys_agi.Spawn.{RunContext, is_stateful}
use cys_agi.Todos.{WorkTodo}
use cys_agi.Runs.{WorkPlan, RunState, RunDesk}
use cys_agi.Runs.Prompt.{mode_of}
use cys_agi.Runs.Critic.{rerun_limit}
use cys_agi.Runs.Step.{run_conductor}
use cys_agi.Runs.Turn.{StepPorts, Turn, change_state, call_runtime, turn_of, is_conductor}
use cys_agi.Runs.Step.Keeps.{Keeps, Holds, Holds-change_state, Holds-run_conductor}
use cys_agi.Runs.Step.Execute

begin-desk :
    {F : Type 0} (shares : Bool) (ctx : RunContext) (user_input : String) (d : RunDesk F)
    → (Execute.begin shares ctx user_input d).desk ≡ d
unfolding Execute.begin
begin-desk shares ctx user_input d = ground arith

module _ {F : Type 0} (p : StepPorts F) where
  prepared-context :
      (ctx : RunContext) (persona user_input : String) (d : RunDesk F) (s : RunState)
      → (Execute.prepared p ctx persona user_input d s).run_context ≡ s.run_context
  unfolding Execute.prepared Execute.summarized Execute.hinted
  prepared-context ctx persona user_input d s = ground arith

  with_kept-context :
      (ctx : RunContext) (user_input : String) (last : Fields) (s : RunState)
      → (Execute.with_kept p ctx user_input last s).run_context ≡ s.run_context
  unfolding Execute.with_kept Execute.maybe_failed_summary
  with_kept-context ctx user_input last s = ground arith

module _ {F : Type 0} ⦃fl : FloatOps F⦄ (p : StepPorts F) (ctx own : RunContext) (persona : String)
    (Before After : RunDesk F → Type 0)
    (k : Keeps p ctx own persona (Execute.session_of persona ctx) Before After) where
  store_plan-After :
      (todos : List WorkTodo) (d : RunDesk F) → After d → After (Execute.store_plan ctx todos d)
  store_plan-After [] d h = h
  store_plan-After (t ∷ ts) d h = k.by_todos (t ∷ ts) d h

  Holds-take_plan :
      (work : WorkPlan) (t : Turn F)
      → Holds own After t
      → Holds own After (Execute.take_plan p ctx work t)
  unfolding Execute.take_plan
  Holds-take_plan work t (mine, h) =
      Holds-change_state p ctx own persona (Execute.session_of persona ctx) Before After k
        (Execute.with_plan work (field "plan" (p.dump_plan work) nil))
        (record t { desk = Execute.store_plan ctx work.todos t.desk }) refl
        (mine, store_plan-After work.todos t.desk h)

  Holds-plan_step :
      (prompt : String) (t : Turn F)
      → Holds own Before t
      → Holds own After
          (Execute.plan_step p persona (Execute.session_of persona ctx) ctx prompt t).1
  unfolding Execute.plan_step
  Holds-plan_step prompt t (mine, h) =
      let (answer, d) =
        call_runtime p (turn_of p persona prompt (Execute.session_of persona ctx) ctx) t.desk in
      and_then-keeps (Holds own After) answer _ (record t { desk = d })
        (λ v t' held. elim (Result-cases (Execute.parse_work_plan p v)) [
          | inr (e, raised) ↦ rw raised held
          | inl (work, given) ↦ rw given (Holds-take_plan work t' held)
        ])
        (mine, k.by_call prompt t.desk h)

  Holds-conductor_step :
      (user_input prompt : String) (todos : List WorkTodo) (t : Turn F)
      → Holds own Before t
      → Holds own After
          (Execute.conductor_step p persona
            (Execute.session_of persona ctx)
            ctx
            user_input
            prompt
            todos
            t).1
  unfolding Execute.conductor_step
  Holds-conductor_step user_input prompt todos t h =
      let n = rerun_limit p.critic ctx.profile_id - t.state.trace_rerun_count in
      let (kept, t') =
        run_conductor p (Prim.Native.Nat.suc n) persona (Execute.session_of persona ctx) ctx prompt
          todos t in
      and_then-keeps (Holds own After) kept _ t'
        (λ kept t'' held.
          Holds-change_state p ctx own persona (Execute.session_of persona ctx) Before After k
            (Execute.with_kept p ctx user_input kept.0) t''
            (with_kept-context p ctx user_input kept.0 t''.state) held)
        (Holds-run_conductor p ctx own persona (Execute.session_of persona ctx) Before After k n
          prompt todos t h)

  Holds-worker_step :
      (prompt : String) (t : Turn F)
      → Holds own Before t
      → Holds own After
          (Execute.worker_step p persona (Execute.session_of persona ctx) ctx prompt t).1
  unfolding Execute.worker_step
  Holds-worker_step prompt t (mine, h) =
      let (answer, d) =
        call_runtime p (turn_of p persona prompt (Execute.session_of persona ctx) ctx) t.desk in
      and_then-keeps (Holds own After) answer _ (record t { desk = d })
        (λ v t' held.
          Holds-change_state p ctx own persona (Execute.session_of persona ctx) Before After k
            (Execute.with_result v) t' refl held)
        (mine, k.by_call prompt t.desk h)

  Holds-branch :
      (user_input prompt : String) (todos : List WorkTodo) (t : Turn F)
      → Holds own Before t
      → Holds own After (Execute.branch p persona ctx user_input prompt todos t).1
  unfolding Execute.branch
  Holds-branch user_input prompt todos t h = elim (Bool-cases (Execute.is_plan (mode_of ctx))) [
    | inl planning ↦ rw (planning, Execute.branch) (Holds-plan_step prompt t h)
    | inr other ↦ elim (Bool-cases (is_stateful ctx || is_conductor persona)) [
      | inl conducts ↦
          rw (other, Execute.branch)
            (rw conducts (Holds-conductor_step user_input prompt todos t h))
      | inr works ↦ rw (other, Execute.branch) (rw works (Holds-worker_step prompt t h))
    ]
  ]

  Before-change_state :
      (f : RunState → RunState) (t : Turn F)
      → (f t.state).run_context ≡ own
      → Before t.desk
      → Holds own Before (change_state f t)
  unfolding change_state
  Before-change_state f t mine h = elim (Bool-cases t.is_held) [
    | inl held ↦ (mine, rw held (k.early_upsert (f t.state) t.desk mine h))
    | inr free ↦ (mine, rw free h)
  ]

  -- what the objects are like after a step that began with them
  Holds-take_turn :
      (user_input : String) (d : RunDesk F)
      → (Execute.begin p.shares_states ctx user_input d).state.run_context ≡ own
      → Before d
      → Holds own After (Execute.take_turn p ctx user_input persona d).1
  unfolding Execute.take_turn
  Holds-take_turn user_input d mine h =
      let opened = Execute.begin p.shares_states ctx user_input d in
      let prepare = Execute.prepared p ctx persona user_input d in
      Holds-branch user_input _ _ (change_state prepare opened) (
        Before-change_state prepare opened
          (prepared-context p ctx persona user_input d opened.state ∙ mine)
          (subst Before (sym (begin-desk p.shares_states ctx user_input d)) h))

  pub execute-After :
      (user_input : String) (d : RunDesk F)
      → (Execute.begin p.shares_states ctx user_input d).state.run_context ≡ own
      → Before d
      → After (Execute.execute p ctx user_input persona d).1
  unfolding Execute.execute
  execute-After user_input d mine h =
      let (result, t) = Execute.take_turn p ctx user_input persona d in
      let held = Holds-take_turn user_input d mine h in
      elim (Result-cases result) [
        | inr (e, raised) ↦ rw (raised, Execute.execute) held.1
        | inl (u, returned) ↦
            rw (returned, Execute.execute) (k.by_upsert t.state t.desk held.0 held.1)
      ]
