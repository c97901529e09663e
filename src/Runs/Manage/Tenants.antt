-- ===== src/Runs/Manage/Tenants.antt =====
-- What the requests of one tenant do to the runs of another
-- (cys_core/application/use_cases/manage_run.py, interfaces/api/runs.py).
use cys_agi.Prelude.{
  String, ◌≡◌, ◌≢◌, refl, sym, ap, ◌∙◌, Bool, Option, none, some, List, [], ◌∷◌, string_eq, pair_eq,
  Result, ok, err, Option-cases, Result-cases, inl, inr,
}
use cys_agi.Dict
use cys_agi.Dict.{Dict, none≢some}
use cys_agi.Floats.{FloatOps}
use cys_agi.Spawn.{ContextKind, session, job, investigation, RunContext, kind_value}
use cys_agi.Todos.{WorkTodo}
use cys_agi.Runs.{StateKey, WorkPlan, RunState, RunDesk, state_key, get_state, replace_todos}
use cys_agi.Runs.Turn.{StepPorts, RunTurn, call_runtime, open_session, close_session, turn_of}
use cys_agi.Runs.Step.Keeps.{Keeps}
use cys_agi.Runs.Step.Stored.{execute-After}
use cys_agi.Runs.Step.Execute.{begin, session_of, execute}
use cys_agi.Runs.Manage.{
  save_context, get_context, find_state, approved_desk, file_todos, file_plan, adopt_plan,
  attach_paths, upload_attachment,
}
use cys_agi.Runs.Isolation.{
  IsKeyed, IsIsolated, IsIsolated-same, IsIsolated-upsert, IsIsolated-todos, IsIsolated-lesson,
}

pub ok-injective : {E A : Type 0} {a b : A} → ◌≡◌ {A = Result E A} (ok a) (ok b) → a ≡ b
ok-injective e = cc

err≢ok : {E A : Type 0} {e : E} {a : A} → ◌≢◌ {A = Result E A} (err e) (ok a)
err≢ok h = cc

module _ {F : Type 0} where
  module _ (other : String) (d₀ : RunDesk F) where
    pub IsIsolated-save_context :
        (ctx : RunContext) (goal : String) (d : RunDesk F)
        → ctx.tenant_id ≢ other
        → IsIsolated other d₀ d
        → IsIsolated other d₀ (save_context ctx goal d)
    unfolding save_context get_state
    IsIsolated-save_context ctx goal d apart h =
        elim (Option-cases (Dict.get d.states (state_key ctx))) [
          | inl absent ↦ rw (absent, save_context) (IsIsolated-upsert other d₀ _ d apart h)
          | inr (s, found) ↦
              rw (found, save_context)
                (IsIsolated-upsert other d₀ (record s { run_context = ctx }) d apart h)
        ]

    pub IsIsolated-attach_paths :
        (name : String → String) (ctx : RunContext) (paths : List String) (d : RunDesk F)
        → ctx.tenant_id ≢ other
        → IsIsolated other d₀ d
        → IsIsolated other d₀ (attach_paths name ctx paths d)
    unfolding attach_paths get_state
    IsIsolated-attach_paths name ctx paths d apart h =
        elim (Option-cases (Dict.get d.states (state_key ctx))) [
          | inl absent ↦ rw (absent, attach_paths) h
          | inr (s, found) ↦
              let own : s.run_context.tenant_id ≢ other =
                λ e. apart (sym (h.1 (state_key ctx) s found) ∙ e) in
              rw (found, attach_paths)
                (IsIsolated-upsert other d₀ (record s { attachments = _ }) d own h)
        ]

    IsIsolated-file_todos :
        (ctx : RunContext) (todos : List WorkTodo) (s : RunState) (d : RunDesk F)
        → ctx.tenant_id ≢ other
        → s.run_context.tenant_id ≢ other
        → IsIsolated other d₀ d
        → IsIsolated other d₀ (file_todos ctx todos s d)
    IsIsolated-file_todos ctx [] s d apart own h = IsIsolated-upsert other d₀ s d own h
    IsIsolated-file_todos ctx (t ∷ ts) s d apart own h =
        IsIsolated-upsert other d₀ (record s { todos = t ∷ ts })
          (replace_todos ctx.tenant_id ctx.context_id (t ∷ ts) d) own
          (IsIsolated-todos other d₀ ctx.tenant_id ctx.context_id (t ∷ ts) d h)

    IsIsolated-file_plan :
        (ctx : RunContext) (chosen : Option WorkPlan) (s : RunState) (d : RunDesk F)
        → ctx.tenant_id ≢ other
        → s.run_context.tenant_id ≢ other
        → IsIsolated other d₀ d
        → IsIsolated other d₀ (file_plan ctx chosen s d)
    IsIsolated-file_plan ctx (some work) s d apart own h =
        IsIsolated-file_todos ctx work.todos (record s { plan = some work }) d apart own h
    IsIsolated-file_plan ctx none s d apart own h =
        IsIsolated-upsert other d₀ (record s { plan = none }) d own h

    IsIsolated-adopt_plan :
        (ctx : RunContext) (edited : Option WorkPlan) (s : RunState) (d : RunDesk F)
        → ctx.tenant_id ≢ other
        → s.run_context.tenant_id ≢ other
        → IsIsolated other d₀ d
        → IsIsolated other d₀ (adopt_plan ctx edited s d)
    IsIsolated-adopt_plan ctx (some work) s d apart own h =
        IsIsolated-file_plan ctx (some work) s d apart own h
    IsIsolated-adopt_plan ctx none s d apart own h = IsIsolated-file_plan ctx s.plan s d apart own h

    pub IsIsolated-approved_desk :
        (ctx : RunContext) (edited : Option WorkPlan) (d : RunDesk F)
        → ctx.tenant_id ≢ other
        → IsIsolated other d₀ d
        → IsIsolated other d₀ (approved_desk ctx edited d)
    unfolding approved_desk get_state
    IsIsolated-approved_desk ctx edited d apart h =
        elim (Option-cases (Dict.get d.states (state_key ctx))) [
          | inl absent ↦ rw (absent, approved_desk) h
          | inr (s, found) ↦
              let own : s.run_context.tenant_id ≢ other =
                λ e. apart (sym (h.1 (state_key ctx) s found) ∙ e) in
              rw (found, approved_desk) (IsIsolated-adopt_plan ctx edited s d apart own h)
        ]

  -- The context that is found is of the tenant that is asked for.
  find_state-tenant :
      (d : RunDesk F) (tenant_id run_id : String) (kinds : List ContextKind) (s : RunState)
      → IsKeyed d
      → find_state d tenant_id run_id kinds ≡ some s
      → s.run_context.tenant_id ≡ tenant_id
  unfolding get_state
  find_state-tenant d tenant_id run_id [] s keyed found = absurd (none≢some found)
  find_state-tenant d tenant_id run_id (kind ∷ kinds) s keyed found =
      elim (Option-cases (Dict.get d.states (tenant_id, (run_id, kind_value kind)))) [
        | inl absent ↦
            find_state-tenant d tenant_id run_id kinds s keyed (rw (absent, find_state) at found)
        | inr (t, there) ↦
            let same : some t ≡ some s = rw (there, find_state) at found in keyed _ s (there ∙ same)
      ]

  pub get_context-tenant :
      (d : RunDesk F) (run_id tenant_id : String) (ctx : RunContext)
      → IsKeyed d
      → get_context d run_id tenant_id ≡ ok ctx
      → ctx.tenant_id ≡ tenant_id
  unfolding get_context
  get_context-tenant d run_id tenant_id ctx keyed found =
      elim (Option-cases (find_state d tenant_id run_id (session ∷ job ∷ investigation ∷ []))) [
        | inl absent ↦ absurd (err≢ok (rw (absent, get_context) at found))
        | inr (s, there) ↦
            let same = ok-injective (rw (there, get_context) at found) in
            ap (λ x. x.tenant_id) (sym same)
            ∙ find_state-tenant d tenant_id run_id (session ∷ job ∷ investigation ∷ []) s keyed
                there
      ]

  pub IsIsolated-upload_attachment :
      (other : String) (d₀ : RunDesk F) (save : (tenant_id run_id file_name : String) → String)
      (run_id file_name tenant_id : String) (d : RunDesk F)
      → tenant_id ≢ other
      → IsIsolated other d₀ d
      → IsIsolated other d₀ (upload_attachment save run_id file_name tenant_id d).1
  unfolding upload_attachment get_state
  IsIsolated-upload_attachment other d₀ save run_id file_name tenant_id d apart h =
      elim (Result-cases (get_context d run_id tenant_id)) [
        | inr (e, missing) ↦ rw (missing, upload_attachment) h
        | inl (ctx, found) ↦
            let key : StateKey = (tenant_id, (run_id, kind_value ctx.kind)) in
            elim (Option-cases (Dict.get d.states key)) [
              | inl absent ↦ rw (found, absent, upload_attachment) h
              | inr (s, there) ↦
                  rw (found, there, upload_attachment)
                    (IsIsolated-upsert other d₀ (record s { attachments = _ }) d
                      (λ e. apart (sym (h.1 key s there) ∙ e)) h)
            ]
      ]

  begin-tenant :
      (shares : Bool) (ctx : RunContext) (user_input : String) (d : RunDesk F)
      → IsKeyed d
      → (begin shares ctx user_input d).state.run_context.tenant_id ≡ ctx.tenant_id
  unfolding begin get_state
  begin-tenant shares ctx user_input d keyed =
      elim (Option-cases (Dict.get d.states (state_key ctx))) [
        | inl absent ↦ rw (absent, begin) refl
        | inr (s, found) ↦ rw (found, begin) (keyed (state_key ctx) s found)
      ]

module _ {F : Type 0} (p : StepPorts F) where
  -- The runtime writes neither run states nor lessons. (Its tools write todos, of any tenant.)
  abbrev pub WritesNoRuns : Type 0
  WritesNoRuns =
      (turn : RunTurn) (d : RunDesk F)
      → ((p.arun turn d).1.states ≡ d.states) × ((p.arun turn d).1.lessons ≡ d.lessons)

module _ {F : Type 0} ⦃fl : FloatOps F⦄ (p : StepPorts F) (other : String) where
  pub isolates :
      (d₀ : RunDesk F) (ctx own : RunContext) (persona session_id : String)
      → WritesNoRuns p
      → ctx.tenant_id ≢ other
      → own.tenant_id ≡ ctx.tenant_id
      → Keeps p ctx own persona session_id (IsIsolated other d₀) (IsIsolated other d₀)
  unfolding call_runtime open_session close_session
  isolates d₀ ctx own persona session_id writes_none apart same =
      let upserts =
        λ (s : RunState) (d : RunDesk F) (mine : s.run_context ≡ own) (h : IsIsolated other d₀ d).
          IsIsolated-upsert other d₀ s d
            (λ e. apart (sym same ∙ (sym (ap (λ x. x.tenant_id) mine) ∙ e))) h in
      record {
        weaken = λ d h. h;
        by_call = λ prompt d h.
            let (states, lessons) =
              writes_none (turn_of p persona prompt session_id ctx)
                (open_session p session_id persona d) in
            IsIsolated-same other d₀ d
              (call_runtime p (turn_of p persona prompt session_id ctx) d).1 states lessons h;
        early_upsert = upserts;
        by_upsert = upserts;
        by_todos = λ todos d h. IsIsolated-todos other d₀ ctx.tenant_id ctx.context_id todos d h;
        by_lesson = λ lesson d mine h.
            IsIsolated-lesson other d₀ p.sanitize_lesson lesson d (λ e. apart (sym mine ∙ e)) h;
      }

  pub IsIsolated-execute :
      (d₀ : RunDesk F) (ctx : RunContext) (user_input persona : String) (d : RunDesk F)
      → WritesNoRuns p
      → ctx.tenant_id ≢ other
      → IsIsolated other d₀ d
      → IsIsolated other d₀ (execute p ctx user_input persona d).1
  IsIsolated-execute d₀ ctx user_input persona d writes_none apart h =
      let own = (begin p.shares_states ctx user_input d).state.run_context in
      execute-After p ctx own persona (IsIsolated other d₀) (IsIsolated other d₀)
        (isolates d₀ ctx own persona (session_of persona ctx) writes_none apart
          (begin-tenant p.shares_states ctx user_input d h.1))
        user_input d refl h
