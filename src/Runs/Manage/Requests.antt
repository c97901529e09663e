-- ===== src/Runs/Manage/Requests.antt =====
-- The requests on runs, in any order (interfaces/api/runs.py, which calls
-- cys_core/application/use_cases/manage_run.py).
use cys_agi.Prelude.{
  String, ◌≢◌, sym, ◌∙◌, Option, none, some, List, [], ◌∷◌, All, string_eq, inl, inr, Result-cases,
}
use cys_agi.Floats.{FloatOps}
use cys_agi.Policy.{InteractionMode, agent}
use cys_agi.Spawn.{RunContext}
use cys_agi.Runs.{WorkPlan, RunDesk, new_state, closed}
use cys_agi.Runs.Turn.{StepPorts}
use cys_agi.Runs.Manage.{
  PlanApproval, Decision, approve, reject, edit, with_mode, save_context, attach_paths, get_context,
  accept_plan, create_and_step, create_run, step_in, step, decide_plan, approve_plan,
  upload_attachment,
}
use cys_agi.Runs.Isolation.{IsKeyed, IsIsolated, Untouched-refl, IsIsolated-upsert}
use cys_agi.Runs.Manage.Tenants.{
  WritesNoRuns, IsIsolated-save_context, IsIsolated-attach_paths, IsIsolated-approved_desk,
  get_context-tenant, IsIsolated-execute, IsIsolated-upload_attachment,
}

-- What the endpoints are asked.
pub data RunRequest : Type 0 where
  creation : RunContext → (user_input persona : String) → (file_paths : List String) → RunRequest
  opening : RunContext → (user_input : String) → RunRequest
  message : (run_id text tenant_id : String) → Option InteractionMode → RunRequest
  answer : (run_id : String) → PlanApproval → (tenant_id : String) → RunRequest
  upload : (run_id file_name tenant_id : String) → RunRequest

abbrev pub tenant_of : RunRequest → String
tenant_of (creation ctx _ _ _) = ctx.tenant_id
tenant_of (opening ctx _) = ctx.tenant_id
tenant_of (message _ _ tenant_id _) = tenant_id
tenant_of (answer _ _ tenant_id) = tenant_id
tenant_of (upload _ _ tenant_id) = tenant_id

module _ {F : Type 0} ⦃fl : FloatOps F⦄ (p : StepPorts F) (name : String → String)
    (save : (tenant_id run_id file_name : String) → String) where
  -- the objects behind an answered request
  unfoldable pub serve : RunRequest → RunDesk F → RunDesk F
  unfolding create_and_step create_run step approve_plan upload_attachment
  serve (creation ctx user_input persona file_paths) d =
      (create_run p name ctx user_input persona file_paths d).1
  serve (opening ctx user_input) d = (create_and_step p ctx user_input "conductor" d).1
  serve (message run_id text tenant_id mode) d = (step p run_id text tenant_id mode "conductor" d).1
  serve (answer run_id approval tenant_id) d = (approve_plan p run_id approval tenant_id d).1
  serve (upload run_id file_name tenant_id) d =
      (upload_attachment save run_id file_name tenant_id d).1

  abbrev pub serve_all : List RunRequest → RunDesk F → RunDesk F
  serve_all [] d = d
  serve_all (r ∷ rs) d = serve_all rs (serve r d)

  module _ (other : String) (writes_none : WritesNoRuns p) (d₀ : RunDesk F) where
    IsIsolated-create_run :
        (ctx : RunContext) (user_input persona : String) (paths : List String) (d : RunDesk F)
        → ctx.tenant_id ≢ other
        → IsIsolated other d₀ d
        → IsIsolated other d₀ (create_run p name ctx user_input persona paths d).1
    unfolding create_run create_and_step
    IsIsolated-create_run ctx user_input persona [] d apart h =
        IsIsolated-execute p other d₀ ctx user_input persona _ writes_none apart (
          IsIsolated-save_context other d₀ ctx user_input (save_context ctx user_input d) apart
            (IsIsolated-save_context other d₀ ctx user_input d apart h))
    IsIsolated-create_run ctx user_input persona (path ∷ paths) d apart h =
        IsIsolated-execute p other d₀ ctx user_input persona _ writes_none apart (
          IsIsolated-save_context other d₀ ctx user_input
            (attach_paths name ctx (path ∷ paths) (save_context ctx user_input d)) apart
            (IsIsolated-attach_paths other d₀ name ctx (path ∷ paths)
              (save_context ctx user_input d) apart
              (IsIsolated-save_context other d₀ ctx user_input d apart h)))

    IsIsolated-step_in :
        (ctx : RunContext) (mode : Option InteractionMode) (text persona : String) (d : RunDesk F)
        → ctx.tenant_id ≢ other
        → IsIsolated other d₀ d
        → IsIsolated other d₀ (step_in p ctx mode text persona d).1
    IsIsolated-step_in ctx none text persona d own h =
        IsIsolated-execute p other d₀ ctx text persona d writes_none own h
    IsIsolated-step_in ctx (some mode) text persona d own h =
        IsIsolated-execute p other d₀ (with_mode mode ctx) text persona _ writes_none own
          (IsIsolated-save_context other d₀ (with_mode mode ctx) "" d own h)

    IsIsolated-step :
        (run_id text tenant_id persona : String) (mode : Option InteractionMode) (d : RunDesk F)
        → tenant_id ≢ other
        → IsIsolated other d₀ d
        → IsIsolated other d₀ (step p run_id text tenant_id mode persona d).1
    unfolding step
    IsIsolated-step run_id text tenant_id persona mode d apart h =
        elim (Result-cases (get_context d run_id tenant_id)) [
          | inr (e, missing) ↦ rw (missing, step) h
          | inl (ctx, found) ↦
              let own : ctx.tenant_id ≢ other =
                λ e. apart (sym (get_context-tenant d run_id tenant_id ctx h.1 found) ∙ e) in
              rw (found, step) (IsIsolated-step_in ctx mode text persona d own h)
        ]

    IsIsolated-accept_plan :
        (ctx : RunContext) (edited : Option WorkPlan) (d : RunDesk F)
        → ctx.tenant_id ≢ other
        → IsIsolated other d₀ d
        → IsIsolated other d₀ (accept_plan p ctx edited d).1
    unfolding accept_plan
    IsIsolated-accept_plan ctx edited d own h =
        let ctx' = with_mode agent ctx in
        IsIsolated-execute p other d₀ ctx' "execute approved plan" "conductor" _ writes_none own (
          IsIsolated-approved_desk other d₀ ctx' edited (save_context ctx' "" d) own
            (IsIsolated-save_context other d₀ ctx' "" d own h))

    IsIsolated-decide_plan :
        (decision : Decision) (edited : Option WorkPlan) (ctx : RunContext) (d : RunDesk F)
        → ctx.tenant_id ≢ other
        → IsIsolated other d₀ d
        → IsIsolated other d₀ (decide_plan p decision edited ctx d).1
    IsIsolated-decide_plan reject edited ctx d own h =
        IsIsolated-upsert other d₀ (new_state ctx "" none closed) d own h
    IsIsolated-decide_plan approve edited ctx d own h = IsIsolated-accept_plan ctx edited d own h
    IsIsolated-decide_plan edit edited ctx d own h = IsIsolated-accept_plan ctx edited d own h

    IsIsolated-approve_plan :
        (run_id : String) (approval : PlanApproval) (tenant_id : String) (d : RunDesk F)
        → tenant_id ≢ other
        → IsIsolated other d₀ d
        → IsIsolated other d₀ (approve_plan p run_id approval tenant_id d).1
    unfolding approve_plan
    IsIsolated-approve_plan run_id approval tenant_id d apart h =
        elim (Result-cases (get_context d run_id tenant_id)) [
          | inr (e, missing) ↦ rw (missing, approve_plan) h
          | inl (ctx, found) ↦
              let own : ctx.tenant_id ≢ other =
                λ e. apart (sym (get_context-tenant d run_id tenant_id ctx h.1 found) ∙ e) in
              rw (found, approve_plan)
                (IsIsolated-decide_plan approval.decision approval.edited_plan ctx d own h)
        ]

    IsIsolated-serve :
        (r : RunRequest) (d : RunDesk F)
        → tenant_of r ≢ other
        → IsIsolated other d₀ d
        → IsIsolated other d₀ (serve r d)
    unfolding serve create_and_step
    IsIsolated-serve (creation ctx user_input persona paths) d apart h =
        IsIsolated-create_run ctx user_input persona paths d apart h
    IsIsolated-serve (opening ctx user_input) d apart h =
        IsIsolated-execute p other d₀ ctx user_input "conductor" _ writes_none apart
          (IsIsolated-save_context other d₀ ctx user_input d apart h)
    IsIsolated-serve (message run_id text tenant_id mode) d apart h =
        IsIsolated-step run_id text tenant_id "conductor" mode d apart h
    IsIsolated-serve (answer run_id approval tenant_id) d apart h =
        IsIsolated-approve_plan run_id approval tenant_id d apart h
    IsIsolated-serve (upload run_id file_name tenant_id) d apart h =
        IsIsolated-upload_attachment other d₀ save run_id file_name tenant_id d apart h

    IsIsolated-serve_all :
        (rs : List RunRequest) (d : RunDesk F)
        → All (λ r. tenant_of r ≢ other) rs
        → IsIsolated other d₀ d
        → IsIsolated other d₀ (serve_all rs d)
    IsIsolated-serve_all [] d apart h = h
    IsIsolated-serve_all (r ∷ rs) d apart h =
        IsIsolated-serve_all rs (serve r d) apart.1 (IsIsolated-serve r d apart.0 h)

  -- However many requests of other tenants are served, and in whatever order: the run states and
  -- the lessons of a tenant stay as they were, and every state stands under its own tenant, if it
  -- did before. The requests create runs, open sessions, send messages, answer plans and upload
  -- attachments. The runtime writes neither run states nor lessons itself; todos are not spoken of,
  -- since its tools can write those of every tenant.
  pub serve_all-IsIsolated :
      (other : String) (rs : List RunRequest) (d : RunDesk F)
      → WritesNoRuns p
      → All (λ r. tenant_of r ≢ other) rs
      → IsKeyed d
      → IsIsolated other d (serve_all rs d)
  serve_all-IsIsolated other rs d writes_none apart keyed =
      IsIsolated-serve_all other writes_none d rs d apart (Untouched-refl other d, keyed)
