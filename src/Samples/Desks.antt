-- ===== src/Samples/Desks.antt =====
-- Jobs, approvals and routing decisions at concrete runs.
use cys_agi.Prelude.{
  inr, String, ◌≡◌, ◌≢◌, ◌↔◌, refl, Bool, some, List, [], ◌∷◌, ◌++◌, arith, ok, err, string_eq,
  nat_eq, ◌==◌, if◌then◌else◌,
}
use cys_agi.Dict
use cys_agi.Dict.{values}
use cys_agi.Json.{Fields, nil, field, str, lookup}
use cys_agi.JobStore.{
  JobRecord, JobRecordSummary, PendingHitlAction, awaiting_approval, awaits, list_pending_approvals,
  pause_for_hitl,
}
use cys_agi.JobStore.Approvals.{
  Op, op_pending, op_running, op_pause, apply_all, listed, list_pending_approvals_exact,
}
use cys_agi.Hitl.{
  resumed, Desk, Outside, JobResumeRequest, ResumeError, execute, decide, hash_mismatch,
  build_hitl_preview, target_of, approved_args, hash_blocks,
}
use cys_agi.Hitl.Resume.{resume_call, IsAllowed, execute_guarded, execute_once}
use cys_agi.Hitl.Preview.{approve-pause}

abbrev args : Fields
args = field "target" (str "10.0.0.5") nil

abbrev new_args : Fields
new_args = field "target" (str "10.0.0.6") nil

abbrev action : PendingHitlAction
action = record {
  job_id = "soc:e1";
  session_id = "worker:soc:soc:e1";
  persona = "soc";
  tool_name = "nmap";
  tool_args = args;
  risk_level = "high";
  approval_id = "a1";
}

abbrev job : JobRecord
job = record {
  job_id = "soc:e1";
  session_id = "worker:soc:soc:e1";
  persona = "soc";
  status = awaiting_approval;
  hitl_preview = field "params_hash" (str "h") nil;
  pending_hitl = some action;
  correlation_id = "i1";
  tenant_id = "default";
  event_id = "e1";
}

abbrev desk : Desk
desk = record { store = ("soc:e1", job) ∷ []; approval_records = []; bypasses = []; resumes = [] }

abbrev out : Outside
out = record {
  resume_hash = λ _. "h";
  fresh = "a2";
  now = "2026-01-01T00:00:00Z";
  aresume = λ _ store. (ok (str "done"), (pause_for_hitl action nil store).1);
}

abbrev asks : String → Fields → String → JobResumeRequest
asks decision edited_args approval_id = record {
  decision = decision;
  edited_args = edited_args;
  approval_id = approval_id;
  actor = "analyst";
}

abbrev approves : JobResumeRequest
approves = asks "approve" nil "a1"

approve_calls :
    (execute out "soc:e1" approves desk).1.resumes ≡ resume_call job approves action ∷ []
unfolding execute decide Dict.get hash_blocks approved_args target_of lookup
approve_calls = refl

approve_is_called : (execute out "soc:e1" approves desk).1.resumes ≢ desk.resumes
approve_is_called same = absurd (cc (approve_calls, same))

job_found : Dict.get desk.store "soc:e1" ≡ some job
unfolding Dict.get
job_found = refl

execute_guarded_example :
    (r : JobRecord) × (a : PendingHitlAction) × (Dict.get desk.store "soc:e1" ≡ some r)
    × IsAllowed out r approves a
    × ((execute out "soc:e1" approves desk).1.resumes
        ≡ desk.resumes ++ resume_call r approves a ∷ [])
execute_guarded_example = execute_guarded out "soc:e1" approves desk approve_is_called

approve_returns : (execute out "soc:e1" approves desk).0 ≡ ok (resumed (str "done"))
unfolding execute decide Dict.get hash_blocks approved_args target_of lookup
approve_returns = refl

execute_once_example :
    (e : ResumeError) × (execute out "soc:e1" approves (execute out "soc:e1" approves desk).1
      ≡ (err e, (execute out "soc:e1" approves desk).1))
execute_once_example =
    execute_once out out "soc:e1" approves approves desk (resumed (str "done")) approve_returns

abbrev edits : JobResumeRequest
edits = asks "edit" new_args "a1"

edit_IsAllowed : IsAllowed out job edits action
unfolding hash_blocks
edit_IsAllowed = record {
  awaiting = refl;
  holds = refl;
  same_id = refl;
  no_reject = refl;
  hash = refl;
}

new_target : target_of new_args ≡ str "10.0.0.6"
unfolding target_of lookup
new_target = refl

abbrev odd : JobResumeRequest
odd = asks "later" nil ""

later_no_reject : odd.decision ≢ "reject"
later_no_reject = ground (arith, string_eq.beq_iff "later" "reject")

later_no_approve : odd.decision ≢ "approve"
later_no_approve = ground (arith, string_eq.beq_iff "later" "approve")

old_target : target_of (approved_args odd action) ≡ str "10.0.0.5"
unfolding target_of approved_args lookup
old_target = refl

approve-pause_example :
    let (a, preview) =
      build_hitl_preview (λ _. "g") "a1" "nmap" args "high" "worker:soc:soc:e1" "soc" in
    ((execute out a.job_id approves
        (record desk { store = (pause_for_hitl a preview desk.store).1 })).0
      ≡ err hash_mismatch)
    ↔ (out.resume_hash args ≢ "g")
approve-pause_example =
    approve-pause out approves desk (λ _. "g") "a1" "nmap" args "high" "worker:soc:soc:e1" "soc"
      refl refl (inr refl)

abbrev steps : List Op
steps =
    op_pending "soc:e1" "soc" "i1" "default" "e1"
    ∷ op_running "soc:e1" "worker:soc:soc:e1" "soc" "i1" "default" "e1"
    ∷ op_pause action nil
    ∷ op_pending "intel:e1" "intel" "i1" "default" "e1"
    ∷ []

list_pending_approvals_exact_example :
    listed "soc:e1" (list_pending_approvals (apply_all [] steps))
    ≡ (if awaits (apply_all [] steps) "soc:e1" then 1 else 0)
list_pending_approvals_exact_example = list_pending_approvals_exact steps "soc:e1"

abbrev of_soc : JobRecordSummary → Bool
of_soc s = s.persona == "soc"
