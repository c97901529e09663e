-- ===== src/Hitl/Resume.antt =====
-- What reaches the runtime through `ResumeHitlJob.execute`
-- (cys_core/application/use_cases/resume_hitl_job.py).
use cys_agi.Prelude.{
  String, ◌≡◌, ◌≢◌, ◌⊎◌, inl, inr, refl, ap, true, false, not, ◌&&◌, some, [], ◌∷◌, ◌++◌, truthy,
  string_eq, ◌==◌, arith, ok, err, Result-cases, Bool-cases, Option-cases,
}
use cys_agi.Dict
use cys_agi.Json.{str, lookup, is_nonempty}
use cys_agi.JobStore.{JobRecord, PendingHitlAction, is_awaiting, mark_running, awaits}
use cys_agi.JobStore.Approvals.{awaits-mark_failed, awaits-mark_completed}
use cys_agi.Hitl.{
  Desk, Outside, Reply, JobResumeRequest, ResumeCall, ResumeError, not_awaiting_approval,
  unknown_job, hash_blocks, resume_payload, decide, execute, HitlApprovalRecord, audit,
  resume_decision_approved, target_of, approved_args,
}

-- The call that a resumed record makes.
abbrev pub resume_call : JobRecord → JobResumeRequest → PendingHitlAction → ResumeCall
resume_call r request action = record {
  persona = r.persona;
  session_id = r.session_id;
  resume = resume_payload request action;
}

-- The guards of `execute` on a record and its action.
pub record IsAllowed (out : Outside) (r : JobRecord) (request : JobResumeRequest)
    (action : PendingHitlAction) : Type 0 where
  pub awaiting : is_awaiting r.status ≡ true
  pub holds : r.pending_hitl ≡ some action
  pub same_id :
      (truthy request.approval_id && not (request.approval_id == action.approval_id)) ≡ false
  pub no_reject : (request.decision == "reject") ≡ false
  pub hash : hash_blocks out r request action ≡ false

module _ (out : Outside) (job_id : String) (request : JobResumeRequest) (d : Desk) where
  decide_calls :
      (r : JobRecord) (action : PendingHitlAction)
      → is_awaiting r.status ≡ true
      → r.pending_hitl ≡ some action
      → (decide out job_id request r action d).1.resumes ≢ d.resumes
      → IsAllowed out r request action
        × ((decide out job_id request r action d).1.resumes
            ≡ d.resumes ++ resume_call r request action ∷ [])
  unfolding decide
  decide_calls r action awaiting holds called = ground arith

  pub execute-decide :
      (r : JobRecord) (action : PendingHitlAction)
      → Dict.get d.store job_id ≡ some r
      → is_awaiting r.status ≡ true
      → r.pending_hitl ≡ some action
      → execute out job_id request d ≡ decide out job_id request r action d
  unfolding execute
  execute-decide r action found awaiting holds = ground arith

  -- What `execute` sees of the job when it goes past its first two guards.
  abbrev pub Found : Type 0
  Found =
      (r : JobRecord) × (action : PendingHitlAction) × (Dict.get d.store job_id ≡ some r)
      × (is_awaiting r.status ≡ true)
      × (r.pending_hitl ≡ some action)

  -- A job that is not there, or does not wait with an action, is refused and changes nothing.
  execute_cases : Found ⊎ ((execute out job_id request d).1 ≡ d)
  unfolding execute
  execute_cases = elim (Option-cases (Dict.get d.store job_id)) [
    | inl absent ↦ inr (rw (absent, execute))
    | inr (r, found) ↦ elim (Bool-cases (is_awaiting r.status)) [
      | inr settled ↦ inr (rw (found, execute, settled))
      | inl awaiting ↦ elim (Option-cases r.pending_hitl) [
        | inl idle ↦ inr (rw (found, execute, awaiting, idle))
        | inr (action, holds) ↦ inl (r, action, found, awaiting, holds)
      ]
    ]
  ]

  -- The runtime is called only for a job that waits for approval with an action, with no approval
  -- id or that action's, not on a rejection, and on an approval only if the hash of the arguments
  -- is the preview's or the preview has none. It is then called once, for the record's persona and
  -- session, with the decision and the action's approval id.
  pub execute_guarded :
      (execute out job_id request d).1.resumes ≢ d.resumes
      → (r : JobRecord) × (action : PendingHitlAction) × (Dict.get d.store job_id ≡ some r)
        × IsAllowed out r request action
        × ((execute out job_id request d).1.resumes
            ≡ d.resumes ++ resume_call r request action ∷ [])
  execute_guarded called = elim execute_cases [
    | inr same ↦ absurd (called (ap (λ (e : Desk). e.resumes) same))
    | inl (r, action, found, awaiting, holds) ↦
        let e = execute-decide r action found awaiting holds in
        let (allowed, call) = decide_calls r action awaiting holds (rw e at called) in
        (r, action, found, allowed, rw e call)
  ]

  decide_settles :
      (r : JobRecord) (action : PendingHitlAction) (reply : Reply)
      → (decide out job_id request r action d).0 ≡ ok reply
      → awaits (decide out job_id request r action d).1.store job_id ≡ false
  unfolding decide
  decide_settles r action reply replied =
      let call = resume_call r request action in
      let resumed = out.aresume call (mark_running job_id d.store).1 in
      ground (
        arith,
        awaits-mark_failed d.store job_id,
        awaits-mark_completed resumed.1 job_id,
        Result-cases resumed.0,
      )

  execute_settles :
      (reply : Reply)
      → (execute out job_id request d).0 ≡ ok reply
      → awaits (execute out job_id request d).1.store job_id ≡ false
  unfolding execute
  execute_settles reply replied = elim (Option-cases (Dict.get d.store job_id)) [
    | inl absent ↦ absurd (ground (arith, absent, replied))
    | inr (r, found) ↦ elim (Bool-cases (is_awaiting r.status)) [
      | inr settled ↦ absurd (ground (arith, found, settled, replied))
      | inl awaiting ↦ elim (Option-cases r.pending_hitl) [
        | inl idle ↦ absurd (ground (arith, found, awaiting, idle, replied))
        | inr (action, holds) ↦
            let e = execute-decide r action found awaiting holds in
            rw e (decide_settles r action reply (rw e at replied))
      ]
    ]
  ]

  pub execute_refuses :
      awaits d.store job_id ≡ false
      → (e : ResumeError) × (execute out job_id request d ≡ (err e, d))
  unfolding execute awaits
  execute_refuses idle = elim (Option-cases (Dict.get d.store job_id)) [
    | inl absent ↦ (unknown_job, ground arith)
    | inr (r, found) ↦ (not_awaiting_approval, ground arith)
  ]

-- A request that returns, be it a rejection or a resumption, ends the wait of its job, whatever the
-- runtime did to the job store meanwhile, a new pause of this job included: every later request on
-- the job is refused with an error and changes nothing, unless something else writes to the store
-- before it.
pub execute_once :
    (out out' : Outside) (job_id : String) (request request' : JobResumeRequest) (d : Desk)
    (reply : Reply)
    → (execute out job_id request d).0 ≡ ok reply
    → (e : ResumeError) × (execute out' job_id request' (execute out job_id request d).1
        ≡ (err e, (execute out job_id request d).1))
execute_once out out' job_id request request' d reply replied =
    execute_refuses out' job_id request' (execute out job_id request d).1
      (execute_settles out job_id request d reply replied)

module _ (out : Outside) (job_id : String) (request : JobResumeRequest) (d : Desk) (r : JobRecord)
    (action : PendingHitlAction) (target : String) where
  -- Past the guards the action is audited with the arguments that were approved, and resumed.
  decide_resumes :
      (truthy request.approval_id && not (request.approval_id == action.approval_id)) ≡ false
      → (request.decision == "reject") ≡ false
      → hash_blocks out r request action ≡ false
      → target_of (approved_args request action) ≡ str target
      → ((decide out job_id request r action d).1.resumes
          ≡ d.resumes ++ resume_call r request action ∷ [])
        × ((decide out job_id request r action d).1.approval_records
            ≡ d.approval_records
              ++ audit out request action job_id (approved_args request action) target ∷ [])
  unfolding decide
  decide_resumes same_id no_reject hash text = (ground arith, ground arith)

  approved_edit :
      request.decision ≡ "edit"
      → is_nonempty request.edited_args ≡ true
      → approved_args request action ≡ request.edited_args
  unfolding approved_args
  approved_edit edits new_args = ground (arith, string_eq.beq_iff request.decision "edit")

  hash_blocks_approve_only : request.decision ≢ "approve" → hash_blocks out r request action ≡ false
  unfolding hash_blocks
  hash_blocks_approve_only ne = ground (arith, string_eq.beq_iff request.decision "approve")

  approved_resume :
      request.decision ≢ "reject"
      → request.decision ≢ "approve"
      → resume_decision_approved (resume_payload request action) ≡ some true
  unfolding resume_decision_approved lookup
  approved_resume ne ne' = ground (
    arith,
    string_eq.beq_iff request.decision "reject",
    string_eq.beq_iff request.decision "approve",
  )

-- On an edit with new arguments whose target is a text, the new arguments go to the audit record
-- alone: their hash is recorded, and the runtime is called with the same two fields as ever.
pub edit_not_passed :
    (out : Outside) (job_id : String) (request : JobResumeRequest) (d : Desk) (r : JobRecord)
    (action : PendingHitlAction) (target : String)
    → IsAllowed out r request action
    → Dict.get d.store job_id ≡ some r
    → request.decision ≡ "edit"
    → is_nonempty request.edited_args ≡ true
    → target_of request.edited_args ≡ str target
    → ((execute out job_id request d).1.resumes ≡ d.resumes ++ resume_call r request action ∷ [])
      × (a : HitlApprovalRecord) × ((execute out job_id request d).1.approval_records
          ≡ d.approval_records ++ a ∷ [])
      × (a.params_hash ≡ out.resume_hash request.edited_args)
edit_not_passed out job_id request d r action target allowed found edits new_args text =
    let args = approved_edit out job_id request d r action target edits new_args in
    let (called, audited) =
      decide_resumes out job_id request d r action target allowed.same_id allowed.no_reject
        allowed.hash (cc args) in
    rw (execute-decide out job_id request d r action found allowed.awaiting allowed.holds) (
      called,
      audit out request action job_id (approved_args request action) target,
      audited,
      ap out.resume_hash args,
    )

-- A decision that is neither a rejection nor an approval, known or not, is resumed with no look at
-- the hash of the arguments, and the middleware takes it for an approval.
pub other_decision_resumes :
    (out : Outside) (job_id : String) (request : JobResumeRequest) (d : Desk) (r : JobRecord)
    (action : PendingHitlAction) (target : String)
    → Dict.get d.store job_id ≡ some r
    → is_awaiting r.status ≡ true
    → r.pending_hitl ≡ some action
    → request.approval_id ≡ ""
    → request.decision ≢ "reject"
    → request.decision ≢ "approve"
    → target_of (approved_args request action) ≡ str target
    → ((execute out job_id request d).1.resumes ≡ d.resumes ++ resume_call r request action ∷ [])
      × (resume_decision_approved (resume_payload request action) ≡ some true)
other_decision_resumes out job_id request d r action target found awaiting holds no_id ne ne' text =
    rw (execute-decide out job_id request d r action found awaiting holds) (
      (decide_resumes out job_id request d r action target (rw no_id refl)
          (ground (arith, string_eq.beq_iff request.decision "reject"))
          (hash_blocks_approve_only out job_id request d r action target ne') text).0,
      approved_resume out job_id request d r action target ne ne',
    )
