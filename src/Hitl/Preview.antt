-- ===== src/Hitl/Preview.antt =====
-- When an approval of a paused call is refused for its hash
-- (cys_core/middleware/hitl_pause.py, cys_core/application/use_cases/resume_hitl_job.py).
use cys_agi.Prelude.{
  String, ◌≡◌, ◌≢◌, ◌↔◌, ◌⊎◌, inl, inr, refl, true, false, not, ◌&&◌, Option, some, truthy,
  string_eq, ◌==◌, arith, err,
}
use cys_agi.Dict
use cys_agi.Json.{Fields, lookup}
use cys_agi.JobStore.{
  JobRecord, InMemoryJobStore, PendingHitlAction, is_awaiting, pause_for_hitl, paused,
}
use cys_agi.Hitl.{
  Desk, Outside, JobResumeRequest, hash_mismatch, build_hitl_preview, hash_blocks, decide, execute,
}
use cys_agi.Hitl.Resume.{execute-decide}

decide_hash :
    (out : Outside) (job_id : String) (request : JobResumeRequest) (d : Desk) (r : JobRecord)
    (action : PendingHitlAction)
    → (truthy request.approval_id && not (request.approval_id == action.approval_id)) ≡ false
    → (request.decision == "reject") ≡ false
    → ((decide out job_id request r action d).0 ≡ err hash_mismatch)
      ↔ (hash_blocks out r request action ≡ true)
unfolding decide
decide_hash out job_id request d r action same_id no_reject = ground arith

no_reject_of_approve : {decision : String} → decision ≡ "approve" → (decision == "reject") ≡ false
no_reject_of_approve e = rw e

get-pause_for_hitl :
    (store : InMemoryJobStore) (action : PendingHitlAction) (preview : Fields)
    → let r = paused (Dict.get store action.job_id) action preview in
      (Dict.get (pause_for_hitl action preview store).1 action.job_id ≡ some r)
      × (is_awaiting r.status ≡ true)
      × (r.pending_hitl ≡ some action)
unfolding pause_for_hitl paused
get-pause_for_hitl store action preview = (Dict.get-set_self store action.job_id _, refl, refl)

module _ (out : Outside) (request : JobResumeRequest) (existing : Option JobRecord)
    (pause_hash : Fields → String) (fresh tool_name : String) (tool_args : Fields)
    (risk_level session_id persona : String) where
  preview-hash_blocks :
      truthy (pause_hash tool_args) ≡ true
      → request.decision ≡ "approve"
      → let (action, preview) =
          build_hitl_preview pause_hash fresh tool_name tool_args risk_level session_id persona in
        (hash_blocks out (paused existing action preview) request action ≡ true)
        ↔ (out.resume_hash tool_args ≢ pause_hash tool_args)
  unfolding build_hitl_preview paused hash_blocks lookup
  preview-hash_blocks nonempty approves =
      rw approves
        (ground (arith, string_eq.beq_iff (out.resume_hash tool_args) (pause_hash tool_args)))

  preview_same_id :
      (request.approval_id ≡ "") ⊎ (request.approval_id ≡ fresh)
      → let (action, preview) =
          build_hitl_preview pause_hash fresh tool_name tool_args risk_level session_id persona in
        (truthy request.approval_id && not (request.approval_id == action.approval_id)) ≡ false
  unfolding build_hitl_preview
  preview_same_id (inl unnamed) = rw unnamed refl
  preview_same_id (inr id) = ground (arith, id, string_eq.beq_iff request.approval_id fresh)

-- The job that `pause_for_hitl` stored with the preview of `build_hitl_preview` is refused for its
-- hash, on an approval with no edit and no foreign approval id, exactly if the two hash functions
-- disagree on the arguments. (The hash of the preview is not the empty text.)
pub approve-pause :
    (out : Outside) (request : JobResumeRequest) (d : Desk) (pause_hash : Fields → String)
    (fresh tool_name : String) (tool_args : Fields) (risk_level session_id persona : String)
    → truthy (pause_hash tool_args) ≡ true
    → request.decision ≡ "approve"
    → (request.approval_id ≡ "") ⊎ (request.approval_id ≡ fresh)
    → let (action, preview) =
        build_hitl_preview pause_hash fresh tool_name tool_args risk_level session_id persona in
      ((execute out action.job_id request
          (record d { store = (pause_for_hitl action preview d.store).1 })).0
        ≡ err hash_mismatch)
      ↔ (out.resume_hash tool_args ≢ pause_hash tool_args)
approve-pause out request d pause_hash fresh tool_name tool_args risk_level session_id persona
      nonempty approves id =
    let (action, preview) =
      build_hitl_preview pause_hash fresh tool_name tool_args risk_level session_id persona in
    let d' : Desk = record d { store = (pause_for_hitl action preview d.store).1 } in
    let r = paused (Dict.get d.store action.job_id) action preview in
    let (found, awaiting, holds) = get-pause_for_hitl d.store action preview in
    let existing = Dict.get d.store action.job_id in
    let same_id =
      preview_same_id out request existing pause_hash fresh tool_name tool_args risk_level
        session_id persona id in
    let by_hash =
      decide_hash out action.job_id request d' r action same_id (no_reject_of_approve approves) in
    let by_args =
      preview-hash_blocks out request existing pause_hash fresh tool_name tool_args risk_level
        session_id persona nonempty approves in
    rw (execute-decide out action.job_id request d' r action found awaiting holds)
      (λ refused. by_args.0 (by_hash.0 refused), λ differ. by_hash.1 (by_args.1 differ))
