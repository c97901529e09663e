-- ===== src/Worker/Settles.antt =====
-- How a run of a job ends (cys_core/application/use_cases/run_worker_job.py), and what that means
-- for cys_core/application/use_cases/resume_hitl_job.py.
use cys_agi.Prelude.{
  String, ◌≡◌, refl, ap, ◌∙◌, true, false, none, some, elem, string_eq, pair_eq, if◌then◌else◌,
  arith, Result, ok, err, Bool-cases, Option-cases, inl, inr,
}
use cys_agi.Dict
use cys_agi.Floats.{FloatOps}
use cys_agi.JobStore.{
  JobRecord, InMemoryJobStore, WorkerJobStatus, completed, failed, mark_completed, mark_failed,
  awaits, is_awaiting,
}
use cys_agi.Memory.{InvestigationStates, mark_persona_done}
use cys_agi.Memory.Personas.{completed as done_personas, completed-mark_persona_done}
use cys_agi.Spawn.{WorkerJob}
use cys_agi.Hitl
use cys_agi.Hitl.{Desk, Outside, JobResumeRequest, ResumeError}
use cys_agi.Hitl.Resume.{execute_refuses}
use cys_agi.Worker.Station.{Failure, RunResult, Station, Ports, destroy}
use cys_agi.Worker.Steps.{own_investigation, mark_persona_terminal}
use cys_agi.Worker.Run.{produce, complete, report, abort, settle, execute}

-- The job is recorded with this status, if it is recorded.
abbrev pub HasStatus : WorkerJobStatus → InMemoryJobStore → String → Type 0
HasStatus status jobs job_id = (r : JobRecord) → Dict.get jobs job_id ≡ some r → r.status ≡ status

mark_completed-HasStatus :
    (jobs : InMemoryJobStore) (job_id : String)
    → HasStatus completed (mark_completed job_id jobs) job_id
unfolding mark_completed
mark_completed-HasStatus jobs job_id r found = elim (Option-cases (Dict.get jobs job_id)) [
  | inl absent ↦ absurd (ground (arith))
  | inr (old, there) ↦
      ground (arith, Dict.get-set_self jobs job_id (record old { status = completed }))
]

mark_failed-HasStatus :
    (jobs : InMemoryJobStore) (job_id : String) → HasStatus failed (mark_failed job_id jobs) job_id
unfolding mark_failed
mark_failed-HasStatus jobs job_id r found = elim (Option-cases (Dict.get jobs job_id)) [
  | inl absent ↦ absurd (ground (arith))
  | inr (old, there) ↦
      ground (arith, Dict.get-set_self jobs job_id (record old { status = failed }))
]

-- The persona that was marked is done.
pub elem-mark_persona_done :
    (states : InvestigationStates) (tenant_id investigation_id persona : String)
    → elem persona (
        done_personas
          (mark_persona_done tenant_id investigation_id persona states)
          (tenant_id, investigation_id))
      ≡ true
elem-mark_persona_done states t i persona = ground (
  arith,
  completed-mark_persona_done states t i persona persona (t, i),
  string_eq.beq_iff t t,
  string_eq.beq_iff i i,
  string_eq.beq_iff persona persona,
)

-- What holds of a job whose run has ended.
pub record IsSettled {F : Type 0} (job : WorkerJob F) (answer : RunResult) (s : Station F)
    : Type 0 where
  pub same_job : answer.job_id ≡ job.job_id
  pub same_persona : answer.persona ≡ job.persona
  pub status : HasStatus (if answer.success then completed else failed) s.jobs job.job_id
  pub persona_done :
      elem job.persona (done_personas s.investigations (job.tenant_id, own_investigation job))
      ≡ true
  pub no_sandbox : Dict.get s.sandboxes job.job_id ≡ none

module _ {F : Type 0} ⦃fl : FloatOps F⦄ (p : Ports F) (job : WorkerJob F) where
  settle-IsSettled :
      (outcome : Result Failure _) (s : Station F)
      → IsSettled job (settle p job outcome s).0 (destroy job.job_id (settle p job outcome s).1)
  unfolding settle complete abort destroy mark_persona_terminal
  settle-IsSettled (ok (sandbox_id, result)) s = record {
    same_job = refl;
    same_persona = refl;
    status = mark_completed-HasStatus s.jobs job.job_id;
    persona_done =
        elem-mark_persona_done s.investigations job.tenant_id (own_investigation job) job.persona;
    no_sandbox = Dict.get-pop_self s.sandboxes job.job_id;
  }
  settle-IsSettled (err failure) s =
      let s' = report p job failure s in
      record {
        same_job = refl;
        same_persona = refl;
        status = mark_failed-HasStatus s'.jobs job.job_id;
        persona_done =
            elem-mark_persona_done s'.investigations job.tenant_id (own_investigation job)
              job.persona;
        no_sandbox = Dict.get-pop_self s'.sandboxes job.job_id;
      }

  -- Whatever the runtime, the registries and the bus do or raise, a run of a job returns a result
  -- for the job and leaves it settled: its record, if there is one, is completed if the result is a
  -- success and failed otherwise, its persona is done in its investigation, and it has no sandbox.
  pub execute-IsSettled :
      (session_id : String) (s : Station F)
      → IsSettled job (execute p job session_id s).0 (execute p job session_id s).1
  unfolding execute
  execute-IsSettled session_id s =
      let (outcome, s') = produce p job session_id s in settle-IsSettled outcome s'

  HasStatus-awaits :
      (status : WorkerJobStatus) (jobs : InMemoryJobStore)
      → is_awaiting status ≡ false
      → HasStatus status jobs job.job_id
      → awaits jobs job.job_id ≡ false
  unfolding awaits
  HasStatus-awaits status jobs idle has = elim (Option-cases (Dict.get jobs job.job_id)) [
    | inl absent ↦ ground arith
    | inr (r, found) ↦ ground (arith, has r found)
  ]

  -- A job that the runtime paused for an approval does not wait any longer when its run has ended:
  -- whatever the runtime did, every request to resume the job is then refused with an error.
  pub execute_ends_approval :
      (session_id : String) (s : Station F) (out : Outside) (request : JobResumeRequest) (d : Desk)
      → d.store ≡ (execute p job session_id s).1.jobs
      → (e : ResumeError) × (Hitl.execute out job.job_id request d ≡ (err e, d))
  execute_ends_approval session_id s out request d same =
      let settled = execute-IsSettled session_id s in
      let success = (execute p job session_id s).0.success in
      execute_refuses out job.job_id request d (
        ap (λ jobs. awaits jobs job.job_id) same
        ∙ HasStatus-awaits (if success then completed else failed) _
            (elim (Bool-cases success) [ inl e ↦ rw e refl | inr e ↦ rw e refl ]) settled.status)
