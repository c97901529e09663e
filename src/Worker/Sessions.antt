-- ===== src/Worker/Sessions.antt =====
-- What a run of a job leaves behind
-- (interfaces/worker/orchestrator.py, cys_core/application/use_cases/run_worker_job.py).
use cys_agi.Prelude.{
  String, ◌≡◌, refl, sym, ap, subst, ◌∙◌, none, some, List, [], ◌∷◌, string_eq, arith, Option-cases,
  inl, inr, ◌⊎◌,
}
use cys_agi.Dict
use cys_agi.Floats.{FloatOps}
use cys_agi.JobBudget
use cys_agi.JobBudget.{clear}
use cys_agi.ToolChain.{clear_chain_state}
use cys_agi.Spawn.{WorkerJob}
use cys_agi.Hitl.Session.{worker_session_id}
use cys_agi.Worker.Station.{RunResult, Station, Ports, enqueue, dequeue}
use cys_agi.Worker.Run.{execute}
use cys_agi.Worker.Orchestrate.{
  open_dependency, postponed, open_session, close_session, run_ready, run_job, process_next,
}
use cys_agi.Worker.Settles.{IsSettled, execute-IsSettled}
use cys_agi.Worker.Drain.{process_all}

-- The session of the job has neither a budget nor a count of high-risk calls.
pub record IsClosed {F : Type 0} (job : WorkerJob F) (s : Station F) : Type 0 where
  pub no_budget : JobBudget.get s.budget (worker_session_id job.persona job.job_id) ≡ none
  pub no_chain : Dict.get s.chains job.job_id ≡ none

module _ {F : Type 0} ⦃fl : FloatOps F⦄ (p : Ports F) (job : WorkerJob F) where
  close_session-IsClosed :
      (s : Station F)
      → IsClosed job (close_session p job (worker_session_id job.persona job.job_id) s)
  unfolding close_session clear clear_chain_state JobBudget.get
  close_session-IsClosed s = record {
    no_budget = Dict.get-pop_self s.budget.states (worker_session_id job.persona job.job_id);
    no_chain = Dict.get-pop_self s.chains job.job_id;
  }

  close_session-IsSettled :
      (session_id : String) (answer : RunResult) (s : Station F)
      → IsSettled job answer s
      → IsSettled job answer (close_session p job session_id s)
  unfolding close_session
  close_session-IsSettled session_id answer s h = record {
    same_job = h.same_job;
    same_persona = h.same_persona;
    status = h.status;
    persona_done = h.persona_done;
    no_sandbox = h.no_sandbox;
  }

  run_ready_ends :
      (s : Station F)
      → IsSettled job (run_ready p job s).0 (run_ready p job s).1
        × IsClosed job (run_ready p job s).1
  unfolding run_ready
  run_ready_ends s =
      let session_id = worker_session_id job.persona job.job_id in
      let s0 = open_session p job session_id s in
      let t = (execute p job session_id s0).1 in
      (
        close_session-IsSettled session_id _ t (execute-IsSettled p job session_id s0),
        close_session-IsClosed t,
      )

  -- A job whose dependency is not done goes back to the end of the queue, and nothing else
  -- changes. Any other job is run, and whatever happens it is settled and its session is closed.
  pub run_job_ends :
      (s : Station F)
      → ((persona : String) × (open_dependency job s ≡ some persona)
          × (run_job p job s ≡ (postponed job persona, enqueue job s)))
        ⊎ ((open_dependency job s ≡ none)
            × IsSettled job (run_job p job s).0 (run_job p job s).1
            × IsClosed job (run_job p job s).1)
  unfolding run_job
  run_job_ends s = elim (Option-cases (open_dependency job s)) [
    | inl ready ↦
        let same : run_job p job s ≡ run_ready p job s = rw (run_job, ready) refl in
        let (settled, closed) = run_ready_ends s in
        inr (
          ready,
          subst (λ r. IsSettled job r.0 r.1) (sym same) settled,
          subst (λ r. IsClosed job r.1) (sym same) closed,
        )
    | inr (persona, waits) ↦ inl (persona, waits, rw (run_job, waits) refl)
  ]

process_next_spins :
    {F : Type 0} ⦃fl : FloatOps F⦄ (p : Ports F) (s : Station F) (job : WorkerJob F)
    (persona : String)
    → s.queue ≡ job ∷ []
    → open_dependency job s ≡ some persona
    → (process_next p s).1 ≡ s
unfolding process_next dequeue run_job open_dependency
process_next_spins p s job persona alone waits = ground arith

-- A job that is alone in the queue and waits for a persona that is not done is taken up and put
-- back by every call of `process_next`, however many there are: nothing ever changes.
pub process_all_spins :
    {F : Type 0} ⦃fl : FloatOps F⦄ (ps : List (Ports F)) (s : Station F) (job : WorkerJob F)
    (persona : String)
    → s.queue ≡ job ∷ []
    → open_dependency job s ≡ some persona
    → process_all ps s ≡ s
unfolding process_all
process_all_spins [] s job persona alone waits = refl
process_all_spins (p ∷ ps) s job persona alone waits =
    let step = process_next_spins p s job persona alone waits in
    ap (process_all ps) step ∙ process_all_spins ps s job persona alone waits
