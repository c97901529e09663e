-- ===== src/Worker/Drain.antt =====
-- Jobs of a sequential routing decision, one after the other
-- (interfaces/worker/orchestrator.py).
use cys_agi.Prelude.{
  ℕ, suc, String, ◌≡◌, refl, sym, subst, Bool, true, false, false≢true, none, List, [], ◌∷◌, length,
  All, truthy, ◌or_else◌, string_eq, arith, if◌then◌else◌,
}
use cys_agi.Floats.{FloatOps}
use cys_agi.Memory.{InvestigationStates, get_state}
use cys_agi.Memory.Personas.{completed}
use cys_agi.Spawn.{WorkerJob}
use cys_agi.Hitl.Session.{worker_session_id}
use cys_agi.Worker.Station.{Station, Ports, dequeue}
use cys_agi.Worker.Steps.{own_investigation}
use cys_agi.Worker.Orchestrate.{
  RoutingRequest, open_dependency, open_session, close_session, run_ready, run_job, process_next,
  routed_job, jobs_from, jobs_for_routing,
}
use cys_agi.Worker.Settles.{execute-IsSettled}
use cys_agi.Worker.Calm.{IsDone, Calm, Calm-trans, Calm-same, IsQuiet, execute-Calm}

-- The investigation that a job is counted in.
abbrev pub key_of : {F : Type 0} → WorkerJob F → String × String
key_of job = (job.tenant_id, own_investigation job)

module _ {F : Type 0} where
  -- A dependency is open exactly if there is one and it is not done.
  open_dependency_done :
      (job : WorkerJob F) (s : Station F)
      → (truthy job.depends_on_persona ≡ true
          → IsDone s.investigations (key_of job) job.depends_on_persona)
      → open_dependency job s ≡ none
  unfolding open_dependency completed get_state
  open_dependency_done job s done = ground (arith)

module _ {F : Type 0} ⦃fl : FloatOps F⦄ (p : Ports F) where
  run_ready-Calm :
      (quiet : IsQuiet p) (job : WorkerJob F) (s : Station F) → Calm s (run_ready p job s).1
  unfolding run_ready open_session close_session
  run_ready-Calm quiet job s =
      let session_id = worker_session_id job.persona job.job_id in
      let s' = open_session p job session_id s in
      Calm-trans s s' _ (Calm-same s s' refl refl)
        (Calm-trans s' _ _ (execute-Calm p quiet job session_id s') (Calm-same _ _ refl refl))

  run_ready-IsDone :
      (job : WorkerJob F) (s : Station F)
      → IsDone (run_ready p job s).1.investigations (key_of job) job.persona
  unfolding run_ready close_session
  run_ready-IsDone job s =
      (execute-IsSettled p job (worker_session_id job.persona job.job_id)
        (open_session p job (worker_session_id job.persona job.job_id) s)).persona_done

-- One call of `process_next` after the other, each with what it meets of the outside.
unfoldable pub process_all : {F : Type 0} ⦃fl : FloatOps F⦄ → List (Ports F) → Station F → Station F
process_all [] s = s
process_all (p ∷ ps) s = process_all ps (process_next p s).1

-- The investigation that the jobs of the decision are counted in.
abbrev pub routed_key : RoutingRequest → String × String
routed_key r = (r.tenant_id, (r.correlation_id or_else r.event_id) or_else r.event_id)

abbrev IsFree : Bool → String → InvestigationStates → String × String → Type 0
IsFree sequential previous states key =
    truthy (if sequential then previous else "") ≡ true
    → IsDone states key (if sequential then previous else "")

IsFree-start :
    (sequential : Bool) (states : InvestigationStates) (key : String × String)
    → IsFree sequential "" states key
IsFree-start true states key given = absurd (false≢true given)
IsFree-start false states key given = absurd (false≢true given)

IsFree-next :
    (sequential : Bool) (previous persona : String) (states : InvestigationStates)
    (key : String × String)
    → IsDone states key persona
    → IsFree sequential (if sequential then persona else previous) states key
IsFree-next true previous persona states key done given = done
IsFree-next false previous persona states key done given = absurd (false≢true given)

module _ {F : Type 0} ⦃fl : FloatOps F⦄ where
  process_next_ready :
      (p : Ports F) (s : Station F) (job : WorkerJob F) (rest : List (WorkerJob F))
      → s.queue ≡ job ∷ rest
      → open_dependency job (record s { queue = rest }) ≡ none
      → (process_next p s).1 ≡ (run_ready p job (record s { queue = rest })).1
  unfolding process_next dequeue run_job
  process_next_ready p s job rest here ready = ground arith

  module _ (r : RoutingRequest) where
    -- The persona that the next job waits for is done, if it waits for one.
    abbrev CanStart : String → Station F → Type 0
    CanStart previous s = IsFree r.sequential previous s.investigations (routed_key r)

    -- The queue of the second station is empty, and there the personas are done, and what is done
    -- at the first.
    abbrev Drained : List String → Station F → Station F → Type 0
    Drained personas s t =
        (t.queue ≡ [])
        × All (IsDone t.investigations (routed_key r)) personas
        × ((persona : String)
            → IsDone s.investigations (routed_key r) persona
            → IsDone t.investigations (routed_key r) persona)

    drain_from :
        (personas : List String) (n : ℕ) (previous : String) (ps : List (Ports F)) (s : Station F)
        → length ps ≡ length personas
        → All (λ p. IsQuiet p) ps
        → s.queue ≡ jobs_from r n previous personas
        → CanStart previous s
        → Drained personas s (process_all ps s)
    unfolding process_all jobs_from routed_job
    drain_from [] n previous [] s len quiet here ready = (here, tt, λ persona done. done)
    drain_from [] n previous (p ∷ ps) s len quiet here ready = absurd (omega (arith, len))
    drain_from (q ∷ qs) n previous [] s len quiet here ready = absurd (omega (arith, len))
    drain_from (q ∷ qs) n previous (p ∷ ps) s len quiet here ready =
        let job = routed_job r n q previous in
        let next = (if r.sequential then q else previous) in
        let s0 : Station F = record s { queue = jobs_from r (suc n) next qs } in
        let step = process_next_ready p s job s0.queue here (open_dependency_done job s0 ready) in
        let calm = run_ready-Calm p quiet.0 job s0 in
        let done = run_ready-IsDone p job s0 in
        let s1 = (run_ready p job s0).1 in
        let free = IsFree-next r.sequential previous q s1.investigations (routed_key r) done in
        let (empty, all, kept) =
          drain_from qs (suc n) next ps s1 (omega (arith, len)) quiet.1 calm.queue free in
        subst (λ t. Drained (q ∷ qs) s (process_all ps t)) (sym step)
          (
            empty,
            (kept q done, all),
            λ persona d. kept persona (calm.done (routed_key r) persona d),
          )

  -- If the runtime spawns no worker and leaves the investigations alone, then as many calls of
  -- `process_next` as a routing decision has personas work off its jobs, in sequence or not: from
  -- a queue with these jobs alone, none is left, and each persona is done in the investigation.
  pub process_all-jobs_for_routing :
      (r : RoutingRequest) (personas : List String) (ps : List (Ports F)) (s : Station F)
      → length ps ≡ length personas
      → All (λ p. IsQuiet p) ps
      → s.queue ≡ jobs_for_routing r personas
      → ((process_all ps s).queue ≡ [])
        × All (IsDone (process_all ps s).investigations (routed_key r)) personas
  unfolding jobs_for_routing
  process_all-jobs_for_routing r personas ps s len quiet here =
      let free = IsFree-start r.sequential s.investigations (routed_key r) in
      let (empty, all, _) = drain_from r personas 0 "" ps s len quiet here free in (empty, all)
