-- ===== src/Worker/Calm.antt =====
-- What a run of a job keeps if the runtime does: the queue, and the personas that are done
-- (cys_core/application/use_cases/run_worker_job.py).
use cys_agi.Prelude.{
  ℕ, zero, suc, String, ◌≡◌, refl, ap, ◌∙◌, Bool, true, false, List, [], ◌∷◌, elem, string_eq,
  pair_eq, arith, Result, ok, err, Result-cases, Exec, ◌>>=◌, Bool-cases, Option-cases, inl, inr,
  if◌then◌else◌,
}
use cys_agi.Floats.{FloatOps}
use cys_agi.Json.{Fields}
use cys_agi.Memory.{InvestigationStates, mark_persona_done, append_finding}
use cys_agi.Memory.Personas.{completed, completed-mark_persona_done, completed-append_finding}
use cys_agi.Spawn.{WorkerJob}
use cys_agi.Worker.Station.{Failure, AgentDefinition, Station, Ports, destroy, create, lift}
use cys_agi.Worker.Steps.{
  mark_persona_terminal, has_key, tools_of, unwrap, start_job, read_input, refine_round,
  refine_rounds, maybe_self_refine,
}
use cys_agi.Worker.Run.{
  receive, publish, publish_to, publish_all, remember, note_finding, think, deliver, produce,
  complete, report, abort, settle, execute,
}

-- The persona is done in the investigation.
abbrev pub IsDone : InvestigationStates → String × String → String → Type 0
IsDone states key persona = elem persona (completed states key) ≡ true

-- A finding and the mark of a persona keep what is done.
IsDone-append_finding :
    (states : InvestigationStates) (t i : String) (item : Fields) (key : String × String)
    (persona : String)
    → IsDone states key persona
    → IsDone (append_finding t i item states) key persona
IsDone-append_finding states t i item key persona d =
    ap (elem persona) (completed-append_finding states t i item key) ∙ d

IsDone-mark_persona_done :
    (states : InvestigationStates) (t i marked : String) (key : String × String) (persona : String)
    → IsDone states key persona
    → IsDone (mark_persona_done t i marked states) key persona
IsDone-mark_persona_done states t i marked key persona d =
    completed-mark_persona_done states t i marked persona key ∙ rw d refl

module _ {F : Type 0} where
  pub record Calm (s s' : Station F) : Type 0 where
    pub queue : s'.queue ≡ s.queue
    pub done :
        (key : String × String) (persona : String)
        → IsDone s.investigations key persona
        → IsDone s'.investigations key persona

  pub Calm-trans : (s s' s'' : Station F) → Calm s s' → Calm s' s'' → Calm s s''
  Calm-trans s s' s'' h k = record {
    queue = k.queue ∙ h.queue;
    done = λ key persona d. k.done key persona (h.done key persona d);
  }

  -- Neither the queue nor the investigations are touched.
  pub Calm-same :
      (s s' : Station F) → s'.queue ≡ s.queue → s'.investigations ≡ s.investigations → Calm s s'
  Calm-same s s' same same' = record { queue = same; done = λ key persona d. rw same' d }

  -- A computation that is calm from every station.
  abbrev pub IsCalm : {A : Type 0} → Exec (Station F) Failure A → Type 0
  IsCalm m = (s : Station F) → Calm s (m s).1

  IsCalm-bind :
      {A B : Type 0} (m : Exec (Station F) Failure A) (f : A → Exec (Station F) Failure B)
      → IsCalm m
      → ((a : A) → IsCalm (f a))
      → IsCalm (m >>= f)
  IsCalm-bind m f h k s = elim (Result-cases (m s).0) [
    | inl (a, good) ↦ rw good (Calm-trans s (m s).1 _ (h s) (k a (m s).1))
    | inr (e, bad) ↦ rw bad (h s)
  ]

  IsCalm-if :
      {A : Type 0} (b : Bool) (m n : Exec (Station F) Failure A)
      → IsCalm m
      → IsCalm n
      → IsCalm (if b then m else n)
  IsCalm-if true m n h k = h
  IsCalm-if false m n h k = k

  Calm-refl : (s : Station F) → Calm s s
  Calm-refl s = Calm-same s s refl refl

module _ {F : Type 0} ⦃fl : FloatOps F⦄ (p : Ports F) where
  -- The runtime leaves the queue and what is done: it spawns no worker.
  abbrev pub IsQuiet : Type 0
  IsQuiet = (call : _) → IsCalm (p.arun call)

  publish_to-Calm :
      (persona : String) (payload : Fields) (recipient : String)
      → IsCalm (publish_to p persona payload recipient)
  unfolding publish_to receive publish
  publish_to-Calm persona payload recipient s = Calm-same s _ (ground arith) (ground arith)

  publish_all-Calm :
      (persona : String) (payload : Fields) (recipients : List String)
      → IsCalm (publish_all p persona payload recipients)
  unfolding publish_all
  publish_all-Calm persona payload [] s = Calm-same s s refl refl
  publish_all-Calm persona payload (r ∷ rs) s =
      IsCalm-bind (publish_to p persona payload r) (λ _. publish_all p persona payload rs)
        (publish_to-Calm persona payload r) (λ _. publish_all-Calm persona payload rs) s

  remember-Calm :
      (job : WorkerJob F) (result : Fields) (s : Station F) → Calm s (remember p job result s)
  unfolding remember
  remember-Calm job result s = Calm-same s _ (ground arith) (ground arith)

  note_finding-Calm :
      (job : WorkerJob F) (result : Fields) (s : Station F) → Calm s (note_finding p job result s)
  unfolding note_finding
  note_finding-Calm job result s = elim (Bool-cases (has_key result "error")) [
    | inl failed ↦ rw failed (Calm-same s s refl refl)
    | inr fine ↦
        rw fine (record { queue = refl; done = IsDone-append_finding s.investigations _ _ _ })
  ]

  module _ (quiet : IsQuiet) where
    refine_round-Calm :
        (job : WorkerJob F) (sanitized : String) (idx : ℕ) (result : Fields)
        → IsCalm (refine_round p job sanitized idx result)
    unfolding refine_round
    refine_round-Calm job sanitized idx result = IsCalm-bind (p.arun _) _ (quiet _) (λ revised.
        IsCalm-if _ _ _ (IsCalm-bind (p.arun _) _ (quiet _) (λ updated. Calm-refl)) Calm-refl)

    refine_rounds-Calm :
        (job : WorkerJob F) (sanitized : String) (left idx : ℕ) (result : Fields)
        → IsCalm (refine_rounds p job sanitized left idx result)
    unfolding refine_rounds
    refine_rounds-Calm job sanitized zero idx result s = Calm-same s s refl refl
    refine_rounds-Calm job sanitized (suc left) idx result s =
        IsCalm-bind (refine_round p job sanitized idx result) _
          (refine_round-Calm job sanitized idx result)
          (λ answer. elim (Option-cases answer) [
            | inl left_early ↦ rw left_early Calm-refl
            | inr (updated, goes_on) ↦
                rw goes_on (refine_rounds-Calm job sanitized left (suc idx) updated)
          ])
          s

    maybe_self_refine-Calm :
        (job : WorkerJob F) (sanitized : String) (result : Fields)
        → IsCalm (maybe_self_refine p job sanitized result)
    unfolding maybe_self_refine
    maybe_self_refine-Calm job sanitized result = IsCalm-if _ _ _ Calm-refl (
        IsCalm-bind (refine_rounds p job sanitized p.self_refine_max 0 result) _
          (refine_rounds-Calm job sanitized p.self_refine_max 0 result) (λ answer. Calm-refl))

    start_job-Calm : (job : WorkerJob F) (session_id : String) → IsCalm (start_job p job session_id)
    unfolding start_job create
    start_job-Calm job session_id s = Calm-same s _ refl refl

    read_input-Calm : (job : WorkerJob F) → IsCalm (read_input p job)
    unfolding read_input
    read_input-Calm job s = Calm-same s s refl refl

    think-Calm :
        (job : WorkerJob F) (session_id sanitized : String) (defn : AgentDefinition)
        (tools : List String)
        → IsCalm (think p job session_id sanitized defn tools)
    unfolding think
    think-Calm job session_id sanitized defn tools = IsCalm-bind (p.arun _) _ (quiet _) (λ answer.
        IsCalm-bind (maybe_self_refine p job sanitized (unwrap p answer)) _
          (maybe_self_refine-Calm job sanitized (unwrap p answer)) (λ refined. Calm-refl))

    deliver-Calm :
        (job : WorkerJob F) (defn : AgentDefinition) (result : Fields)
        → IsCalm (deliver p job defn result)
    unfolding deliver
    deliver-Calm job defn result =
        IsCalm-bind (publish_all p _ _ _) _ (publish_all-Calm _ _ _)
          (λ _ s. Calm-trans s _ _ (remember-Calm job result s) (note_finding-Calm job result _))

    produce-Calm : (job : WorkerJob F) (session_id : String) → IsCalm (produce p job session_id)
    unfolding produce
    produce-Calm job session_id =
        IsCalm-bind (start_job p job session_id) _ (start_job-Calm job session_id) (λ started.
          IsCalm-bind (read_input p started) _ (read_input-Calm started) (λ sanitized.
            IsCalm-bind (lift (p.definition started.persona)) _ Calm-refl (λ defn.
              IsCalm-bind (lift (tools_of p defn started)) _ Calm-refl (λ tools.
                IsCalm-bind (think p started session_id sanitized defn tools) _
                  (think-Calm started session_id sanitized defn tools)
                  (λ result.
                    IsCalm-bind (deliver p started defn result) _ (deliver-Calm started defn result)
                      (λ _. Calm-refl))))))

    report-Calm :
        (job : WorkerJob F) (failure : Failure) (s : Station F) → Calm s (report p job failure s)
    unfolding report
    report-Calm job failure s = Calm-same s _ (ground arith) (ground arith)

    settle-Calm :
        (job : WorkerJob F) (outcome : Result Failure _) (s : Station F)
        → Calm s (settle p job outcome s).1
    unfolding settle complete abort mark_persona_terminal
    settle-Calm job (ok (sandbox_id, result)) s = record {
      queue = refl;
      done = IsDone-mark_persona_done s.investigations job.tenant_id _ job.persona;
    }
    settle-Calm job (err failure) s =
        let s' = report p job failure s in
        Calm-trans s s' _ (report-Calm job failure s) (record {
          queue = refl;
          done = IsDone-mark_persona_done s'.investigations job.tenant_id _ job.persona;
        })

    -- If the runtime is quiet, so is a run.
    pub execute-Calm :
        (job : WorkerJob F) (session_id : String) (s : Station F)
        → Calm s (execute p job session_id s).1
    unfolding execute destroy
    execute-Calm job session_id s =
        let (outcome, s') = produce p job session_id s in
        let s'' = (settle p job outcome s').1 in
        Calm-trans s s' _ (produce-Calm job session_id s)
          (Calm-trans s' s'' _ (settle-Calm job outcome s') (Calm-same s'' _ refl refl))
