-- ===== src/Worker/Run.antt =====
-- `RunWorkerJob.execute` (cys_core/application/use_cases/run_worker_job.py): the check of the answer,
-- where the finding goes, and how a run ends. The calls of the quality hooks, whose exceptions the
-- code drops, are left out; the queue in memory has no dead letters.
use cys_agi.Prelude.{
  String, true, false, ◌&&◌, none, some, List, [], ◌∷◌, ◌++◌, string_eq, ◌==◌, if◌then◌else◌,
  Result, ok, err, Exec, ◌>>=◌, ◌>>◌, pure,
}
use cys_agi.Floats.{FloatOps}
use cys_agi.Json.{Fields, bool, str, arr, obj, nil, field, lookup, put}
use cys_agi.JobStore.{mark_completed, mark_failed}
use cys_agi.Bus.{Envelope, send_message, receive_message, record_agent_failure}
use cys_agi.Memory.{pending_finding, append, append_finding, investigation_scope}
use cys_agi.Spawn.{WorkerJob}
use cys_agi.Worker.Station.{
  Failure, job_budget_exceeded, security_violation, bus_violation, other_exception, RunResult,
  no_error, raised, AgentDefinition, Station, Ports, destroy, lift, change, on_bus,
}
use cys_agi.Worker.Steps.{
  has_key, get_value, from_keys, is_security, mark_persona_terminal, memory_investigation_id,
  start_job, read_input, tools_of, unwrap, maybe_self_refine,
}

-- the entry `sgr_metadata` of an answer that has a list of steps
unfoldable pub with_sgr : Fields → Fields
with_sgr result =
    if has_key result "error" then result else elim (lookup result "reasoning_steps") [
      | some (arr steps) ↦ put result "sgr_metadata" (
          obj (
            field "reasoning_steps" (arr steps) (
              field "plan_status" (get_value result "plan_status" (str ""))
                (field "enough_data" (get_value result "enough_data" (bool false)) nil))))
      | _ ↦ result
    ]

module _ {F : Type 0} ⦃fl : FloatOps F⦄ (p : Ports F) where
  -- the answer behind the validation by the persona's schema; in the stage "dev" a refused answer
  -- stays
  unfoldable pub check_schema : AgentDefinition → Fields → Result Failure Fields
  check_schema defn result = elim (p.schema defn.schema_name) [
    | err e ↦ err e
    | ok none ↦ ok (with_sgr result)
    | ok (some validate) ↦
        if has_key (with_sgr result) "error"
        then ok (with_sgr result)
        else elim (validate (with_sgr result)) [
          | ok validated ↦ ok validated
          | err e ↦ if is_security e && p.stage == "dev" then ok (with_sgr result) else err e
        ]
  ]

  unfoldable pub finding_payload : WorkerJob F → Fields → Fields
  finding_payload job result = field "agent" (str job.persona) (
      field "event_id" (str job.event_id) (
        field "correlation_id" (str (memory_investigation_id p job)) (
          field "tenant_id" (str job.tenant_id) (
            field "job_id" (str job.job_id)
              (field "data" (obj result) (field "sandbox_id" (str job.sandbox_id) nil))))))

  -- `bus.receive_message`, whose answer is dropped
  unfoldable pub receive : String → Envelope → Exec (Station F) Failure (Unit {0})
  receive recipient envelope s = (
    elim (receive_message p.prim p.now s.bus recipient envelope) [
      | ok _ ↦ ok tt
      | err e ↦ err (bus_violation e)
    ],
    s,
  )

  unfoldable pub publish : String → Envelope → Station F → Station F
  publish recipient envelope s = record s { published = s.published ++ (recipient, envelope) ∷ [] }

  -- the body of the loop over the recipients
  unfoldable pub publish_to : String → Fields → String → Exec (Station F) Failure (Unit {0})
  unfolding receive publish
  publish_to persona payload recipient = do
    envelope ← on_bus (send_message p.prim p.now persona recipient "finding" payload)
    receive recipient envelope
    change (publish recipient envelope)

  unfoldable pub publish_all : String → Fields → List String → Exec (Station F) Failure (Unit {0})
  publish_all persona payload [] = pure tt
  publish_all persona payload (recipient ∷ recipients) = do
    publish_to persona payload recipient
    publish_all persona payload recipients

  -- `append_pending_finding`, and the metric of a write
  unfoldable pub remember : WorkerJob F → Fields → Station F → Station F
  remember job result s =
      let investigation_id = memory_investigation_id p job in
      let (entry, memory') =
        append p.validator p.memory_id p.now (investigation_scope job.tenant_id investigation_id)
          (p.dumps (obj result)) pending_finding job.persona job.job_id (fl.decimal 3 1) s.memory in
      elim entry [
        | none ↦ record s { memory = memory' }
        | some _ ↦ record s {
          memory = memory';
          memory_writes = s.memory_writes ++ (job.tenant_id, pending_finding) ∷ [];
        }
      ]

  -- the finding of an answer without error, in the state of the investigation
  unfoldable pub note_finding : WorkerJob F → Fields → Station F → Station F
  note_finding job result s = if has_key result "error" then s else record s {
    investigations =
        append_finding job.tenant_id (memory_investigation_id p job)
          (field "persona" (str job.persona)
            (field "job_id" (str job.job_id) (field "finding" (obj result) nil)))
          s.investigations;
  }

  -- the call of the runtime, and what the code makes of the answer
  unfoldable pub think :
      WorkerJob F
      → (session_id sanitized : String) → AgentDefinition
      → List String
      → Exec (Station F) Failure Fields
  think job session_id sanitized defn tools = do
    answer ← p.arun (record {
      persona = job.persona;
      user_input = sanitized;
      session_id = session_id;
      sandbox_tools = tools;
      job_id = job.job_id;
      event_id = job.event_id;
      correlation_id = job.correlation_id;
      tenant_id = job.tenant_id;
      investigation_id = memory_investigation_id p job;
      sandbox_id = job.sandbox_id;
    })
    refined ← maybe_self_refine p job sanitized (unwrap p answer)
    lift (check_schema defn refined)

  -- the finding goes to the recipients, to the memory and to the state of the investigation
  unfoldable pub deliver :
      WorkerJob F → AgentDefinition → Fields → Exec (Station F) Failure (Unit {0})
  deliver job defn result = do
    publish_all job.persona (finding_payload job result)
        (from_keys [] (defn.bus_recipients ++ "critic" ∷ []))
    change (remember job result)
    change (note_finding job result)

  -- what happens up to `_mark_persona_terminal`: the id of the sandbox, and the finding
  unfoldable pub produce : WorkerJob F → String → Exec (Station F) Failure (String × Fields)
  produce queued session_id = do
    job ← start_job p queued session_id
    sanitized ← read_input p job
    defn ← lift (p.definition job.persona)
    tools ← lift (tools_of p defn job)
    result ← think job session_id sanitized defn tools
    deliver job defn result
    pure (job.sandbox_id, result)

  -- the end of a run that raised nothing
  unfoldable pub complete : WorkerJob F → String → Fields → Station F → RunResult × Station F
  complete job sandbox_id result s = (
    record {
      job_id = job.job_id;
      persona = job.persona;
      success = true;
      finding = result;
      error = no_error;
      sandbox_id = sandbox_id;
    },
    record (mark_persona_terminal job s) { jobs = mark_completed job.job_id s.jobs },
  )

  -- what the handler of an exception does before the job is marked
  unfoldable pub report : WorkerJob F → Failure → Station F → Station F
  report job (job_budget_exceeded _) s = s
  report job (security_violation _) s = record s {
    sanitizer_blocks = s.sanitizer_blocks ++ ("worker", "hard") ∷ [];
  }
  report job (bus_violation _) s = record s {
    sanitizer_blocks = s.sanitizer_blocks ++ ("worker", "hard") ∷ [];
  }
  report job (other_exception _) s = record s { bus = record_agent_failure p.now job.persona s.bus }

  -- the end of a run that raised
  unfoldable pub abort : WorkerJob F → Failure → Station F → RunResult × Station F
  abort job failure s =
      let s' = report job failure s in
      (
        record {
          job_id = job.job_id;
          persona = job.persona;
          success = false;
          finding = nil;
          error = raised failure;
          sandbox_id = "";
        },
        record (mark_persona_terminal job s') { jobs = mark_failed job.job_id s'.jobs },
      )

  -- the handlers of the exceptions
  unfoldable pub settle :
      WorkerJob F → Result Failure (String × Fields) → Station F → RunResult × Station F
  settle job (ok (sandbox_id, result)) = complete job sandbox_id result
  settle job (err failure) = abort job failure

  -- `RunWorkerJob.execute`
  unfoldable pub execute : WorkerJob F → String → Station F → RunResult × Station F
  execute job session_id s =
      let (outcome, s') = produce job session_id s in
      let (answer, s'') = settle job outcome s' in (answer, destroy job.job_id s'')
