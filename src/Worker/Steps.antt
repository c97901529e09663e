-- ===== src/Worker/Steps.antt =====
-- The steps of `RunWorkerJob.execute` (cys_core/application/use_cases/run_worker_job.py): what a job
-- reads, the rounds of self-refinement, the check of the answer, and where the finding goes.
use Prim.Native.String.{◌++◌ as ◌<>◌}
use cys_agi.Prelude.{
  ℕ, zero, suc, String, Bool, true, false, ◌||◌, Option, none, some, List, [], ◌∷◌, ◌++◌, elem,
  truthy, ◌or_else◌, string_eq, nat_eq, ◌==◌, if◌then◌else◌, Result, ok, err, Exec, ◌>>=◌, pure,
}
use cys_agi.Floats.{FloatOps}
use cys_agi.Json.{
  Value, Items, Fields, nat, str, arr, obj, end, item, nil, field, lookup, is_true, is_nonempty,
  put,
}
use cys_agi.JobStore.{running, upsert_running}
use cys_agi.Memory.{
  MemoryEntry, MemoryType, finding, pending_finding, ioc, lesson, preference, conversation, cut,
  get_state, mark_persona_done, query_investigation,
}
use cys_agi.Spawn.{WorkerJob}
use cys_agi.Worker.Station.{
  Failure, security_violation, bus_violation, AgentDefinition, RunCall, Station, Ports, create,
}

abbrev pub memory_type_name : MemoryType → String
memory_type_name finding = "finding"
memory_type_name pending_finding = "pending_finding"
memory_type_name ioc = "ioc"
memory_type_name lesson = "lesson"
memory_type_name preference = "preference"
memory_type_name conversation = "conversation"

-- `key in d`
abbrev pub has_key : Fields → String → Bool
has_key d key = elim (lookup d key) [ none ↦ false | some _ ↦ true ]

-- `d.get(key, default)`
abbrev pub get_value : Fields → String → Value → Value
get_value d key default = elim (lookup d key) [ none ↦ default | some v ↦ v ]

-- `list(dict.fromkeys(xs))`, behind those that were met before
abbrev pub from_keys : List String → List String → List String
from_keys seen [] = seen
from_keys seen (x ∷ xs) = from_keys (if elem x seen then seen else seen ++ x ∷ []) xs

abbrev pub is_security : Failure → Bool
is_security (security_violation _) = true
is_security (bus_violation _) = true
is_security _ = false

module _ {F : Type 0} where
  -- `job.correlation_id or job.event_id`
  abbrev pub own_investigation : WorkerJob F → String
  own_investigation job = job.correlation_id or_else job.event_id

  -- `_mark_persona_terminal`
  unfoldable pub mark_persona_terminal : WorkerJob F → Station F → Station F
  mark_persona_terminal job s = record s {
    investigations =
        mark_persona_done job.tenant_id (own_investigation job) job.persona s.investigations;
  }

  -- an item of `prior_findings`
  unfoldable pub prior_finding : MemoryEntry F → Value
  prior_finding entry = obj (
      field "agent" (str entry.source_agent) (
        field "type" (str (memory_type_name entry.memory_type))
          (field "content" (str entry.content) (field "job_id" (str entry.source_job_id) nil))))

  unfoldable pub prior_items : List (MemoryEntry F) → Items
  unfolding prior_finding
  prior_items [] = end
  prior_items (entry ∷ entries) = item (prior_finding entry) (prior_items entries)

module _ {F : Type 0} ⦃fl : FloatOps F⦄ (p : Ports F) where
  -- `str(value)`
  abbrev pub to_text : Value → String
  to_text (str s) = s
  to_text v = p.text_of v

  -- `_memory_investigation_id`
  unfoldable pub memory_investigation_id : WorkerJob F → String
  memory_investigation_id job = elim (lookup job.payload "parent_correlation_key") [
    | none ↦ own_investigation job
    | some v ↦ if is_true v then to_text v else own_investigation job
  ]

  -- the entries that a job reads of the memory
  unfoldable pub prior_entries : WorkerJob F → Station F → List (MemoryEntry F)
  prior_entries job s =
      query_investigation p.validator p.now job.tenant_id (memory_investigation_id job) 10
        (some job.tenant_id) s.memory

  -- `_investigation_context`
  unfoldable pub investigation_context : WorkerJob F → Station F → Fields
  unfolding prior_entries prior_items
  investigation_context job s =
      let investigation_id = memory_investigation_id job in
      let entries = prior_entries job s in
      let findings : Fields = elim entries [
        | [] ↦ nil
        | e ∷ es ↦ field "prior_findings" (arr (prior_items (e ∷ es))) nil
      ] in
      field "investigation_id" (str investigation_id) (
        field "tenant_id" (str job.tenant_id)
          (elim (get_state s.investigations job.tenant_id investigation_id) [
            | none ↦ findings
            | some state ↦ field "state" (p.dump_state state) findings
          ]))

  -- `_job_input`, before it is printed
  unfoldable pub job_input : WorkerJob F → Station F → Value
  job_input job s = obj (
      field "event_id" (str job.event_id) (
        field "playbook_id" (str job.playbook_id) (
          field "payload" (obj job.payload) (
            field "sandbox_id" (str job.sandbox_id) (
              field "feedback" (str job.feedback)
                (field "investigation_context" (obj (investigation_context job s)) nil))))))

  -- `sandbox.acreate`, and the record of the job as running
  unfoldable pub start_job : WorkerJob F → String → Exec (Station F) Failure (WorkerJob F)
  start_job job session_id s =
      let (creds, s') = create p.fresh job.job_id job.persona s in
      (
        ok (record job { sandbox_id = creds.sandbox_id; status = running }),
        record s' {
          jobs =
              (upsert_running job.job_id session_id job.persona job.correlation_id job.tenant_id
                job.event_id s'.jobs).1;
        },
      )

  -- the sanitized text of the job's input
  unfoldable pub read_input : WorkerJob F → Exec (Station F) Failure String
  read_input job s = (p.sanitize (p.dumps (job_input job s)), s)

  unfoldable pub tools_of : AgentDefinition → WorkerJob F → Result Failure (List String)
  tools_of defn job =
      let resolved =
        if p.use_tool_gateway
        then p.resolve_mcp_tools defn.tools job.sandbox_id job.persona job.job_id job.correlation_id
        else p.resolve_legacy_tools defn.tools in
      elim resolved [
        | err e ↦ err e
        | ok tools ↦ elim defn.skills [
          | [] ↦ ok tools
          | skill ∷ skills ↦
              ok (tools ++ p.make_load_skill_tool (skill ∷ skills) job.persona job.job_id ∷ [])
        ]
      ]

  -- the answer that its `raw_response` holds, if it holds one
  unfoldable pub unwrap : Fields → Fields
  unwrap result = elim (lookup result "raw_response") [
    | none ↦ result
    | some raw ↦ if has_key result "error" then result else elim (p.parse_json_text (to_text raw)) [
      | none ↦ result
      | some parsed ↦ if is_nonempty parsed then parsed else result
    ]
  ]

  abbrev refine_call : WorkerJob F → (session_id user_input : String) → RunCall
  refine_call job session_id user_input = record {
    persona = job.persona;
    user_input = user_input;
    session_id = session_id;
    sandbox_tools = [];
    job_id = "";
    event_id = "";
    correlation_id = "";
    tenant_id = job.tenant_id;
    investigation_id = own_investigation job;
    sandbox_id = "";
  }

  abbrev critique_prompt : WorkerJob F → (sanitized draft : String) → String
  critique_prompt job sanitized draft =
      "Critique this worker output for persona "
      <> (job.persona
          <> (". Input:\n"
              <> (cut 2000 sanitized
                  <> ("\nOutput:\n"
                      <> (cut 4000 draft
                          <> "\nReply JSON: {\"revise\":true|false,\"notes\":\"...\"}")))))

  abbrev revise_prompt : (notes draft : String) → String
  revise_prompt notes draft =
      "Revise your prior output addressing: " <> (notes <> ("\nPrior:\n" <> cut 4000 draft))

  -- a round of `_maybe_self_refine`: the new answer, or `none` where the loop is left
  unfoldable pub refine_round :
      WorkerJob F → String → ℕ → Fields → Exec (Station F) Failure (Option Fields)
  refine_round job sanitized idx result =
      let draft = p.dumps (obj result) in
      let session_id = "refine:" <> (job.job_id <> (":" <> p.decimal idx)) in
      do
        revised ← p.arun (refine_call job session_id (critique_prompt job sanitized draft))
        let notes = to_text (get_value revised "notes" (get_value revised "raw_response" (str "")))
        if truthy notes
            then (do
              updated ←
                  p.arun (refine_call job (session_id <> ":write") (revise_prompt notes draft))
              pure (if has_key updated "error" then none else some updated))
            else pure none

  -- the loop, with the number of rounds that are left: the answer, and the rounds that were begun
  unfoldable pub refine_rounds :
      WorkerJob F → String → ℕ → ℕ → Fields → Exec (Station F) Failure (Fields × ℕ)
  refine_rounds job sanitized zero idx result = pure (result, idx)
  refine_rounds job sanitized (suc left) idx result = do
    answer ← refine_round job sanitized idx result
    elim answer [
      | none ↦ pure (result, suc idx)
      | some updated ↦ refine_rounds job sanitized left (suc idx) updated
    ]

  unfoldable pub maybe_self_refine : WorkerJob F → String → Fields → Exec (Station F) Failure Fields
  maybe_self_refine job sanitized result =
      if (p.self_refine_max == 0) || has_key result "error" then pure result else (do
        (refined, rounds_done) ← refine_rounds job sanitized p.self_refine_max 0 result
        pure (put refined "self_refine_rounds" (nat rounds_done)))
