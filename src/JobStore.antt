-- ===== src/JobStore.antt =====
-- cys_core/infrastructure/job_store/in_memory.py, with the records of
-- cys_core/application/ports/job_store.py and cys_core/domain/workers/models.py.
pub mod Approvals
pub mod Listing
use cys_agi.Prelude.{
  ℕ, String, Bool, true, false, ◌&&◌, Option, none, some, List, [], ◌∷◌, map, keep, sort, str_leb,
  truthy, ◌or_else◌, string_eq, ◌==◌, if◌then◌else◌,
}
use cys_agi.Dict
use cys_agi.Dict.{Dict, values}
use cys_agi.Json.{Fields, nil}

pub data WorkerJobStatus : Type 0 where
  pending running awaiting_approval completed failed : WorkerJobStatus

abbrev pub is_awaiting : WorkerJobStatus → Bool
is_awaiting awaiting_approval = true
is_awaiting _ = false

-- A tool call that waits for a human.
pub record PendingHitlAction : Type 0 where
  pub job_id : String
  pub session_id : String
  pub persona : String
  pub tool_name : String
  pub tool_args : Fields
  pub risk_level : String
  pub approval_id : String

pub record JobRecord : Type 0 where
  pub job_id : String
  pub session_id : String
  pub persona : String
  pub status : WorkerJobStatus
  pub hitl_preview : Fields
  pub pending_hitl : Option PendingHitlAction
  pub correlation_id : String
  pub tenant_id : String
  pub event_id : String

pub record JobRecordSummary : Type 0 where
  pub job_id : String
  pub session_id : String
  pub persona : String
  pub status : WorkerJobStatus
  pub correlation_id : String
  pub tenant_id : String
  pub event_id : String

-- `InMemoryJobStore._jobs`
abbrev pub InMemoryJobStore : Type 0
InMemoryJobStore = Dict String JobRecord

unfoldable pub upsert_pending :
    (job_id persona correlation_id tenant_id event_id : String)
    → InMemoryJobStore
    → JobRecord × InMemoryJobStore
upsert_pending job_id persona correlation_id tenant_id event_id jobs =
    let r : JobRecord = record {
      job_id = job_id;
      session_id = "";
      persona = persona;
      status = pending;
      hitl_preview = nil;
      pending_hitl = none;
      correlation_id = correlation_id;
      tenant_id = tenant_id;
      event_id = event_id;
    } in
    (r, Dict.set jobs job_id r)

-- `existing.f if existing else d`
abbrev pub of_existing : Option JobRecord → (JobRecord → String) → String → String
of_existing none f d = d
of_existing (some r) f d = f r

unfoldable pub upsert_running :
    (job_id session_id persona correlation_id tenant_id event_id : String)
    → InMemoryJobStore
    → JobRecord × InMemoryJobStore
upsert_running job_id session_id persona correlation_id tenant_id event_id jobs =
    let existing = Dict.get jobs job_id in
    let r : JobRecord = record {
      job_id = job_id;
      session_id = session_id;
      persona = persona;
      status = running;
      hitl_preview = nil;
      pending_hitl = none;
      correlation_id = correlation_id or_else of_existing existing (λ r. r.correlation_id) "";
      tenant_id = tenant_id or_else of_existing existing (λ r. r.tenant_id) "default";
      event_id = event_id or_else of_existing existing (λ r. r.event_id) "";
    } in
    (r, Dict.set jobs job_id r)

-- the record that `pause_for_hitl` stores
unfoldable pub paused : Option JobRecord → PendingHitlAction → Fields → JobRecord
paused existing action preview = record {
  job_id = action.job_id;
  session_id = action.session_id;
  persona = action.persona;
  status = awaiting_approval;
  hitl_preview = preview;
  pending_hitl = some action;
  correlation_id = of_existing existing (λ r. r.correlation_id) "";
  tenant_id = of_existing existing (λ r. r.tenant_id) "default";
  event_id = of_existing existing (λ r. r.event_id) "";
}

unfoldable pub pause_for_hitl :
    PendingHitlAction → Fields → InMemoryJobStore → JobRecord × InMemoryJobStore
pause_for_hitl action preview jobs =
    let r = paused (Dict.get jobs action.job_id) action preview in
    (r, Dict.set jobs action.job_id r)

unfoldable pub mark_running : String → InMemoryJobStore → Option JobRecord × InMemoryJobStore
mark_running job_id jobs = elim (Dict.get jobs job_id) [
  | none ↦ (none, jobs)
  | some r ↦
      let r' : JobRecord = record r { status = running; pending_hitl = none } in
      (some r', Dict.set jobs job_id r')
]

unfoldable pub mark_completed : String → InMemoryJobStore → InMemoryJobStore
mark_completed job_id jobs = elim (Dict.get jobs job_id) [
  | none ↦ jobs
  | some r ↦ Dict.set jobs job_id (record r { status = completed })
]

unfoldable pub mark_failed : String → InMemoryJobStore → InMemoryJobStore
mark_failed job_id jobs = elim (Dict.get jobs job_id) [
  | none ↦ jobs
  | some r ↦ Dict.set jobs job_id (record r { status = failed })
]

-- the action of a record that `list_pending_approvals` lists, if it lists one
unfoldable pub approval_of : JobRecord → Option PendingHitlAction
approval_of r = if is_awaiting r.status then r.pending_hitl else none

unfoldable pub list_pending_approvals : InMemoryJobStore → List PendingHitlAction
list_pending_approvals [] = []
list_pending_approvals ((k, r) ∷ jobs) =
    let rest = list_pending_approvals jobs in
    elim (approval_of r) [ none ↦ rest | some action ↦ action ∷ rest ]

unfoldable pub summary : JobRecord → JobRecordSummary
summary r = record {
  job_id = r.job_id;
  session_id = r.session_id;
  persona = r.persona;
  status = r.status;
  correlation_id = r.correlation_id;
  tenant_id = r.tenant_id;
  event_id = r.event_id;
}

unfoldable pub list_by_investigation :
    (tenant_id investigation_id : String) → InMemoryJobStore → List JobRecordSummary
unfolding summary
list_by_investigation tenant_id investigation_id jobs =
    sort (λ a b. str_leb a.job_id b.job_id)
      (map summary (
        keep (λ r. r.tenant_id == tenant_id && r.correlation_id == investigation_id) (values jobs)))

-- The job is there and waits for approval.
unfoldable pub awaits : InMemoryJobStore → String → Bool
awaits jobs job_id = elim (Dict.get jobs job_id) [ none ↦ false | some r ↦ is_awaiting r.status ]
