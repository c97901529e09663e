-- ===== src/Hitl.antt =====
-- Human approval of tool calls: cys_core/middleware/hitl_pause.py,
-- cys_core/application/use_cases/resume_hitl_job.py and the approval records of
-- interfaces/gateways/tool/approval.py. SHA-256 over `json.dumps` is an argument: `pause_hash` for
-- the `params_hash` of cys_core/domain/workers/hitl.py, `resume_hash` for that of approval.py. So
-- are the runtime's answer, fresh identifiers and the time.
pub mod Resume
pub mod Preview
pub mod Session
use Prim.Native.Char.{Char, code}
use Prim.Native.String
use cys_agi.Prelude.{
  ℕ, String, Bool, true, false, not, ◌&&◌, ◌||◌, Option, none, some, List, [], ◌∷◌, ◌++◌, truthy,
  ◌or_else◌, string_eq, nat_eq, ◌==◌, if◌then◌else◌, Result, ok, err, Exec, ◌>>=◌, ◌>>◌, pure,
  raise,
}
use cys_agi.Dict
use cys_agi.Json.{
  Value, Items, Fields, null, bool, number, str, arr, obj, item, nil, field, lookup, is_true,
  is_nonempty,
}
use cys_agi.JobStore.{
  PendingHitlAction, JobRecord, InMemoryJobStore, is_awaiting, pause_for_hitl,
  list_pending_approvals, mark_running, mark_completed, mark_failed,
}

-- The text before the first colon, and the text behind it.
unfoldable pub split_colon : String → Option (String × String)
split_colon String.[] = none
split_colon (String.◌∷◌ c s) =
    let rest = split_colon s in
    if code c == 58
    then some ("", s)
    else elim rest [ none ↦ none | some (a, b) ↦ some (String.◌∷◌ c a, b) ]

-- `session_id.split(":", 2)` has three parts, and the first is "worker"
unfoldable pub job_id_from_session : String → Option String
unfolding split_colon
job_id_from_session session_id = elim (split_colon session_id) [
  | none ↦ none
  | some (first, rest) ↦ elim (split_colon rest) [
    | none ↦ none
    | some (_, job_id) ↦ if first == "worker" then some job_id else none
  ]
]

-- `job_id_from_session(session_id) or session_id`
unfoldable pub preview_job_id : String → String
preview_job_id session_id = elim (job_id_from_session session_id) [
  | none ↦ session_id
  | some j ↦ j or_else session_id
]

-- The preview, as the action that `register_hitl_pause` reads from it and the dict itself.
unfoldable pub build_hitl_preview :
    (pause_hash : Fields → String) (fresh : String)
    → (tool_name : String) (tool_args : Fields) (risk_level session_id persona : String)
    → PendingHitlAction × Fields
unfolding preview_job_id job_id_from_session
build_hitl_preview pause_hash fresh tool_name tool_args risk_level session_id persona =
    let job_id = preview_job_id session_id in
    (
      record {
        job_id = job_id;
        session_id = session_id;
        persona = persona;
        tool_name = tool_name;
        tool_args = tool_args;
        risk_level = risk_level;
        approval_id = fresh;
      },
      field "action" (str "tool_call") (
          field "tool" (str tool_name) (
            field "args" (obj tool_args) (
              field "risk" (str risk_level) (
                field "job_id" (str job_id) (
                  field "session_id" (str session_id) (
                    field "persona" (str persona) (
                      field "approval_id" (str fresh)
                        (field "params_hash" (str (pause_hash tool_args)) nil)))))))),
    )

-- `decision.get("decisions", [])` is true and its first item has the type "reject"; `none` where
-- Python raises on a value of another shape.
unfoldable pub first_rejects : Value → Option Bool
first_rejects (arr (item (obj f) _)) =
    some (elim (lookup f "type") [ some (str t) ↦ t == "reject" | _ ↦ false ])
first_rejects v = if is_true v then none else some false

-- The answer of a human as `interrupt` returns it; `none` where Python raises.
unfoldable pub resume_decision_approved : Value → Option Bool
unfolding first_rejects
resume_decision_approved (obj d) =
    let by_list : Option Bool = elim (lookup d "decisions") [
      | none ↦ some true
      | some v ↦ elim (first_rejects v) [ none ↦ none | some r ↦ some (not r) ]
    ] in
    elim (lookup d "decision") [
      | some (str s) ↦
          if s == "reject"
          then some false
          else if s == "approve" || s == "edit"
          then some true
          else by_list
      | some (arr _) ↦ none
      | some (obj _) ↦ none
      | _ ↦ by_list
    ]
resume_decision_approved v = some (is_true v)

pub record HitlApprovalRecord : Type 0 where
  pub approval_id : String
  pub actor : String
  pub tool : String
  pub persona : String
  pub job_id : String
  pub sandbox_id : String
  pub target_resource : String
  pub params_hash : String
  pub decision : String
  pub expiry : String
  pub created_at : String

pub record JobResumeRequest : Type 0 where
  pub decision : String
  pub edited_args : Fields
  pub approval_id : String
  pub actor : String

-- What `runtime.aresume` is called with.
pub record ResumeCall : Type 0 where
  pub persona : String
  pub session_id : String
  pub resume : Value

pub data ResumeError : Type 0 where
  unknown_job not_awaiting_approval invalid_approval_id hash_mismatch : ResumeError
  -- pydantic refuses a `target_resource` that is no text
  validation_error : ResumeError
  runtime_error : String → ResumeError

pub data Reply : Type 0 where
  rejected : Reply
  resumed : (result : Value) → Reply

-- The job store, the list `_approval_records`, the metric of bypass attempts, and the calls that
-- the runtime got.
pub record Desk : Type 0 where
  pub store : InMemoryJobStore
  pub approval_records : List HitlApprovalRecord
  pub bypasses : List String
  pub resumes : List ResumeCall

-- The parts of the world that the program does not implement.
pub record Outside : Type 0 where
  pub resume_hash : Fields → String
  pub fresh : String
  pub now : String
  -- `aresume`, which may change the job store: a resumed graph pauses its job again
  pub aresume : ResumeCall → InMemoryJobStore → Result String Value × InMemoryJobStore

-- `tool_args.get("target", tool_args.get("command", ""))`
unfoldable pub target_of : Fields → Value
target_of args = elim (lookup args "target") [
  | some v ↦ v
  | none ↦ elim (lookup args "command") [ some v ↦ v | none ↦ str "" ]
]

-- the record that `record_hitl_approval` builds, for a target that is a text
abbrev pub audit :
    Outside → JobResumeRequest → PendingHitlAction → String → Fields → String → HitlApprovalRecord
audit out request action job_id tool_args target = record {
  approval_id = action.approval_id or_else out.fresh;
  actor = request.actor;
  tool = action.tool_name;
  persona = action.persona;
  job_id = job_id;
  sandbox_id = "";
  target_resource = target;
  params_hash = out.resume_hash tool_args;
  decision = request.decision;
  expiry = "";
  created_at = out.now;
}

unfoldable pub record_hitl_approval :
    Outside
    → JobResumeRequest
    → PendingHitlAction
    → String
    → Fields
    → Exec Desk ResumeError (Unit {0})
record_hitl_approval out request action job_id tool_args d = elim (target_of tool_args) [
  | str target ↦ (
    ok tt,
    record d {
      approval_records =
          d.approval_records ++ audit out request action job_id tool_args target ∷ [];
    },
  )
  | _ ↦ (err validation_error, d)
]

unfoldable pub record_approval_bypass : String → Exec Desk ResumeError (Unit {0})
record_approval_bypass reason d = (ok tt, record d { bypasses = d.bypasses ++ reason ∷ [] })

unfoldable pub update_store :
    (InMemoryJobStore → InMemoryJobStore) → Exec Desk ResumeError (Unit {0})
update_store f d = (ok tt, record d { store = f d.store })

-- `await self.runtime.aresume(...)`
unfoldable pub call_runtime : Outside → ResumeCall → Exec Desk ResumeError Value
call_runtime out call d =
    let (answer, store) = out.aresume call d.store in
    (
      elim answer [ ok v ↦ ok v | err e ↦ err (runtime_error e) ],
      record d { store = store; resumes = d.resumes ++ call ∷ [] },
    )

-- `record.hitl_preview.get("params_hash", "")`, if it is a text
unfoldable pub expected_hash : JobRecord → String
expected_hash r = elim (lookup r.hitl_preview "params_hash") [ some (str h) ↦ h | _ ↦ "" ]

-- the arguments that the hash check and the audit record read
unfoldable pub approved_args : JobResumeRequest → PendingHitlAction → Fields
approved_args request action =
    if request.decision == "edit" && is_nonempty request.edited_args
    then request.edited_args
    else action.tool_args

-- the request is refused for the hash of the arguments
unfoldable pub hash_blocks : Outside → JobRecord → JobResumeRequest → PendingHitlAction → Bool
unfolding expected_hash approved_args
hash_blocks out r request action =
    request.decision == "approve"
    && (truthy (expected_hash r)
        && not (out.resume_hash (approved_args request action) == expected_hash r))

abbrev pub resume_payload : JobResumeRequest → PendingHitlAction → Value
resume_payload request action =
    obj (field "decision" (str request.decision) (field "approval_id" (str action.approval_id) nil))

-- the part of `execute` behind the guards on the record
unfoldable pub decide :
    Outside
    → String
    → JobResumeRequest
    → JobRecord
    → PendingHitlAction
    → Exec Desk ResumeError Reply
unfolding record_hitl_approval record_approval_bypass update_store call_runtime
decide out job_id request r action =
    if truthy request.approval_id && not (request.approval_id == action.approval_id)
    then (do record_approval_bypass "invalid_approval_id"; raise invalid_approval_id)
    else if request.decision == "reject"
    then (do
      record_hitl_approval out request action job_id action.tool_args
      update_store (mark_failed job_id)
      pure rejected)
    else if hash_blocks out r request action
    then (do record_approval_bypass "params_hash_mismatch"; raise hash_mismatch)
    else (do
      record_hitl_approval out request action job_id (approved_args request action)
      update_store (λ s. (mark_running job_id s).1)
      result ← call_runtime out (record {
        persona = r.persona;
        session_id = r.session_id;
        resume = resume_payload request action;
      })
      update_store (mark_completed job_id)
      pure (resumed result))

-- `ResumeHitlJob.execute`
unfoldable pub execute : Outside → String → JobResumeRequest → Exec Desk ResumeError Reply
execute out job_id request d = elim (Dict.get d.store job_id) [
  | none ↦ (err unknown_job, d)
  | some r ↦
      if is_awaiting r.status
      then (elim r.pending_hitl [
        | none ↦ (err not_awaiting_approval, d)
        | some action ↦ decide out job_id request r action d
      ])
      else (err not_awaiting_approval, d)
]
