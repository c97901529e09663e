-- ===== src/Assessment.antt =====
-- When an assessment needs a human: `requires_hitl`, `detect_exfiltration` and `validate_output` of
-- cys_core/domain/security/guardrails.py, and `HitlPolicy` and `AssessmentReportBuilder` of
-- cys_core/domain/assessment/services.py. Regular expressions, `str.lower` and Python's printing of
-- values are arguments. A finding whose entry `data` is no dict raises.
pub mod Approval
use cys_agi.Prelude.{
  ℕ, String, Bool, true, false, not, ◌&&◌, ◌||◌, Option, none, some, List, [], ◌∷◌, any, elem,
  length, ltb, truthy, string_eq, ◌==◌, if◌then◌else◌, Result, ok, err,
}
use cys_agi.Floats.{FloatOps}
use cys_agi.Json.{Value, Items, Fields, bool, str, arr, obj, end, item, nil, lookup, is_true, put}
use cys_agi.Policy.{RiskLevel, medium, risk_le, parse_threshold}

-- What the guardrails use and do not implement.
pub record TextPorts : Type 0 where
  pub lower : String → String
  -- `str(value)` of a value that is no text, and of a dict
  pub text_of : Value → String
  -- `part in text`
  pub contains : (text part : String) → Bool
  pub text_length : String → ℕ
  pub is_prompt_leakage : String → Bool
  -- a pattern of sensitive parameters is found in the printed parameters
  pub is_sensitive : Value → Bool
  pub filter_pii : String → String

pub data GuardrailError : Type 0 where
  sensitive_parameters exfiltration prompt_leakage : GuardrailError
  -- an exception that is no `SecurityViolation`
  no_dict : GuardrailError

-- A loop over the value does nothing.
abbrev pub is_empty : Value → Bool
is_empty (str s) = not (truthy s)
is_empty (obj nil) = true
is_empty _ = false

module _ (p : TextPorts) where
  abbrev pub text_at : Fields → String → String
  text_at f key = elim (lookup f key) [ none ↦ "" | some (str s) ↦ s | some v ↦ p.text_of v ]

  unfoldable pub detect_exfiltration : (max_payload_size : ℕ) → Fields → Bool
  detect_exfiltration max_payload_size output =
      let blob = p.lower (p.text_of (obj output)) in
      let tool_name = text_at output "tool_name" in
      let params : Value = elim (lookup output "parameters") [ none ↦ obj nil | some v ↦ v ] in
      let size = p.text_length (elim params [ str s ↦ s | v ↦ p.text_of v ]) in
      (p.contains blob "http"
        && any (p.contains blob) ("base64" ∷ "encode" ∷ "password" ∷ "парол" ∷ []))
      || (elem tool_name ("http_request" ∷ "webhook" ∷ []) && ltb max_payload_size size)

  -- the loop over `tool_calls`, with `validate_tool_call`
  unfoldable pub validate_tool_calls : Items → Result GuardrailError (Unit {0})
  validate_tool_calls end = ok tt
  validate_tool_calls (item (obj call) rest) =
      let others = validate_tool_calls rest in
      let params : Value = elim (lookup call "parameters") [ none ↦ obj nil | some v ↦ v ] in
      if p.is_sensitive params then err sensitive_parameters else others
  validate_tool_calls (item _ rest) = err no_dict

  unfoldable pub validate_output : (max_payload_size : ℕ) → Fields → Result GuardrailError Fields
  unfolding detect_exfiltration validate_tool_calls
  validate_output max_payload_size output =
      let response = text_at output "response" in
      let filtered : Fields = elim (lookup output "response") [
        | none ↦ output
        | some _ ↦ put output "response" (str (p.filter_pii response))
      ] in
      if detect_exfiltration max_payload_size output
      then err exfiltration
      else if (elim (lookup output "response") [ none ↦ false | some _ ↦ true ])
          && p.is_prompt_leakage response
      then err prompt_leakage
      else elim (lookup output "tool_calls") [
        | none ↦ ok filtered
        | some (arr calls) ↦ elim (validate_tool_calls calls) [ err e ↦ err e | ok _ ↦ ok filtered ]
        | some v ↦ if is_empty v then ok filtered else err no_dict
      ]

  -- `str(d.get(key, "")).lower() in ("critical", "high")`
  unfoldable pub is_severe_at : String → Fields → Bool
  is_severe_at key d = elem (p.lower (text_at d key)) ("critical" ∷ "high" ∷ [])

  -- `finding.get("data", finding)`, and `none` where it is no dict
  unfoldable pub finding_data : Fields → Option Fields
  finding_data f = elim (lookup f "data") [ none ↦ some f | some (obj d) ↦ some d | some _ ↦ none ]

  -- the loop of `requires_hitl`
  unfoldable pub has_severe : List Fields → Result GuardrailError Bool
  unfolding finding_data is_severe_at
  has_severe [] = ok false
  has_severe (f ∷ findings) =
      let rest = has_severe findings in
      elim (finding_data f) [
        | none ↦ err no_dict
        | some d ↦
            if is_severe_at "severity" d || is_severe_at "risk_level" d then ok true else rest
      ]

module _ {F : Type 0} ⦃fl : FloatOps F⦄ (p : TextPorts) where
  unfoldable pub requires_hitl :
      List Fields → (trust_score threshold : F) → Result GuardrailError Bool
  requires_hitl findings trust_score threshold =
      if fl.gt threshold trust_score then ok true else has_severe p findings

-- `PendingApproval`
pub record PendingApproval (F : Type 0) : Type 0 where
  pub trust_score : F
  pub findings_count : ℕ
  pub high_severity : List Fields

-- `HitlDecision.pending_approval`
pub data Pending (F : Type 0) : Type 0 where
  no_pending auto_approved : Pending F
  waiting : PendingApproval F → Pending F

pub record HitlDecision (F : Type 0) : Type 0 where
  pub approved : Value
  pub pending_approval : Pending F
  pub interrupt_preview : Option (PendingApproval F)

-- `manual_decision`: nothing, a truth value, or a dict
pub data ManualDecision : Type 0 where
  undecided : ManualDecision
  answered : Bool → ManualDecision
  decided : Fields → ManualDecision

-- the comprehension of `preview`
unfoldable pub high_severity : TextPorts → List Fields → Result GuardrailError (List Fields)
high_severity p [] = ok []
high_severity p (f ∷ findings) =
    let rest = high_severity p findings in
    elim (lookup f "data") [
      | none ↦ rest
      | some (obj d) ↦ elim rest [
        | err e ↦ err e
        | ok fs ↦ if is_severe_at p "severity" d then ok (f ∷ fs) else ok fs
      ]
      | some _ ↦ err no_dict
    ]

-- the stage and the threshold approve without a human
abbrev pub is_auto : (stage auto_approve_threshold : String) → Bool
is_auto stage auto_approve_threshold =
    stage == "dev" && risk_le medium (parse_threshold auto_approve_threshold)

-- `manual_decision`'s answer, if there is one
abbrev pub manual_answer : ManualDecision → Option Value
manual_answer undecided = none
manual_answer (answered b) = some (bool b)
manual_answer (decided d) = some (elim (lookup d "approved") [ none ↦ bool false | some v ↦ v ])

module _ {F : Type 0} ⦃fl : FloatOps F⦄ (p : TextPorts) where
  unfoldable pub preview : F → List Fields → Result GuardrailError (PendingApproval F)
  preview trust_score findings = elim (high_severity p findings) [
    | err e ↦ err e
    | ok severe ↦ ok (record {
      trust_score = trust_score;
      findings_count = length findings;
      high_severity = severe;
    })
  ]

  -- the part of `decide` for an assessment that needs an approval
  unfoldable pub decide_manually :
      F → List Fields → ManualDecision → Result GuardrailError (HitlDecision F)
  unfolding preview
  decide_manually trust_score findings manual = elim (preview trust_score findings) [
    | err e ↦ err e
    | ok shown ↦ elim (manual_answer manual) [
      | none ↦ ok (record {
        approved = bool false;
        pending_approval = waiting shown;
        interrupt_preview = some shown;
      })
      | some v ↦
          ok (record { approved = v; pending_approval = waiting shown; interrupt_preview = none })
    ]
  ]

  -- `decide`, from the critic's score and a threshold in lower case
  unfoldable pub decide :
      (trust_score : F)
      → List Fields
      → (threshold : F) → (stage auto_approve_threshold : String) → ManualDecision
      → Result GuardrailError (HitlDecision F)
  decide trust_score findings threshold stage auto_approve_threshold manual =
      elim (requires_hitl p findings trust_score threshold) [
        | err e ↦ err e
        | ok false ↦ ok (record {
          approved = bool true;
          pending_approval = no_pending;
          interrupt_preview = none;
        })
        | ok true ↦
            if is_auto stage auto_approve_threshold
            then ok (record {
              approved = bool true;
              pending_approval = auto_approved;
              interrupt_preview = none;
            })
            else decide_manually trust_score findings manual
      ]

-- `AssessmentReportBuilder.build`: the status of the report
pub data ReportStatus : Type 0 where
  published rejected : ReportStatus

unfoldable pub build : Option Value → ReportStatus
build none = rejected
build (some approved) = if is_true approved then published else rejected
