-- ===== src/Events.antt =====
-- cys_core/domain/events/models.py and the rules of cys_core/domain/events/plans.py.
use cys_agi.Prelude.{
  ℕ, String, Bool, true, false, not, ◌&&◌, Option, none, some, List, [], ◌∷◌, any, leb, string_eq,
  ◌==◌, if◌then◌else◌,
}
use cys_agi.Json.{Fields}

pub data EventType : Type 0 where
  siem_alert edr_alert iam_event ad_alert netflow_beacon dns_anomaly cloud_audit cloud_alert :
      EventType
  hunt_hypothesis incident_forensics purple_validation assessment_complete ti_feed : EventType
  osint_report doc_upload compliance_schedule finding_reference escalation : EventType
  manual_investigation manual_consultation : EventType

-- The text of the literal, by which the program compares event types.
unfoldable pub event_type_name : EventType → String
event_type_name siem_alert = "siem.alert"
event_type_name edr_alert = "edr.alert"
event_type_name iam_event = "iam.event"
event_type_name ad_alert = "ad.alert"
event_type_name netflow_beacon = "netflow.beacon"
event_type_name dns_anomaly = "dns.anomaly"
event_type_name cloud_audit = "cloud.audit"
event_type_name cloud_alert = "cloud.alert"
event_type_name hunt_hypothesis = "hunt.hypothesis"
event_type_name incident_forensics = "incident.forensics"
event_type_name purple_validation = "purple.validation"
event_type_name assessment_complete = "assessment.complete"
event_type_name ti_feed = "ti.feed"
event_type_name osint_report = "osint.report"
event_type_name doc_upload = "doc.upload"
event_type_name compliance_schedule = "compliance.schedule"
event_type_name finding_reference = "finding.reference"
event_type_name escalation = "escalation"
event_type_name manual_investigation = "manual.investigation"
event_type_name manual_consultation = "manual.consultation"

pub data Severity : Type 0 where
  info low medium high critical : Severity

-- `_SEVERITY_ORDER.index(severity)`
abbrev pub severity_index : Severity → ℕ
severity_index info = 0
severity_index low = 1
severity_index medium = 2
severity_index high = 3
severity_index critical = 4

abbrev pub severity_name : Severity → String
severity_name info = "info"
severity_name low = "low"
severity_name medium = "medium"
severity_name high = "high"
severity_name critical = "critical"

pub record SecurityEvent : Type 0 where
  pub id : String
  pub type : EventType
  pub source : String
  pub severity : Severity
  pub payload : Fields
  pub tenant_id : String
  pub correlation_id : String

pub record RoutingRule : Type 0 where
  pub event_types : List EventType
  pub min_severity : Option Severity
  pub personas : List String
  pub playbook_id : String
  pub notify_control : Bool

pub record PlanRoutingConfig : Type 0 where
  pub id : String
  pub name : String
  pub description : String
  pub rules : List RoutingRule

-- The texts of `reason`.
pub data Reason : Type 0 where
  no_matching_rule : Reason
  matched_rules : ℕ → Reason
  conductor_meta_worker llm_planner async_planner_pending : Reason

-- `matched_rule_idx` is `none` where the code has -1.
pub record RoutingDecision : Type 0 where
  pub event_id : String
  pub jobs : List String
  pub playbook_id : String
  pub personas : List String
  pub notify_control : Bool
  pub reason : Reason
  pub matched_plan_id : String
  pub matched_rule_idx : Option ℕ

unfoldable pub severity_at_least : Severity → Severity → Bool
severity_at_least actual minimum = leb (severity_index minimum) (severity_index actual)

abbrev pub nonempty {ℓ} : {A : Type ℓ} → List A → Bool
nonempty [] = false
nonempty (_ ∷ _) = true

unfoldable pub rule_matches : RoutingRule → EventType → Severity → Bool
rule_matches rule event_type severity =
    if nonempty rule.event_types
      && not (any (λ t. event_type_name t == event_type_name event_type) rule.event_types)
    then false
    else elim rule.min_severity [
      | none ↦ nonempty rule.personas
      | some minimum ↦
          if not (severity_at_least severity minimum) then false else nonempty rule.personas
    ]
