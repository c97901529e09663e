-- ===== src/Monitor.antt =====
-- `AgentMonitor` of cys_core/security/monitor.py. A time is a number of seconds; the redaction of
-- parameters is an argument, and the text log of an event is left out.
pub mod Anomalies
use cys_agi.Prelude.{
  ℕ, ◌+◌, ◌-◌, String, Bool, Option, none, some, List, [], ◌∷◌, ◌++◌, keep, length, ltb, string_eq,
  if◌then◌else◌,
}
use cys_agi.Dict
use cys_agi.Dict.{Dict}
use cys_agi.Json.{Value, Fields, nat, str, obj, bool, nil, field, lookup}

pub record AgentSecurityEvent : Type 0 where
  pub event_type : String
  pub severity : String
  pub agent_id : String
  pub session_id : String
  pub user_id : String
  pub timestamp : ℕ
  pub details : Fields
  pub tool_name : Option String

-- `AnomalyPolicy`, as `_thresholds_from_policy` copies it
pub record AnomalyPolicy : Type 0 where
  pub tool_calls_per_minute : ℕ
  pub failed_tool_calls : ℕ
  pub injection_attempts : ℕ
  pub sensitive_data_access : ℕ

-- An entry of `session_metrics`; one without `injection_attempts` counts none.
pub record SessionMetrics : Type 0 where
  pub tool_calls : List ℕ
  pub failed_calls : ℕ
  pub injection_attempts : ℕ

pub record AgentMonitor : Type 0 where
  pub agent_id : String
  pub session_metrics : Dict String SessionMetrics
  pub events : List AgentSecurityEvent
  pub thresholds : AnomalyPolicy

unfoldable pub new_monitor : String → AnomalyPolicy → AgentMonitor
new_monitor agent_id policy = record {
  agent_id = agent_id;
  session_metrics = [];
  events = [];
  thresholds = policy;
}

-- `_emit`
abbrev pub emit : AgentSecurityEvent → AgentMonitor → AgentMonitor
emit event m = record m { events = m.events ++ event ∷ [] }

abbrev pub no_metrics : SessionMetrics
no_metrics = record { tool_calls = []; failed_calls = 0; injection_attempts = 0 }

-- `session_metrics.setdefault(session_id, ...)`
abbrev pub metrics_of : String → AgentMonitor → SessionMetrics
metrics_of session_id m = Dict.get_or m.session_metrics session_id no_metrics

abbrev pub set_metrics : String → SessionMetrics → AgentMonitor → AgentMonitor
set_metrics session_id metrics m = record m {
  session_metrics = Dict.set m.session_metrics session_id metrics;
}

unfoldable pub log_security_event :
    (now : ℕ) (session_id event_type severity : String)
    → Fields
    → (user_id : String) → AgentMonitor
    → AgentMonitor
log_security_event now session_id event_type severity details user_id m =
    emit
      (record {
        event_type = event_type;
        severity = severity;
        agent_id = m.agent_id;
        session_id = session_id;
        user_id = user_id;
        timestamp = now;
        details = details;
        tool_name = none;
      })
      m

-- `_check_anomalies`, with the user of the event
unfoldable pub check_anomalies :
    (now : ℕ) (session_id user_id : String) → AgentMonitor → AgentMonitor
unfolding log_security_event
check_anomalies now session_id user_id m =
    let old = metrics_of session_id m in
    let calls = old.tool_calls ++ now ∷ [] in
    let recent = keep (λ t. ltb (now - t) 60) calls in
    let counted = set_metrics session_id (record old { tool_calls = calls }) m in
    if ltb m.thresholds.tool_calls_per_minute (length recent)
    then log_security_event now session_id "anomaly_detected" "WARNING"
        (field "reason" (str "excessive_tool_calls") (field "count" (nat (length recent)) nil))
        user_id counted
    else counted

unfoldable pub log_tool_call :
    (redact : Fields → Value) (now : ℕ) (session_id tool_name : String) (params result : Fields)
    (user_id : String)
    → AgentMonitor
    → AgentMonitor
unfolding check_anomalies
log_tool_call redact now session_id tool_name params result user_id m =
    check_anomalies now session_id user_id (
      emit
        (record {
          event_type = "tool_call";
          severity = "INFO";
          agent_id = m.agent_id;
          session_id = session_id;
          user_id = user_id;
          timestamp = now;
          details = field "parameters" (redact params) (
              field "result_status" (elim (lookup result "status") [ none ↦ str "ok" | some v ↦ v ])
                nil);
          tool_name = some tool_name;
        })
        m)

unfoldable pub log_orchestration_tool :
    (redact : Fields → Value) (now : ℕ) (session_id tool_name : String)
    → Fields
    → (outcome user_id : String) → AgentMonitor
    → AgentMonitor
log_orchestration_tool redact now session_id tool_name params outcome user_id =
    log_tool_call redact now session_id tool_name params
      (field "status" (str outcome) (field "orchestration" (bool Bool.true) nil)) user_id

-- The details of an attempt, `{"verdict": verdict, **details}`, are an argument.
unfoldable pub record_injection_attempt :
    (now : ℕ) (session_id : String) → Fields → (user_id : String) → AgentMonitor → AgentMonitor
unfolding log_security_event
record_injection_attempt now session_id details user_id m =
    let old = metrics_of session_id m in
    let attempts = old.injection_attempts + 1 in
    let counted = set_metrics session_id (record old { injection_attempts = attempts }) m in
    let logged =
      log_security_event now session_id "injection_attempt" "WARNING" details user_id counted in
    if ltb m.thresholds.injection_attempts attempts
    then log_security_event now session_id "anomaly_detected" "WARNING"
        (field "reason" (str "injection_attempts") (field "count" (nat attempts) nil)) user_id
        logged
    else logged
