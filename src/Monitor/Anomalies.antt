-- ===== src/Monitor/Anomalies.antt =====
-- When the monitor reports attempts of injection (cys_core/security/monitor.py).
use cys_agi.Prelude.{
  ℕ, ◌+◌, ◌-◌, String, ◌≡◌, refl, Bool, false, ◌&&◌, some, List, [], ◌∷◌, ◌++◌, count, count-append,
  All, ◌≢◌, length, keep, Bool-cases, inl, inr, ltb, string_eq, ◌==◌, arith, if◌then◌else◌,
}
use cys_agi.Dict
use cys_agi.Dict.{Dict}
use cys_agi.Json.{Value, Fields, nil, field, bool, str, lookup}
use cys_agi.Monitor.{
  AgentSecurityEvent, AnomalyPolicy, SessionMetrics, AgentMonitor, new_monitor, no_metrics,
  metrics_of, log_security_event, check_anomalies, log_tool_call, log_orchestration_tool,
  record_injection_attempt,
}

-- A call of the monitor.
pub data Op : Type 0 where
  op_attempt : (now : ℕ) (session_id : String) → Fields → (user_id : String) → Op
  op_tool :
      (now : ℕ) (session_id tool_name : String) (params result : Fields) (user_id : String) → Op
  op_orchestration :
      (now : ℕ) (session_id tool_name : String) → Fields → (outcome user_id : String) → Op
  op_event : (now : ℕ) (session_id event_type severity : String) → Fields → (user_id : String) → Op

pub apply : (Fields → Value) → AgentMonitor → Op → AgentMonitor
apply redact m (op_attempt now s details user) = record_injection_attempt now s details user m
apply redact m (op_tool now s tool params result user) =
    log_tool_call redact now s tool params result user m
apply redact m (op_orchestration now s tool params outcome user) =
    log_orchestration_tool redact now s tool params outcome user m
apply redact m (op_event now s type severity details user) =
    log_security_event now s type severity details user m

-- A caller of `log_security_event` reports no anomaly of its own.
abbrev pub IsPlain : Op → Type 0
IsPlain (op_event _ _ type _ _ _) = type ≢ "anomaly_detected"
IsPlain _ = Unit

pub apply_all : (Fields → Value) → AgentMonitor → List Op → AgentMonitor
unfolding apply
apply_all redact m [] = m
apply_all redact m (op ∷ ops) = apply_all redact (apply redact m op) ops

-- the result that an orchestration call is logged with
abbrev orchestrated : String → Fields
orchestrated outcome = field "status" (str outcome) (field "orchestration" (bool Bool.true) nil)

-- The call reports an attempt of injection in the session.
abbrev pub is_attempt : String → Op → Bool
is_attempt session (op_attempt _ s _ _) = s == session
is_attempt session _ = false

-- The event says that the session has too many attempts of injection.
pub is_alarm : String → AgentSecurityEvent → Bool
is_alarm session e =
    (e.event_type == "anomaly_detected")
    && ((e.session_id == session) && (elim (lookup e.details "reason") [
      | some (str r) ↦ r == "injection_attempts"
      | _ ↦ false
    ]))

-- the calls of tools in the last minute, the one of now included
abbrev recent_calls : ℕ → String → AgentMonitor → ℕ
recent_calls now s m =
    length (keep (λ t. ltb (now - t) 60) ((metrics_of s m).tool_calls ++ now ∷ []))

-- the attempts that are counted for the session
abbrev attempts_in : String → AgentMonitor → ℕ
attempts_in session m = (metrics_of session m).injection_attempts

-- The metrics of a session behind an assignment.
get_or-set :
    (metrics : Dict String SessionMetrics) (s session : String) (v d : SessionMetrics)
    → Dict.get_or (Dict.set metrics s v) session d
      ≡ (if s == session then v else Dict.get_or metrics session d)
get_or-set metrics s session v d = ground (arith, Dict.get-set metrics s session v)

-- What a call leaves of the metrics and the thresholds.
module _ (now : ℕ) (s : String) (m : AgentMonitor) where
  abbrev attempted : SessionMetrics
  attempted = record (metrics_of s m) {
    injection_attempts = (metrics_of s m).injection_attempts + 1;
  }

  record_injection_attempt_sets :
      (details : Fields) (user : String)
      → ((record_injection_attempt now s details user m).session_metrics
          ≡ Dict.set m.session_metrics s attempted)
        × ((record_injection_attempt now s details user m).thresholds ≡ m.thresholds)
  unfolding record_injection_attempt log_security_event
  record_injection_attempt_sets details user = (ground arith, ground arith)

  abbrev called : SessionMetrics
  called = record (metrics_of s m) { tool_calls = (metrics_of s m).tool_calls ++ now ∷ [] }

  log_tool_call_sets :
      (redact : Fields → Value) (tool : String) (params result : Fields) (user : String)
      → ((log_tool_call redact now s tool params result user m).session_metrics
          ≡ Dict.set m.session_metrics s called)
        × ((log_tool_call redact now s tool params result user m).thresholds ≡ m.thresholds)
  unfolding log_tool_call check_anomalies log_security_event
  log_tool_call_sets redact tool params result user = (ground arith, ground arith)

module _ (redact : Fields → Value) (session : String) (m : AgentMonitor) where
  tool_attempts :
      (now : ℕ) (s tool : String) (params result : Fields) (user : String)
      → (attempts_in session (log_tool_call redact now s tool params result user m)
          ≡ attempts_in session m + 0)
        × ((log_tool_call redact now s tool params result user m).thresholds ≡ m.thresholds)
  tool_attempts now s tool params result user =
      let (sets, same) = log_tool_call_sets now s m redact tool params result user in
      (
        rw sets (
            ground (
              arith,
              get_or-set m.session_metrics s session (called now s m) no_metrics,
              string_eq.beq_iff s session,
            )),
        same,
      )

  apply_attempts :
      (op : Op)
      → (attempts_in session (apply redact m op)
          ≡ attempts_in session m + (if is_attempt session op then 1 else 0))
        × ((apply redact m op).thresholds ≡ m.thresholds)
  unfolding apply log_orchestration_tool log_security_event
  apply_attempts (op_attempt now s details user) =
      let (sets, same) = record_injection_attempt_sets now s m details user in
      (
        rw sets (
            ground (
              arith,
              get_or-set m.session_metrics s session (attempted now s m) no_metrics,
              string_eq.beq_iff s session,
            )),
        same,
      )
  apply_attempts (op_tool now s tool params result user) =
      tool_attempts now s tool params result user
  apply_attempts (op_orchestration now s tool params outcome user) =
      tool_attempts now s tool params (orchestrated outcome) user
  apply_attempts (op_event now s type severity details user) = (ground arith, refl)

  attempt_alarms :
      (now : ℕ) (s : String) (details : Fields) (user : String)
      → count (is_alarm session) (record_injection_attempt now s details user m).events
        ≡ count (is_alarm session) m.events
          + (if ltb m.thresholds.injection_attempts ((metrics_of s m).injection_attempts + 1)
              then (if s == session then 1 else 0)
              else 0)
  unfolding record_injection_attempt log_security_event is_alarm lookup
  attempt_alarms now s details user =
      elim (Bool-cases
        (ltb m.thresholds.injection_attempts ((metrics_of s m).injection_attempts + 1))) [
          | inl over ↦ rw over (simp count-append (ground arith))
          | inr below ↦ rw below (simp count-append (ground arith))
        ]

  tool_alarms :
      (now : ℕ) (s tool : String) (params result : Fields) (user : String)
      → count (is_alarm session) (log_tool_call redact now s tool params result user m).events
        ≡ count (is_alarm session) m.events
  unfolding log_tool_call check_anomalies log_security_event is_alarm lookup
  tool_alarms now s tool params result user =
      elim (Bool-cases (ltb m.thresholds.tool_calls_per_minute (recent_calls now s m))) [
        | inl over ↦ rw over (simp count-append (ground arith))
        | inr below ↦ rw below (simp count-append (ground arith))
      ]

  event_alarms :
      (now : ℕ) (s type severity : String) (details : Fields) (user : String)
      → type ≢ "anomaly_detected"
      → count (is_alarm session) (log_security_event now s type severity details user m).events
        ≡ count (is_alarm session) m.events
  unfolding log_security_event is_alarm
  event_alarms now s type severity details user plain =
      simp count-append (ground (arith, plain, string_eq.beq_iff type "anomaly_detected"))

  apply_alarms :
      (op : Op)
      → IsPlain op
      → count (is_alarm session) (apply redact m op).events
          + (attempts_in session m - m.thresholds.injection_attempts)
        ≡ count (is_alarm session) m.events
          + (attempts_in session (apply redact m op) - m.thresholds.injection_attempts)
  unfolding apply log_orchestration_tool
  apply_alarms (op_attempt now s details user) plain = ground (
    arith,
    attempt_alarms now s details user,
    apply_attempts (op_attempt now s details user),
    string_eq.beq_iff s session,
  )
  apply_alarms (op_tool now s tool params result user) plain = ground (
    arith,
    tool_alarms now s tool params result user,
    apply_attempts (op_tool now s tool params result user),
  )
  apply_alarms (op_orchestration now s tool params outcome user) plain = ground (
    arith,
    tool_alarms now s tool params (orchestrated outcome) user,
    apply_attempts (op_orchestration now s tool params outcome user),
  )
  apply_alarms (op_event now s type severity details user) plain = ground (
    arith,
    event_alarms now s type severity details user plain,
    apply_attempts (op_event now s type severity details user),
  )

apply_all_alarms :
    (redact : Fields → Value) (session : String) (ops : List Op) (m : AgentMonitor)
    → All IsPlain ops
    → count (is_alarm session) (apply_all redact m ops).events
        + (attempts_in session m - m.thresholds.injection_attempts)
      ≡ count (is_alarm session) m.events
        + ((attempts_in session m + count (is_attempt session) ops)
            - m.thresholds.injection_attempts)
unfolding apply_all
apply_all_alarms redact session [] m plain = omega arith
apply_all_alarms redact session (op ∷ ops) m plain =
    let (counted, same) = apply_attempts redact session m op in
    ground (
      arith,
      counted,
      same,
      apply_alarms redact session m op plain.0,
      apply_all_alarms redact session ops (apply redact m op) plain.1,
    )

fresh_attempts :
    (session agent_id : String) (policy : AnomalyPolicy)
    → attempts_in session (new_monitor agent_id policy) ≡ 0
unfolding new_monitor Dict.get
fresh_attempts session agent_id policy = refl

-- Whatever attempts, tool calls, orchestration calls and security events a fresh monitor is told,
-- in any order and of any sessions, it reports as many anomalies of injection for a session as the
-- session has attempts above the policy's threshold. The security events that its callers report
-- are no anomalies.
pub alarms_exact :
    (redact : Fields → Value) (session agent_id : String) (policy : AnomalyPolicy) (ops : List Op)
    → All IsPlain ops
    → count (is_alarm session) (apply_all redact (new_monitor agent_id policy) ops).events
      ≡ count (is_attempt session) ops - policy.injection_attempts
unfolding new_monitor
alarms_exact redact session agent_id policy ops plain =
    let m : AgentMonitor = new_monitor agent_id policy in
    ground
      (arith, apply_all_alarms redact session ops m plain, fresh_attempts session agent_id policy)
