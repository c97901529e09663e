-- ===== src/Samples/Reviews.antt =====
-- Classified payloads, a monitored session and an assessment at concrete inputs.
use cys_agi.Prelude.{
  ◌+◌, ◌-◌, ◌≤◌, String, ◌≡◌, ◌≢◌, ◌⊎◌, refl, false, true, some, none, [], ◌∷◌, count, ok, List,
  arith, string_eq, All,
}
use cys_agi.Floats.{Milli, milli}
use cys_agi.Json.{Fields, bool, nil, field, str, obj, lookup}
use cys_agi.Classification.{
  confidential, restricted, class_order, classification_of, redacted_text, payload_classification,
  apply_protection,
}
use cys_agi.Classification.Protection.{apply_protection_exact}
use cys_agi.Monitor.{AnomalyPolicy, new_monitor}
use cys_agi.Monitor.Anomalies.{
  Op, op_attempt, op_tool, op_orchestration, op_event, apply_all, is_attempt, is_alarm,
  alarms_exact,
}
use cys_agi.Assessment.{
  TextPorts, HitlDecision, waiting, answered, decide, decide_manually, requires_hitl, has_severe,
  finding_data, is_severe_at, preview, high_severity, build, published,
}
use cys_agi.Assessment.Approval.{IsCalm, IsAutomatic, IsManual, build-decide}

abbrev secret : Fields
secret = field "classification" (str "restricted") (field "text" (str "4111") nil)

secret_is_restricted : payload_classification secret ≡ ok restricted
unfolding payload_classification classification_of lookup
secret_is_restricted = refl

apply_protection_exact_example :
    ((class_order restricted ≤ class_order confidential)
      × (apply_protection (λ _. "") confidential secret ≡ ok secret))
    ⊎ ((class_order confidential + 1 ≤ class_order restricted)
        × (shown : Fields) × (apply_protection (λ _. "") confidential secret ≡ ok shown)
        × (lookup shown "text" ≡ some (str redacted_text))
        × (lookup shown "redacted" ≡ some (bool true))
        × ((key : String) → key ≢ "text" → key ≢ "redacted" → lookup shown key ≡ lookup secret key))
apply_protection_exact_example =
    apply_protection_exact (λ _. "") confidential secret restricted secret_is_restricted

abbrev thresholds : AnomalyPolicy
thresholds = record {
  tool_calls_per_minute = 30;
  failed_tool_calls = 5;
  injection_attempts = 1;
  sensitive_data_access = 3;
}

abbrev calls : List Op
calls =
    op_attempt 1 "s1" nil "system"
    ∷ op_attempt 2 "s2" nil "system"
    ∷ op_tool 3 "s1" "nmap" nil nil "system"
    ∷ op_orchestration 3 "s1" "delegate_research" nil "ok" "system"
    ∷ op_event 4 "s1" "tool_failure" "WARNING" nil "system"
    ∷ op_attempt 4 "s1" nil "system"
    ∷ []

plain : ◌≢◌ {A = String} "tool_failure" "anomaly_detected"
plain = ground (arith, string_eq.beq_iff "tool_failure" "anomaly_detected")

alarms_exact_example :
    count (is_alarm "s1") (apply_all obj (new_monitor "soc" thresholds) calls).events
    ≡ count (is_attempt "s1") calls - 1
alarms_exact_example =
    alarms_exact obj "s1" "soc" thresholds calls (tt, (tt, (tt, (tt, (plain, (tt, tt))))))

abbrev texts : TextPorts
texts = record {
  lower = λ s. s;
  text_of = λ _. "";
  contains = λ _ _. false;
  text_length = λ _. 0;
  is_prompt_leakage = λ _. false;
  is_sensitive = λ _. false;
  filter_pii = λ s. s;
}

abbrev found : Fields
found = field "severity" (str "high") nil

abbrev decision : HitlDecision Milli
decision = record {
  approved = bool true;
  pending_approval = waiting (record { trust_score = 900; findings_count = 1; high_severity = [] });
  interrupt_preview = none;
}

analyst_decides :
    decide ⦃fl = milli⦄ texts 900 (found ∷ []) 700 "prod" "low" (answered true) ≡ ok decision
unfolding decide requires_hitl has_severe finding_data is_severe_at decide_manually preview
    high_severity lookup
analyst_decides = refl

analyst_publishes : build (some decision.approved) ≡ published
unfolding build
analyst_publishes = refl

build-decide_example :
    ((milli.gt 700 900 ≡ false) × All (IsCalm texts) (found ∷ []))
    ⊎ (IsAutomatic "prod" "low" ⊎ IsManual (answered true))
build-decide_example =
    build-decide ⦃fl = milli⦄ texts 900 (found ∷ []) 700 "prod" "low" (answered true) decision
      analyst_decides analyst_publishes
