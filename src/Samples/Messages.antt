-- ===== src/Samples/Messages.antt =====
-- Events and messages at concrete runs.
use Prim.Native.String.{◌++◌ as ◌<>◌}
use cys_agi.Prelude.{
  ◌+◌, String, ◌≡◌, ◌||◌, ◌&&◌, refl, false, some, List, [], ◌∷◌, any, elem, ltb, ok, err,
  string_eq, if◌then◌else◌,
}
use cys_agi.Dict
use cys_agi.Json.{Fields, nil, field, str}
use cys_agi.Events.{
  SecurityEvent, RoutingRule, PlanRoutingConfig, siem_alert, critical, high, nonempty,
  severity_name, matched_rules, no_matching_rule,
}
use cys_agi.Router.{route}
use cys_agi.Router.Control.{plan_notifies, match_count, route_control}
use cys_agi.Breaker.{is_open}
use cys_agi.Bus.{
  internal, AgentInfo, SecureAgentBus, Primitives, Envelope, new_bus, register_agent, send_message,
  envelope, dispatch, breaker_blocks, receive_message, sign_message, sanitize_payload, max_age,
  message_expired, is_private,
}
use cys_agi.Bus.Sending.{MaySend, send_message-MaySend}
use cys_agi.Bus.Payload.{CleanFields, sanitize_payload-clean}
use cys_agi.Bus.Receiving.{IsAuthentic, receive_message-envelope, receive_message-IsAuthentic}

abbrev rule : RoutingRule
rule = record {
  event_types = siem_alert ∷ [];
  min_severity = some high;
  personas = "soc" ∷ "intel" ∷ "soc" ∷ [];
  playbook_id = "";
  notify_control = false;
}

abbrev plans : List PlanRoutingConfig
plans = record { id = "alerts"; name = ""; description = ""; rules = rule ∷ rule ∷ [] } ∷ []

abbrev event : SecurityEvent
event = record {
  id = "e1";
  type = siem_alert;
  source = "siem";
  severity = critical;
  payload = nil;
  tenant_id = "default";
  correlation_id = "i1";
}

route_control_example :
    let decision = route ("critical" ∷ []) plans event in
    (decision.notify_control ≡ (
      nonempty decision.personas
      && (elem (severity_name event.severity) ("critical" ∷ [])
          || any (plan_notifies event) plans)))
    × (decision.reason ≡ (
        if nonempty decision.personas
        then matched_rules (match_count event plans)
        else no_matching_rule))
route_control_example = route_control ("critical" ∷ []) plans event

abbrev prim : Primitives
prim = record {
  hmac = λ key body. key <> body;
  dumps = λ _. "body";
  filter_untrusted = λ s. s;
  isoformat = λ _. "time";
}

abbrev payload : Fields
payload = field "_system_prompt" (str "x") (field "summary" (str "beacon") nil)

abbrev bus : SecureAgentBus
bus = register_agent "soc" internal ("critic" ∷ []) (
    new_bus "key"
      (record { breaker_failure_threshold = 3; breaker_reset_seconds = 60; escalation_paths = [] }))

abbrev message : Envelope
message = envelope prim bus 100 internal "soc" "critic" "finding" payload

message_is_sent : (send_message prim 100 "soc" "critic" "finding" payload bus).0 ≡ ok message
unfolding send_message dispatch breaker_blocks register_agent new_bus Dict.get Dict.set is_open
message_is_sent = refl

send_message-MaySend_example :
    (info : AgentInfo) × MaySend 100 info "soc" "critic" "finding" payload bus
send_message-MaySend_example =
    send_message-MaySend prim 100 "soc" "critic" "finding" payload bus message message_is_sent

receive_message-envelope_example : receive_message prim 200 bus "critic" message ≡ (
    if ltb (100 + max_age) 200
    then err message_expired
    else ok (sanitize_payload prim.filter_untrusted internal payload))
receive_message-envelope_example =
    receive_message-envelope prim bus bus 100 200 internal "soc" "critic" "finding" payload refl

message_is_received :
    receive_message prim 200 bus "critic" message
    ≡ ok (sanitize_payload prim.filter_untrusted internal payload)
message_is_received =
    receive_message-envelope prim bus bus 100 200 internal "soc" "critic" "finding" payload refl

receive_message-IsAuthentic_example :
    IsAuthentic prim bus "critic" 200 message
    × (sanitize_payload prim.filter_untrusted internal payload ≡ message.payload)
receive_message-IsAuthentic_example =
    receive_message-IsAuthentic prim 200 bus "critic" message
      (sanitize_payload prim.filter_untrusted internal payload) message_is_received

message_is_signed :
    message.signature
    ≡ sign_message prim bus message.sender message.recipient message.type message.payload
        message.timestamp
unfolding envelope
message_is_signed = refl

abbrev NotNul : String → Type 0
NotNul s = Unit

sanitize_payload-clean_example :
    CleanFields NotNul internal (sanitize_payload prim.filter_untrusted internal payload)
sanitize_payload-clean_example =
    sanitize_payload-clean prim.filter_untrusted NotNul payload internal (λ _. tt)

note_is_shown : is_private internal "notes" ≡ false
unfolding is_private
note_is_shown = refl
