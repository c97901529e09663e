-- ===== src/Bus.antt =====
-- `SecureAgentBus` of cys_core/domain/security/agent_bus.py, with the constants of
-- cys_core/domain/security/a2a.py. HMAC, `json.dumps`, the sanitizer of texts and the printing of a
-- time are arguments. A time is a number of seconds, and a message is an envelope with all of its
-- fields.
pub mod Sending
pub mod Receiving
pub mod Payload
use Prim.Native.String.{◌++◌ as ◌<>◌}
use cys_agi.Prelude.{
  ℕ, ◌+◌, String, Bool, true, false, not, ◌&&◌, ◌||◌, Option, none, some, List, [], ◌∷◌, ◌++◌, elem,
  any, leb, ltb, string_eq, pair_eq, ◌==◌, if◌then◌else◌, Result, ok, err, Exec, starts_with,
}
use cys_agi.Dict
use cys_agi.Dict.{Dict}
use cys_agi.Breaker.{CircuitBreaker, fresh, is_open, record_failure}
use cys_agi.Json.{
  Value, Items, Fields, null, bool, nat, number, str, arr, obj, end, item, nil, field, has_true,
}

pub data AgentTrustLevel : Type 0 where
  untrusted internal privileged system : AgentTrustLevel

-- the value of the `IntEnum`
abbrev pub trust_value : AgentTrustLevel → ℕ
trust_value untrusted = 0
trust_value internal = 1
trust_value privileged = 2
trust_value system = 3

pub record AgentInfo : Type 0 where
  pub trust_level : AgentTrustLevel
  pub allowed_recipients : List String
  pub allowed_message_types : List String

pub data LoggedEvent : Type 0 where
  unauthorized_message_attempt : (sender recipient : String) → LoggedEvent
  blocked_privileged_escalation_path : (sender recipient type : String) → LoggedEvent

pub record SecureAgentBus : Type 0 where
  pub signing_key : String
  pub agent_registry : Dict String AgentInfo
  pub circuit_breakers : Dict String CircuitBreaker
  pub security_events : List LoggedEvent
  pub breaker_threshold : ℕ
  pub breaker_reset : ℕ
  pub escalation_paths : List (String × String)

-- What the bus uses and does not implement.
pub record Primitives : Type 0 where
  pub hmac : (key body : String) → String
  pub dumps : Value → String
  pub filter_untrusted : String → String
  pub isoformat : ℕ → String

-- The part of `ProfilePolicyPayload` that `_apply_policy` reads and the bus uses.
pub record BusPolicy : Type 0 where
  pub breaker_failure_threshold : ℕ
  pub breaker_reset_seconds : ℕ
  pub escalation_paths : List (List String)

-- `ESCALATION_ONLY_PATHS`
abbrev pub escalation_only_paths : List (String × String)
escalation_only_paths =
    ("soc", "redteam") ∷ ("network", "redteam") ∷ ("intel", "redteam") ∷ ("hunter", "redteam") ∷ []

-- `{tuple(pair) for pair in paths if len(pair) == 2}`
unfoldable pub pairs_of : List (List String) → List (String × String)
pairs_of [] = []
pairs_of ((a ∷ b ∷ []) ∷ paths) = (a, b) ∷ pairs_of paths
pairs_of (_ ∷ paths) = pairs_of paths

-- `SecureAgentBus(signing_key, policy=policy)`
unfoldable pub new_bus : String → BusPolicy → SecureAgentBus
unfolding pairs_of
new_bus signing_key policy = record {
  signing_key = signing_key;
  agent_registry = [];
  circuit_breakers = [];
  security_events = [];
  breaker_threshold = policy.breaker_failure_threshold;
  breaker_reset = policy.breaker_reset_seconds;
  escalation_paths = elim policy.escalation_paths [
    | [] ↦ escalation_only_paths
    | p ∷ ps ↦ pairs_of (p ∷ ps)
  ];
}

unfoldable pub allowed_types : AgentTrustLevel → List String
allowed_types trust_level =
    if leb (trust_value trust_level) (trust_value untrusted)
    then "finding" ∷ []
    else if leb (trust_value privileged) (trust_value trust_level)
    then "finding" ∷ "escalation" ∷ "control" ∷ "report" ∷ []
    else "finding" ∷ "escalation" ∷ []

unfoldable pub register_agent :
    String → AgentTrustLevel → List String → SecureAgentBus → SecureAgentBus
unfolding allowed_types
register_agent agent_id trust_level allowed_recipients bus = record bus {
  agent_registry = Dict.set bus.agent_registry agent_id (record {
    trust_level = trust_level;
    allowed_recipients = allowed_recipients;
    allowed_message_types = allowed_types trust_level;
  });
  circuit_breakers =
      Dict.set bus.circuit_breakers agent_id (fresh bus.breaker_threshold bus.breaker_reset);
}

unfoldable pub record_agent_failure : ℕ → String → SecureAgentBus → SecureAgentBus
record_agent_failure now agent_id bus = elim (Dict.get bus.circuit_breakers agent_id) [
  | none ↦ bus
  | some breaker ↦ record bus {
    circuit_breakers = Dict.set bus.circuit_breakers agent_id (record_failure now breaker);
  }
]

-- A key that is dropped from the payloads of agents that are not privileged.
unfoldable pub is_private : AgentTrustLevel → String → Bool
is_private trust_level key =
    ltb (trust_value trust_level) (trust_value privileged) && starts_with key "_system"

-- the texts of a list; its other items stay as they are
abbrev pub filter_items : (String → String) → Items → Items
filter_items filter end = end
filter_items filter (item (str s) rest) = item (str (filter s)) (filter_items filter rest)
filter_items filter (item v rest) = item v (filter_items filter rest)

-- `_sanitize_payload`, and what it does with one value
unfoldable mutual
  pub sanitize_payload : (String → String) → AgentTrustLevel → Fields → Fields
  sanitize_payload filter trust nil = nil
  sanitize_payload filter trust (field key value rest) =
      let value' = sanitize_value filter trust value in
      let rest' = sanitize_payload filter trust rest in
      if is_private trust key then rest' else field key value' rest'

  pub sanitize_value : (String → String) → AgentTrustLevel → Value → Value
  sanitize_value filter trust null = null
  sanitize_value filter trust (bool b) = bool b
  sanitize_value filter trust (nat n) = nat n
  sanitize_value filter trust (number text z) = number text z
  sanitize_value filter trust (str s) = str (filter s)
  sanitize_value filter trust (arr items) = arr (filter_items filter items)
  sanitize_value filter trust (obj fields) = obj (sanitize_payload filter trust fields)

pub record Envelope : Type 0 where
  pub protocol : String
  pub sender : String
  pub recipient : String
  pub type : String
  pub payload : Fields
  pub timestamp : ℕ
  pub signature : String
  pub sender_subject : String
  pub recipient_subject : String

abbrev pub a2a_protocol_version : String
a2a_protocol_version = "a2a/1.0"

unfoldable pub default_mtls_subject : String → String
default_mtls_subject agent_id = "spiffe://cys-agi/agent/" <> agent_id

-- the object that `_sign_message` prints
unfoldable pub signed_body : Primitives → (sender recipient type : String) → Fields → ℕ → Value
signed_body prim sender recipient type payload timestamp = obj (
    field "sender" (str sender) (
      field "recipient" (str recipient) (
        field "type" (str type) (
          field "payload" (obj payload) (field "timestamp" (str (prim.isoformat timestamp)) nil)))))

unfoldable pub sign_message :
    Primitives → SecureAgentBus → (sender recipient type : String) → Fields → ℕ → String
sign_message prim bus sender recipient type payload timestamp =
    prim.hmac bus.signing_key
      (prim.dumps (signed_body prim sender recipient type payload timestamp))

pub data SecurityViolation : Type 0 where
  unknown_sender breaker_open not_authorized type_not_allowed : SecurityViolation
  escalation_blocked unsupported_protocol recipient_mismatch : SecurityViolation
  invalid_signature message_expired mtls_mismatch : SecurityViolation

unfoldable pub log_event : LoggedEvent → SecureAgentBus → SecureAgentBus
log_event e bus = record bus { security_events = bus.security_events ++ e ∷ [] }

-- The sender's breaker is open; asking may reset it.
unfoldable pub breaker_blocks : ℕ → String → SecureAgentBus → Bool × SecureAgentBus
breaker_blocks now sender bus = elim (Dict.get bus.circuit_breakers sender) [
  | none ↦ (false, bus)
  | some breaker ↦
      let (open_now, breaker') = is_open now breaker in
      (open_now, record bus { circuit_breakers = Dict.set bus.circuit_breakers sender breaker' })
]

-- the message that `send_message` returns
unfoldable pub envelope :
    Primitives
    → SecureAgentBus
    → ℕ
    → AgentTrustLevel
    → (sender recipient type : String) → Fields
    → Envelope
envelope prim bus now trust sender recipient type payload =
    let sanitized = sanitize_payload prim.filter_untrusted trust payload in
    record {
      protocol = a2a_protocol_version;
      sender = sender;
      recipient = recipient;
      type = type;
      payload = sanitized;
      timestamp = now;
      signature = sign_message prim bus sender recipient type sanitized now;
      sender_subject = default_mtls_subject sender;
      recipient_subject = default_mtls_subject recipient;
    }

-- `send_message` for a sender that is registered and whose breaker lets it pass
unfoldable pub dispatch :
    Primitives
    → ℕ
    → AgentInfo
    → (sender recipient type : String) → Fields
    → Exec SecureAgentBus SecurityViolation Envelope
dispatch prim now info sender recipient type payload bus =
    if not (elem recipient info.allowed_recipients)
    then (err not_authorized, log_event (unauthorized_message_attempt sender recipient) bus)
    else if not (elem type info.allowed_message_types)
    then (err type_not_allowed, bus)
    else if elem (sender, recipient) bus.escalation_paths
        && (not (type == "escalation") || not (has_true payload "critic_approved"))
    then (
      err escalation_blocked,
      log_event (blocked_privileged_escalation_path sender recipient type) bus,
    )
    else (ok (envelope prim bus now info.trust_level sender recipient type payload), bus)

unfoldable pub send_message :
    Primitives
    → ℕ
    → (sender recipient type : String) → Fields
    → Exec SecureAgentBus SecurityViolation Envelope
send_message prim now sender recipient type payload bus =
    elim (Dict.get bus.agent_registry sender) [
      | none ↦ (err unknown_sender, bus)
      | some info ↦
          let (blocked, bus') = breaker_blocks now sender bus in
          if blocked
          then (err breaker_open, bus')
          else dispatch prim now info sender recipient type payload bus'
    ]

-- `timedelta(minutes=5)`
abbrev pub max_age : ℕ
max_age = 300

unfoldable pub receive_message :
    Primitives → ℕ → SecureAgentBus → String → Envelope → Result SecurityViolation Fields
receive_message prim now bus recipient m =
    if not (m.protocol == a2a_protocol_version)
    then err unsupported_protocol
    else if not (m.recipient == recipient)
    then err recipient_mismatch
    else if not
        (m.signature == sign_message prim bus m.sender m.recipient m.type m.payload m.timestamp)
    then err invalid_signature
    else if ltb (m.timestamp + max_age) now
    then err message_expired
    else if not (m.recipient_subject == default_mtls_subject recipient)
    then err mtls_mismatch
    else ok m.payload
