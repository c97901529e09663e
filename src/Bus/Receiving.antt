-- ===== src/Bus/Receiving.antt =====
-- What `SecureAgentBus.receive_message` accepts (cys_core/domain/security/agent_bus.py).
use text.Mathlib.TextPositions.{eq_refl}
use cys_agi.Prelude.{
  ℕ, ◌+◌, ◌≤◌, String, ◌≡◌, sym, ◌∙◌, ltb, string_eq, if◌then◌else◌, arith, ok, err,
}
use cys_agi.Json.{Value, Fields}
use cys_agi.Bus.{
  AgentTrustLevel, SecureAgentBus, Primitives, Envelope, envelope, sign_message, signed_body,
  receive_message, message_expired, max_age, sanitize_payload,
}

sign_message_key :
    (prim : Primitives) (bus bus' : SecureAgentBus) (sender recipient type : String)
    (payload : Fields) (t : ℕ)
    → bus'.signing_key ≡ bus.signing_key
    → sign_message prim bus' sender recipient type payload t
      ≡ sign_message prim bus sender recipient type payload t
unfolding sign_message
sign_message_key prim bus bus' sender recipient type payload t key = cc

-- An envelope that `send_message` built is accepted by its recipient on a bus with the same key
-- for five minutes, with the sanitized payload, and is refused as expired from then on.
pub receive_message-envelope :
    (prim : Primitives) (bus bus' : SecureAgentBus) (sent now : ℕ) (trust : AgentTrustLevel)
    (sender recipient type : String) (payload : Fields)
    → bus'.signing_key ≡ bus.signing_key
    → receive_message prim now bus' recipient
        (envelope prim bus sent trust sender recipient type payload)
      ≡ (if ltb (sent + max_age) now
          then err message_expired
          else ok (sanitize_payload prim.filter_untrusted trust payload))
unfolding receive_message envelope
receive_message-envelope prim bus bus' sent now trust sender recipient type payload key =
    let same =
      sign_message_key prim bus bus' sender recipient type
        (sanitize_payload prim.filter_untrusted trust payload) sent key in
    simp (same, eq_refl)

pub record IsAuthentic (prim : Primitives) (bus : SecureAgentBus) (recipient : String) (now : ℕ)
    (m : Envelope) : Type 0 where
  pub for_recipient : m.recipient ≡ recipient
  pub signed : m.signature ≡ sign_message prim bus m.sender m.recipient m.type m.payload m.timestamp
  pub fresh : now ≤ m.timestamp + max_age

-- What is accepted is a message for this recipient whose signature is that of its own fields under
-- the key of the bus, and that is at most five minutes old; and its payload is returned as it is.
pub receive_message-IsAuthentic :
    (prim : Primitives) (now : ℕ) (bus : SecureAgentBus) (recipient : String) (m : Envelope)
    (payload : Fields)
    → receive_message prim now bus recipient m ≡ ok payload
    → IsAuthentic prim bus recipient now m × (payload ≡ m.payload)
unfolding receive_message
receive_message-IsAuthentic prim now bus recipient m payload accepted =
    let signature = sign_message prim bus m.sender m.recipient m.type m.payload m.timestamp in
    (
      record {
        for_recipient = ground (arith, string_eq.beq_iff m.recipient recipient);
        signed = ground (arith, string_eq.beq_iff m.signature signature);
        fresh = ground arith;
      },
      ground arith,
    )

signed_body_inj :
    (prim : Primitives) (s s' r r' t t' : String) (p p' : Fields) (a b : ℕ)
    → (prim.isoformat a ≡ prim.isoformat b → a ≡ b)
    → signed_body prim s r t p a ≡ signed_body prim s' r' t' p' b
    → (s ≡ s') × (r ≡ r') × (t ≡ t') × (p ≡ p') × (a ≡ b)
unfolding signed_body
signed_body_inj prim s s' r r' t t' p p' a b inj e = (cc, cc, cc, cc, inj (cc))

-- If the two signed bodies do not collide under HMAC, nor the two times in print: a message that is
-- accepted with the signature of an envelope that the bus signed has the sender, recipient, type,
-- payload and time of that envelope, so nothing of it was changed on the way.
pub receive_message_unaltered :
    (prim : Primitives) (bus : SecureAgentBus) (now : ℕ) (to : String) (m e : Envelope)
    (payload : Fields)
    → let body : Envelope → Value =
        λ x. signed_body prim x.sender x.recipient x.type x.payload x.timestamp in
      (prim.hmac bus.signing_key (prim.dumps (body m))
          ≡ prim.hmac bus.signing_key (prim.dumps (body e))
        → body m ≡ body e)
      → (prim.isoformat m.timestamp ≡ prim.isoformat e.timestamp → m.timestamp ≡ e.timestamp)
      → e.signature ≡ sign_message prim bus e.sender e.recipient e.type e.payload e.timestamp
      → receive_message prim now bus to m ≡ ok payload
      → m.signature ≡ e.signature
      → (m.sender ≡ e.sender)
        × (m.recipient ≡ e.recipient)
        × (m.type ≡ e.type)
        × (m.payload ≡ e.payload)
        × (m.timestamp ≡ e.timestamp)
unfolding sign_message
receive_message_unaltered prim bus now to m e payload no_collision times made accepted same =
    let signed = (receive_message-IsAuthentic prim now bus to m payload accepted).0.signed in
    signed_body_inj prim m.sender e.sender m.recipient e.recipient m.type e.type m.payload e.payload
      m.timestamp e.timestamp times (no_collision (sym signed ∙ same ∙ made))
