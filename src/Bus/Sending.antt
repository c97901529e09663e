-- ===== src/Bus/Sending.antt =====
-- What `SecureAgentBus.send_message` lets through (cys_core/domain/security/agent_bus.py).
use cys_agi.Prelude.{
  ℕ, String, ◌≡◌, true, false, not, ◌&&◌, ◌||◌, some, elem, string_eq, pair_eq, ◌==◌, arith, ok,
  Option-cases, inl, inr,
}
use cys_agi.Dict
use cys_agi.Json.{Fields, has_true}
use cys_agi.Bus.{
  AgentInfo, SecureAgentBus, Primitives, Envelope, breaker_blocks, dispatch, send_message,
}

-- What a message must satisfy to be sent.
pub record MaySend (now : ℕ) (info : AgentInfo) (sender recipient type : String) (payload : Fields)
    (bus : SecureAgentBus) : Type 0 where
  pub registered : Dict.get bus.agent_registry sender ≡ some info
  pub breaker : (breaker_blocks now sender bus).0 ≡ false
  pub recipient_allowed : elem recipient info.allowed_recipients ≡ true
  pub type_allowed : elem type info.allowed_message_types ≡ true
  pub approved :
      (not (elem (sender, recipient) bus.escalation_paths)
        || ((type == "escalation") && has_true payload "critic_approved"))
      ≡ true

module _ (prim : Primitives) (now : ℕ) (sender recipient type : String) (payload : Fields)
    (bus : SecureAgentBus) where
  -- asking the breaker changes neither the registry nor the paths
  pub breaker_blocks_keeps :
      ((breaker_blocks now sender bus).1.escalation_paths ≡ bus.escalation_paths)
      × ((breaker_blocks now sender bus).1.security_events ≡ bus.security_events)
      × ((breaker_blocks now sender bus).1.signing_key ≡ bus.signing_key)
      × ((breaker_blocks now sender bus).1.agent_registry ≡ bus.agent_registry)
  unfolding breaker_blocks
  breaker_blocks_keeps = ground arith

  -- A message is sent only by a registered sender with a closed breaker, to a recipient and with a
  -- type that its registration allows, and on an escalation path only as an escalation that the
  -- critic approved.
  pub send_message-MaySend :
      (e : Envelope)
      → (send_message prim now sender recipient type payload bus).0 ≡ ok e
      → (info : AgentInfo) × MaySend now info sender recipient type payload bus
  unfolding send_message dispatch
  send_message-MaySend e sent = elim (Option-cases (Dict.get bus.agent_registry sender)) [
    | inl absent ↦ absurd (ground arith)
    | inr (info, found) ↦ (
      info,
      record {
        registered = found;
        breaker = ground arith;
        recipient_allowed = ground arith;
        type_allowed = ground arith;
        approved = ground (arith, breaker_blocks_keeps);
      },
    )
  ]
