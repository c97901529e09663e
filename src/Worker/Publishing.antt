-- ===== src/Worker/Publishing.antt =====
-- Where the finding of a run goes on the bus
-- (cys_core/application/use_cases/run_worker_job.py, cys_core/domain/security/agent_bus.py).
use mathlib.Core.List.{append-nil, append_assoc}
use cys_agi.Prelude.{
  ℕ, String, ◌≡◌, refl, sym, ap, subst, ◌∙◌, true, some, List, [], ◌∷◌, ◌++◌, All, elem, map,
  string_eq, arith, Result, ok, err, Result-cases, Option-cases, inl, inr, ◌⊎◌,
}
use cys_agi.Dict
use cys_agi.Dict.{Dict}
use cys_agi.Floats.{FloatOps}
use cys_agi.Json.{Fields}
use cys_agi.Bus.{
  AgentInfo, SecureAgentBus, Primitives, Envelope, send_message, dispatch, envelope as new_envelope,
  receive_message, log_event,
}
use cys_agi.Bus.Sending.{breaker_blocks_keeps}
use cys_agi.Worker.Station.{Failure, bus_violation, Station, Ports}
use cys_agi.Worker.Run.{receive, publish, publish_to, publish_all}

-- The envelope goes from the sender to the recipient, whom the sender's registration allows.
abbrev pub IsAllowed : Dict String AgentInfo → String → String × Envelope → Type 0
IsAllowed registry sender (recipient, e) =
    (e.sender ≡ sender)
    × (e.recipient ≡ recipient)
    × (info : AgentInfo) × (Dict.get registry sender ≡ some info)
    × (elem recipient info.allowed_recipients ≡ true)

-- Sending keeps the registry, and an envelope is one that the registry allows to its sender.
module _ (prim : Primitives) (now : ℕ) (sender recipient type : String) (payload : Fields)
    (bus : SecureAgentBus) where
  send_message_keeps :
      ((send_message prim now sender recipient type payload bus).1.agent_registry
        ≡ bus.agent_registry)
  unfolding send_message dispatch log_event
  send_message_keeps =
      ground (arith, breaker_blocks_keeps prim now sender recipient type payload bus)

  send_message-IsAllowed :
      (e : Envelope)
      → (send_message prim now sender recipient type payload bus).0 ≡ ok e
      → IsAllowed bus.agent_registry sender (recipient, e)
  unfolding send_message dispatch new_envelope
  send_message-IsAllowed e sent = elim (Option-cases (Dict.get bus.agent_registry sender)) [
    | inl absent ↦ absurd (ground arith)
    | inr (info, found) ↦ (ground arith, ground arith, info, found, ground arith)
  ]

module _ {F : Type 0} ⦃fl : FloatOps F⦄ (p : Ports F) (persona : String) (payload : Fields) where
  -- What publishing to one recipient adds.
  abbrev Added : String → Station F → Station F → Type 0
  Added r s t =
      (e : Envelope) × IsAllowed s.bus.agent_registry persona (r, e)
      × (t.published ≡ s.published ++ (r, e) ∷ [])

  publish_to_keeps :
      (r : String) (s : Station F)
      → (publish_to p persona payload r s).1.bus.agent_registry ≡ s.bus.agent_registry
  unfolding publish_to receive publish
  publish_to_keeps r s =
      ground (arith, send_message_keeps p.prim p.now persona r "finding" payload s.bus)

  publish_to_cases :
      (r : String) (s : Station F)
      → (((publish_to p persona payload r s).0 ≡ ok tt)
          × Added r s (publish_to p persona payload r s).1)
        ⊎ ((f : Failure) × ((publish_to p persona payload r s).0 ≡ err f)
            × ((publish_to p persona payload r s).1.published ≡ s.published))
  unfolding publish_to receive publish
  publish_to_cases r s =
      let (sent, bus') = send_message p.prim p.now persona r "finding" payload s.bus in
      elim (Result-cases sent) [
        | inr (e, refused) ↦ inr (bus_violation e, ground arith, ground arith)
        | inl (e, good) ↦ elim (Result-cases (receive_message p.prim p.now bus' r e)) [
          | inr (v, refused) ↦ inr (bus_violation v, ground arith, ground arith)
          | inl (f, accepted) ↦ inl (
            ground arith,
            (
              e,
              send_message-IsAllowed p.prim p.now persona r "finding" payload s.bus e good,
              ground arith,
            ),
          )
        ]
      ]

  -- What publishing to a list of recipients adds: envelopes for the first of them.
  abbrev pub Sent : List String → Station F → Result Failure (Unit {0}) × Station F → Type 0
  Sent recipients s outcome =
      (new : List (String × Envelope)) × (rest : List String) × (outcome.1.published
        ≡ s.published ++ new)
      × All (IsAllowed s.bus.agent_registry persona) new
      × (map (λ (m : String × Envelope). m.0) new ++ rest ≡ recipients)
      × (outcome.0 ≡ ok tt → rest ≡ [])

  -- Publishing a finding adds, in order, one envelope for each of the first recipients, for all of
  -- them if it raises nothing: from the persona to the recipient, whom the persona's registration on
  -- the bus allows.
  pub publish_all-Sent :
      (recipients : List String) (s : Station F)
      → Sent recipients s (publish_all p persona payload recipients s)
  unfolding publish_all
  publish_all-Sent [] s = ([], [], sym (append-nil s.published), tt, refl, λ _. refl)
  publish_all-Sent (r ∷ rs) s = elim (publish_to_cases r s) [
    | inr (f, refused, same) ↦
        rw refused
          ([], r ∷ rs, same ∙ sym (append-nil s.published), tt, refl, λ good. absurd (ground arith))
    | inl (good, (e, allowed, added)) ↦
        let s' = (publish_to p persona payload r s).1 in
        let (new, rest, published, all, order, ends) = publish_all-Sent rs s' in
        rw good (
          (r, e) ∷ new,
          rest,
          published ∙ ap (λ xs. xs ++ new) added ∙ append_assoc s.published ((r, e) ∷ []) new,
          (allowed, subst (λ g. All (IsAllowed g persona) new) (publish_to_keeps r s) all),
          ap (λ xs. r ∷ xs) order,
          ends,
        )
  ]
