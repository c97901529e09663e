-- ===== src/Classification/Protection.antt =====
-- What a persona sees of classified data (cys_core/domain/security/classification.py).
use cys_agi.Prelude.{
  ◌+◌, String, ◌≡◌, ◌≢◌, ◌≤◌, refl, true, some, string_eq, nat_eq, arith, ok, Bool-cases, inl, inr,
  ◌⊎◌,
}
use cys_agi.Json.{Value, Fields, bool, str, lookup, put}
use cys_agi.Json.Lookup.{lookup-put}
use cys_agi.Classification.{
  DataClassification, is_public, is_internal, confidential, restricted, class_order,
  classification_of, default_data_clearance, persona_clearance_pure, can_access, include_in_context,
  redact_for_output, redacted_text, payload_classification, apply_protection,
}

-- The rule for restricted data is the rule for all: a persona may include what is not above its
-- clearance.
include_in_context_lem :
    (clearance c : DataClassification) → include_in_context clearance c ≡ can_access clearance c
unfolding include_in_context can_access
include_in_context_lem is_public restricted = refl
include_in_context_lem is_internal restricted = refl
include_in_context_lem confidential restricted = refl
include_in_context_lem restricted restricted = refl
include_in_context_lem clearance is_public = refl
include_in_context_lem clearance is_internal = refl
include_in_context_lem clearance confidential = refl

module _ (text_of : Value → String) (clearance : DataClassification) (payload : Fields)
    (c : DataClassification) where
  -- A payload with a known classification is let through as it is exactly up to the persona's
  -- clearance. Above it the text is replaced, the payload is marked, and every other entry stays.
  pub apply_protection_exact :
      payload_classification payload ≡ ok c
      → ((class_order c ≤ class_order clearance)
          × (apply_protection text_of clearance payload ≡ ok payload))
        ⊎ ((class_order clearance + 1 ≤ class_order c)
            × (shown : Fields) × (apply_protection text_of clearance payload ≡ ok shown)
            × (lookup shown "text" ≡ some (str redacted_text))
            × (lookup shown "redacted" ≡ some (bool true))
            × ((key : String)
                → key ≢ "text"
                → key ≢ "redacted"
                → lookup shown key ≡ lookup payload key))
  unfolding apply_protection redact_for_output can_access
  apply_protection_exact named = elim (Bool-cases (include_in_context clearance c)) [
    | inl seen ↦ inl (ground (arith, include_in_context_lem clearance c), ground arith)
    | inr hidden ↦
        let once = put payload "text" (str redacted_text) in
        inr (
          ground (arith, include_in_context_lem clearance c),
          put once "redacted" (bool true),
          ground arith,
          ground (
            arith,
            lookup-put once "redacted" (bool true) "text",
            lookup-put payload "text" (str redacted_text) "text",
          ),
          ground (arith, lookup-put once "redacted" (bool true) "redacted"),
          λ key other other'. ground (
            arith,
            lookup-put once "redacted" (bool true) key,
            lookup-put payload "text" (str redacted_text) key,
            string_eq.beq_iff "redacted" key,
            string_eq.beq_iff "text" key,
          ),
        )
  ]

-- A persona whose catalog entry says nothing of a clearance has that of internal data, whatever the
-- table of clearances says of it.
pub persona_clearance_ignored :
    (persona : String)
    → persona_clearance_pure persona (some default_data_clearance) ≡ some is_internal
unfolding persona_clearance_pure classification_of
persona_clearance_ignored persona = refl
