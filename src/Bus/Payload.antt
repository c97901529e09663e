-- ===== src/Bus/Payload.antt =====
-- What `_sanitize_payload` of cys_core/domain/security/agent_bus.py leaves of a payload.
use cys_agi.Prelude.{String, starts_with, ◌≡◌, false, if◌then◌else◌, Bool-cases, inl, inr}
use cys_agi.Json.{
  Value, Items, Fields, null, bool, nat, number, str, arr, obj, end, item, nil, field,
}
use cys_agi.Bus.{
  AgentTrustLevel, untrusted, internal, privileged, system, is_private, filter_items,
  sanitize_payload, sanitize_value,
}

-- Every text of a list satisfies a predicate.
abbrev pub CleanItems : (String → Type 0) → Items → Type 0
CleanItems P end = Unit
CleanItems P (item (str s) rest) = P s × CleanItems P rest
CleanItems P (item value rest) = CleanItems P rest

-- A key that an agent may be shown: one that does not begin with `_system`, unless the agent is
-- privileged or the system.
abbrev pub IsVisible : AgentTrustLevel → String → Type 0
IsVisible untrusted key = starts_with key "_system" ≡ false
IsVisible internal key = starts_with key "_system" ≡ false
IsVisible privileged key = Unit
IsVisible system key = Unit

is_private-IsVisible :
    (trust : AgentTrustLevel) (key : String) → is_private trust key ≡ false → IsVisible trust key
unfolding is_private
is_private-IsVisible untrusted key e = e
is_private-IsVisible internal key e = e
is_private-IsVisible privileged key e = tt
is_private-IsVisible system key e = tt

-- Every key of a dict that is reached through dicts alone is visible, and every text that is reached
-- through dicts, or stands in a list that is, satisfies a predicate.
abbrev mutual
  pub CleanFields : (String → Type 0) → AgentTrustLevel → Fields → Type 0
  CleanFields P trust nil = Unit
  CleanFields P trust (field key value rest) =
      IsVisible trust key × CleanValue P trust value × CleanFields P trust rest

  pub CleanValue : (String → Type 0) → AgentTrustLevel → Value → Type 0
  CleanValue P trust null = Unit
  CleanValue P trust (bool b) = Unit
  CleanValue P trust (nat n) = Unit
  CleanValue P trust (number text z) = Unit
  CleanValue P trust (str s) = P s
  CleanValue P trust (arr items) = CleanItems P items
  CleanValue P trust (obj fields) = CleanFields P trust fields

module _ (filter : String → String) (P : String → Type 0)
    (filtered : (s : String) → P (filter s)) where
  CleanItems-filter_items : (items : Items) → CleanItems P (filter_items filter items)
  CleanItems-filter_items end = tt
  CleanItems-filter_items (item null rest) = CleanItems-filter_items rest
  CleanItems-filter_items (item (bool b) rest) = CleanItems-filter_items rest
  CleanItems-filter_items (item (nat n) rest) = CleanItems-filter_items rest
  CleanItems-filter_items (item (number t z) rest) = CleanItems-filter_items rest
  CleanItems-filter_items (item (str s) rest) = (filtered s, CleanItems-filter_items rest)
  CleanItems-filter_items (item (arr xs) rest) = CleanItems-filter_items rest
  CleanItems-filter_items (item (obj fs) rest) = CleanItems-filter_items rest

  CleanFields-kept :
      (trust : AgentTrustLevel) (key : String) (value : Value) (rest : Fields)
      → CleanValue P trust value
      → CleanFields P trust rest
      → CleanFields P trust (if is_private trust key then rest else field key value rest)
  CleanFields-kept trust key value rest v r = elim (Bool-cases (is_private trust key)) [
    | inl hidden ↦ rw hidden r
    | inr shown ↦ rw shown (is_private-IsVisible trust key shown, v, r)
  ]

  mutual
    unfolding sanitize_payload

    CleanFields-sanitize_payload :
        (fields : Fields) (trust : AgentTrustLevel)
        → CleanFields P trust (sanitize_payload filter trust fields)
    CleanFields-sanitize_payload nil trust = tt
    CleanFields-sanitize_payload (field key value rest) trust =
        CleanFields-kept trust key (sanitize_value filter trust value)
          (sanitize_payload filter trust rest) (CleanValue-sanitize_value value trust)
          (CleanFields-sanitize_payload rest trust)

    CleanValue-sanitize_value :
        (value : Value) (trust : AgentTrustLevel)
        → CleanValue P trust (sanitize_value filter trust value)
    CleanValue-sanitize_value null trust = tt
    CleanValue-sanitize_value (bool b) trust = tt
    CleanValue-sanitize_value (nat n) trust = tt
    CleanValue-sanitize_value (number t z) trust = tt
    CleanValue-sanitize_value (str s) trust = filtered s
    CleanValue-sanitize_value (arr items) trust = CleanItems-filter_items items
    CleanValue-sanitize_value (obj fields) trust = CleanFields-sanitize_payload fields trust

-- Whatever holds of every text that the sanitizer returns holds of every text of the sanitized
-- payload that is reached through dicts or stands in a list that is; and for an agent whose
-- trust is untrusted or internal, no dict that is reached through dicts keeps a key that begins with `_system`.
pub sanitize_payload-clean :
    (filter : String → String) (P : String → Type 0) (payload : Fields) (trust : AgentTrustLevel)
    → ((s : String) → P (filter s))
    → CleanFields P trust (sanitize_payload filter trust payload)
sanitize_payload-clean filter P payload trust filtered =
    CleanFields-sanitize_payload filter P filtered payload trust

-- A dict inside a list is passed on as it is, private keys and unfiltered texts included.
pub sanitize_payload_list :
    (filter : String → String) (trust : AgentTrustLevel) (key : String) (inner rest : Fields)
    → is_private trust key ≡ false
    → sanitize_payload filter trust (field key (arr (item (obj inner) end)) rest)
      ≡ field key (arr (item (obj inner) end)) (sanitize_payload filter trust rest)
unfolding sanitize_payload
sanitize_payload_list filter trust key inner rest shown = rw shown
