-- ===== src/Classification.antt =====
-- The classification of data: `SecureContextBuilder` of cys_core/domain/security/classification.py,
-- cys_core/domain/security/data_classification.py, and `persona_clearance_pure` of
-- cys_core/domain/policy/pure.py with its table in defaults.py. `str.lower` is an argument, and so is
-- the catalog's entry of a persona.
pub mod Protection
use Prim.Native.String
use cys_agi.Prelude.{
  ℕ, String, Bool, true, false, not, ◌&&◌, ◌||◌, Option, none, some, List, [], ◌∷◌, any, leb,
  truthy, string_eq, nat_eq, ◌==◌, if◌then◌else◌, Result, ok, err, starts_with,
}
use cys_agi.Dict
use cys_agi.Dict.{Dict}
use cys_agi.Json.{Value, Fields, bool, str, lookup, put}

pub data DataClassification : Type 0 where
  is_public is_internal confidential restricted : DataClassification

-- `_CLASS_ORDER.index(classification)`
abbrev pub class_order : DataClassification → ℕ
class_order is_public = 0
class_order is_internal = 1
class_order confidential = 2
class_order restricted = 3

-- `DataClassification(raw)`, and `none` where it raises `ValueError`
unfoldable pub classification_of : String → Option DataClassification
classification_of raw =
    if raw == "public"
    then some is_public
    else if raw == "internal"
    then some is_internal
    else if raw == "confidential"
    then some confidential
    else if raw == "restricted"
    then some restricted
    else none

-- `PERSONA_CLEARANCE`
abbrev pub persona_clearances : Dict String String
persona_clearances =
    ("soc", "confidential")
    ∷ ("network", "confidential")
    ∷ ("compliance", "restricted")
    ∷ ("redteam", "confidential")
    ∷ ("intel", "confidential")
    ∷ ("hunter", "confidential")
    ∷ ("identity", "confidential")
    ∷ ("dfir", "restricted")
    ∷ ("cloud", "confidential")
    ∷ ("purple", "internal")
    ∷ ("consultant", "internal")
    ∷ ("coordinator", "restricted")
    ∷ ("critic", "internal")
    ∷ []

-- The default of `AgentCatalogEntry.data_clearance`.
abbrev pub default_data_clearance : String
default_data_clearance = "internal"

-- `persona_clearance_pure`, from the `data_clearance` of the catalog's entry, if there is one
unfoldable pub persona_clearance_pure : String → Option String → Option DataClassification
persona_clearance_pure persona entry =
    let by_table = classification_of (Dict.get_or persona_clearances persona "internal") in
    elim entry [
      | none ↦ by_table
      | some data_clearance ↦
          if truthy data_clearance then classification_of data_clearance else by_table
    ]

-- `part in text`
unfoldable pub contains : String → String → Bool
contains String.[] part = starts_with String.[] part
contains (String.◌∷◌ c s) part = starts_with (String.◌∷◌ c s) part || contains s part

-- `classify_text`, of a text in lower case
unfoldable pub classify_text : String → DataClassification
classify_text lower =
    if any (contains lower) ("ssn" ∷ "passport" ∷ "credit card" ∷ "паспорт" ∷ [])
    then restricted
    else if any (contains lower) ("password" ∷ "api_key" ∷ "secret" ∷ "token" ∷ [])
    then confidential
    else if any (contains lower) ("internal only" ∷ "confidential" ∷ [])
    then confidential
    else is_internal

-- The methods that ask for the persona's clearance take it as an argument.
unfoldable pub can_access : DataClassification → DataClassification → Bool
can_access clearance classification = leb (class_order classification) (class_order clearance)

unfoldable pub include_in_context : DataClassification → DataClassification → Bool
unfolding can_access
include_in_context clearance restricted = class_order clearance == class_order restricted
include_in_context clearance classification = can_access clearance classification

abbrev pub redacted_text : String
redacted_text = "[REDACTED_CLASSIFICATION]"

unfoldable pub redact_for_output : DataClassification → String → DataClassification → String
redact_for_output clearance text classification =
    if include_in_context clearance classification then text else redacted_text

unfoldable pub log_allowed : DataClassification → Bool
log_allowed restricted = false
log_allowed _ = true

pub data ClassificationError : Type 0 where
  unknown_classification : ClassificationError

-- the classification that a payload names; one that names none is internal
unfoldable pub payload_classification : Fields → Result ClassificationError DataClassification
payload_classification payload = elim (lookup payload "classification") [
  | none ↦ ok is_internal
  | some (str raw) ↦ elim (classification_of raw) [
    | none ↦ err unknown_classification
    | some c ↦ ok c
  ]
  | some _ ↦ err unknown_classification
]

-- `str(payload.get("text", ""))`, with the text of a value that is none
unfoldable pub payload_text : (Value → String) → Fields → String
payload_text text_of payload = elim (lookup payload "text") [
  | none ↦ ""
  | some (str s) ↦ s
  | some v ↦ text_of v
]

unfoldable pub apply_protection :
    (Value → String) → DataClassification → Fields → Result ClassificationError Fields
unfolding payload_classification payload_text redact_for_output
apply_protection text_of clearance payload = elim (payload_classification payload) [
  | err e ↦ err e
  | ok classification ↦
      if include_in_context clearance classification
      then ok payload
      else ok (
          put
            (put payload "text"
              (str (redact_for_output clearance (payload_text text_of payload) classification)))
            "redacted" (bool true))
]
