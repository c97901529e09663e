-- ===== src/Memory.antt =====
-- The memory of investigations: `InMemoryEpisodicMemoryStore` and `InMemoryInvestigationStateStore`
-- of cys_core/infrastructure/memory/stores.py, and the services of cys_core/domain/memory/services.py
-- with the validator of cys_core/domain/memory/validator.py. Times are ticks. What rests on regular
-- expressions or SHA-256 is an argument.
pub mod Isolation
pub mod Personas
use Prim.Native.String
use Prim.Native.String.{◌++◌ as ◌<>◌}
use cys_agi.Prelude.{
  ℕ, zero, suc, ◌+◌, ◌*◌, String, Bool, true, false, not, ◌&&◌, ◌||◌, Option, none, some, List, [],
  ◌∷◌, ◌++◌, take, keep, sort, elem, length, leb, ltb, truthy, string_eq, pair_eq, ◌==◌,
  if◌then◌else◌,
}
use cys_agi.Dict
use cys_agi.Dict.{Dict, values}
use cys_agi.Floats.{FloatOps}
use cys_agi.Json.{Fields}

pub data MemoryType : Type 0 where
  finding pending_finding ioc lesson preference conversation : MemoryType

pub record MemoryScope : Type 0 where
  pub tenant_id : String
  pub investigation_id : String
  pub persona : Option String

pub record MemoryEntry (F : Type 0) : Type 0 where
  pub id : String
  pub scope : MemoryScope
  pub content : String
  pub memory_type : MemoryType
  pub source_agent : String
  pub source_job_id : String
  pub trust_score : F
  pub checksum : String
  pub created_at : ℕ

-- `entry.scope.persona in (None, scope.persona)`, for a scope with a persona
abbrev pub persona_fits : Option String → Option String → Bool
persona_fits none _ = true
persona_fits (some p) none = true
persona_fits (some p) (some q) = q == p

module _ {F : Type 0} where
  -- the test of `query`
  unfoldable pub in_scope : MemoryScope → MemoryEntry F → Bool
  in_scope scope entry =
      entry.scope.tenant_id == scope.tenant_id
      && (entry.scope.investigation_id == scope.investigation_id
          && persona_fits scope.persona entry.scope.persona)

  abbrev pub append_entry : MemoryEntry F → List (MemoryEntry F) → List (MemoryEntry F)
  append_entry entry entries = entries ++ entry ∷ []

  -- `query`: the newest entries first
  unfoldable pub query : MemoryScope → ℕ → List (MemoryEntry F) → List (MemoryEntry F)
  query scope limit entries =
      take limit (sort (λ a b. leb b.created_at a.created_at) (keep (in_scope scope) entries))

-- What the validator uses: the sanitizer's verdict and filter, redaction, and the hash.
pub record Validator : Type 0 where
  pub is_injection : String → Bool
  pub contains_sensitive_data : String → Bool
  pub redact_pii : String → String
  pub filter_patterns : String → String
  -- `checksum`, of the content and the namespace
  pub checksum : (content namespace_key : String) → String

pub record ValidatedMemoryContent : Type 0 where
  pub content : String
  pub checksum : String
  pub rejected : Bool

-- `content[:n]`
abbrev pub cut : ℕ → String → String
cut zero s = ""
cut (suc n) String.[] = ""
cut (suc n) (String.◌∷◌ c s) = String.◌∷◌ c (cut n s)

abbrev pub max_item_length : ℕ
max_item_length = 5000

unfoldable pub validate : Validator → (namespace_key content : String) → ValidatedMemoryContent
validate v namespace_key content =
    if v.is_injection content
    then record { content = ""; checksum = ""; rejected = true }
    else (let short = cut max_item_length content in
        let redacted = (if v.contains_sensitive_data short then v.redact_pii short else short) in
        let filtered = v.filter_patterns redacted in
        record {
          content = filtered;
          checksum = v.checksum filtered namespace_key;
          rejected = false;
        })

abbrev pub namespace_of : String → String → String
namespace_of tenant_id investigation_id = tenant_id <> (":" <> investigation_id)

-- `MEMORY_TTL_HOURS`, in seconds
abbrev pub memory_ttl : ℕ
memory_ttl = 24 * 7 * 3600

-- `requesting_tenant_id is not None and requesting_tenant_id != tenant_id`
abbrev pub is_foreign : Option String → String → Bool
is_foreign none tenant_id = false
is_foreign (some t) tenant_id = not (t == tenant_id)

-- `MemoryScope(tenant_id=..., investigation_id=...)`
abbrev pub investigation_scope : String → String → MemoryScope
investigation_scope tenant_id investigation_id = record {
  tenant_id = tenant_id;
  investigation_id = investigation_id;
  persona = none;
}

module _ {F : Type 0} where
  -- `MemoryWriteService.append`, with a fresh id and the time
  unfoldable pub append :
      Validator
      → (id : String) (now : ℕ) (scope : MemoryScope) (content : String) → MemoryType
      → (source_agent source_job_id : String) → F
      → List (MemoryEntry F)
      → Option (MemoryEntry F) × List (MemoryEntry F)
  append v id now scope content memory_type source_agent source_job_id trust_score entries =
      let validated = validate v (namespace_of scope.tenant_id scope.investigation_id) content in
      if validated.rejected || not (truthy validated.content)
      then (none, entries)
      else (let entry : MemoryEntry F = record {
        id = id;
        scope = scope;
        content = validated.content;
        memory_type = memory_type;
        source_agent = source_agent;
        source_job_id = source_job_id;
        trust_score = trust_score;
        checksum = validated.checksum;
        created_at = now;
      } in
          (some entry, append_entry entry entries))

  -- the tests of `query_investigation` on an entry
  unfoldable pub is_valid :
      Validator → ℕ → (tenant_id investigation_id : String) → MemoryEntry F → Bool
  is_valid v now tenant_id investigation_id entry =
      not (ltb (entry.created_at + memory_ttl) now)
      && (not (truthy entry.checksum)
          || (v.checksum entry.content (namespace_of tenant_id investigation_id) == entry.checksum))

  unfoldable pub query_investigation :
      ⦃fl : FloatOps F⦄
      → Validator
      → (now : ℕ) (tenant_id investigation_id : String) (limit : ℕ) → Option String
      → List (MemoryEntry F)
      → List (MemoryEntry F)
  unfolding query
  query_investigation ⦃fl⦄ v now tenant_id investigation_id limit requesting entries =
      if is_foreign requesting tenant_id
      then []
      else take limit (
          sort (λ a b. not (fl.gt b.trust_score a.trust_score))
            (keep (is_valid v now tenant_id investigation_id)
              (query (investigation_scope tenant_id investigation_id) limit entries)))

pub data InvestigationStatus : Type 0 where
  opened in_progress closed : InvestigationStatus

pub data PlannerStatus : Type 0 where
  planning planned fallback planner_failed : PlannerStatus

-- The literals `ok` and `error` of the planner's status are `planned` and `planner_failed`.
pub record InvestigationState : Type 0 where
  pub investigation_id : String
  pub tenant_id : String
  pub goal : String
  pub status : InvestigationStatus
  pub completed_personas : List String
  pub findings_summary : List Fields
  pub planner_plan : Option (List String)
  pub planner_status : Option PlannerStatus
  pub planner_rationale : String
  pub planner_error : String

-- `InMemoryInvestigationStateStore._states`
abbrev pub InvestigationStates : Type 0
InvestigationStates = Dict (String × String) InvestigationState

unfoldable pub get_state : InvestigationStates → String → String → Option InvestigationState
get_state states tenant_id investigation_id = Dict.get states (tenant_id, investigation_id)

unfoldable pub upsert_state : InvestigationState → InvestigationStates → InvestigationStates
upsert_state state states = Dict.set states (state.tenant_id, state.investigation_id) state

-- the state that is there, or a new one
unfoldable pub state_or_new : InvestigationStates → String → String → InvestigationState
state_or_new states tenant_id investigation_id =
    elim (Dict.get states (tenant_id, investigation_id)) [
      | some state ↦ state
      | none ↦ record {
        investigation_id = investigation_id;
        tenant_id = tenant_id;
        goal = "";
        status = in_progress;
        completed_personas = [];
        findings_summary = [];
        planner_plan = none;
        planner_status = none;
        planner_rationale = "";
        planner_error = "";
      }
    ]

abbrev pub started : InvestigationStatus → InvestigationStatus
started opened = in_progress
started s = s

unfoldable pub append_finding : String → String → Fields → InvestigationStates → InvestigationStates
unfolding state_or_new
append_finding tenant_id investigation_id item states =
    let state = state_or_new states tenant_id investigation_id in
    Dict.set states (tenant_id, investigation_id)
      (record state {
        findings_summary = state.findings_summary ++ item ∷ [];
        status = started state.status;
      })

unfoldable pub mark_persona_done :
    String → String → String → InvestigationStates → InvestigationStates
unfolding state_or_new
mark_persona_done tenant_id investigation_id persona states =
    let state = state_or_new states tenant_id investigation_id in
    Dict.set states (tenant_id, investigation_id)
      (record state {
        completed_personas =
            if elem persona state.completed_personas
            then state.completed_personas
            else state.completed_personas ++ persona ∷ [];
      })

unfoldable pub list_recent : String → ℕ → InvestigationStates → List InvestigationState
list_recent tenant_id limit states =
    take limit (keep (λ s. s.tenant_id == tenant_id) (values states))
