-- ===== src/Samples/Recall.antt =====
-- The memory of an investigation at concrete runs.
use cys_agi.Prelude.{
  ◌≤◌, String, ◌≡◌, ◌≢◌, All, refl, Bool, false, some, none, Option, List, [], ◌∷◌, count, length,
  arith, string_eq, pair_eq, ◌==◌,
}
use cys_agi.Floats.{Milli, milli}
use cys_agi.Memory.{
  MemoryEntry, Validator, finding, append, in_scope, query_investigation, investigation_scope,
  validate,
}
use cys_agi.Memory.Isolation.{IsOwn, query_investigation_isolated, append_recalled}

abbrev validator : Validator
validator = record {
  is_injection = λ _. false;
  contains_sensitive_data = λ _. false;
  redact_pii = λ s. s;
  filter_patterns = λ s. s;
  checksum = λ content key. key;
}

abbrev entry : MemoryEntry Milli
entry = record {
  id = "m1";
  scope = investigation_scope "acme" "i1";
  content = "beacon";
  memory_type = finding;
  source_agent = "network";
  source_job_id = "network:e1";
  trust_score = 900;
  checksum = "acme:i1";
  created_at = 100;
}

abbrev entries : List (MemoryEntry Milli)
entries = entry ∷ record entry { id = "m2"; scope = investigation_scope "other" "i1" } ∷ []

abbrev of_network : MemoryEntry Milli → Bool
of_network e = e.source_agent == "network"

few_entries : count (in_scope (investigation_scope "acme" "i1")) entries ≤ 5
unfolding in_scope
few_entries = omega arith

query_investigation_isolated_example :
    let found =
      query_investigation ⦃fl = milli⦄ validator 200 "acme" "i1" 5 (some "acme") entries in
    (length found ≤ 5)
    × ((asking : String) → some "acme" ≡ some asking → asking ≢ "acme" → found ≡ [])
    × All (IsOwn validator 200 "acme" "i1") found
query_investigation_isolated_example =
    query_investigation_isolated ⦃fl = milli⦄ validator 200 "acme" "i1" 5 (some "acme") entries

abbrev made : Option (MemoryEntry Milli) × List (MemoryEntry Milli)
made =
    append validator "m1" 100 (investigation_scope "acme" "i1") "beacon" finding "network"
      "network:e1" 900 []

entry_is_made : made.0 ≡ some entry
unfolding append validate
entry_is_made = refl

entry_is_alone : count (in_scope (investigation_scope "acme" "i1")) made.1 ≤ 5
unfolding append validate in_scope
entry_is_alone = omega arith

append_recalled_example :
    1 ≤ count of_network (query_investigation ⦃fl = milli⦄ validator 200 "acme" "i1" 5 none made.1)
append_recalled_example =
    append_recalled ⦃fl = milli⦄ validator "m1" 100 200 (investigation_scope "acme" "i1") "beacon"
      finding "network" "network:e1" 900 [] entry 5 none of_network entry_is_made (omega arith) refl
      entry_is_alone refl

abbrev key : String × String
key = ("acme", "i1")

abbrev persona : String
persona = "soc"
