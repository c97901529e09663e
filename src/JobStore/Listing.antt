-- ===== src/JobStore/Listing.antt =====
-- The jobs of an investigation, as cys_core/infrastructure/job_store/in_memory.py lists them.
use cys_agi.Prelude.{
  String, ◌≡◌, refl, ◌∙◌, Bool, ◌&&◌, List, [], ◌∷◌, map, arith, count, keep, count-sort, str_leb,
  string_eq, ◌==◌,
}
use cys_agi.Dict.{values}
use cys_agi.JobStore.{JobRecordSummary, InMemoryJobStore, summary, list_by_investigation}

module _ {ℓ κ} {A : Type ℓ} {B : Type κ} (p : B → Bool) (q : A → Bool) (f : A → B) where
  count-map-keep : (xs : List A) → count p (map f (keep q xs)) ≡ count (λ x. q x && p (f x)) xs
  count-map-keep [] = refl
  count-map-keep (x ∷ xs) = ground (arith, count-map-keep xs)

-- For every test of summaries: as many of the listed jobs pass it as there are records of that
-- tenant and investigation in the store whose summaries pass it. So a job of another tenant or
-- investigation is never listed, and none of its own is missing or listed twice.
pub list_by_investigation_exact :
    (p : JobRecordSummary → Bool) (tenant_id investigation_id : String) (jobs : InMemoryJobStore)
    → count p (list_by_investigation tenant_id investigation_id jobs)
      ≡ count
          (λ r. (r.tenant_id == tenant_id && r.correlation_id == investigation_id) && p (summary r))
          (values jobs)
unfolding list_by_investigation
list_by_investigation_exact p tenant_id investigation_id jobs =
    count-sort (λ a b. str_leb a.job_id b.job_id) p _
    ∙ count-map-keep p (λ r. r.tenant_id == tenant_id && r.correlation_id == investigation_id)
        summary (values jobs)
