-- ===== src/Memory/Isolation.antt =====
-- What a query of the memory returns (cys_core/domain/memory/services.py and
-- cys_core/infrastructure/memory/stores.py).
use cys_agi.Prelude.{
  ℕ, ◌+◌, ◌≤◌, String, ◌≡◌, ◌≢◌, ◌⊎◌, All, truthy, ◌∙◌, refl, ap, Bool, true, false, not, ◌&&◌,
  Option, some, List, [], ◌∷◌, ◌++◌, take, keep, sort, count, length, leb, arith, count-le-length,
  count-take-le, length-take-le, take_all, count-keep, count-sort, count-append, length-count,
  count_ext, count_none, string_eq, Bool-cases, inl, inr,
}
use Prim.Native.String.{◌++◌ as ◌<>◌}
use cys_agi.Floats.{FloatOps}
use cys_agi.Memory.{
  MemoryScope, MemoryEntry, MemoryType, Validator, in_scope, query, validate, append, is_valid,
  is_foreign, query_investigation, namespace_of, memory_ttl, investigation_scope,
}

truthy-empty : (s : String) → truthy s ≡ false → s ≡ ""
truthy-empty s h = ground (arith, h, string_eq.beq_iff s "")

-- What a test implies holds of a list without an entry that fails it.
All-counted :
    {A : Type 0} (test : A → Bool) (P : A → Type 0)
    → ((a : A) → test a ≡ true → P a)
    → (xs : List A) → count (λ a. not (test a)) xs ≡ 0
    → All P xs
All-counted test P h [] none_fails = tt
All-counted test P h (x ∷ xs) none_fails = elim (Bool-cases (test x)) [
  | inl passes ↦ (h x passes, All-counted test P h xs (ground (arith, passes, none_fails)))
  | inr fails ↦ absurd (ground (arith, fails, none_fails))
]

module _ {F : Type 0} (scope : MemoryScope) (limit : ℕ) (entries : List (MemoryEntry F)) where
  count-query-le :
      (p : MemoryEntry F → Bool)
      → count p (query scope limit entries) ≤ count (λ e. in_scope scope e && p e) entries
  unfolding query
  count-query-le p =
      let newest : MemoryEntry F → MemoryEntry F → Bool = λ a b. leb b.created_at a.created_at in
      omega (
        arith,
        count-take-le p limit (sort newest (keep (in_scope scope) entries)),
        count-sort newest p (keep (in_scope scope) entries),
        count-keep p (in_scope scope) entries,
      )

  -- If the scope has no more entries than the limit, a query of the store returns no more than the
  -- limit, and for every test as many as the stored entries of the scope that pass it.
  pub query_exact :
      (p : MemoryEntry F → Bool)
      → count (in_scope scope) entries ≤ limit
      → (length (query scope limit entries) ≤ limit)
        × (count p (query scope limit entries) ≡ count (λ e. in_scope scope e && p e) entries)
  unfolding query
  query_exact p fits =
      let newest : MemoryEntry F → MemoryEntry F → Bool = λ a b. leb b.created_at a.created_at in
      let kept = keep (in_scope scope) entries in
      let all =
        length-count (sort newest kept)
        ∙ count-sort newest (λ _. true) kept
        ∙ count-keep (λ _. true) (in_scope scope) entries
        ∙ count_ext (λ e. in_scope scope e && true) (in_scope scope) entries (λ e. ground arith) in
      (
        length-take-le limit (sort newest kept),
        ap (count p) (take_all limit (sort newest kept) (omega (arith, all, fits)))
            ∙ count-sort newest p kept
            ∙ count-keep p (in_scope scope) entries,
      )

module _ {F : Type 0} (v : Validator) (now : ℕ) (tenant_id investigation_id : String) where
  -- An entry of the tenant and the investigation, not older than 168 hours, whose checksum is
  -- empty or that of its content.
  abbrev pub IsOwn : MemoryEntry F → Type 0
  IsOwn e =
      (e.scope.tenant_id ≡ tenant_id)
      × (e.scope.investigation_id ≡ investigation_id)
      × (now ≤ e.created_at + 604800)
      × ((e.checksum ≡ "")
          ⊎ (v.checksum e.content (tenant_id <> (":" <> investigation_id)) ≡ e.checksum))

module _ {F : Type 0} ⦃fl : FloatOps F⦄ (v : Validator) (now : ℕ)
    (tenant_id investigation_id : String) (limit : ℕ) (requesting : Option String)
    (entries : List (MemoryEntry F)) where
  abbrev by_trust : MemoryEntry F → MemoryEntry F → Bool
  by_trust a b = not (fl.gt b.trust_score a.trust_score)

  abbrev recalled : List (MemoryEntry F)
  recalled =
      keep (is_valid v now tenant_id investigation_id)
        (query (investigation_scope tenant_id investigation_id) limit entries)

  -- What an entry must be to be recalled.
  abbrev is_recallable : MemoryEntry F → Bool
  is_recallable e =
      in_scope (investigation_scope tenant_id investigation_id) e
      && is_valid v now tenant_id investigation_id e

  query_investigation_own :
      is_foreign requesting tenant_id ≡ false
      → query_investigation v now tenant_id investigation_id limit requesting entries
        ≡ take limit (sort by_trust recalled)
  unfolding query_investigation query
  query_investigation_own own = rw own refl

  query_investigation_foreign :
      is_foreign requesting tenant_id ≡ true
      → query_investigation v now tenant_id investigation_id limit requesting entries ≡ []
  unfolding query_investigation
  query_investigation_foreign foreign = rw foreign refl

  count-recalled :
      (p : MemoryEntry F → Bool)
      → count p (take limit (sort by_trust recalled)) ≤ count (λ e. is_recallable e && p e) entries
  count-recalled p = omega (
    arith,
    count-take-le p limit (sort by_trust recalled),
    count-sort by_trust p recalled,
    count-keep p (is_valid v now tenant_id investigation_id)
        (query (investigation_scope tenant_id investigation_id) limit entries),
    count-query-le (investigation_scope tenant_id investigation_id) limit entries
        (λ e. is_valid v now tenant_id investigation_id e && p e),
    count_ext
        (λ e.
          in_scope (investigation_scope tenant_id investigation_id) e
          && (is_valid v now tenant_id investigation_id e && p e))
        (λ e. is_recallable e && p e) entries (λ e. ground arith),
  )

  is_recallable-IsOwn :
      (e : MemoryEntry F) → is_recallable e ≡ true → IsOwn v now tenant_id investigation_id e
  unfolding in_scope is_valid
  is_recallable-IsOwn e h = (
    ground (arith, h, string_eq.beq_iff e.scope.tenant_id tenant_id),
    ground (arith, h, string_eq.beq_iff e.scope.investigation_id investigation_id),
    ground (arith, h),
    elim (Bool-cases (truthy e.checksum)) [
      | inr empty ↦ inl (truthy-empty e.checksum empty)
      | inl marked ↦ inr (
          ground (
            arith,
            h,
            marked,
            string_eq.beq_iff (v.checksum e.content (tenant_id <> (":" <> investigation_id)))
                e.checksum,
          ))
    ],
  )

  -- Nothing is recalled for a tenant that asks for another's investigation. What is recalled is at
  -- most as many entries as the limit, all of that tenant and investigation, none older than 168
  -- hours, and none whose checksum, if it has one, is not that of its content.
  pub query_investigation_isolated :
      let found = query_investigation v now tenant_id investigation_id limit requesting entries in
      (length found ≤ limit)
      × ((asking : String) → requesting ≡ some asking → asking ≢ tenant_id → found ≡ [])
      × All (IsOwn v now tenant_id investigation_id) found
  query_investigation_isolated = elim (Bool-cases (is_foreign requesting tenant_id)) [
    | inl foreign ↦
        rw (query_investigation_foreign foreign) (omega arith, λ asking asks differs. refl, tt)
    | inr own ↦ rw (query_investigation_own own) (
      length-take-le limit (sort by_trust recalled),
      λ asking asks differs.
          absurd (ground (arith, rw asks at own, differs, string_eq.beq_iff asking tenant_id)),
      All-counted is_recallable (IsOwn v now tenant_id investigation_id) is_recallable-IsOwn
          (take limit (sort by_trust recalled))
          (omega (
            arith,
            count-recalled (λ e. not (is_recallable e)),
            count_none (λ e. is_recallable e && not (is_recallable e)) entries (λ e. ground arith),
          )),
    )
  ]

  -- If the investigation has no more entries than the limit, its own tenant, or a caller that names
  -- none, is given for every test as many entries as pass it of those that are of the investigation,
  -- young enough and unaltered.
  pub query_investigation_exact :
      (p : MemoryEntry F → Bool)
      → is_foreign requesting tenant_id ≡ false
      → count (in_scope (investigation_scope tenant_id investigation_id)) entries ≤ limit
      → count p (query_investigation v now tenant_id investigation_id limit requesting entries)
        ≡ count (λ e. is_recallable e && p e) entries
  query_investigation_exact p own fits =
      let scope = investigation_scope tenant_id investigation_id in
      let valid = is_valid v now tenant_id investigation_id in
      let few : length (sort by_trust recalled) ≤ limit = omega (
        arith,
        length-count (sort by_trust recalled),
        count-sort by_trust (λ _. true) recalled,
        length-count recalled,
        count-keep (λ _. true) valid (query scope limit entries),
        count-le-length (λ e. valid e && true) (query scope limit entries),
        (query_exact scope limit entries p fits).0,
      ) in
      rw (query_investigation_own own, take_all limit (sort by_trust recalled) few)
        (count-sort by_trust p recalled
          ∙ count-keep p valid (query scope limit entries)
          ∙ (query_exact scope limit entries (λ e. valid e && p e) fits).1
          ∙ count_ext (λ e. in_scope scope e && (valid e && p e)) (λ e. is_recallable e && p e)
              entries (λ e. ground arith))

module _ {F : Type 0} (v : Validator) (id : String) (now : ℕ) (scope : MemoryScope)
    (content : String) (memory_type : MemoryType) (source_agent source_job_id : String)
    (trust_score : F) (entries : List (MemoryEntry F)) (e : MemoryEntry F) where
  abbrev stored : Option (MemoryEntry F) × List (MemoryEntry F)
  stored = append v id now scope content memory_type source_agent source_job_id trust_score entries

  append_stores :
      stored.0 ≡ some e
      → (stored.1 ≡ entries ++ e ∷ [])
        × (e.scope ≡ scope)
        × (e.created_at ≡ now)
        × (e.checksum ≡ v.checksum e.content (namespace_of scope.tenant_id scope.investigation_id))
  unfolding append validate
  append_stores made = (ground arith, ground arith, ground arith, ground arith)

  append_recallable :
      (later : ℕ)
      → stored.0 ≡ some e
      → later ≤ now + memory_ttl
      → (in_scope (investigation_scope scope.tenant_id scope.investigation_id) e ≡ true)
        × (is_valid v later scope.tenant_id scope.investigation_id e ≡ true)
  unfolding in_scope is_valid
  append_recallable later made fresh =
      let (_, where_, when, sum) = append_stores made in
      (
        ground (
          arith,
          string_eq.beq_iff e.scope.tenant_id scope.tenant_id,
          string_eq.beq_iff e.scope.investigation_id scope.investigation_id,
          ap (λ (s : MemoryScope). s.tenant_id) where_,
          ap (λ (s : MemoryScope). s.investigation_id) where_,
        ),
        ground (
          arith,
          string_eq.beq_iff
              (v.checksum e.content (namespace_of scope.tenant_id scope.investigation_id))
              e.checksum,
        ),
      )

-- An entry that the write service stored is recalled by the read service until its time to live is
-- over, by its own tenant or a caller that names none, if the investigation then has no more
-- entries than the limit: every test that it passes is passed by a recalled entry.
pub append_recalled :
    {F : Type 0} ⦃fl : FloatOps F⦄ (v : Validator) (id : String) (now later : ℕ)
    (scope : MemoryScope) (content : String) (memory_type : MemoryType)
    (source_agent source_job_id : String) (trust_score : F) (entries : List (MemoryEntry F))
    (e : MemoryEntry F) (limit : ℕ) (requesting : Option String) (p : MemoryEntry F → Bool)
    → let stored =
        append v id now scope content memory_type source_agent source_job_id trust_score entries in
      stored.0 ≡ some e
      → later ≤ now + memory_ttl
      → is_foreign requesting scope.tenant_id ≡ false
      → count (in_scope (investigation_scope scope.tenant_id scope.investigation_id)) stored.1
        ≤ limit
      → p e ≡ true
      → 1
        ≤ count p (
            query_investigation v later scope.tenant_id scope.investigation_id limit requesting
              stored.1)
append_recalled {F} v id now later scope content memory_type source_agent source_job_id trust_score
      entries e limit requesting p made fresh own fits passes =
    let (kept, _, _, _) =
      append_stores v id now scope content memory_type source_agent source_job_id trust_score
        entries e made in
    let (inside, valid) =
      append_recallable v id now scope content memory_type source_agent source_job_id trust_score
        entries e later made fresh in
    let recallable : MemoryEntry F → Bool =
      is_recallable v later scope.tenant_id scope.investigation_id limit requesting entries in
    let after =
      append v id now scope content memory_type source_agent source_job_id trust_score entries in
    let exact =
      query_investigation_exact v later scope.tenant_id scope.investigation_id limit requesting
        after.1 p own fits in
    rw exact (rw kept (ground (arith, count-append (λ x. recallable x && p x) entries (e ∷ []))))
