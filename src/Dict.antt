-- ===== src/Dict.antt =====
-- Python's dict: the entries in the order of insertion. An assignment to a key that is there keeps
-- its place.
use mathlib.Core.Path.{subst₂}
use cys_agi.Prelude.{
  ◌≡◌, ◌≢◌, refl, sym, subst, Bool-cases, inl, inr, Bool, true, false, Option, none, some, List, [],
  ◌∷◌, arith, Eq, ◌==◌, if◌then◌else◌,
}

abbrev pub Dict {ℓ κ} : Type ℓ → Type κ → Type (ℓ ⊔ κ)
Dict K V = List (K × V)

module _ {ℓ κ} {K : Type ℓ} {V : Type κ} ⦃e : Eq K⦄ where
  unfoldable pub get : Dict K V → K → Option V
  get [] k = none
  get ((j, v) ∷ m) k = if j == k then some v else get m k

  unfoldable pub set : Dict K V → K → V → Dict K V
  set [] k v = (k, v) ∷ []
  set ((j, w) ∷ m) k v = if j == k then (j, v) ∷ m else (j, w) ∷ set m k v

  -- `m.pop(k, None)`.
  unfoldable pub pop : Dict K V → K → Dict K V
  pop [] k = []
  pop ((j, v) ∷ m) k = let rest = pop m k in if j == k then rest else (j, v) ∷ rest

  pub get-set :
      (m : Dict K V) (k j : K) (v : V) → get (set m k v) j ≡ (if k == j then some v else get m j)
  unfolding get set
  get-set [] k j v = refl
  get-set ((i, w) ∷ m) k j v =
      ground (arith, get-set m k j v, e.beq_iff i k, e.beq_iff i j, e.beq_iff k j)

  pub get-pop : (m : Dict K V) (k j : K) → get (pop m k) j ≡ (if k == j then none else get m j)
  unfolding get pop
  get-pop [] k j = ground arith
  get-pop ((i, w) ∷ m) k j =
      ground (arith, get-pop m k j, e.beq_iff i k, e.beq_iff i j, e.beq_iff k j)

  pub get-pop_self : (m : Dict K V) (k : K) → get (pop m k) k ≡ none
  get-pop_self m k = ground (arith, get-pop m k k, e.beq_iff k k)

  pub get-set_self : (m : Dict K V) (k : K) (v : V) → get (set m k v) k ≡ some v
  get-set_self m k v = ground (arith, get-set m k k v, e.beq_iff k k)

  pub get-set_other :
      (m : Dict K V) (k j : K) (v : V) → (k == j) ≡ false → get (set m k v) j ≡ get m j
  get-set_other m k j v other = ground (arith, get-set m k j v, other)

  -- An assignment of the value that is there changes nothing.
  pub set-get : (m : Dict K V) (k : K) (v : V) → get m k ≡ some v → set m k v ≡ m
  unfolding get set
  set-get [] k v found = cc
  set-get ((j, w) ∷ m) k v found = elim (Bool-cases (j == k)) [
    | inl same ↦ ground (arith, found, same)
    | inr other ↦ ground (arith, other, set-get m k v (rw other at found))
  ]

  -- `k in m`.
  abbrev pub has : Dict K V → K → Bool
  has m k = elim (get m k) [ none ↦ false | some _ ↦ true ]

  -- `m.get(k, d)`.
  abbrev pub get_or : Dict K V → K → V → V
  get_or m k d = elim (get m k) [ none ↦ d | some v ↦ v ]

module _ {ℓ κ} {K : Type ℓ} {V : Type κ} where
  abbrev pub values : Dict K V → List V
  values [] = []
  values ((k, v) ∷ m) = v ∷ values m

pub none≢some {κ} : {V : Type κ} {v : V} → none ≢ some v
none≢some e = cc

-- Every value that a lookup finds satisfies a predicate.
abbrev pub AllValues {ℓ κ μ} :
    {K : Type ℓ} {V : Type κ} ⦃e : Eq K⦄ → (V → Type μ) → Dict K V → Type (ℓ ⊔ κ ⊔ μ)
AllValues {K = K} {V = V} P m = (k : K) (v : V) → get m k ≡ some v → P v

pub AllValues-nil {ℓ κ μ} :
    {K : Type ℓ} {V : Type κ} ⦃e : Eq K⦄ (P : V → Type μ) → AllValues {K = K} P []
unfolding get
AllValues-nil P k v found = absurd (none≢some {v = v} found)

module _ {ℓ κ μ} {K : Type ℓ} {V : Type κ} ⦃e : Eq K⦄ (P : V → Type μ) (m : Dict K V) (k : K) where
  pub AllValues-set : (v : V) → P v → AllValues P m → AllValues P (set m k v)
  AllValues-set v p h j w found = elim (Bool-cases (k == j)) [
    | inl same ↦ subst P (cc (get-set m k j v, same)) p
    | inr other ↦ h j w (cc (get-set m k j v, other))
  ]

  pub AllValues-pop : AllValues P m → AllValues P (pop m k)
  AllValues-pop h j w found = elim (Bool-cases (k == j)) [
    | inl same ↦ absurd (none≢some {v = w} (cc (get-pop m k j, same)))
    | inr other ↦ h j w (cc (get-pop m k j, other))
  ]

-- No key stands twice.
abbrev pub Distinct {ℓ κ} : {K : Type ℓ} {V : Type κ} ⦃e : Eq K⦄ → Dict K V → Type κ
Distinct [] = Unit
Distinct ((k, v) ∷ m) = (get m k ≡ none) × Distinct m

module _ {ℓ κ} {K : Type ℓ} {V : Type κ} ⦃e : Eq K⦄ where
  pub Distinct-set : (m : Dict K V) (k : K) (v : V) → Distinct m → Distinct (set m k v)
  unfolding set
  Distinct-set [] k v h = (unfold get in refl, tt)
  Distinct-set ((j, w) ∷ m) k v h = elim (Bool-cases (j == k)) [
    | inl same ↦ rw same h
    | inr other ↦
        rw other (
          ground (arith, get-set m k j v, h.0, e.beq_iff j k, e.beq_iff k j),
          Distinct-set m k v h.1,
        )
  ]

-- A predicate of every entry, by recursion.
abbrev pub AllPairs {ℓ κ μ} : {K : Type ℓ} {V : Type κ} → (K → V → Type μ) → Dict K V → Type μ
AllPairs P [] = Unit
AllPairs P ((k, v) ∷ m) = P k v × AllPairs P m

module _ {ℓ κ μ} {K : Type ℓ} {V : Type κ} ⦃e : Eq K⦄ (P : K → V → Type μ) where
  pub AllPairs-set : (m : Dict K V) (k : K) (v : V) → P k v → AllPairs P m → AllPairs P (set m k v)
  unfolding set
  AllPairs-set [] k v p h = (p, tt)
  AllPairs-set ((j, w) ∷ m) k v p h = elim (Bool-cases (j == k)) [
    | inl same ↦ rw same (subst (λ i. P i v) (sym ((e.beq_iff j k).0 same)) p, h.1)
    | inr other ↦ rw other (h.0, AllPairs-set m k v p h.1)
  ]

  pub AllPairs-get : (m : Dict K V) (k : K) (v : V) → AllPairs P m → get m k ≡ some v → P k v
  unfolding get
  AllPairs-get [] k v h found = absurd (none≢some found)
  AllPairs-get ((j, w) ∷ m) k v h found = elim (Bool-cases (j == k)) [
    | inl same ↦
        let same_value : w ≡ v = ground arith in subst₂ P ((e.beq_iff j k).0 same) same_value h.0
    | inr other ↦ AllPairs-get m k v h.1 (rw other at found)
  ]

pub ruleset dict_laws = (get-set, get-pop)
