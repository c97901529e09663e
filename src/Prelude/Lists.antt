-- ===== src/Prelude/Lists.antt =====
-- Lists measured by native numbers, and tests over lists.
use Prim.Native.Nat.{ℕ, zero, suc, ◌+◌, ◌≤◌}
use mathlib.Core.Path.{◌≡◌, refl, ap}
use mathlib.Core.Bool.{Bool, true, false, ◌||◌, ◌&&◌}
use mathlib.Core.List.{List, [], ◌∷◌, ◌++◌, map}
use native.Mathlib.Omega.{arith}
use mathlib.Core.Logic.{◌⊎◌, inl, inr}
use cys_agi.Prelude.Tests.{Eq, Bool-cases, ◌==◌, if◌then◌else◌}

module _ {ℓ} {A : Type ℓ} where
  abbrev pub length : List A → ℕ
  length [] = 0
  length (x ∷ xs) = suc (length xs)

  abbrev pub take : ℕ → List A → List A
  take zero xs = []
  take (suc n) [] = []
  take (suc n) (x ∷ xs) = x ∷ take n xs

  -- Python's `any` and `all`, and the comprehension `[x for x in xs if p(x)]`.
  abbrev pub any : (A → Bool) → List A → Bool
  any p [] = false
  any p (x ∷ xs) = p x || any p xs

  abbrev pub all : (A → Bool) → List A → Bool
  all p [] = true
  all p (x ∷ xs) = p x && all p xs

  abbrev pub keep : (A → Bool) → List A → List A
  keep p [] = []
  keep p (x ∷ xs) = let rest = keep p xs in if p x then x ∷ rest else rest

  -- How many items pass a test.
  abbrev pub count : (A → Bool) → List A → ℕ
  count p [] = 0
  count p (x ∷ xs) = (if p x then 1 else 0) + count p xs

  -- A predicate of every item, by recursion, so that the tactics read it.
  abbrev pub All {κ} : (A → Type κ) → List A → Type κ
  All P [] = Unit
  All P (x ∷ xs) = P x × All P xs

module _ {ℓ} {A : Type ℓ} where
  pub length-append : (xs ys : List A) → length (xs ++ ys) ≡ length xs + length ys
  length-append [] ys = omega arith
  length-append (x ∷ xs) ys = omega (arith, length-append xs ys)

  pub count-append : (p : A → Bool) (xs ys : List A) → count p (xs ++ ys) ≡ count p xs + count p ys
  count-append p [] ys = omega arith
  count-append p (x ∷ xs) ys = omega (arith, count-append p xs ys)

  pub count-le-length : (p : A → Bool) (xs : List A) → count p xs ≤ length xs
  count-le-length p [] = omega arith
  count-le-length p (x ∷ xs) = ground (arith, count-le-length p xs)

  pub any-append : (p : A → Bool) (xs ys : List A) → any p (xs ++ ys) ≡ (any p xs || any p ys)
  any-append p [] ys = refl
  any-append p (x ∷ xs) ys = ground (arith, any-append p xs ys)

  pub All-append {κ} : (P : A → Type κ) (xs ys : List A) → All P xs → All P ys → All P (xs ++ ys)
  All-append P [] ys h k = k
  All-append P (x ∷ xs) ys h k = (h.0, All-append P xs ys h.1 k)

-- `x in xs`.
abbrev pub elem {ℓ} : {A : Type ℓ} ⦃e : Eq A⦄ → A → List A → Bool
elem a xs = any (λ x. x == a) xs

module _ {ℓ} {A : Type ℓ} (le : A → A → Bool) where
  pub insert_sorted : A → List A → List A
  insert_sorted a [] = a ∷ []
  insert_sorted a (x ∷ xs) = if le a x then a ∷ x ∷ xs else x ∷ insert_sorted a xs

  -- Python's `sorted(xs, key=…)`, stable, from the order of the keys.
  unfoldable pub sort : List A → List A
  unfolding insert_sorted
  sort [] = []
  sort (x ∷ xs) = insert_sorted x (sort xs)

  count-insert_sorted :
      (p : A → Bool) (a : A) (xs : List A)
      → count p (insert_sorted a xs) ≡ (if p a then 1 else 0) + count p xs
  unfolding insert_sorted
  count-insert_sorted p a [] = refl
  count-insert_sorted p a (x ∷ xs) = ground (arith, count-insert_sorted p a xs)

  -- Sorting keeps every item, as often.
  pub count-sort : (p : A → Bool) (xs : List A) → count p (sort xs) ≡ count p xs
  unfolding sort
  count-sort p [] = refl
  count-sort p (x ∷ xs) = omega (arith, count-insert_sorted p x (sort xs), count-sort p xs)

module _ {ℓ κ} {A : Type ℓ} {B : Type κ} (f : A → B) where
  pub map-snoc : (xs : List A) (x : A) → map f (xs ++ x ∷ []) ≡ map f xs ++ f x ∷ []
  map-snoc [] x = refl
  map-snoc (y ∷ ys) x = ap (λ zs. f y ∷ zs) (map-snoc ys x)

module _ {ℓ} {A : Type ℓ} where
  pub count-take-le : (p : A → Bool) (n : ℕ) (xs : List A) → count p (take n xs) ≤ count p xs
  count-take-le p zero [] = omega arith
  count-take-le p zero (x ∷ xs) = omega arith
  count-take-le p (suc n) [] = omega arith
  count-take-le p (suc n) (x ∷ xs) = omega (arith, count-take-le p n xs)

  pub length-take-le : (n : ℕ) (xs : List A) → length (take n xs) ≤ n
  length-take-le zero [] = omega arith
  length-take-le zero (x ∷ xs) = omega arith
  length-take-le (suc n) [] = omega arith
  length-take-le (suc n) (x ∷ xs) = omega (arith, length-take-le n xs)

  pub take_all : (n : ℕ) (xs : List A) → length xs ≤ n → take n xs ≡ xs
  take_all zero [] le = refl
  take_all zero (x ∷ xs) le = absurd (omega (arith, le))
  take_all (suc n) [] le = refl
  take_all (suc n) (x ∷ xs) le = ap (λ ys. x ∷ ys) (take_all n xs (omega (arith, le)))

  pub count-keep : (p q : A → Bool) (xs : List A) → count p (keep q xs) ≡ count (λ x. q x && p x) xs
  count-keep p q [] = refl
  count-keep p q (x ∷ xs) = ground (arith, count-keep p q xs)

  pub length-count : (xs : List A) → length xs ≡ count (λ _. true) xs
  length-count [] = refl
  length-count (x ∷ xs) = omega (arith, length-count xs)

  pub count_ext : (p q : A → Bool) (xs : List A) → ((x : A) → p x ≡ q x) → count p xs ≡ count q xs
  count_ext p q [] same = refl
  count_ext p q (x ∷ xs) same = ground (arith, same x, count_ext p q xs same)

  pub count_none : (p : A → Bool) (xs : List A) → ((x : A) → p x ≡ false) → count p xs ≡ 0
  count_none p [] never = refl
  count_none p (x ∷ xs) never = ground (arith, never x, count_none p xs never)

module _ {ℓ κ} {A : Type ℓ} (P : A → Type κ) where
  -- The items that a test keeps satisfy what every item that passes it satisfies.
  pub All-keep : (q : A → Bool) (xs : List A) → All (λ x. q x ≡ true → P x) xs → All P (keep q xs)
  All-keep q [] h = tt
  All-keep q (x ∷ xs) h = elim (Bool-cases (q x)) [
    | inl passes ↦ rw passes (h.0 passes, All-keep q xs h.1)
    | inr fails ↦ rw fails (All-keep q xs h.1)
  ]

  All-insert_sorted :
      (le : A → A → Bool) (a : A) (xs : List A) → P a → All P xs → All P (insert_sorted le a xs)
  unfolding insert_sorted
  All-insert_sorted le a [] p h = (p, tt)
  All-insert_sorted le a (x ∷ xs) p h = elim (Bool-cases (le a x)) [
    | inl first ↦ rw first (p, h)
    | inr later ↦ rw later (h.0, All-insert_sorted le a xs p h.1)
  ]

  pub All-sort : (le : A → A → Bool) (xs : List A) → All P xs → All P (sort le xs)
  unfolding sort
  All-sort le [] h = tt
  All-sort le (x ∷ xs) h = All-insert_sorted le x (sort le xs) h.0 (All-sort le xs h.1)

  -- What holds of everything holds of every item.
  pub All-of : (xs : List A) → ((x : A) → P x) → All P xs
  All-of [] h = tt
  All-of (x ∷ xs) h = (h x, All-of xs h)

  pub All-map {μ} : {Q : A → Type μ} (xs : List A) → ((x : A) → Q x → P x) → All Q xs → All P xs
  All-map [] f h = tt
  All-map (x ∷ xs) f h = (f x h.0, All-map xs f h.1)

-- Every item of a list is in it.
pub All-elem {ℓ} : {A : Type ℓ} ⦃e : Eq A⦄ (xs : List A) → All (λ x. elem x xs ≡ true) xs
All-elem [] = tt
All-elem ⦃e⦄ (x ∷ xs) =
    (ground (arith, e.beq_iff x x), All-map _ xs (λ y h. ground arith) (All-elem xs))

module _ {ℓ} {A : Type ℓ} where
  pub All-both {κ μ} :
      (P : A → Type κ) (Q : A → Type μ) (xs : List A)
      → All P xs
      → All Q xs
      → All (λ x. P x × Q x) xs
  All-both P Q [] h k = tt
  All-both P Q (x ∷ xs) h k = ((h.0, k.0), All-both P Q xs h.1 k.1)

  pub List-cases : (xs : List A) → (xs ≡ []) ⊎ ((y : A) × (ys : List A) × (xs ≡ y ∷ ys))
  List-cases [] = inl refl
  List-cases (x ∷ xs) = inr (x, xs, refl)

  -- An item at the end that the test refuses is not kept.
  pub keep-append_refused :
      (q : A → Bool) (xs : List A) (x : A) → q x ≡ false → keep q (xs ++ x ∷ []) ≡ keep q xs
  keep-append_refused q [] x refused = rw refused refl
  keep-append_refused q (y ∷ xs) x refused = rw (keep-append_refused q xs x refused) refl

  pub keep_none : (q : A → Bool) (xs : List A) → All (λ x. q x ≡ false) xs → keep q xs ≡ []
  keep_none q [] h = refl
  keep_none q (x ∷ xs) h = rw (h.0) (keep_none q xs h.1)

pub sort_nil {ℓ} : {A : Type ℓ} (le : A → A → Bool) → sort le [] ≡ []
unfolding sort
sort_nil le = refl
