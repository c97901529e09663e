-- ===== src/Prelude/Outcome.antt =====
-- Functions that may raise, and methods that change an object and may raise. What was written
-- before a raise stays written, so the state comes back beside the error too.
use mathlib.Core.Path.{◌≡◌, refl}
use mathlib.Core.Logic.{◌⊎◌, inl, inr}

pub data Result {ℓ κ} (E : Type ℓ) (A : Type κ) : Type (ℓ ⊔ κ) where
  ok : A → Result E A
  err : E → Result E A

pub Result-cases {ℓ κ} :
    {E : Type ℓ} {A : Type κ} (r : Result E A) → ((a : A) × (r ≡ ok a)) ⊎ ((e : E) × (r ≡ err e))
Result-cases (ok a) = inl (a, refl)
Result-cases (err e) = inr (e, refl)

abbrev pub Exec : Type 0 → Type 0 → Type 0 → Type 0
Exec S E A = S → Result E A × S

module _ {S E A : Type 0} where
  abbrev pub pure : A → Exec S E A
  pure a s = (ok a, s)

  abbrev pub raise : E → Exec S E A
  raise e s = (err e, s)

module _ {S E A B : Type 0} where
  abbrev pub and_then : Result E A → (A → Exec S E B) → Exec S E B
  and_then (ok a) f s = f a s
  and_then (err e) f s = (err e, s)

  infixl 5 ◌>>=◌ ◌>>◌
  abbrev pub ◌>>=◌ : Exec S E A → (A → Exec S E B) → Exec S E B
  ◌>>=◌ m f s = let (r, s') = m s in and_then r f s'

  abbrev pub ◌>>◌ : Exec S E A → Exec S E B → Exec S E B
  m >> n = m >>= λ _. n

  -- A condition on the state that holds behind the first action, and that the second keeps, holds
  -- behind both.
  pub and_then-keeps {ℓ} :
      (P : S → Type ℓ) (r : Result E A) (f : A → Exec S E B) (s : S)
      → ((a : A) (s' : S) → P s' → P (f a s').1)
      → P s
      → P (and_then r f s).1
  and_then-keeps P (ok a) f s keeps h = keeps a s h
  and_then-keeps P (err e) f s keeps h = h

  -- The same where the second action leads from one condition to a weaker one.
  pub and_then-leads {ℓ κ} :
      (P : S → Type ℓ) (Q : S → Type κ) (r : Result E A) (f : A → Exec S E B) (s : S)
      → ((s' : S) → P s' → Q s')
      → ((a : A) (s' : S) → P s' → Q (f a s').1)
      → P s
      → Q (and_then r f s).1
  and_then-leads P Q (ok a) f s weaken leads h = leads a s h
  and_then-leads P Q (err e) f s weaken leads h = weaken s h
