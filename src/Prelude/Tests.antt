-- ===== src/Prelude/Tests.antt =====
-- Boolean tests, the conditional, and equality tests as an interface.
use Prim.Native.Nat.{ℕ, compare, Ordering}
use Prim.Native.String.{String}
use mathlib.Core.Path.{◌≡◌, refl}
use mathlib.Core.Logic.{◌↔◌, ◌⊎◌, inl, inr}
use mathlib.Core.Bool.{Bool, true, false, ◌&&◌}
use mathlib.Core.Option.{Option, none, some}
use native.Mathlib.Omega.{arith}
use text.Mathlib.Text.{◌==◌ as str_beq}
use text.Mathlib.TextEquality.{eq_iff}

abbrev pub ltb : ℕ → ℕ → Bool
ltb a b = elim (compare a b) [ Ordering.lt ↦ true | _ ↦ false ]

abbrev pub leb : ℕ → ℕ → Bool
leb a b = elim (compare a b) [ Ordering.gt ↦ false | _ ↦ true ]

abbrev pub nat_beq : ℕ → ℕ → Bool
nat_beq a b = elim (compare a b) [ Ordering.eq ↦ true | _ ↦ false ]

infix 1 if◌then◌else◌
abbrev pub if◌then◌else◌ {ℓ} : {A : Type ℓ} → Bool → A → A → A
if true then x else y = x
if false then x else y = y

pub nat_beq_iff : (a b : ℕ) → (nat_beq a b ≡ true) ↔ (a ≡ b)
nat_beq_iff a b = ground arith

-- Equality as the program tests it, with what the test decides.
pub record Eq {κ} (K : Type κ) : Type κ where
  pub beq : K → K → Bool
  pub beq_iff : (k j : K) → (beq k j ≡ true) ↔ (k ≡ j)

instance abbrev pub nat_eq : Eq ℕ
nat_eq = record { beq = nat_beq; beq_iff = nat_beq_iff }

pub pair_beq_iff {ℓ κ} :
    {A : Type ℓ} {B : Type κ} ⦃e : Eq A⦄ ⦃d : Eq B⦄ (p q : A × B)
    → ((e.beq p.0 q.0 && d.beq p.1 q.1) ≡ true) ↔ (p ≡ q)
pair_beq_iff ⦃e⦄ ⦃d⦄ (a, b) (c, f) = ground (arith, e.beq_iff a c, d.beq_iff b f)

instance abbrev pub pair_eq {ℓ κ} : {A : Type ℓ} {B : Type κ} ⦃e : Eq A⦄ ⦃d : Eq B⦄ → Eq (A × B)
pair_eq ⦃e⦄ ⦃d⦄ = record { beq = λ p q. e.beq p.0 q.0 && d.beq p.1 q.1; beq_iff = pair_beq_iff }

-- `a == b` of the program.
infix 50 ◌==◌
abbrev pub ◌==◌ {κ} : {K : Type κ} ⦃d : Eq K⦄ → K → K → Bool
◌==◌ ⦃d⦄ k j = d.beq k j

instance abbrev pub string_eq : Eq String
string_eq = record { beq = str_beq; beq_iff = eq_iff }

-- To split on a computed value and keep the equation.
pub Bool-cases : (b : Bool) → (b ≡ true) ⊎ (b ≡ false)
Bool-cases true = inl refl
Bool-cases false = inr refl

pub Option-cases {ℓ} : {A : Type ℓ} (o : Option A) → (o ≡ none) ⊎ ((a : A) × (o ≡ some a))
Option-cases none = inl refl
Option-cases (some a) = inr (a, refl)

-- `bool(x)` of a text, and `x or y` on texts.
abbrev pub truthy : String → Bool
truthy Prim.Native.String.[] = false
truthy (Prim.Native.String.◌∷◌ _ _) = true

infixr 30 ◌or_else◌
abbrev pub ◌or_else◌ : String → String → String
a or_else b = if truthy a then a else b

-- The order of texts, by code points.
abbrev pub str_leb : String → String → Bool
str_leb a b = elim (Prim.Native.String.compare a b) [ Ordering.gt ↦ false | _ ↦ true ]
