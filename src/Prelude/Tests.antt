-- ===== src/Prelude/Tests.antt =====
-- Boolean tests on numbers and texts, the conditional, and splits that keep an equation.
use Prim.Native.Nat.{ℕ, compare, Ordering}
use Prim.Native.String.{String}
use mathlib.Core.Path.{◌≡◌, refl}
use mathlib.Core.Logic.{◌↔◌, ◌⊎◌, inl, inr}
use mathlib.Core.Bool.{Bool, true, false}
use mathlib.Core.Option.{Option, none, some}
use native.Mathlib.Omega.{arith}
use text.Mathlib.Text.{◌==◌ as text_eq}

abbrev pub ltb : ℕ → ℕ → Bool
ltb a b = elim (compare a b) [ Ordering.lt ↦ true | _ ↦ false ]

abbrev pub leb : ℕ → ℕ → Bool
leb a b = elim (compare a b) [ Ordering.gt ↦ false | _ ↦ true ]

infix 50 ◌==◌
abbrev pub ◌==◌ : ℕ → ℕ → Bool
a == b = elim (compare a b) [ Ordering.eq ↦ true | _ ↦ false ]

-- Equality of two texts; `eq_iff` reads it.
abbrev pub str_eq : String → String → Bool
str_eq = text_eq

infix 1 if◌then◌else◌
abbrev pub if◌then◌else◌ {ℓ} : {A : Type ℓ} → Bool → A → A → A
if true then x else y = x
if false then x else y = y

pub ==_iff : (a b : ℕ) → ((a == b) ≡ true) ↔ (a ≡ b)
==_iff a b = ground arith

pub Bool-cases : (b : Bool) → (b ≡ true) ⊎ (b ≡ false)
Bool-cases true = inl refl
Bool-cases false = inr refl

pub Sum-cases : {A B : Type 0} (o : A ⊎ B) → ((a : A) × (o ≡ inl a)) ⊎ ((b : B) × (o ≡ inr b))
Sum-cases (inl a) = inl (a, refl)
Sum-cases (inr b) = inr (b, refl)

module _ {ℓ} {A : Type ℓ} where
  abbrev pub is_some : Option A → Bool
  is_some none = false
  is_some (some _) = true

  -- `unwrap_or`
  abbrev pub get_or : Option A → A → A
  get_or none d = d
  get_or (some a) _ = a

  -- `or`, `or_else`
  abbrev pub or_else : Option A → Option A → Option A
  or_else none o = o
  or_else (some a) _ = some a

  pub Option-cases : (o : Option A) → (o ≡ none) ⊎ ((a : A) × (o ≡ some a))
  Option-cases none = inl refl
  Option-cases (some a) = inr (a, refl)
