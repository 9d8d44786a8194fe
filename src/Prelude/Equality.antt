-- ===== src/Prelude/Equality.antt =====
-- Decided equality as an instance: what Go's `==` and map keys ask of a type.
use text.Mathlib.Text.{◌==◌ as str_eq}
use text.Mathlib.TextEquality.{eq_iff}
use Prim.Native.Nat.{ℕ}
use Prim.Native.String.{String}
use mathlib.Core.Path.{◌≡◌, refl}
use mathlib.Core.Logic.{◌↔◌, inl, inr, ◌≢◌}
use mathlib.Core.Bool.{Bool, true, false}
use mini_av.Prelude.Tests.{nat_beq, nat_beq_iff, Bool-cases}

-- `same` decides the type's equality, as `decides` says.
pub record Eq {κ} (K : Type κ) : Type κ where
  pub same : K → K → Bool
  pub decides : (x y : K) → (same x y ≡ true) ↔ (x ≡ y)

instance abbrev pub string_eq : Eq String
string_eq = record { same = str_eq; decides = eq_iff }

instance abbrev pub nat_eq : Eq ℕ
nat_eq = record { same = nat_beq; decides = nat_beq_iff }

infix 50 ◌==◌
abbrev pub ◌==◌ {κ} : {K : Type κ} ⦃keys : Eq K⦄ → K → K → Bool
◌==◌ ⦃keys⦄ x y = keys.same x y

module _ {ℓ} {A : Type ℓ} ⦃e : Eq A⦄ where
  pub ==_refl : (a : A) → (a == a) ≡ true
  ==_refl a = (e.decides a a).1 refl

  pub ==→≡ : (a b : A) → (a == b) ≡ true → a ≡ b
  ==→≡ a b = (e.decides a b).0

  pub ==_ne : (a b : A) → a ≢ b → (a == b) ≡ false
  ==_ne a b h = elim (Bool-cases (a == b)) [ inl t ↦ absurd (h (==→≡ a b t)) | inr f ↦ f ]

  -- Go's `slices.Contains`, and membership in a map used as a set.
  unfoldable pub contains : mathlib.Core.List.List A → A → Bool
  contains mathlib.Core.List.[] a = false
  contains (mathlib.Core.List.◌∷◌ x xs) a = mathlib.Core.Bool.◌||◌ (a == x) (contains xs a)
