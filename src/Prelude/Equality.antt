-- ===== src/Prelude/Equality.antt =====
-- Equality tests as an interface, Go's `==` at the types that the program compares.
use Prim.Native.Nat.{ℕ}
use Prim.Native.String.{String}
use mathlib.Core.Path.{◌≡◌, refl}
use mathlib.Core.Logic.{◌↔◌}
use mathlib.Core.Bool.{Bool, true, false}
use native.Mathlib.Omega.{arith}
use text.Mathlib.Text.{◌==◌ as str_eq}
use text.Mathlib.TextEquality.{eq_iff}
use agen_sense.Prelude.Tests.{nat_beq, nat_beq_iff}

pub record Eq {ℓ} (T : Type ℓ) : Type ℓ where
  pub same : T → T → Bool
  pub same_iff : (x y : T) → (same x y ≡ true) ↔ (x ≡ y)

instance abbrev pub string_eq : Eq String
string_eq = record { same = str_eq; same_iff = eq_iff }

instance abbrev pub nat_eq : Eq ℕ
nat_eq = record { same = nat_beq; same_iff = nat_beq_iff }

module _ {ℓ} {T : Type ℓ} ⦃eq : Eq T⦄ where
  infix 50 ◌==◌
  abbrev pub ◌==◌ : T → T → Bool
  ◌==◌ = eq.same

  pub ==_iff : (x y : T) → (x == y ≡ true) ↔ (x ≡ y)
  ==_iff = eq.same_iff

  pub ==_refl : (x : T) → x == x ≡ true
  ==_refl x = (eq.same_iff x x).1 refl

  pub ==_false : (x y : T) → x == y ≡ false → ¬ (x ≡ y)
  ==_false x y differ same = ground (arith, eq.same_iff x y)
