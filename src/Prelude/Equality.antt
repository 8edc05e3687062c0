-- ===== src/Prelude/Equality.antt =====
-- `===` on identifiers: one operator for the types of identifiers that the program compares.
use Prim.Native.Nat.{ℕ, compare, Ordering}
use Prim.Native.String.{String}
use mathlib.Core.Path.{◌≡◌, refl}
use mathlib.Core.Logic.{◌↔◌, inl, inr}
use devops_lab.Prelude.Tests.{Bool-cases}
use mathlib.Core.Bool.{Bool, true, false}
use native.Mathlib.Omega.{arith}
use text.Mathlib.Text.{◌==◌ as str_eq}
use text.Mathlib.TextEquality.{eq_iff}

abbrev nat_beq : ℕ → ℕ → Bool
nat_beq a b = elim (compare a b) [ Ordering.eq ↦ true | _ ↦ false ]

pub nat_beq_iff : (a b : ℕ) → (nat_beq a b ≡ true) ↔ (a ≡ b)
nat_beq_iff a b = ground arith

-- Types of identifiers: a test, and that it decides equality.
pub record Identifier {ℓ} (Row : Type ℓ) : Type ℓ where
  pub equal : Row → Row → Bool
  pub equal_iff : (x y : Row) → (equal x y ≡ true) ↔ (x ≡ y)

instance abbrev pub string_eq : Identifier String
string_eq = record { equal = str_eq; equal_iff = eq_iff }

instance abbrev pub nat_eq : Identifier ℕ
nat_eq = record { equal = nat_beq; equal_iff = nat_beq_iff }

module _ {ℓ} {Row : Type ℓ} ⦃ids : Identifier Row⦄ where
  infix 50 ◌==◌
  abbrev pub ◌==◌ : Row → Row → Bool
  x == y = ids.equal x y

  pub eq_self : (x : Row) → (x == x) ≡ true
  eq_self x = (ids.equal_iff x x).1 refl

  pub eq_of_beq : (x y : Row) → (x == y) ≡ true → x ≡ y
  eq_of_beq x y h = (ids.equal_iff x y).0 h

  pub eq_flip : (x y : Row) → (x == y) ≡ (y == x)
  eq_flip x y = elim (Bool-cases (x == y)) [
    | inl e ↦ rw (eq_of_beq x y e) refl
    | inr e ↦ elim (Bool-cases (y == x)) [ inl e' ↦ rw (eq_of_beq y x e') refl | inr e' ↦ cc ]
  ]
