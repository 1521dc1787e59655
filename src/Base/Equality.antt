-- ===== src/Base/Equality.antt =====
-- Python's `==` on the values that the program compares, as one operator with instances.
use Prim.Native.Nat.{ℕ}
use Prim.Native.String.{String}
use text.Mathlib.Text.{◌==◌ as string_beq}
use text.Mathlib.TextEquality.{eq_iff}
use mathlib.Core.Path.{◌≡◌, refl}
use mathlib.Core.Logic.{◌≢◌, inl, inr}
use mathlib.Core.Bool.{Bool, true, false}
use native.Mathlib.Omega.{arith}
use giv_evc_ocppv.Base.Tests.{nat_beq, Bool-cases}

-- A test that answers true for a value and itself, and for no two values that differ.
pub record Comparable {ℓ} (V : Type ℓ) : Type ℓ where
  pub compare : V → V → Bool
  pub reflexive : (v : V) → compare v v ≡ true
  pub sound : (v w : V) → compare v w ≡ true → v ≡ w

pub nat_sound : (m n : ℕ) → nat_beq m n ≡ true → m ≡ n
nat_sound m n h = ground arith

pub nat_reflexive : (n : ℕ) → nat_beq n n ≡ true
nat_reflexive n = ground arith

instance abbrev pub nat_comparable : Comparable ℕ
nat_comparable = record { compare = nat_beq; reflexive = nat_reflexive; sound = nat_sound }

instance abbrev pub string_comparable : Comparable String
string_comparable = record {
  compare = string_beq;
  reflexive = λ v. (eq_iff v v).1 refl;
  sound = λ v w. (eq_iff v w).0;
}

module _ {ℓ} {V : Type ℓ} ⦃c : Comparable V⦄ where
  infix 50 ◌==◌
  abbrev pub ◌==◌ : V → V → Bool
  v == w = c.compare v w

  pub beq_self : (v : V) → (v == v) ≡ true
  beq_self v = c.reflexive v

  pub beq_ne : (v w : V) → v ≢ w → (v == w) ≡ false
  beq_ne v w differ = elim (Bool-cases (v == w)) [
    | inr other ↦ other
    | inl same ↦ absurd (differ (c.sound v w same))
  ]
