-- ===== src/Base/Int.antt =====
-- Python's integers of either sign over the native numbers, as far as the program uses them:
-- differences and comparisons.
use Prim.Native.Nat.{ℕ, ◌-◌}
use giv_evc_ocppv.Base.Tests.{if◌then◌else◌, leb}

-- `negsuc n` is -(n + 1).
pub data ℤ : Type 0 where
  pos : ℕ → ℤ
  negsuc : ℕ → ℤ

-- a - b, as an integer.
abbrev pub sub_ℕ : ℕ → ℕ → ℤ
sub_ℕ a b = if leb b a then pos (a - b) else negsuc (b - a - 1)
