-- ===== src/Base/Signed.antt =====
-- Signed integers over the native numbers: `negsuc n` is -(n + 1).
use Prim.Native.Nat.{ℕ, zero, suc, ◌-◌, ◌%◌, ◌^◌}
use mathlib.Core.Path.{◌≡◌, refl}
use mathlib.Core.Bool.{Bool, true, false}
use syswatcher.Base.Tests.{ltb, if◌then◌else◌}

pub data ℤ : Type 0 where
  pos : ℕ → ℤ
  negsuc : ℕ → ℤ

-- x - 1
abbrev pub pred_ℤ : ℤ → ℤ
pred_ℤ (pos zero) = negsuc zero
pred_ℤ (pos (suc n)) = pos n
pred_ℤ (negsuc n) = negsuc (suc n)

-- x == 0
abbrev pub is_zero : ℤ → Bool
is_zero (pos zero) = true
is_zero _ = false

-- x == -1
abbrev pub is_minus_one : ℤ → Bool
is_minus_one (negsuc zero) = true
is_minus_one _ = false

-- A number as a signed 32-bit int.
unfoldable pub signed_int : ℕ → ℤ
signed_int m = if ltb m (2 ^ 31) then pos m else negsuc (2 ^ 32 - 1 - m)

unfoldable pub as_int : ℤ → ℤ
unfolding signed_int
as_int (pos n) = signed_int (n % 2 ^ 32)
as_int (negsuc n) = signed_int (2 ^ 32 - 1 - n % 2 ^ 32)

pub as_int-zero : as_int (pos 0) ≡ pos 0
unfolding as_int
as_int-zero = refl
