-- ===== src/Base/Int.antt =====
-- `int` and `int32`, and the conversion of a `uint32_t` to `int`.
use Prim.Native.Nat.{ℕ, ◌-◌, ◌^◌, ◌<◌, ◌≤◌, suc}
use mathlib.Core.Path.{◌≡◌}
use mathlib.Core.Bool.{Bool, false}
use native.Mathlib.Omega.{arith}
use xrpc.Base.Tests.{ltb, ◌==◌, if◌then◌else◌}

-- `negsuc n` is -(n + 1).
pub data ℤ : Type 0 where
  pos : ℕ → ℤ
  negsuc : ℕ → ℤ

abbrev pub is_zero : ℤ → Bool
is_zero (pos n) = n == 0
is_zero (negsuc n) = false

-- The range of `int32`.
abbrev pub IsInt32 : ℤ → Type 0
IsInt32 (pos n) = n < 2 ^ 31
IsInt32 (negsuc n) = suc n ≤ 2 ^ 31

-- `static_cast<int>` of a `uint32_t`: the upper half of the range turns negative.
unfoldable pub int_of_u32 : ℕ → ℤ
int_of_u32 n = if ltb n (2 ^ 31) then pos n else negsuc (2 ^ 32 - n - 1)

pub int_of_u32_small : (n : ℕ) → n < 2 ^ 31 → int_of_u32 n ≡ pos n
unfolding int_of_u32
int_of_u32_small n h = ground arith
