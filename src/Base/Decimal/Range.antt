-- ===== src/Base/Decimal/Range.antt =====
-- What `stoi` returns is an `int`.
use Prim.Native.Nat.{ℕ, ◌-◌, ◌^◌}
use mathlib.Core.Bool.{Bool, true, false}
use mathlib.Core.List.{[], ◌∷◌}
use native.Mathlib.Omega.{arith}
use xrpc.Base.Int.{ℤ, pos, negsuc, IsInt32}
use xrpc.Base.Results.{Result, ok, throw}
use xrpc.Base.Tests.{ltb, leb, ◌==◌, if_both}
use xrpc.Base.Texts.{Bytes}
use xrpc.Base.Decimal.{
  stoi, stoi_failed, signed, number, in_range, is_digit, read_digits, skip_space,
}

abbrev pub Fits : Result ℤ → Type 0
Fits (throw what) = Unit {0}
Fits (ok n) = IsInt32 n

in_range-Fits : (negative : Bool) (n : ℕ) → Fits (in_range negative n)
in_range-Fits false n =
    if_both Fits (ltb n (2 ^ 31)) (ok (pos n)) (throw stoi_failed) (λ h. ground arith) (λ h. tt)
in_range-Fits true n =
    if_both Fits (n == 0) (ok (pos 0)) _ (λ h. omega arith)
      λ large.
        if_both Fits (leb n (2 ^ 31)) (ok (negsuc (n - 1))) (throw stoi_failed) (λ h. ground arith)
          (λ h. tt)

number-Fits : (negative : Bool) (s : Bytes) → Fits (number negative s)
number-Fits negative [] = tt
number-Fits negative (c ∷ s) =
    if_both Fits (is_digit c) (in_range negative (read_digits 0 (c ∷ s))) (throw stoi_failed)
      (λ h. in_range-Fits negative (read_digits 0 (c ∷ s))) (λ h. tt)

signed-Fits : (s : Bytes) → Fits (signed s)
signed-Fits [] = tt
signed-Fits (c ∷ s) =
    if_both Fits (c == b'-') (number true s) _ (λ h. number-Fits true s)
      λ h.
        if_both Fits (c == b'+') (number false s) (number false (c ∷ s)) (λ h'. number-Fits false s)
          (λ h'. number-Fits false (c ∷ s))

pub stoi-Fits : (s : Bytes) → Fits (stoi s)
unfolding stoi
stoi-Fits s = signed-Fits (skip_space s)
