-- ===== src/Base/Decimal/Size.antt =====
-- The text of a number: its bytes are ASCII, and an `int` takes ten of them at most.
use Prim.Native.Nat.{ℕ, zero, suc, ◌+◌, ◌*◌, ◌/◌, ◌%◌, ◌^◌, ◌<◌, ◌≤◌}
use mathlib.Core.List.{[], ◌∷◌, ◌++◌}
use native.Mathlib.Omega.{arith}
use xrpc.Base.Int.{pos}
use xrpc.Base.Lists.{All, length, length-append}
use xrpc.Base.Tests.{ltb, if_both}
use xrpc.Base.Texts.{Bytes}
use xrpc.Base.Decimal.{digits, to_string}

abbrev Ascii : Bytes → Type 0
Ascii = All (λ c. c < 128)

Ascii-append : (s t : Bytes) → Ascii s → Ascii t → Ascii (s ++ t)
Ascii-append [] t ws wt = wt
Ascii-append (c ∷ s) t ws wt = (ws.0, Ascii-append s t ws.1 wt)

digits-Ascii : (f n : ℕ) → Ascii (digits f n)
unfolding digits
digits-Ascii zero n = tt
digits-Ascii (suc f) n =
    if_both Ascii (ltb n 10) _ _ (λ h. (ground arith, tt))
      λ h. Ascii-append (digits f (n / 10)) _ (digits-Ascii f (n / 10)) (omega arith, tt)

abbrev ten_to : ℕ → ℕ
ten_to zero = 1
ten_to (suc k) = 10 * ten_to k

-- A number below 10^(k + 1) has at most k + 1 digits.
length-digits : (k f n : ℕ) → n < ten_to (suc k) → length (digits f n) ≤ suc k
unfolding digits
length-digits k zero n h = omega arith
length-digits zero (suc f) n h =
    if_both (λ t. length t ≤ 1) (ltb n 10) ((b'0' + n) ∷ []) _ (λ small. omega arith)
      λ large. ground arith
length-digits (suc k) (suc f) n h =
    if_both (λ t. length t ≤ suc (suc k)) (ltb n 10) ((b'0' + n) ∷ [])
      (digits f (n / 10) ++ (b'0' + n % 10) ∷ []) (λ small. omega arith)
      λ large. omega (
        arith,
        length-digits k f (n / 10) (omega arith),
        length-append (digits f (n / 10)) ((b'0' + n % 10) ∷ []),
      )

pub length-to_string : (n : ℕ) → n < 2 ^ 31 → length (to_string (pos n)) ≤ 10
unfolding to_string
length-to_string n h = length-digits 9 (suc n) n (omega arith)

pub to_string-Ascii : (n : ℕ) → Ascii (to_string (pos n))
unfolding to_string
to_string-Ascii n = digits-Ascii (suc n) n
