-- ===== src/Base/Decimal.antt =====
-- `std::to_string(int)`, `std::stoi`, and `find` of a single character.
pub mod RoundTrip
pub mod Size
pub mod Range
use Prim.Native.Nat.{ℕ, zero, suc, ◌+◌, ◌-◌, ◌*◌, ◌/◌, ◌%◌, ◌^◌}
use mathlib.Core.Bool.{Bool, true, false, ◌&&◌, ◌||◌}
use mathlib.Core.Option
use mathlib.Core.Option.{Option, none, some}
use mathlib.Core.List.{[], ◌∷◌, ◌++◌}
use xrpc.Base.Int.{ℤ, pos, negsuc}
use xrpc.Base.Results.{Result, ok, throw}
use xrpc.Base.Tests.{ltb, leb, ◌==◌, if◌then◌else◌}
use xrpc.Base.Texts.{Bytes, codes}

-- `find` of a character from the front.
unfoldable pub find_byte : ℕ → Bytes → Option ℕ
find_byte b [] = none
find_byte b (c ∷ s) = if c == b then some 0 else Option.map suc (find_byte b s)

-- The digits of `n`, the highest first, when `n` is below the fuel.
unfoldable pub digits : ℕ → ℕ → Bytes
digits zero n = []
digits (suc f) n =
    let more = digits f (n / 10) in
    if ltb n 10 then (b'0' + n) ∷ [] else more ++ (b'0' + n % 10) ∷ []

unfoldable pub to_string : ℤ → Bytes
to_string (pos n) = digits (suc n) n
to_string (negsuc n) = b'-' ∷ digits (suc (suc n)) (suc n)

abbrev pub is_digit : ℕ → Bool
is_digit c = leb b'0' c && leb c b'9'

-- `isspace` in the C locale.
abbrev pub is_space : ℕ → Bool
is_space c = c == b' ' || (leb 9 c && leb c 13)

unfoldable pub skip_space : Bytes → Bytes
skip_space [] = []
skip_space (c ∷ s) = if is_space c then skip_space s else c ∷ s

unfoldable pub read_digits : ℕ → Bytes → ℕ
read_digits acc [] = acc
read_digits acc (c ∷ s) =
    let more = read_digits (acc * 10 + (c - b'0')) s in if is_digit c then more else acc

abbrev pub stoi_failed : Bytes
stoi_failed = codes "stoi"

-- Beyond the range of `int` the library throws.
abbrev pub in_range : Bool → ℕ → Result ℤ
in_range false n = if ltb n (2 ^ 31) then ok (pos n) else throw stoi_failed
in_range true n =
    if n == 0 then ok (pos 0) else if leb n (2 ^ 31) then ok (negsuc (n - 1)) else throw stoi_failed

abbrev pub number : Bool → Bytes → Result ℤ
number negative [] = throw stoi_failed
number negative (c ∷ s) =
    if is_digit c then in_range negative (read_digits 0 (c ∷ s)) else throw stoi_failed

abbrev pub signed : Bytes → Result ℤ
signed [] = throw stoi_failed
signed (c ∷ s) =
    if c == b'-' then number true s else if c == b'+' then number false s else number false (c ∷ s)

-- What follows the digits is not read.
unfoldable pub stoi : Bytes → Result ℤ
stoi s = signed (skip_space s)
