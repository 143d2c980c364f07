-- ===== src/Base/Decimal/RoundTrip.antt =====
-- `stoi` reads back what `to_string` wrote.
use Prim.Native.Nat.{ℕ, zero, suc, ◌+◌, ◌*◌, ◌/◌, ◌%◌, ◌<◌}
use mathlib.Core.Bool.{Bool, true, false}
use mathlib.Core.Path.{◌≡◌, refl, ◌∙◌, ap, sym}
use mathlib.Core.Logic.{inl, inr}
use mathlib.Core.List.{[], ◌∷◌, ◌++◌, append_assoc}
use native.Mathlib.Omega.{arith}
use xrpc.Base.Int.{ℤ, pos, negsuc, IsInt32}
use xrpc.Base.Results.{ok}
use xrpc.Base.Tests.{ltb, Bool-cases}
use xrpc.Base.Texts.{Bytes}
use xrpc.Base.Decimal.{digits, to_string, is_digit, skip_space, read_digits, in_range, number, stoi}

-- The text does not go on with a digit.
abbrev pub Ends : Bytes → Type 0
Ends [] = Unit {0}
Ends (c ∷ _) = is_digit c ≡ false

read_digits-Ends : (n : ℕ) (rest : Bytes) → Ends rest → read_digits n rest ≡ n
unfolding read_digits
read_digits-Ends n [] e = refl
read_digits-Ends n (c ∷ s) e = rw e

read_digit :
    (acc d : ℕ) (rest : Bytes)
    → d < 10
    → read_digits acc ((b'0' + d) ∷ rest) ≡ read_digits (acc * 10 + d) rest
unfolding read_digits
read_digit acc d rest h = ground arith

read_digits-digits :
    (f n : ℕ) (rest : Bytes) → n < f → read_digits 0 (digits f n ++ rest) ≡ read_digits n rest
unfolding digits
read_digits-digits zero n rest h = elim h [ ]
read_digits-digits (suc f) n rest h = elim (Bool-cases (ltb n 10)) [
  | inl small ↦
      rw small (read_digit 0 n rest (ground arith) ∙ ap (λ k. read_digits k rest) (omega arith))
  | inr large ↦ rw large (
      ap (read_digits 0) (append_assoc (digits f (n / 10)) _ rest)
      ∙ read_digits-digits f (n / 10) _ (ground arith)
      ∙ read_digit (n / 10) (n % 10) rest (omega arith)
      ∙ ap (λ k. read_digits k rest) (omega arith))
]

-- The digits begin with one, and so with no space or sign.
digits_cons : (f n : ℕ) → n < f → (c : ℕ) × (s : Bytes) × (digits f n ≡ c ∷ s) × (is_digit c ≡ true)
unfolding digits
digits_cons zero n h = elim h [ ]
digits_cons (suc f) n h = elim (Bool-cases (ltb n 10)) [
  | inl small ↦ (b'0' + n, [], rw small, ground arith)
  | inr large ↦
      let (c, s, e, d) = digits_cons f (n / 10) (ground arith) in
      (c, s ++ (b'0' + n % 10) ∷ [], rw (large, e), d)
]

number-digits :
    (negative : Bool) (n : ℕ) (rest : Bytes)
    → Ends rest
    → number negative (digits (suc n) n ++ rest) ≡ in_range negative n
number-digits negative n rest e =
    let (c, s, begins, d) = digits_cons (suc n) n (omega arith) in
    let value = read_digits-digits (suc n) n rest (omega arith) ∙ read_digits-Ends n rest e in
    let value' = rw begins at value in rw (begins) (rw (d) (ap (in_range negative) value'))

stoi_digit : (c : ℕ) (s : Bytes) → is_digit c ≡ true → stoi (c ∷ s) ≡ number false (c ∷ s)
unfolding stoi skip_space
stoi_digit c s d = ground arith

-- Every `int` is read back from its text, whatever follows that is not a digit.
pub stoi-to_string :
    (i : ℤ) (rest : Bytes) → IsInt32 i → Ends rest → stoi (to_string i ++ rest) ≡ ok i
unfolding stoi to_string skip_space
stoi-to_string (pos n) rest h e =
    let (c, s, begins, d) = digits_cons (suc n) n (omega arith) in
    ap (λ t. stoi (t ++ rest)) begins
    ∙ stoi_digit c (s ++ rest) d
    ∙ ap (λ t. number false (t ++ rest)) (sym begins)
    ∙ number-digits false n rest e
    ∙ ground arith
stoi-to_string (negsuc n) rest h e = number-digits true (suc n) rest e ∙ ground arith
