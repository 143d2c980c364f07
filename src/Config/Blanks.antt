-- ===== src/Config/Blanks.antt =====
-- The trimming in `Load` of core/common/xrpc_config.cc.
use xrpc.Base.{
  ℕ, suc, ◌+◌, ◌-◌, ◌≡◌, ◌≤◌, refl, ap, ◌∙◌, true, none, some, [], ◌∷◌, ◌++◌, Bytes, length, take,
  All, arith, drop-length_append, take-length_append,
}
use xrpc.Config.{is_blank, find_first_not_blank, find_last_not_blank, trim, middle}

abbrev pub Blanks : Bytes → Type 0
Blanks s = All (λ c. is_blank c ≡ true) s

-- A text that neither begins nor ends in a blank, and is not empty.
abbrev pub IsBare : Bytes → Type 0
IsBare s = (find_first_not_blank s ≡ some 0) × (find_last_not_blank s ≡ some (length s - 1))

pub first-padding :
    (a s : Bytes)
    → Blanks a
    → find_first_not_blank s ≡ some 0
    → find_first_not_blank (a ++ s) ≡ some (length a)
unfolding find_first_not_blank
first-padding [] s w h = h
first-padding (c ∷ a) s w h = rw (w.0, first-padding a s w.1 h) refl

pub first-append :
    (s t : Bytes) → find_first_not_blank s ≡ some 0 → find_first_not_blank (s ++ t) ≡ some 0
unfolding find_first_not_blank
first-append [] t h = absurd (ground (arith, h))
first-append (c ∷ s) t h = ground (arith, h)

first-none : (a : Bytes) → Blanks a → find_first_not_blank a ≡ none
unfolding find_first_not_blank
first-none [] w = refl
first-none (c ∷ a) w = rw (w.0, first-none a w.1) refl

pub last-append :
    (s t : Bytes) (i : ℕ)
    → find_last_not_blank t ≡ some i
    → find_last_not_blank (s ++ t) ≡ some (length s + i)
unfolding find_last_not_blank
last-append [] t i h = h ∙ ap some (omega arith)
last-append (c ∷ s) t i h = rw (last-append s t i h) (ap some (omega arith))

last-none : (d : Bytes) → Blanks d → find_last_not_blank d ≡ none
unfolding find_last_not_blank
last-none [] w = refl
last-none (c ∷ d) w = rw (last-none d w.1, w.0) refl

last-padding : (s d : Bytes) → Blanks d → find_last_not_blank (s ++ d) ≡ find_last_not_blank s
unfolding find_last_not_blank
last-padding [] d w = last-none d w
last-padding (c ∷ s) d w = rw (last-padding s d w) refl

suc_pred : (n : ℕ) → suc (suc n - 1) ≡ suc n
suc_pred n = omega arith

take_bare : (s d : Bytes) → IsBare s → take (suc (length s - 1)) (s ++ d) ≡ s
take_bare [] d w = absurd (unfold find_first_not_blank in ground (arith, w.0))
take_bare (c ∷ s) d w =
    ap (λ n. take n (c ∷ (s ++ d))) (suc_pred (length s)) ∙ ap (◌∷◌ c) (take-length_append s d)

-- Blanks around a bare text go.
pub trim_bare : (a s d : Bytes) → Blanks a → IsBare s → Blanks d → trim (a ++ (s ++ d)) ≡ s
unfolding trim
trim_bare a s d wa w wd =
    rw
      (
        first-padding a (s ++ d) wa (first-append s d w.0),
        drop-length_append a (s ++ d),
        last-padding s d wd,
        w.1,
      )
      (take_bare s d w)

pub trim_blank : (a : Bytes) → Blanks a → trim a ≡ []
unfolding trim find_last_not_blank
trim_blank a w = rw (first-none a w) refl

add_sub : (m n : ℕ) → m + n - m ≡ n
add_sub m n = omega arith

-- The line between its blanks.
pub middle_bare :
    (a s d : Bytes)
    → Blanks a
    → IsBare s
    → Blanks d
    → middle (length a) (find_last_not_blank (a ++ (s ++ d))) (a ++ (s ++ d)) ≡ s
middle_bare a s d wa w wd =
    let last = last-append a (s ++ d) (length s - 1) (last-padding s d wd ∙ w.1) in
    rw (last, drop-length_append a (s ++ d), add_sub (length a) (length s - 1)) (take_bare s d w)

pub bare_size : (s : Bytes) → IsBare s → 1 ≤ length s
bare_size [] w = absurd (unfold find_first_not_blank in ground (arith, w.0))
bare_size (c ∷ s) w = omega arith
