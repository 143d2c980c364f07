-- ===== src/Config/Lines.antt =====
-- How `Load` of core/common/xrpc_config.cc reads one line.
use xrpc.Base.{
  ℕ, suc, ◌+◌, ◌-◌, ◌≡◌, ◌⊎◌, inl, inr, refl, ap, sym, ◌∙◌, true, false, some, [], ◌∷◌, ◌++◌, Bytes,
  length, drop, All, arith, ◌==◌, take-length_append, append-nil, append_assoc, length-append,
}
use xrpc.Base.Decimal.{find_byte}
use xrpc.Config.{find_last_not_blank, trim, is_skipped, split_entry, has_key, parse_line}
use xrpc.Config.Blanks.{
  Blanks, IsBare, first-padding, first-append, last-append, trim_bare, trim_blank, middle_bare,
  bare_size,
}

-- A key as `Load` reads it back.
pub record IsKey (k : Bytes) : Type 0 where
  pub bare : IsBare k
  pub no_equals : All (λ c. (c == b'=') ≡ false) k
  pub no_comment : is_skipped k ≡ false

padding_no_equals : (b : Bytes) → Blanks b → All (λ c. (c == b'=') ≡ false) b
padding_no_equals [] w = tt
padding_no_equals (c ∷ b) w = (ground (arith, w.0), padding_no_equals b w.1)

All-append :
    (s t : Bytes) (b : ℕ)
    → All (λ c. (c == b) ≡ false) s
    → All (λ c. (c == b) ≡ false) t
    → All (λ c. (c == b) ≡ false) (s ++ t)
All-append [] t b ws wt = wt
All-append (c ∷ s) t b ws wt = (ws.0, All-append s t b ws.1 wt)

find_byte-append :
    (b : ℕ) (s t : Bytes)
    → All (λ c. (c == b) ≡ false) s
    → find_byte b (s ++ b ∷ t) ≡ some (length s)
unfolding find_byte
find_byte-append b [] t w = rw (self b) refl
  where
    self : (b : ℕ) → (b == b) ≡ true
    self b = ground arith
find_byte-append b (c ∷ s) t w = rw (w.0, find_byte-append b s t w.1) refl

drop_after : (s t : Bytes) (b : ℕ) → drop (suc (length s)) (s ++ b ∷ t) ≡ t
drop_after [] t b = refl
drop_after (c ∷ s) t b = drop_after s t b

split_entry_lem :
    (k b rest : Bytes)
    → IsKey k
    → Blanks b
    → split_entry ((k ++ b) ++ b'=' ∷ rest) ≡ some (k, trim rest)
unfolding split_entry
split_entry_lem k b rest wk wb =
    let place =
      find_byte-append b'=' (k ++ b) rest
        (All-append k b b'=' wk.no_equals (padding_no_equals b wb)) in
    rw
      (
        place,
        split_entry,
        take-length_append (k ++ b) (b'=' ∷ rest),
        drop_after (k ++ b) rest b'=',
        trim_bare [] k b tt wk.bare wb,
      )
      refl

has_key_bare : (k v : Bytes) → IsKey k → has_key (some (k, v)) ≡ some (k, v)
has_key_bare [] v w = absurd (ground (arith, w.no_comment))
has_key_bare (c ∷ k) v w = refl

is_skipped-append : (s t : Bytes) → is_skipped s ≡ false → is_skipped (s ++ t) ≡ false
is_skipped-append [] t h = absurd (ground (arith, h))
is_skipped-append (c ∷ s) t h = h

is_skipped-padding : (a s : Bytes) → Blanks a → is_skipped s ≡ false → is_skipped (a ++ s) ≡ false
is_skipped-padding [] s w h = h
is_skipped-padding (c ∷ a) s w h = ground (arith, w.0)

-- A line whose text between the blanks is known.
parse_line-entry :
    (a k b rest d : Bytes)
    → Blanks a
    → IsKey k
    → Blanks b
    → Blanks d
    → IsBare ((k ++ b) ++ b'=' ∷ rest)
    → parse_line (a ++ (((k ++ b) ++ b'=' ∷ rest) ++ d)) ≡ some (k, trim rest)
unfolding parse_line
parse_line-entry a k b rest d wa wk wb wd w =
    let s = (k ++ b) ++ b'=' ∷ rest in
    let kept =
      is_skipped-append s d (is_skipped-append (k ++ b) _ (is_skipped-append k b wk.no_comment)) in
    rw
      (
        first-padding a (s ++ d) wa (first-append s d w.0),
        parse_line,
        is_skipped-padding a (s ++ d) wa kept,
        middle_bare a s d wa w wd,
        split_entry_lem k b rest wk wb,
      )
      (has_key_bare k (trim rest) wk)

entry-IsBare :
    (k b rest : Bytes) (i : ℕ)
    → IsKey k
    → find_last_not_blank (b'=' ∷ rest) ≡ some i
    → i ≡ length rest
    → IsBare ((k ++ b) ++ b'=' ∷ rest)
entry-IsBare k b rest i wk last size = (
  first-append (k ++ b) _ (first-append k b wk.bare.0),
  last-append (k ++ b) _ i last
      ∙ ap some (omega (arith, size, length-append (k ++ b) (b'=' ∷ rest))),
)

equals_last : find_last_not_blank (b'=' ∷ []) ≡ some 0
unfolding find_last_not_blank
equals_last = refl

regroup : (p c d : Bytes) → (p ++ b'=' ∷ (c ++ [])) ++ d ≡ (p ++ b'=' ∷ []) ++ (c ++ d)
regroup p c d =
    append_assoc p (b'=' ∷ (c ++ [])) d
    ∙ ap (λ x. p ++ b'=' ∷ (x ++ d)) (append-nil c)
    ∙ sym (append_assoc p (b'=' ∷ []) (c ++ d))

Blanks-append : (c d : Bytes) → Blanks c → Blanks d → Blanks (c ++ d)
Blanks-append [] d wc wd = wd
Blanks-append (x ∷ c) d wc wd = (wc.0, Blanks-append c d wc.1 wd)

-- A line of a key, an equals sign and a value, with blanks before and after each of the two, is read
-- as that key and that value: the key neither begins with '#' nor holds an equals sign, neither
-- of the two begins or ends in a blank, and the value may be empty.
pub parse_line_lem :
    (a k b c v d : Bytes)
    → Blanks a
    → IsKey k
    → Blanks b
    → Blanks c
    → (v ≡ []) ⊎ IsBare v
    → Blanks d
    → parse_line (a ++ (((k ++ b) ++ b'=' ∷ (c ++ v)) ++ d)) ≡ some (k, v)
parse_line_lem a k b c v d wa wk wb wc (inl empty) wd =
    rw (empty, regroup (k ++ b) c d)
      (parse_line-entry a k b [] (c ++ d) wa wk wb (Blanks-append c d wc wd)
          (entry-IsBare k b [] 0 wk equals_last refl)
        ∙ ap (λ x. some (k, x)) (trim_blank [] tt))
parse_line_lem a k b c v d wa wk wb wc (inr w) wd =
    let i = length (b'=' ∷ c) + (length v - 1) in
    let bare =
      entry-IsBare k b (c ++ v) i wk (last-append (b'=' ∷ c) v (length v - 1) w.1)
        (omega (arith, length-append c v, bare_size v w)) in
    parse_line-entry a k b (c ++ v) d wa wk wb wd bare
    ∙ ap (λ x. some (k, x))
        (ap (λ x. trim (c ++ x)) (sym (append-nil v)) ∙ trim_bare c v [] wc w tt)
