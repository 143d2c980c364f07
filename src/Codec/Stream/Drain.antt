-- ===== src/Codec/Stream/Drain.antt =====
-- What the loops over a zlib stream return.
use xrpc.Base.{
  ℕ, zero, suc, ◌+◌, ◌%◌, ◌^◌, ◌<◌, ◌≤◌, ◌≡◌, refl, ◌≢◌, ◌∙◌, ap, dif_pos, dif_neg, Bytes, [], ◌++◌,
  length, take, drop, arith, ok, ℕ_discrete, false, take-append-drop, length-take, take_of_le,
  append_assoc,
}
use native.Mathlib.Nat.{ℕ_set}
use xrpc.Codec.ZlibCalls.{Zlib, ZlibLaws, ZCode, z_ok, z_stream_error}
use xrpc.Codec.Stream.{
  chunk, available, is_stream_error, drain, compress, decompress, compress_failed,
  decompress_failed,
}

is_stream_error-false : (c : ZCode) → c ≢ z_stream_error → is_stream_error c ≡ false
is_stream_error-false z_stream_error h = absurd (h refl)
is_stream_error-false _ h = refl

module _ {S : Type 0} (step : S → ℕ → ZCode × Bytes × S) (to_come : S → ℕ)
    (shrinks : (s : S) (room : ℕ) → length (step s room).1 + to_come (step s room).2 ≤ to_come s)
    (failed : Bytes) where
  -- A stream that writes `b` as far as there is room is drained of exactly `b`.
  drain-Writes :
      (Writes : S → Bytes → Type 0)
      → ((s : S) (b : Bytes) (room : ℕ)
          → Writes s b
          → ((step s room).0 ≢ z_stream_error)
            × ((step s room).1 ≡ take room b)
            × Writes (step s room).2 (drop room b))
      → (n : ℕ) (s : S) (h : to_come s < n) (result b : Bytes) → Writes s b
      → drain step to_come shrinks failed n s h result ≡ ok (result ++ b)
  unfolding drain
  drain-Writes Writes law zero s h result b w = elim h [ ]
  drain-Writes Writes law (suc n) s h result b w =
      let (fine, wrote, later) = law s b chunk w in
      rw (is_stream_error-false _ fine) (elim (ℕ_discrete (length (step s chunk).1) chunk) [
        | yes full ↦ rw (dif_pos _ (ℕ_set _ _) full) (
            drain-Writes Writes law n (step s chunk).2 _ (result ++ (step s chunk).1) (drop chunk b)
              later
            ∙ ap ok (append_assoc result _ _ ∙ rw (wrote, take-append-drop chunk b)))
        | no part ↦ rw (dif_neg _ part, wrote, take_of_le chunk b (short part wrote))
      ])
    where
      short : {w : Bytes} → length w ≢ chunk → w ≡ take chunk b → length b ≤ chunk
      short part e = omega (arith, ap length e, length-take chunk b)

available_all : (text : Bytes) → length text < 2 ^ 32 → available text ≡ text
available_all text h = take_of_le _ text (omega arith)

available-length : (text : Bytes) → length (available text) < 2 ^ 32
available-length text = omega (arith, length-take (length text % 2 ^ 32) text)

-- Compress ends on a text of any length and returns the whole zlib stream of its first bytes, as
-- many as its size modulo 2^32, so of the whole text when that has less than 2^32 bytes.
pub compress_total :
    (z : Zlib) (laws : ZlibLaws z) (text : Bytes)
    → compress z text ≡ ok (laws.deflated (take (length text % 2 ^ 32) text))
unfolding compress
compress_total z laws text =
    let (init, starts) = laws.deflate_starts (available text) (available-length text) in
    rw init (
      drain-Writes z.deflate z.to_come z.deflate_shrinks compress_failed laws.Deflating
        laws.deflate_step _ _ _ [] (laws.deflated (available text)) starts)

-- A text of less than 2^32 bytes is compressed in full.
pub compress_whole :
    (z : Zlib) (laws : ZlibLaws z) (text : Bytes)
    → length text < 2 ^ 32
    → compress z text ≡ ok (laws.deflated text)
compress_whole z laws text h =
    compress_total z laws text ∙ ap (λ t. ok (laws.deflated t)) (available_all text h)

-- Inflate still has `b` to write from a text, does so as far as there is room, and never reports
-- Z_STREAM_ERROR; its other codes are open, those of a corrupt text or of one cut short among them.
pub record Inflates (z : Zlib) (text b : Bytes) : Type 1 where
  pub Left : z.Stream → Bytes → Type 0
  pub begins : z.inflate_init.0 ≡ z_ok
  pub starts : Left (z.feed z.inflate_init.1 text) b
  pub goes_on :
      (s : z.Stream) (b : Bytes) (room : ℕ)
      → Left s b
      → ((z.inflate s room).0 ≢ z_stream_error)
        × ((z.inflate s room).1 ≡ take room b)
        × Left (z.inflate s room).2 (drop room b)

-- What inflate writes is returned, whatever its codes say.
pub decompress-Inflates :
    (z : Zlib) (text b : Bytes)
    → Inflates z text b
    → length text < 2 ^ 32
    → decompress z text ≡ ok b
unfolding decompress
decompress-Inflates z text b i small =
    rw (i.begins, available_all text small)
      (drain-Writes z.inflate z.to_come z.inflate_shrinks decompress_failed i.Left i.goes_on _ _ _
        [] b i.starts)

-- Decompress of the zlib stream of a text returns the whole text, when the stream has less than
-- 2^32 bytes.
pub decompress-deflated :
    (z : Zlib) (laws : ZlibLaws z) (text : Bytes)
    → length (laws.deflated text) < 2 ^ 32
    → decompress z (laws.deflated text) ≡ ok text
decompress-deflated z laws text small =
    let (init, starts) = laws.inflate_starts text small in
    decompress-Inflates z (laws.deflated text) text
      (record {
        Left = laws.Inflating;
        begins = init;
        starts = starts;
        goes_on = laws.inflate_step;
      })
      small
