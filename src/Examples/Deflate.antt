-- ===== src/Examples/Deflate.antt =====
-- A small compressor that keeps what `ZlibLaws` asks: a run of the letter a in front becomes its
-- length.
use xrpc.Base.{
  ℕ, suc, ◌+◌, ◌-◌, ◌≤◌, ◌≡◌, ◌≢◌, refl, ap, Bool, true, false, [], ◌∷◌, ◌++◌, Bytes, codes, length,
  take, drop, replicate, length-take, length-drop, arith, ◌==◌, if◌then◌else◌,
}
use xrpc.Codec.Stream.Drain.{Inflates}
use xrpc.Codec.ZlibCalls.{Zlib, ZlibLaws, ZCode, z_ok, z_stream_end, z_stream_error, z_data_error}

unfoldable pub strip : Bytes → ℕ × Bytes
strip [] = (0, [])
strip (c ∷ s) = if c == b'a' then (suc (strip s).0, (strip s).1) else (0, c ∷ s)

abbrev pub shrink : Bytes → Bytes
shrink s = (strip s).0 ∷ (strip s).1

abbrev pub grow : Bytes → Bytes
grow [] = []
grow (n ∷ s) = replicate n b'a' ++ s

pub grow-shrink : (s : Bytes) → grow (shrink s) ≡ s
unfolding strip
grow-shrink [] = refl
grow-shrink (c ∷ s) = ground (arith, grow-shrink s)

-- Which way, and the bytes still to write.
pub record Stream : Type 0 where
  pub packs : Bool
  pub left : Bytes

abbrev pub write : Stream → ℕ → ZCode × Bytes × Stream
write s room = (z_stream_end, take room s.left, record s { left = drop room s.left })

pub write_shrinks :
    (s : Stream) (room : ℕ) → length (write s room).1 + length (write s room).2.left ≤ length s.left
write_shrinks s room = omega (arith, length-take room s.left, length-drop room s.left)

abbrev pub runs : Zlib
runs = record {
  Stream = Stream;
  deflate_init = (z_ok, record { packs = true; left = [] });
  inflate_init = (z_ok, record { packs = false; left = [] });
  feed = λ s text. record s { left = if s.packs then shrink text else grow text };
  deflate = write;
  inflate = write;
  to_come = λ s. length s.left;
  deflate_shrinks = write_shrinks;
  inflate_shrinks = write_shrinks;
}

pub write_step :
    (s : Stream) (b : Bytes) (room : ℕ)
    → s.left ≡ b
    → ((write s room).0 ≢ z_stream_error)
      × ((write s room).1 ≡ take room b)
      × ((write s room).2.left ≡ drop room b)
write_step s b room e = ((λ x. cc), ap (take room) e, ap (drop room) e)

abbrev pub runs_laws : ZlibLaws runs
runs_laws = record {
  deflated = shrink;
  Deflating = λ s b. s.left ≡ b;
  Inflating = λ s b. s.left ≡ b;
  deflate_starts = λ text h. (refl, refl);
  deflate_step = write_step;
  inflate_starts = λ text h. (refl, grow-shrink text);
  inflate_step = write_step;
}

-- Writes what comes before the last byte of a text, and finds the text corrupt in each call.
abbrev pub torn : Zlib
torn = record runs {
  feed = λ s text. record s { left = take (length text - 1) text };
  inflate = λ s room. (z_data_error, take room s.left, record s { left = drop room s.left });
}

pub cut_short : Inflates torn (codes "ab?") (codes "ab")
cut_short = record {
  Left = λ s b. s.left ≡ b;
  begins = refl;
  starts = refl;
  goes_on = λ s b room e. ((λ x. cc), ap (take room) e, ap (drop room) e);
}
