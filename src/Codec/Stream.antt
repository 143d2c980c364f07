-- ===== src/Codec/Stream.antt =====
-- `Compress` and `Decompress` of core/codec/xrpc_codec.cc: the loops that drain a zlib stream
-- through a buffer on the stack. `deflateEnd` and `inflateEnd` release the local stream and return
-- nothing that the code reads, so they have no counterpart here.
pub mod Drain
use xrpc.Base.{
  ℕ, zero, suc, ◌+◌, ◌-◌, ◌%◌, ◌^◌, ◌<◌, ◌≤◌, ◌≡◌, refl, ◌≢◌, dite, Bytes, codes, ◌++◌, length,
  take, arith, Result, ok, throw, ℕ_discrete, if◌then◌else◌, Bool, true, false, [],
}
use xrpc.Codec.ZlibCalls.{
  Zlib, ZCode, z_ok, z_stream_end, z_need_dict, z_stream_error, z_data_error, z_mem_error,
  z_buf_error,
}

-- `sizeof(buffer)`.
abbrev pub chunk : ℕ
chunk = 8192

abbrev pub is_ok : ZCode → Bool
is_ok z_ok = true
is_ok _ = false

abbrev pub is_stream_error : ZCode → Bool
is_stream_error z_stream_error = true
is_stream_error _ = false

abbrev pub deflate_init_failed : Bytes
deflate_init_failed = codes "Failed to initialize deflate"

abbrev pub compress_failed : Bytes
compress_failed = codes "Failed to compress data"

abbrev pub inflate_init_failed : Bytes
inflate_init_failed = codes "Failed to initialize inflate"

abbrev pub decompress_failed : Bytes
decompress_failed = codes "Failed to decompress data"

pub full_shrinks : (n a b c : ℕ) → a ≡ chunk → a + b ≤ c → c < suc n → b < n
full_shrinks n a b c e h k = omega arith

-- The `do`-`while` of both functions, over the call that fills the buffer. `avail_out == 0` is a
-- full buffer. `n` bounds the rounds and the proof says that it does: a full buffer takes 8192 off
-- what is still to come.
unfoldable pub drain :
    {S : Type 0} (step : S → ℕ → ZCode × Bytes × S) (to_come : S → ℕ)
    → ((s : S) (room : ℕ) → length (step s room).1 + to_come (step s room).2 ≤ to_come s)
    → Bytes
    → (n : ℕ) (s : S) → to_come s < n
    → Bytes
    → Result Bytes
drain step to_come shrinks failed zero s h result = elim h [ ]
drain step to_come shrinks failed (suc n) s h result =
    let written = (step s chunk).1 in
    let rest =
      dite (ℕ_discrete (length written) chunk)
        (λ full.
          drain step to_come shrinks failed n (step s chunk).2
            (full_shrinks n (length written) _ _ full (shrinks s chunk) h) (result ++ written))
        (λ _. ok (result ++ written)) in
    if is_stream_error (step s chunk).0 then throw failed else rest

-- `next_in` and `avail_in`: the size of the text goes into a `uInt` and wraps at 2^32.
abbrev pub available : Bytes → Bytes
available text = take (length text % 2 ^ 32) text

module _ (z : Zlib) where
  unfoldable pub compress : Bytes → Result Bytes
  compress text =
      if is_ok z.deflate_init.0
      then drain z.deflate z.to_come z.deflate_shrinks compress_failed
          (suc (z.to_come (z.feed z.deflate_init.1 (available text))))
          (z.feed z.deflate_init.1 (available text)) (omega arith) []
      else throw deflate_init_failed

  unfoldable pub decompress : Bytes → Result Bytes
  decompress text =
      if is_ok z.inflate_init.0
      then drain z.inflate z.to_come z.inflate_shrinks decompress_failed
          (suc (z.to_come (z.feed z.inflate_init.1 (available text))))
          (z.feed z.inflate_init.1 (available text)) (omega arith) []
      else throw inflate_init_failed
