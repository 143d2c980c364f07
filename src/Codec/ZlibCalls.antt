-- ===== src/Codec/ZlibCalls.antt =====
-- zlib as core/codec/xrpc_codec.cc calls it, and what zlib documents of those calls.
use xrpc.Base.{ℕ, ◌+◌, ◌^◌, ◌<◌, ◌≤◌, ◌≡◌, ◌≢◌, Bytes, length, take, drop}

-- The return codes of zlib.h.
pub data ZCode : Type 0 where
  z_ok z_stream_end z_need_dict z_stream_error z_data_error z_mem_error z_buf_error : ZCode

-- A call of `deflate` or `inflate` is given the room in the output buffer, and returns its code,
-- the bytes that it wrote and the stream after it. `feed` points the stream at its input, whose size is a
-- `uInt`, so below 2^32. `to_come` bounds what a stream will still write.
pub record Zlib : Type 1 where
  pub Stream : Type 0
  pub deflate_init : ZCode × Stream
  pub inflate_init : ZCode × Stream
  pub feed : Stream → Bytes → Stream
  pub deflate : Stream → ℕ → ZCode × Bytes × Stream
  pub inflate : Stream → ℕ → ZCode × Bytes × Stream
  pub to_come : Stream → ℕ
  pub deflate_shrinks :
      (s : Stream) (room : ℕ) → length (deflate s room).1 + to_come (deflate s room).2 ≤ to_come s
  pub inflate_shrinks :
      (s : Stream) (room : ℕ) → length (inflate s room).1 + to_come (inflate s room).2 ≤ to_come s

-- `Deflating s b`: `s` still has `b` to write, which each call does as far as there is room.
pub record ZlibLaws (z : Zlib) : Type 1 where
  pub deflated : Bytes → Bytes
  pub Deflating : z.Stream → Bytes → Type 0
  pub Inflating : z.Stream → Bytes → Type 0
  pub deflate_starts :
      (text : Bytes)
      → length text < 2 ^ 32
      → (z.deflate_init.0 ≡ z_ok) × Deflating (z.feed z.deflate_init.1 text) (deflated text)
  pub deflate_step :
      (s : z.Stream) (b : Bytes) (room : ℕ)
      → Deflating s b
      → ((z.deflate s room).0 ≢ z_stream_error)
        × ((z.deflate s room).1 ≡ take room b)
        × Deflating (z.deflate s room).2 (drop room b)
  pub inflate_starts :
      (text : Bytes)
      → length (deflated text) < 2 ^ 32
      → (z.inflate_init.0 ≡ z_ok) × Inflating (z.feed z.inflate_init.1 (deflated text)) text
  pub inflate_step :
      (s : z.Stream) (b : Bytes) (room : ℕ)
      → Inflating s b
      → ((z.inflate s room).0 ≢ z_stream_error)
        × ((z.inflate s room).1 ≡ take room b)
        × Inflating (z.inflate s room).2 (drop room b)
