-- ===== src/Codec.antt =====
-- core/codec/xrpc_codec.cc: a message on the wire is a varint32 with the length of the header, the
-- header and the body, which is compressed where that pays. The texts of the log are left out.
pub mod ZlibCalls
pub mod Stream
pub mod RoundTrip
pub mod Corrupt
use xrpc.Base.{
  ℕ, ◌%◌, ◌^◌, Bool, true, false, ◌&&◌, Bytes, codes, [], ◌++◌, length, ltb, if◌then◌else◌, Result,
  ok, throw, ◌>>=◌, or_throw,
}
use xrpc.Base.Int.{int_of_u32}
use xrpc.Proto.{RpcHeader, Protobuf}
use ZlibCalls.{Zlib}
use Stream.{compress, decompress}

abbrev pub u32_mod : ℕ
u32_mod = 2 ^ 32

abbrev args_failed : Bytes
args_failed = codes "Failed to serialize args"

abbrev response_failed : Bytes
response_failed = codes "Failed to serialize response"

abbrev header_failed : Bytes
header_failed = codes "Failed to serialize RpcHeader"

-- What `Decode` leaves in its result, `header` and `args`.
pub record Decoded : Type 0 where
  pub success : Bool
  pub header : RpcHeader
  pub args : Bytes

module _ (pb : Protobuf) (z : Zlib) where
  -- `set_args_size` and the choice of `compressed`: small bodies, and those that compression does
  -- not make shorter, go as they are. A size is stored in a `uint32`.
  unfoldable pub pack : RpcHeader → Bytes → Result (RpcHeader × Bytes)
  pack header body =
      let sized = record header { args_size = length body % u32_mod } in
      if header.compressed && ltb 100 (length body)
      then (compress z body >>= λ packed.
          if ltb (length packed) (length body)
          then ok (record sized { args_size = length packed % u32_mod }, packed)
          else ok (record sized { compressed = false }, body))
      else if header.compressed
      then ok (record sized { compressed = false }, body)
      else ok (sized, body)

  unfoldable pub frame : RpcHeader → Bytes → Result Bytes
  frame header body = do
    text ← or_throw (pb.serialize_header header) header_failed
    ok (pb.write_varint32 (length text % u32_mod) ++ (text ++ body))

  unfoldable pub encode : RpcHeader → pb.Message → Result Bytes
  encode header args = do
    text ← or_throw (pb.serialize args) args_failed
    (sent, body) ← pack header text
    frame sent body

  -- The same code once more, with another text for the first exception.
  unfoldable pub encode_response : RpcHeader → pb.Message → Result Bytes
  encode_response header response = do
    text ← or_throw (pb.serialize response) response_failed
    (sent, body) ← pack header text
    frame sent body

  abbrev refused : RpcHeader → Bytes → Decoded
  refused header args = record { success = false; header = header; args = args }

  -- Only a `std::runtime_error` of `Decompress` is caught.
  unfoldable pub unpack : RpcHeader → Bytes → Decoded
  unpack header args =
      if header.compressed
      then elim (decompress z args) [
        | ok text ↦ record { success = true; header = header; args = text }
        | throw _ ↦ refused header args
      ]
      else record { success = true; header = header; args = args }

  unfoldable decode_body : RpcHeader → Bytes → Decoded
  decode_body header input =
      let (got, args, _) = pb.read_string (int_of_u32 header.args_size) input in
      if got then unpack header args else refused header args

  -- The second argument is the caller's `header`, which a failure may leave as it is; the third its
  -- `args`, cleared only behind the header.
  unfoldable pub decode : Bytes → RpcHeader → Bytes → Decoded
  unfolding decode_body
  decode input header args =
      let (sized, size, after_size) = pb.read_varint32 input in
      let (got, text, after_header) = pb.read_string (int_of_u32 size) after_size in
      let (parsed, header') = pb.parse_header header text in
      if sized
      then if got
        then if parsed then decode_body header' after_header else refused header' args
        else refused header args
      else refused header args

  -- `DecodeResponse` reads the body into a local text and parses the message from that.
  unfoldable pub decode_response : Bytes → RpcHeader → pb.Message → Bool × RpcHeader × pb.Message
  unfolding decode
  decode_response input header response =
      let body = decode input header [] in
      let (parsed, message) = pb.parse response body.args in
      if body.success then (parsed, body.header, message) else (false, body.header, response)
