-- ===== src/Codec/RoundTrip.antt =====
-- `Decode` after `Encode`, and `DecodeResponse` after `EncodeResponse`.
use xrpc.Base.{
  ℕ, ◌+◌, ◌<◌, ◌≤◌, ◌%◌, ◌^◌, ◌≡◌, ap, ◌∙◌, Bool, true, ◌&&◌, Bytes, ◌++◌, length, ltb,
  if◌then◌else◌, some, ok, arith, length-append, append_assoc, [],
}
use xrpc.Base.Int.{int_of_u32, int_of_u32_small}
use xrpc.Proto.{RpcHeader, Protobuf}
use xrpc.Proto.Wire.{ProtobufLaws, IsWire, text_size}
use xrpc.Codec.ZlibCalls.{Zlib, ZlibLaws}
use xrpc.Codec.Stream.Drain.{compress_whole, decompress-deflated}
use xrpc.Codec.{u32_mod, pack, frame, encode, encode_response, unpack, decode, decode_response}

module _ {z : Zlib} (zl : ZlibLaws z) where
  -- Compression was asked for, the body has more than 100 bytes, and its zlib stream has fewer.
  abbrev pub pays : RpcHeader → Bytes → Bool
  pays h body =
      h.compressed && ltb 100 (length body) && ltb (length (zl.deflated body)) (length body)

  abbrev sent_body : RpcHeader → Bytes → Bytes
  sent_body h body = if pays h body then zl.deflated body else body

  -- The header that goes out: the caller's, with the size of the body sent and the flag set anew.
  abbrev pub sent_header : RpcHeader → Bytes → RpcHeader
  sent_header h body = record h {
    args_size = length (sent_body h body) % u32_mod;
    compressed = pays h body;
  }

  sent_body-le : (h : RpcHeader) (body : Bytes) → length (sent_body h body) ≤ length body
  sent_body-le h body = ground arith

module _ (pb : Protobuf) (z : Zlib) (zl : ZlibLaws z) where
  -- What is packed is the body or its zlib stream, under the header that says which.
  pack_lem :
      (h : RpcHeader) (body : Bytes)
      → length body < 2 ^ 30
      → pack pb z h body ≡ ok (sent_header zl h body, sent_body zl h body)
  unfolding pack
  pack_lem h body small = ground (arith, compress_whole z zl body (omega arith))

  unpack-sent :
      (h : RpcHeader) (body : Bytes)
      → length body < 2 ^ 30
      → unpack pb z (sent_header zl h body) (sent_body zl h body)
        ≡ record { success = true; header = sent_header zl h body; args = body }
  unfolding unpack
  unpack-sent h body small = ground (arith, decompress-deflated z zl body)

module _ (pb : Protobuf) (pl : ProtobufLaws pb) (z : Zlib) where
  decode_reads :
      (input after_size after_header after_body text body args : Bytes) (size : ℕ)
      (old h : RpcHeader)
      → pb.read_varint32 input ≡ (true, size, after_size)
      → pb.read_string (int_of_u32 size) after_size ≡ (true, text, after_header)
      → pb.parse_header old text ≡ (true, h)
      → pb.read_string (int_of_u32 h.args_size) after_header ≡ (true, body, after_body)
      → decode pb z input old args ≡ unpack pb z h body
  unfolding decode
  decode_reads input a b c text body args size old h r1 r2 r3 r4 = rw (r1, r2, r3, r4)

  read_sized :
      (n : ℕ) (s rest : Bytes)
      → n ≡ length s
      → length s + length rest < 2 ^ 31
      → pb.read_string (int_of_u32 n) (s ++ rest) ≡ (true, s, rest)
  read_sized n s rest e h =
      rw (e, int_of_u32_small (length s) (omega arith)) (pl.read_string_exact s rest h)

  -- What was framed is read back, whatever follows it in the buffer.
  pub decode-frame :
      (h : RpcHeader) (body rest : Bytes) (old : RpcHeader) (args : Bytes)
      → IsWire pl.is_utf8 h
      → h.args_size ≡ length body
      → length body < 2 ^ 30
      → length rest < 2 ^ 29
      → (wire : Bytes) × (frame pb z h body ≡ ok wire)
        × (decode pb z (wire ++ rest) old args ≡ unpack pb z h body)
  unfolding frame
  decode-frame h body rest old args w sized small few =
      let (text, made, short) = pl.serialize_header_total h w in
      let size : length (body ++ rest) ≡ length body + length rest = length-append body rest in
      let prefix : Bytes = pb.write_varint32 (length text % u32_mod) in
      let regroup : (prefix ++ (text ++ body)) ++ rest ≡ prefix ++ (text ++ (body ++ rest)) =
        append_assoc prefix (text ++ body) rest ∙ ap (◌++◌ prefix) (append_assoc text body rest) in
      (
        prefix ++ (text ++ body),
        rw made,
        rw regroup (
            decode_reads _ (text ++ (body ++ rest)) (body ++ rest) rest text body args
              (length text % u32_mod) old h
              (pl.read-write_varint32 _ (text ++ (body ++ rest)) (omega arith)
                (omega (arith, length-append text (body ++ rest))))
              (read_sized _ text (body ++ rest) (omega arith) (omega arith))
              (pl.parse-serialize_header h old text w made)
              (read_sized _ body rest sized (omega arith))),
      )

module _ (pb : Protobuf) (pl : ProtobufLaws pb) (z : Zlib) (zl : ZlibLaws z) where
  -- A header that protobuf can carry stays one when the codec sets its two fields.
  pub sent-IsWire :
      (h : RpcHeader) (body : Bytes)
      → IsWire pl.is_utf8 h
      → IsWire pl.is_utf8 (sent_header zl h body)
  unfolding text_size
  sent-IsWire h body w = record {
    service_utf8 = w.service_utf8;
    method_utf8 = w.method_utf8;
    args_size_fits = omega arith;
    request_id_fits = w.request_id_fits;
    status_fits = w.status_fits;
    metadata_utf8 = w.metadata_utf8;
    error_wire = w.error_wire;
    small = w.small;
  }

  -- Every message that serializes to less than 2^30 bytes, under a header that protobuf can
  -- carry, is encoded, and its encoding decodes to the header that was sent and to the bytes of
  -- the message, whatever follows in the buffer, if less than 2^29 bytes do, and whatever the
  -- caller's variables held.
  pub decode-encode :
      (h : RpcHeader) (args : pb.Message) (body rest : Bytes) (old : RpcHeader) (old_args : Bytes)
      → IsWire pl.is_utf8 h
      → pb.serialize args ≡ some body
      → length body < 2 ^ 30
      → length rest < 2 ^ 29
      → (wire : Bytes) × (encode pb z h args ≡ ok wire)
        × (decode pb z (wire ++ rest) old old_args
            ≡ record { success = true; header = sent_header zl h body; args = body })
  unfolding encode
  decode-encode h args body rest old old_args w made small few =
      let shorter = sent_body-le zl h body in
      let (wire, framed, read) =
        decode-frame pb pl z (sent_header zl h body) (sent_body zl h body) rest old old_args
          (sent-IsWire h body w) (omega arith) (omega arith) few in
      (
        wire,
        rw (made, pack_lem pb z zl h body small) framed,
        read ∙ unpack-sent pb z zl h body small,
      )

  -- Every response that serializes to less than 2^30 bytes, under a header that protobuf can
  -- carry, is encoded, and DecodeResponse of its encoding gives the header that was sent, and
  -- the result and the message of parsing its bytes, whatever follows in the buffer, if less
  -- than 2^29 bytes do.
  pub decode_response-encode_response :
      (h old : RpcHeader) (response target message : pb.Message) (body rest : Bytes) (parsed : Bool)
      → IsWire pl.is_utf8 h
      → pb.serialize response ≡ some body
      → length body < 2 ^ 30
      → length rest < 2 ^ 29
      → pb.parse target body ≡ (parsed, message)
      → (wire : Bytes) × (encode_response pb z h response ≡ ok wire)
        × (decode_response pb z (wire ++ rest) old target
            ≡ (parsed, sent_header zl h body, message))
  unfolding encode_response decode_response
  decode_response-encode_response h old response target message body rest parsed w made small few
        fits =
      let shorter = sent_body-le zl h body in
      let (wire, framed, read) =
        decode-frame pb pl z (sent_header zl h body) (sent_body zl h body) rest old []
          (sent-IsWire h body w) (omega arith) (omega arith) few in
      (
        wire,
        rw (made, pack_lem pb z zl h body small) framed,
        rw (read, unpack-sent pb z zl h body small, fits),
      )
