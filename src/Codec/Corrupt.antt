-- ===== src/Codec/Corrupt.antt =====
-- `Decode` of core/codec/xrpc_codec.cc on bodies that are no whole zlib stream.
use xrpc.Base.{◌<◌, ◌^◌, ◌≡◌, refl, if_true, ◌∙◌, true, Bytes, ◌++◌, length, ok, arith}
use xrpc.Proto.{RpcHeader, Protobuf}
use xrpc.Proto.Wire.{ProtobufLaws, IsWire}
use xrpc.Codec.ZlibCalls.{Zlib}
use xrpc.Codec.Stream.Drain.{Inflates, decompress-Inflates}
use xrpc.Codec.{frame, unpack, decode}
use xrpc.Codec.RoundTrip.{decode-frame}

module _ (pb : Protobuf) (pl : ProtobufLaws pb) (z : Zlib) where
  unpack-Inflates :
      (h : RpcHeader) (body b : Bytes)
      → h.compressed ≡ true
      → length body < 2 ^ 30
      → Inflates z body b
      → unpack pb z h body ≡ record { success = true; header = h; args = b }
  unfolding unpack
  unpack-Inflates h body b flag small i =
      if_true _ _ flag ∙ rw (decompress-Inflates z body b i (omega arith)) refl

  -- Decode of a frame whose header says that the body is compressed reports success with all
  -- that inflate writes from the body, whatever codes its calls give but Z_STREAM_ERROR, those
  -- of a corrupt body or of one cut short among them. inflateInit succeeds, the header is one
  -- that protobuf can carry and gives the size of the body, the body has less than 2^30 bytes,
  -- and less than 2^29 follow in the buffer.
  pub decode_accepts_errors :
      (h old : RpcHeader) (body b rest old_args : Bytes)
      → IsWire pl.is_utf8 h
      → h.compressed ≡ true
      → h.args_size ≡ length body
      → length body < 2 ^ 30
      → length rest < 2 ^ 29
      → Inflates z body b
      → (wire : Bytes) × (frame pb z h body ≡ ok wire)
        × (decode pb z (wire ++ rest) old old_args
            ≡ record { success = true; header = h; args = b })
  decode_accepts_errors h old body b rest old_args w flag sized small few i =
      let (wire, framed, read) = decode-frame pb pl z h body rest old old_args w sized small few in
      (wire, framed, read ∙ unpack-Inflates h body b flag small i)
