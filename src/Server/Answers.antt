-- ===== src/Server/Answers.antt =====
-- What `OnMessage` answers, as the client reads it.
use xrpc.Base.{
  ℕ, ◌+◌, ◌<◌, ◌^◌, ◌≡◌, refl, sym, ap, ◌∙◌, true, false, Bytes, [], length, none, some, Result, ok,
  throw, arith, append-nil,
}
use xrpc.Base.Int.{pos}
use xrpc.Base.Dict.{lookup}
use xrpc.Proto.{RpcHeader, empty_header, with_error, Protobuf}
use xrpc.Proto.Wire.{ProtobufLaws, IsWire, text_size}
use xrpc.Codec.ZlibCalls.{Zlib, ZlibLaws}
use xrpc.Codec.{encode_response, decode_response}
use xrpc.Codec.RoundTrip.{sent_header, decode_response-encode_response}
use xrpc.Server.{
  Service, Server, find_method, internal_error, cancelled_error, service_error, method_error,
  request_error, refuse, answer, guarded, on_message,
}

-- The client's view of an answer: the header that it decodes has status 1 and this code and text.
abbrev pub Tells :
    (pb : Protobuf) (z : Zlib) → Bytes → RpcHeader → pb.Message → pb.Message → ℕ → Bytes → Type 0
Tells pb z wire old target message code reason =
    (h : RpcHeader) × (decode_response pb z wire old target ≡ (true, h, message))
    × (h.status ≡ pos 1)
    × (h.error ≡ some (record { code = pos code; message = reason }))

-- Why a request is turned down before any service is called.
pub data Refusal {pb : Protobuf} {W : Type 0} (s : Server pb W) (h : RpcHeader) (args : Bytes)
    : ℕ → Bytes → Type 0 where
  by_cancel : h.cancelled ≡ true → Refusal s h args 5 cancelled_error
  by_service :
      h.cancelled ≡ false
      → lookup h.service_name s.services ≡ none
      → Refusal s h args 2 service_error
  by_method :
      (service : Service pb W)
      → h.cancelled ≡ false
      → lookup h.service_name s.services ≡ some service
      → find_method h.method_name service.methods ≡ none
      → Refusal s h args 3 method_error
  by_request :
      (service : Service pb W) (method : ℕ) (partial : pb.Message)
      → h.cancelled ≡ false
      → lookup h.service_name s.services ≡ some service
      → find_method h.method_name service.methods ≡ some method
      → pb.parse (service.request_prototype method) args ≡ (false, partial)
      → Refusal s h args 4 request_error

module _ (pb : Protobuf) (pl : ProtobufLaws pb) (z : Zlib) (zl : ZlibLaws z) where
  -- The header of an error answer can be sent if the request's could and there is room for the text.
  pub with_error-IsWire :
      (h : RpcHeader) (code : ℕ) (reason : Bytes)
      → IsWire pl.is_utf8 h
      → code < 2 ^ 31
      → pl.is_utf8 reason ≡ true
      → text_size h + length reason < 2 ^ 20
      → IsWire pl.is_utf8 (with_error h code reason)
  unfolding text_size with_error
  with_error-IsWire h code reason w c u small = record {
    service_utf8 = w.service_utf8;
    method_utf8 = w.method_utf8;
    args_size_fits = w.args_size_fits;
    request_id_fits = w.request_id_fits;
    status_fits = omega arith;
    metadata_utf8 = w.metadata_utf8;
    error_wire = (c, u);
    small = omega arith;
  }

  pub encode-Tells :
      (h : RpcHeader) (code : ℕ) (reason body : Bytes) (response : pb.Message) (old : RpcHeader)
      (target message : pb.Message)
      → IsWire pl.is_utf8 (with_error h code reason)
      → pb.serialize response ≡ some body
      → length body < 2 ^ 30
      → pb.parse target body ≡ (true, message)
      → (wire : Bytes) × (encode_response pb z (with_error h code reason) response ≡ ok wire)
        × Tells pb z wire old target message code reason
  unfolding with_error
  encode-Tells h code reason body response old target message w made small fits =
      let (wire, sent, read) =
        decode_response-encode_response pb pl z zl (with_error h code reason) old response target
          message body [] true w made small (omega arith) fits in
      (
        wire,
        sent,
        (
          sent_header zl (with_error h code reason) body,
          ap (λ t. decode_response pb z t old target) (sym (append-nil wire)) ∙ read,
          refl,
          refl,
        ),
      )

  pub refuse-Tells :
      (h : RpcHeader) (code : ℕ) (reason : Bytes) (old : RpcHeader) (target message : pb.Message)
      → IsWire pl.is_utf8 (with_error h code reason)
      → pb.parse target [] ≡ (true, message)
      → (wire : Bytes) × (refuse pb z h code reason ≡ ok wire)
        × Tells pb z wire old target message code reason
  unfolding refuse
  refuse-Tells h code reason old target message w fits =
      encode-Tells h code reason [] (pb.of_header empty_header) old target message w
        pl.serialize_default (omega arith) fits

  internal-IsWire : IsWire pl.is_utf8 (with_error empty_header 6 internal_error)
  unfolding text_size with_error
  internal-IsWire = record {
    service_utf8 = pl.ascii_utf8 [] tt;
    method_utf8 = pl.ascii_utf8 [] tt;
    args_size_fits = omega arith;
    request_id_fits = omega arith;
    status_fits = omega arith;
    metadata_utf8 = tt;
    error_wire = (omega arith, pl.ascii_utf8 internal_error (omega arith));
    small = omega arith;
  }

  guarded_total :
      {W : Type 0} (r : W × Result Bytes) → (answer : Bytes) × (guarded pb z r ≡ (r.0, ok answer))
  guarded_total (world, ok text) = (text, refl)
  guarded_total (world, throw e) =
      let (wire, sent, _) =
        decode_response-encode_response pb pl z zl (with_error empty_header 6 internal_error)
          empty_header (pb.of_header empty_header) (pb.of_header empty_header)
          (pb.parse (pb.of_header empty_header) []).1 [] []
          (pb.parse (pb.of_header empty_header) []).0 internal-IsWire pl.serialize_default
          (omega arith) (omega arith) refl in
      (wire, unfold refuse in rw sent)

  -- Whatever bytes arrive, and whatever services that return or throw a std::exception do,
  -- OnMessage returns an answer and no exception.
  pub on_message_total :
      {W : Type 0} (s : Server pb W) (input : Bytes)
      → (answer : Bytes) × ((on_message pb z s input).1 ≡ ok answer)
  unfolding on_message
  on_message_total s input = let (answer, e) = guarded_total _ in (answer, ap (λ r. r.1) e)
