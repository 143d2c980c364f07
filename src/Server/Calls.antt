-- ===== src/Server/Calls.antt =====
-- One request from the client's `Encode` to what it decodes from the answer.
use xrpc.Base.{
  ℕ, ◌+◌, ◌<◌, ◌^◌, ◌≡◌, refl, ap, ◌∙◌, true, Bytes, [], length, some, ok, arith, if◌then◌else◌,
  append-nil, if_true, if_false, All,
}
use xrpc.Proto.{RpcHeader, empty_header, Protobuf}
use xrpc.Proto.Wire.{ProtobufLaws, IsWire, text_size}
use xrpc.Codec.ZlibCalls.{Zlib, ZlibLaws}
use xrpc.Codec.{encode, decode}
use xrpc.Codec.RoundTrip.{sent_header, sent-IsWire, decode-encode}
use xrpc.Server.{Server, cancelled_error, refuse, answer, invoke, dispatch, guarded, on_message}
use xrpc.Server.Answers.{
  Tells, Refusal, by_cancel, by_service, by_method, by_request, with_error-IsWire, refuse-Tells,
}

pub text_size-sent :
    {z : Zlib} (zl : ZlibLaws z) (h : RpcHeader) (body : Bytes)
    → text_size (sent_header zl h body) ≡ text_size h
unfolding text_size
text_size-sent zl h body = refl

module _ {pb : Protobuf} {W : Type 0} (s : Server pb W) where
  Refusal-sent :
      {z : Zlib} (zl : ZlibLaws z) (h : RpcHeader) (body args : Bytes) {code : ℕ} {reason : Bytes}
      → Refusal s h args code reason
      → Refusal s (sent_header zl h body) args code reason
  Refusal-sent zl h body args (by_cancel c) = by_cancel c
  Refusal-sent zl h body args (by_service c l) = by_service c l
  Refusal-sent zl h body args (by_method service c l m) = by_method service c l m
  Refusal-sent zl h body args (by_request service i p c l m b) = by_request service i p c l m b

  reason-small :
      (h : RpcHeader) (args : Bytes) {code : ℕ} {reason : Bytes}
      → Refusal s h args code reason
      → (length reason < 64) × All (λ c. c < 128) reason × (code < 6)
  reason-small h args (by_cancel c) = omega arith
  reason-small h args (by_service c l) = omega arith
  reason-small h args (by_method service c l m) = omega arith
  reason-small h args (by_request service i p c l m b) = omega arith

  pub on_message_decoded :
      (z : Zlib) (input args : Bytes) (h : RpcHeader)
      → decode pb z input empty_header [] ≡ record { success = true; header = h; args = args }
      → on_message pb z s input
        ≡ guarded pb z (
            if h.cancelled
            then (s.world, refuse pb z h 5 cancelled_error)
            else dispatch pb z s h args)
  unfolding on_message
  on_message_decoded z input args h e = rw e

  dispatch-Refusal :
      (z : Zlib) (h : RpcHeader) (args : Bytes) {code : ℕ} {reason : Bytes}
      → Refusal s h args code reason
      → (if h.cancelled then (s.world, refuse pb z h 5 cancelled_error) else dispatch pb z s h args)
        ≡ (s.world, refuse pb z h code reason)
  unfolding dispatch
  dispatch-Refusal z h args (by_cancel c) = if_true _ _ c
  dispatch-Refusal z h args (by_service c l) = if_false _ _ c ∙ rw (l, dispatch)
  dispatch-Refusal z h args (by_method service c l m) = if_false _ _ c ∙ rw (l, m, dispatch)
  dispatch-Refusal z h args (by_request service i p c l m b) =
      if_false _ _ c ∙ rw (l, m, dispatch) (unfold invoke in rw b)

module _ (pb : Protobuf) (pl : ProtobufLaws pb) (z : Zlib) (zl : ZlibLaws z) {W : Type 0}
    (s : Server pb W) where
  -- A request that is canceled, or whose service or method the server does not have, or whose
  -- body does not parse, is answered without a change of the server's data, and the client
  -- decodes the code (5, 2, 3 or 4) and the text of the refusal. The request serializes to less
  -- than 2^30 bytes, under a header that protobuf can carry with texts that are more than 64
  -- bytes below a megabyte, and the client's object parses an empty response.
  pub refused-Tells :
      (h old : RpcHeader) (args target message : pb.Message) (body : Bytes) {code : ℕ}
      {reason : Bytes}
      → IsWire pl.is_utf8 h
      → text_size h + 64 < 2 ^ 20
      → pb.serialize args ≡ some body
      → length body < 2 ^ 30
      → Refusal s h body code reason
      → pb.parse target [] ≡ (true, message)
      → (request : Bytes) × (answer : Bytes) × (encode pb z h args ≡ ok request)
        × (on_message pb z s request ≡ (s.world, ok answer))
        × Tells pb z answer old target message code reason
  refused-Tells h old args target message body {code} {reason} w room made small r fits =
      let (request, sent, read) =
        decode-encode pb pl z zl h args body [] empty_header [] w made small (omega arith) in
      let (short, ascii, low) = reason-small s h body r in
      let (answer, answered, tells) =
        refuse-Tells pb pl z zl (sent_header zl h body) code reason old target message
          (with_error-IsWire pb pl z zl _ code reason (sent-IsWire pb pl z zl h body w)
            (omega arith) (pl.ascii_utf8 reason ascii) (omega (arith, text_size-sent zl h body)))
          fits in
      (
        request,
        answer,
        sent,
        on_message_decoded s z request body (sent_header zl h body) (rw append-nil at read)
            ∙ ap (guarded pb z) (dispatch-Refusal s z _ body (Refusal-sent s zl h body body r))
            ∙ rw answered,
        tells,
      )
