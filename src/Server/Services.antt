-- ===== src/Server/Services.antt =====
-- Requests that reach a service: what the client decodes when the method succeeds, and when it
-- fails or throws.
use mathlib.Core.List.{foldl}
use xrpc.Base.{
  ℕ, ◌+◌, ◌<◌, ◌^◌, ◌≡◌, refl, ap, ◌∙◌, Bool, true, false, Bytes, [], length, none, some, ok, arith,
  append-nil, if_false,
}
use xrpc.Base.Int.{pos}
use xrpc.Base.Dict.{lookup}
use xrpc.Proto.{RpcHeader, empty_header, Protobuf}
use xrpc.Proto.Wire.{ProtobufLaws, IsWire, text_size}
use xrpc.Codec.ZlibCalls.{Zlib, ZlibLaws}
use xrpc.Codec.{encode, encode_response, decode, decode_response}
use xrpc.Codec.RoundTrip.{sent_header, sent-IsWire, decode-encode, decode_response-encode_response}
use xrpc.Controller.{fresh, destroy}
use xrpc.Server.{
  Reply, Service, Server, find_method, raised, call_service_method, call_failed, answer, invoke,
  dispatch, guarded, on_message,
}
use xrpc.Server.Answers.{Tells, with_error-IsWire, encode-Tells}
use xrpc.Server.Calls.{text_size-sent, on_message_decoded}

-- The request names a method of a registered service, and its body parses as that method's request.
pub record Reaches {pb : Protobuf} {W : Type 0} (s : Server pb W) (h : RpcHeader) (body : Bytes)
    (service : Service pb W) (method : ℕ) (request : pb.Message) : Type 0 where
  pub live : h.cancelled ≡ false
  pub found : lookup h.service_name s.services ≡ some service
  pub offers : find_method h.method_name service.methods ≡ some method
  pub parsed : pb.parse (service.request_prototype method) body ≡ (true, request)

module _ {pb : Protobuf} {W : Type 0} (s : Server pb W) (service : Service pb W) (method : ℕ)
    (request : pb.Message) where
  -- The one call of the service's code, on a fresh controller.
  abbrev pub reply : Reply pb W
  reply = service.call method s.world fresh request (service.response_prototype method)

  -- The world after the call and after the destructor of its controller.
  abbrev world_after : W
  world_after = foldl service.run_closure reply.world (destroy reply.controller)

  called :
      (h : RpcHeader) (body : Bytes)
      → Reaches s h body service method request
      → call_service_method pb s h.service_name method request
          (service.response_prototype method)
          h.cancelled
        ≡ (world_after, reply.response, raised pb reply)
  unfolding call_service_method
  called h body r = rw (r.found, call_service_method) (if_false _ _ r.live)

  dispatch-Reaches :
      (z : Zlib) (h : RpcHeader) (body : Bytes)
      → Reaches s h body service method request
      → dispatch pb z s h body ≡ answer pb z h (world_after, reply.response, raised pb reply)
  unfolding dispatch
  dispatch-Reaches z h body r =
      rw (r.found, r.offers, dispatch)
        (unfold invoke in rw r.parsed (ap (answer pb z h) (called h body r)))

  on_message-Reaches :
      (z : Zlib) (h : RpcHeader) (input body : Bytes)
      → decode pb z input empty_header [] ≡ record { success = true; header = h; args = body }
      → Reaches s h body service method request
      → on_message pb z s input
        ≡ guarded pb z (answer pb z h (world_after, reply.response, raised pb reply))
  on_message-Reaches z h input body e r =
      on_message_decoded s z input body h e
      ∙ ap (guarded pb z) (if_false _ _ r.live ∙ dispatch-Reaches z h body r)

done-IsWire :
    {is_utf8 : Bytes → Bool} {h : RpcHeader}
    → IsWire is_utf8 h
    → IsWire is_utf8 (record h { status = pos 0 })
unfolding text_size
done-IsWire w = record {
  service_utf8 = w.service_utf8;
  method_utf8 = w.method_utf8;
  args_size_fits = w.args_size_fits;
  request_id_fits = w.request_id_fits;
  status_fits = omega arith;
  metadata_utf8 = w.metadata_utf8;
  error_wire = w.error_wire;
  small = w.small;
}

answer_ok :
    (pb : Protobuf) (z : Zlib) {W : Type 0} (h : RpcHeader) (world : W) (response : pb.Message)
    (text : Bytes)
    → encode_response pb z (record h { status = pos 0 }) response ≡ ok text
    → answer pb z h (world, response, none) ≡ (world, ok text)
unfolding answer
answer_ok pb z h world response text e = rw e

module _ (pb : Protobuf) (pl : ProtobufLaws pb) (z : Zlib) (zl : ZlibLaws z) {W : Type 0}
    (s : Server pb W) (service : Service pb W) (method : ℕ) (h old : RpcHeader)
    (args request target message : pb.Message) (body response : Bytes) (w : IsWire pl.is_utf8 h)
    (made : pb.serialize args ≡ some body) (small : length body < 2 ^ 30)
    (reaches : Reaches s h body service method request)
    (replied : pb.serialize (reply s service method request).response ≡ some response)
    (brief : length response < 2 ^ 30) (fits : pb.parse target response ≡ (true, message)) where
  reached :
      (wire : Bytes) × (encode pb z h args ≡ ok wire)
      × (on_message pb z s wire
          ≡ guarded pb z (
              answer pb z (sent_header zl h body) (
                world_after s service method request,
                (reply s service method request).response,
                raised pb (reply s service method request),
              )))
  reached =
      let (wire, sent, read) =
        decode-encode pb pl z zl h args body [] empty_header [] w made small (omega arith) in
      (
        wire,
        sent,
        on_message-Reaches s service method request z (sent_header zl h body) wire body
            (rw append-nil at read)
            (record {
              live = reaches.live;
              found = reaches.found;
              offers = reaches.offers;
              parsed = reaches.parsed;
            }),
      )

  -- A call that succeeds: the method runs once, on the request that the client sent, and the client
  -- decodes its response under status 0, with the request's id, names and error field.
  pub served_call :
      raised pb (reply s service method request) ≡ none
      → (wire : Bytes) × (reply_wire : Bytes) × (encode pb z h args ≡ ok wire)
        × (on_message pb z s wire ≡ (world_after s service method request, ok reply_wire))
        × (header : RpcHeader) × (decode_response pb z reply_wire old target
            ≡ (true, header, message))
        × (header.status ≡ pos 0)
        × (header.request_id ≡ h.request_id)
        × (header.error ≡ h.error)
  served_call quiet =
      let (wire, sent, handled) = reached in
      let fine = record (sent_header zl h body) { status = pos 0 } in
      let (reply_wire, written, read) =
        decode_response-encode_response pb pl z zl fine old
          (reply s service method request).response target message response [] true
          (done-IsWire (sent-IsWire pb pl z zl h body w)) replied brief (omega arith) fits in
      (
        wire,
        reply_wire,
        sent,
        handled
            ∙ rw quiet
                (ap (guarded pb z) (answer_ok pb z (sent_header zl h body) _ _ reply_wire written)),
        sent_header zl fine response,
        rw append-nil at read,
        refl,
        refl,
        refl,
      )

  -- A method that throws, or that returns with its controller failed, is answered by code 5 and
  -- its text, in front of the response as it was left.
  pub failed_call-Tells :
      (reason : Bytes)
      → raised pb (reply s service method request) ≡ some reason
      → pl.is_utf8 reason ≡ true
      → text_size h + length reason < 2 ^ 20
      → (wire : Bytes) × (reply_wire : Bytes) × (encode pb z h args ≡ ok wire)
        × (on_message pb z s wire ≡ (world_after s service method request, ok reply_wire))
        × Tells pb z reply_wire old target message 5 reason
  failed_call-Tells reason fails utf8 room =
      let (wire, sent, handled) = reached in
      let (reply_wire, written, tells) =
        encode-Tells pb pl z zl (sent_header zl h body) 5 reason response
          (reply s service method request).response old target message
          (with_error-IsWire pb pl z zl _ 5 reason (sent-IsWire pb pl z zl h body w) (omega arith)
            utf8 (omega (arith, text_size-sent zl h body)))
          replied brief fits in
      (wire, reply_wire, sent, handled ∙ rw fails (unfold answer call_failed in rw written), tells)
