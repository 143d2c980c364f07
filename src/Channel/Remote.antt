-- ===== src/Channel/Remote.antt =====
-- A synchronous call from `CallMethod` through a server's `OnMessage` and back.
use xrpc.Base.{
  ℕ, ◌+◌, ◌<◌, ◌^◌, ◌≡◌, ap, ◌∙◌, Bool, true, false, ◌&&◌, Option, none, some, List, [], ◌∷◌, ◌++◌,
  Bytes, length, ok, if_false,
}
use xrpc.Base.Int.{ℤ, pos, IsInt32}
use xrpc.Base.Decimal.{to_string}
use xrpc.Proto.{RpcHeader, empty_header, Protobuf}
use xrpc.Proto.Wire.{ProtobufLaws, IsWire, text_size}
use xrpc.Codec.ZlibCalls.{Zlib, ZlibLaws}
use xrpc.Codec.{encode, decode_response}
use xrpc.Controller.{Controller, set_failed}
use xrpc.Interfaces.{Registry, Transport}
use xrpc.Server.{Service, Server, on_message, raised}
use xrpc.Server.Answers.{Tells, Refusal}
use xrpc.Server.Calls.{refused-Tells}
use xrpc.Server.Services.{Reaches, reply, served_call, failed_call-Tells}
use xrpc.Channel.{
  get_service_address, request_header, settle, Called, call_sync, send_encoded, call_connected,
  call_addressed, call_method, decode_failed,
}
use xrpc.Channel.Address.{NoColon, endpoint-to_string}

-- The registry lists an instance for the method, written as servers register, and the connection
-- to it is made.
pub record Route (reg : Registry) (tr : Transport) (service method ip : Bytes) (port : ℤ)
    (r r' : reg.State) (t t' : tr.State) : Type 0 where
  pub others : List Bytes
  pub listed :
      reg.find_instances_by_method r service method
      ≡ (r', ok ((ip ++ b':' ∷ to_string port) ∷ others))
  pub plain : NoColon ip
  pub fits : IsInt32 port
  pub joined : tr.connect t ip port ≡ (t', ok tt)

module _ (pb : Protobuf) (z : Zlib) (reg : Registry) (tr : Transport) where
  -- With a route, and no cancellation before, the call goes on to send the encoded request.
  pub call_method-Route :
      (is_xrpc : Bool) (service method ip wire : Bytes) (port : ℤ) (id : ℕ) (done : Option ℕ)
      (c : Controller) (args target : pb.Message) (r r' : reg.State) (t t' : tr.State)
      → Route reg tr service method ip port r r' t t'
      → (is_xrpc && c.canceled) ≡ false
      → encode pb z (request_header service method id) args ≡ ok wire
      → call_method pb z reg tr is_xrpc service method id done c args target r t
        ≡ send_encoded pb z reg tr is_xrpc (ok wire) done c target r' t'
  unfolding call_method get_service_address call_addressed call_connected
  call_method-Route is_xrpc service method ip wire port id closure c args target r r' t t' route
        live e =
      rw
        (route.listed, endpoint-to_string ip port route.others route.plain route.fits, route.joined)
        (if_false _ _ live ∙ rw e)

  pub settle_error :
      (input failure : Bytes) (c : Controller) (target message : pb.Message) (code : ℕ)
      (reason : Bytes)
      → Tells pb z input empty_header target message code reason
      → settle pb z failure input c target ≡ (set_failed reason c, message)
  unfolding settle
  settle_error input failure c target message code reason (h, read, status, error) =
      rw read (rw (status, error))

  pub settle_done :
      (input failure : Bytes) (c : Controller) (target message : pb.Message) (h : RpcHeader)
      → decode_response pb z input empty_header target ≡ (true, h, message)
      → h.status ≡ pos 0
      → settle pb z failure input c target ≡ (c, message)
  unfolding settle
  settle_done input failure c target message h read status = rw read (rw status)

  sync_settled :
      (is_xrpc : Bool) (wire answer : Bytes) (c c' : Controller) (target message : pb.Message)
      (r : reg.State) (t t' : tr.State)
      → tr.send t wire ≡ (t', true, answer)
      → settle pb z decode_failed answer c target ≡ (c', message)
      → send_encoded pb z reg tr is_xrpc (ok wire) none c target r t ≡ record {
        registry = r;
        transport = t';
        controller = c';
        response = message;
        ran = [];
        waiting = none;
      }
  unfolding call_sync send_encoded
  sync_settled is_xrpc wire answer c c' target message r t t' sent settled = rw (sent, settled)

module _ (pb : Protobuf) (pl : ProtobufLaws pb) (z : Zlib) (zl : ZlibLaws z) (reg : Registry)
    (tr : Transport) {W : Type 0} (s : Server pb W) (is_xrpc : Bool)
    (service_name method_name ip : Bytes) (port : ℤ) (id : ℕ) (c : Controller)
    (args target message : pb.Message) (body : Bytes) (r r' : reg.State) (t t' t'' : tr.State)
    (route : Route reg tr service_name method_name ip port r r' t t')
    (live : (is_xrpc && c.canceled) ≡ false)
    (wired : IsWire pl.is_utf8 (request_header service_name method_name id))
    (made : pb.serialize args ≡ some body) (small : length body < 2 ^ 30)
    (delivers : (wire answer : Bytes)
      → encode pb z (request_header service_name method_name id) args ≡ ok wire
      → (on_message pb z s wire).1 ≡ ok answer
      → tr.send t' wire ≡ (t'', true, answer)) where
  abbrev pub asked : RpcHeader
  asked = request_header service_name method_name id

  abbrev pub remote : Called pb z reg tr
  remote = call_method pb z reg tr is_xrpc service_name method_name id none c args target r t

  abbrev pub returned : Controller → Called pb z reg tr
  returned c' = record {
    registry = r';
    transport = t'';
    controller = c';
    response = message;
    ran = [];
    waiting = none;
  }

  remote-returned :
      (wire answer : Bytes) (world : W) (c' : Controller)
      → encode pb z asked args ≡ ok wire
      → on_message pb z s wire ≡ (world, ok answer)
      → settle pb z decode_failed answer c target ≡ (c', message)
      → remote ≡ returned c'
  remote-returned wire answer world c' sent handled settled =
      call_method-Route pb z reg tr is_xrpc service_name method_name ip wire port id none c args
        target r r' t t' route live sent
      ∙ sync_settled pb z reg tr is_xrpc wire answer c c' target message r' t' t''
          (delivers wire answer sent (ap (λ x. x.1) handled)) settled

  -- A synchronous CallMethod of a method that neither throws nor fails its controller leaves
  -- the caller with the response that the method computed from the caller's own request, and
  -- with its controller unchanged. The call was not canceled, the registry lists an instance
  -- first that can be connected, the transport brings back what OnMessage answers to the
  -- encoded request, whose header protobuf can carry, and both messages serialize to less than
  -- 2^30 bytes that parse.
  pub remote_done :
      (service : Service pb W) (method : ℕ) (request : pb.Message) (response : Bytes)
      → Reaches s asked body service method request
      → raised pb (reply s service method request) ≡ none
      → pb.serialize (reply s service method request).response ≡ some response
      → length response < 2 ^ 30
      → pb.parse target response ≡ (true, message)
      → remote ≡ returned c
  remote_done service method request response reaches quiet replied brief fits =
      let (wire, answer, sent, handled, header, read, status, _, _) =
        served_call pb pl z zl s service method asked empty_header args request target message body
          response wired made small reaches replied brief fits quiet in
      remote-returned wire answer _ c sent handled
        (settle_done pb z reg tr answer decode_failed c target message header read status)

  -- A synchronous CallMethod whose method throws or sets its controller failed fails the
  -- caller's controller with the same text. The call was not canceled, the registry lists an
  -- instance first that can be connected, the transport brings back what OnMessage answers to
  -- the encoded request, whose header protobuf can carry, and both messages serialize to less
  -- than 2^30 bytes that parse. The text is UTF-8, and with the texts of the header below a
  -- megabyte.
  pub remote_failed :
      (service : Service pb W) (method : ℕ) (request : pb.Message) (response reason : Bytes)
      → Reaches s asked body service method request
      → raised pb (reply s service method request) ≡ some reason
      → pl.is_utf8 reason ≡ true
      → text_size asked + length reason < 2 ^ 20
      → pb.serialize (reply s service method request).response ≡ some response
      → length response < 2 ^ 30
      → pb.parse target response ≡ (true, message)
      → remote ≡ returned (set_failed reason c)
  remote_failed service method request response reason reaches fails utf8 room replied brief fits =
      let (wire, answer, sent, handled, tells) =
        failed_call-Tells pb pl z zl s service method asked empty_header args request target message
          body response wired made small reaches replied brief fits reason fails utf8 room in
      remote-returned wire answer _ (set_failed reason c) sent handled
        (settle_error pb z reg tr answer decode_failed c target message 5 reason tells)

  -- A synchronous CallMethod of a service or method that the server does not have, or with a
  -- body that it cannot parse, fails the caller's controller with the server's text. The call
  -- was not canceled, the registry lists an instance first that can be connected, the transport
  -- brings back what OnMessage answers to the encoded request, whose header protobuf can carry,
  -- and has texts that are more than 64 bytes below a megabyte. The request serializes to less
  -- than 2^30 bytes, and the caller's object parses an empty response.
  pub remote_refused :
      {code : ℕ} {reason : Bytes}
      → Refusal s asked body code reason
      → text_size asked + 64 < 2 ^ 20
      → pb.parse target [] ≡ (true, message)
      → remote ≡ returned (set_failed reason c)
  remote_refused {code} {reason} refusal room fits =
      let (wire, answer, sent, handled, tells) =
        refused-Tells pb pl z zl s asked empty_header args target message body wired room made small
          refusal fits in
      remote-returned wire answer _ (set_failed reason c) sent handled
        (settle_error pb z reg tr answer decode_failed c target message code reason tells)
