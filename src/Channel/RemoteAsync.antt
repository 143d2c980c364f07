-- ===== src/Channel/RemoteAsync.antt =====
-- An asynchronous call from `CallMethod` through a server's `OnMessage` to the transport's callback.
use xrpc.Base.{
  ℕ, ◌+◌, ◌<◌, ◌^◌, ◌≡◌, ap, ◌∙◌, true, false, none, some, [], ◌∷◌, Bytes, length, ok, if_false,
}
use xrpc.Base.Int.{ℤ}
use xrpc.Proto.{Protobuf, empty_header}
use xrpc.Proto.Wire.{ProtobufLaws, IsWire, text_size}
use xrpc.Codec.ZlibCalls.{Zlib, ZlibLaws}
use xrpc.Codec.{encode}
use xrpc.Controller.{Controller, set_failed}
use xrpc.Interfaces.{Registry, Transport}
use xrpc.Server.{Service, Server, on_message, raised}
use xrpc.Server.Services.{Reaches, reply, served_call, failed_call-Tells}
use xrpc.Channel.{
  request_header, settle, Called, call_async, send_encoded, call_method, on_reply,
  async_decode_failed,
}
use xrpc.Channel.Remote.{Route, call_method-Route, settle_done, settle_error}

module _ (pb : Protobuf) (z : Zlib) where
  -- The callback hands on what the bytes of the answer settle.
  on_reply-settle :
      (done : ℕ) (answer : Bytes) (c c' : Controller) (target message : pb.Message)
      → c.canceled ≡ false
      → settle pb z async_decode_failed answer c target ≡ (c', message)
      → on_reply pb z done answer true c target ≡ (c', message, done ∷ [])
  unfolding on_reply settle
  on_reply-settle done answer c c' target message live settled =
      if_false _ _ live ∙ ap (λ (p : Controller × pb.Message). (p.0, p.1, done ∷ [])) settled

  -- The request waits for the transport with the closure `done`, which has not run.
  abbrev pub Waits :
      (reg : Registry) (tr : Transport)
      → reg.State
      → tr.State
      → Controller
      → pb.Message
      → Bytes
      → ℕ
      → Called pb z reg tr
  Waits reg tr r t c target wire done = record {
    registry = r;
    transport = t;
    controller = c;
    response = target;
    ran = [];
    waiting = some (record { request = wire; done = done });
  }

module _ (pb : Protobuf) (pl : ProtobufLaws pb) (z : Zlib) (zl : ZlibLaws z) (reg : Registry)
    (tr : Transport) {W : Type 0} (s : Server pb W) (service_name method_name ip : Bytes) (port : ℤ)
    (id done : ℕ) (c : Controller) (args target message : pb.Message) (body : Bytes)
    (r r' : reg.State) (t t' : tr.State)
    (route : Route reg tr service_name method_name ip port r r' t t') (live : c.canceled ≡ false)
    (wired : IsWire pl.is_utf8 (request_header service_name method_name id))
    (made : pb.serialize args ≡ some body) (small : length body < 2 ^ 30) where
  -- The request waits, and its callback with the server's answer, sent as it is, leaves the
  -- controller `c'` and the response, and runs the closure once.
  abbrev pub Replied : Controller → Type 0
  Replied c' =
      (wire : Bytes) × (answer : Bytes) × (call_method pb z reg tr true service_name method_name id
          (some done) c args target r t
        ≡ Waits pb z reg tr r' t' c target wire done)
      × (encode pb z (request_header service_name method_name id) args ≡ ok wire)
      × ((on_message pb z s wire).1 ≡ ok answer)
      × (on_reply pb z done answer true c target ≡ (c', message, done ∷ []))

  replied :
      (wire answer : Bytes) (world : W) (c' : Controller)
      → encode pb z (request_header service_name method_name id) args ≡ ok wire
      → on_message pb z s wire ≡ (world, ok answer)
      → settle pb z async_decode_failed answer c target ≡ (c', message)
      → Replied c'
  unfolding send_encoded call_async
  replied wire answer world c' sent handled settled = (
    wire,
    answer,
    call_method-Route pb z reg tr true service_name method_name ip wire port id (some done) c args
        target r r' t t' route live sent,
    sent,
    ap (λ x. x.1) handled,
    on_reply-settle pb z done answer c c' target message live settled,
  )

  -- An asynchronous CallMethod of a method that succeeds leaves the encoded request waiting
  -- with the closure. The transport's callback with the server's answer then puts the method's
  -- response into the caller's object, leaves its controller as it was, and runs the closure
  -- once. The call was not canceled, the registry lists an instance first that can be
  -- connected, the header of the request is one that protobuf can carry (UTF-8 texts below a
  -- megabyte, an id below 2^64), and both messages serialize to less than 2^30 bytes that
  -- parse.
  pub async_done :
      (service : Service pb W) (method : ℕ) (request : pb.Message) (response : Bytes)
      → Reaches s (request_header service_name method_name id) body service method request
      → raised pb (reply s service method request) ≡ none
      → pb.serialize (reply s service method request).response ≡ some response
      → length response < 2 ^ 30
      → pb.parse target response ≡ (true, message)
      → Replied c
  async_done service method request response reaches quiet replies brief fits =
      let (wire, answer, sent, handled, header, read, status, _, _) =
        served_call pb pl z zl s service method (request_header service_name method_name id)
          empty_header args request target message body response wired made small reaches replies
          brief fits quiet in
      replied wire answer _ c sent handled
        (settle_done pb z reg tr answer async_decode_failed c target message header read status)

  -- A method that fails or throws leaves the caller's controller failed with the same text.
  pub async_failed :
      (service : Service pb W) (method : ℕ) (request : pb.Message) (response reason : Bytes)
      → Reaches s (request_header service_name method_name id) body service method request
      → raised pb (reply s service method request) ≡ some reason
      → pl.is_utf8 reason ≡ true
      → text_size (request_header service_name method_name id) + length reason < 2 ^ 20
      → pb.serialize (reply s service method request).response ≡ some response
      → length response < 2 ^ 30
      → pb.parse target response ≡ (true, message)
      → Replied (set_failed reason c)
  async_failed service method request response reason reaches fails utf8 room replies brief fits =
      let (wire, answer, sent, handled, tells) =
        failed_call-Tells pb pl z zl s service method (request_header service_name method_name id)
          empty_header args request target message body response wired made small reaches replies
          brief fits reason fails utf8 room in
      replied wire answer _ (set_failed reason c) sent handled
        (settle_error pb z reg tr answer async_decode_failed c target message 5 reason tells)
