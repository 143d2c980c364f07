-- ===== src/Server/Process/Requests.antt =====
-- A request that the transport reads, HandleServerRead of transport/asio_transport.cc, and OnMessage of
-- core/server/xrpc_server.cc.
use xrpc.Base.{ℕ, ◌≡◌, ap, ◌∙◌, some, Bytes, ok}
use xrpc.Proto.{Protobuf}
use xrpc.Proto.Wire.{ProtobufLaws}
use xrpc.Codec.ZlibCalls.{Zlib, ZlibLaws}
use xrpc.Transport.{Asio, AsioTransport, serve, reply}
use xrpc.Transport.Replies.{serve-reply}
use xrpc.Server.{Server, on_message}
use xrpc.Server.Answers.{on_message_total}
use xrpc.Server.Lifecycle.{text_of_answer}
use xrpc.Server.Process.{on_this}

module _ (pb : Protobuf) (z : Zlib) {W : Type 0} where
  -- The object after OnMessage.
  abbrev after_message : Server pb W → Bytes → Server pb W
  after_message s request = record s { world = (on_message pb z s request).0 }

  -- With OnMessage of an object as its callback, the transport replies to every request that it reads with an answer
  -- of OnMessage, called once on the request and on the object as it was left before.
  serve-on_message :
      {a : Asio} (pl : ProtobufLaws pb) (zl : ZlibLaws z) (socket : ℕ) (request : Bytes)
      (t : AsioTransport a (Server pb W))
      → t.server_callback ≡ some (on_this pb z)
      → (answer : Bytes) × ((on_message pb z t.world request).1 ≡ ok answer)
        × (serve socket request t
            ≡ reply socket answer (record t { world = after_message t.world request }))
  unfolding on_this
  serve-on_message pl zl socket request t h =
      let (answer, e) = on_message_total pb pl z zl t.world request in
      (
        answer,
        e,
        serve-reply socket request t (on_this pb z) h
            ∙ ap
                (λ r.
                  reply socket (text_of_answer r)
                    (record t { world = after_message t.world request }))
                e,
      )
