-- ===== src/Server/Process.antt =====
-- A process with an XrpcServer of core/server/xrpc_server.cc: its constructor, RegisterService and Start over the
-- registry's client and the transport. The transport's callback works on the object itself.
pub mod Opened
pub mod Requests
use xrpc.Base.{
  ℕ, suc, ◌≡◌, refl, ap, sym, ◌∙◌, subst, Bool, true, false, Option, none, some, [], ◌∷◌, Bytes,
  codes, Result, ok, throw, Bool-cases, inl, inr, arith, if◌then◌else◌,
}
use xrpc.Base.Int.{ℤ, pos}
use xrpc.Base.Decimal.{stoi}
use xrpc.Base.Dict.{Dict}
use xrpc.Config.{load, get}
use xrpc.Proto.{Protobuf}
use xrpc.Codec.ZlibCalls.{Zlib}
use xrpc.Registry.ZooKeeper.{ZooKeeper}
use xrpc.Registry.Session.{Client, new_client, start}
use xrpc.Registry.Session
use xrpc.Registry.Finding.{zookeeper_client}
use xrpc.Transport.{Asio, AsioTransport, accept, start_server, do_accept}
use xrpc.Transport.Lifetime.{new_transport, run_transport}
use xrpc.Server.{Service, Server, on_message, register_service}
use xrpc.Server.Lifecycle.{Parts, text_of_answer, listened, with_port, after_start, init}

-- The lambda of `Init`, which captures `this`.
unfoldable pub on_this :
    (pb : Protobuf) (z : Zlib) {W : Type 0} → Server pb W → Bytes → Server pb W × Bytes
on_this pb z s input =
    let (world, answer) = on_message pb z s input in
    (record s { world = world }, text_of_answer answer)

-- No service is registered; `Init` sets the address. The world is that of the services to come.
abbrev pub new_server : {pb : Protobuf} {W : Type 0} → W → Server pb W
new_server world = record { services = []; server_ip = []; server_port = pos 0; world = world }

abbrev pub ServerProcess : ZooKeeper → Asio → (pb : Protobuf) → Type 0 → Type 0
ServerProcess zk a pb W = Parts zk a (Server pb W)

module _ {zk : ZooKeeper} {a : Asio} {pb : Protobuf} {W : Type 0} where
  abbrev pub object : ServerProcess zk a pb W → Server pb W
  object p = p.1.world

  -- After an exception the client is destroyed, by its Stop.
  abbrev pub initialised :
      ServerProcess zk a pb W × Result (Bytes × ℤ) → zk.State × Result (ServerProcess zk a pb W)
  initialised ((c, t), ok (ip, port)) =
      (c.zoo, ok (c, record t { world = record t.world { server_ip = ip; server_port = port } }))
  initialised ((c, t), throw e) = ((xrpc.Registry.Session.stop zk c).zoo, throw e)

  abbrev pub configured_server :
      (Server pb W → Bytes → Server pb W × Bytes)
      → W
      → a.State
      → Client zk
      → Result (Dict Bytes)
      → zk.State × Result (ServerProcess zk a pb W)
  configured_server callback world net c (throw e) =
      ((xrpc.Registry.Session.stop zk c).zoo, throw e)
  configured_server callback world net c (ok config) =
      initialised (init config callback (c, new_transport (new_server world) net))

  abbrev pub with_client :
      (Server pb W → Bytes → Server pb W × Bytes)
      → W
      → a.State
      → Bytes
      → Option Bytes
      → zk.State
      → Result (Client zk)
      → zk.State × Result (ServerProcess zk a pb W)
  with_client callback world net config_file text z (throw e) = (z, throw e)
  with_client callback world net config_file text z (ok c) =
      configured_server callback world net c (load config_file text [])

module _ (zk : ZooKeeper) (a : Asio) (pb : Protobuf) (z : Zlib) {W : Type 0} where
  -- The constructor. The texts are those of the server's configuration file and of the registry client's.
  unfoldable pub open_server :
      W
      → a.State
      → Bytes
      → Option Bytes
      → Option Bytes
      → zk.State
      → zk.State × Result (ServerProcess zk a pb W)
  open_server world net config_file text registry_text zoo =
      with_client (on_this pb z) world net config_file text zoo (new_client zk registry_text zoo)

  unfoldable pub offer :
      Service pb W → ServerProcess zk a pb W → ServerProcess zk a pb W × Result (Unit {0})
  offer service (c, t) =
      let (s, c', done) = register_service pb (zookeeper_client zk) service t.world c in
      ((c', record t { world = s }), done)

  -- Start.
  unfoldable pub start_process : ServerProcess zk a pb W → ServerProcess zk a pb W
  unfolding run_transport
  start_process (c, t) = (c, run_transport t)
