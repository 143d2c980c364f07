-- ===== src/Server/Process/Opened.antt =====
-- What the constructor of core/server/xrpc_server.cc leaves when it returns.
use xrpc.Base.{◌≡◌, refl, ap, subst, true, Option, some, [], ◌∷◌, Bytes, Result, ok, throw}
use xrpc.Base.Int.{ℤ}
use xrpc.Base.Dict.{Dict}
use xrpc.Config.{load}
use xrpc.Proto.{Protobuf}
use xrpc.Codec.ZlibCalls.{Zlib}
use xrpc.Registry.ZooKeeper.{ZooKeeper}
use xrpc.Registry.Session.{Client, new_client}
use xrpc.Transport.{Asio, accept}
use xrpc.Transport.Lifetime.{new_transport}
use xrpc.Server.{Server}
use xrpc.Server.Lifecycle.{init}
use xrpc.Server.Lifecycle.Started.{IsUp, IsListening, init-IsReady}
use xrpc.Server.Process.{
  on_this, new_server, ServerProcess, initialised, configured_server, with_client, open_server,
}

-- The process is up: its client is connected, the transport listens and calls OnMessage of the object, which has
-- no service yet.
pub record IsServer {zk : ZooKeeper} {a : Asio} {pb : Protobuf} {W : Type 0}
    (callback : Server pb W → Bytes → Server pb W × Bytes) (world : W) (p : ServerProcess zk a pb W)
    : Type 0 where
  pub up : IsUp p.0
  pub live : p.1.live ≡ true
  pub listens : p.1.listening ≡ true
  pub serves : p.1.server_callback ≡ some callback
  pub first : p.1.pending ≡ accept 0 ∷ []
  pub empty : p.1.world.services ≡ []
  pub holds : p.1.world.world ≡ world

module _ (zk : ZooKeeper) (a : Asio) (pb : Protobuf) {W : Type 0}
    (callback : Server pb W → Bytes → Server pb W × Bytes) (world : W) where
  abbrev Opens : zk.State × Result (ServerProcess zk a pb W) → Type 0
  Opens (z, ok p) = IsServer callback world p
  Opens (z, throw e) = Unit {0}

  initialised-Opens :
      (net : a.State) (r : ServerProcess zk a pb W × Result (Bytes × ℤ))
      → ((at : Bytes × ℤ)
          → r.1 ≡ ok at
          → IsUp r.0.0 × IsListening callback (new_transport (new_server world) net) r.0.1)
      → Opens (initialised r)
  unfolding new_transport
  initialised-Opens net ((c, t), throw e) h = tt
  initialised-Opens net ((c, t), ok (ip, port)) h =
      let (up, (listens, serves, first, live, holds)) = h (ip, port) refl in
      record {
        up = up;
        live = live;
        listens = listens;
        serves = serves;
        first = first;
        empty = ap (λ (s : Server pb W). s.services) holds;
        holds = ap (λ (s : Server pb W). s.world) holds;
      }

  configured_server-Opens :
      (c : Client zk) (net : a.State) (r : Result (Dict Bytes))
      → Opens (configured_server callback world net c r)
  configured_server-Opens c net (throw e) = tt
  configured_server-Opens c net (ok config) =
      initialised-Opens net (init config callback (c, new_transport (new_server world) net))
        (init-IsReady config callback c (new_transport (new_server world) net))

  with_client-Opens :
      (net : a.State) (config_file : Bytes) (text : Option Bytes) (zoo : zk.State)
      (r : Result (Client zk))
      → Opens (with_client callback world net config_file text zoo r)
  with_client-Opens net config_file text zoo (throw e) = tt
  with_client-Opens net config_file text zoo (ok c) =
      configured_server-Opens c net (load config_file text [])

-- When the constructor of a server returns, its registry's client is connected with its heartbeat, and its transport
-- listens, calls OnMessage of the object for every request, and waits for the first client; no service is
-- registered yet.
pub open_server-IsServer :
    (zk : ZooKeeper) (a : Asio) (pb : Protobuf) (z : Zlib) {W : Type 0} (world : W) (net : a.State)
    (config_file : Bytes) (text registry_text : Option Bytes) (zoo zoo' : zk.State)
    (p : ServerProcess zk a pb W)
    → open_server zk a pb z world net config_file text registry_text zoo ≡ (zoo', ok p)
    → IsServer (on_this pb z) world p
unfolding open_server
open_server-IsServer zk a pb z world net config_file text registry_text zoo zoo' p h =
    subst (Opens zk a pb (on_this pb z) world) h (
      with_client-Opens zk a pb (on_this pb z) world net config_file text zoo
        (new_client zk registry_text zoo))
