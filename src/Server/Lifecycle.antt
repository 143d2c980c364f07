-- ===== src/Server/Lifecycle.antt =====
-- The start and the end of a server: Init and the destructor of core/server/xrpc_server.cc, and those
-- of core/channel/xrpc_channel.cc, over the registry's client and the transport.
pub mod Started
use xrpc.Base.{
  ℕ, suc, ◌≡◌, refl, ap, sym, ◌∙◌, subst, Bool, true, false, not, ◌&&◌, Option, none, some, List,
  [], ◌∷◌, ◌++◌, Bytes, codes, Result, ok, throw, Result-cases, Bool-cases, inl, inr, arith,
  if◌then◌else◌, if_true, if_false, ◌==◌,
}
use xrpc.Base.Int.{ℤ}
use xrpc.Base.Decimal.{stoi}
use xrpc.Base.Dict.{Dict}
use xrpc.Config.{get}
use xrpc.Proto.{Protobuf}
use xrpc.Codec.ZlibCalls.{Zlib}
use xrpc.Registry.ZooKeeper.{ZooKeeper}
use xrpc.Registry.Session.{Client, start, started, after_wait, wait_connected, follow, host_of}
use xrpc.Registry.Session
use xrpc.Transport.{Asio, AsioTransport, start_server, do_accept}
use xrpc.Transport
use xrpc.Server.{Server, on_message}

-- What `OnMessage` leaves in `response`; it never throws, as its theorem says.
abbrev pub text_of_answer : Result Bytes → Bytes
text_of_answer (ok text) = text
text_of_answer (throw e) = []

abbrev pub Parts : ZooKeeper → Asio → Type 0 → Type 0
Parts zk a W = Client zk × AsioTransport a W

module _ {zk : ZooKeeper} {a : Asio} {W : Type 0} where
  abbrev pub listened :
      Client zk
      → Bytes
      → ℤ
      → AsioTransport a W × Result (Unit {0})
      → (Parts zk a W) × Result (Bytes × ℤ)
  listened c ip port (t, ok _) = ((c, t), ok (ip, port))
  listened c ip port (t, throw e) = ((c, t), throw e)

  abbrev pub with_port :
      Bytes
      → (W → Bytes → W × Bytes)
      → Client zk
      → AsioTransport a W
      → Result ℤ
      → (Parts zk a W) × Result (Bytes × ℤ)
  with_port ip callback c t (throw e) = ((c, t), throw e)
  with_port ip callback c t (ok port) = listened c ip port (start_server ip port callback t)

  abbrev pub after_start :
      Dict Bytes
      → (W → Bytes → W × Bytes)
      → AsioTransport a W
      → Client zk × Result (Unit {0})
      → (Parts zk a W) × Result (Bytes × ℤ)
  after_start config callback t (c, throw e) = ((c, t), throw e)
  after_start config callback t (c, ok _) =
      with_port (get (codes "server_ip") (codes "0.0.0.0") config) callback c t
        (stoi (get (codes "server_port") (codes "8080") config))

  -- The result is `server_ip_` and `server_port_`.
  unfoldable pub init :
      Dict Bytes → (W → Bytes → W × Bytes) → (Parts zk a W) → (Parts zk a W) × Result (Bytes × ℤ)
  init config callback (c, t) = after_start config callback t (start zk c)

  -- Both destructors.
  unfoldable shut_down : (Parts zk a W) → (Parts zk a W)
  shut_down (c, t) = (xrpc.Registry.Session.stop zk c, xrpc.Transport.stop t)
