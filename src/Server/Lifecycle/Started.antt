-- ===== src/Server/Lifecycle/Started.antt =====
-- What holds after Init of core/server/xrpc_server.cc.
use xrpc.Base.{
  ◌≡◌, refl, Bool, true, false, some, ◌∷◌, Bytes, codes, Result, ok, throw, Bool-cases, inl, inr,
  arith,
}
use xrpc.Base.Int.{ℤ}
use xrpc.Base.Decimal.{stoi}
use xrpc.Base.Dict.{Dict}
use xrpc.Config.{get}
use xrpc.Registry.ZooKeeper.{ZooKeeper}
use xrpc.Registry.Session.{Client, start, started, after_wait, wait_connected, follow, host_of}
use xrpc.Transport.{Asio, AsioTransport, start_server, do_accept}
use xrpc.Transport.{accept}
use xrpc.Server.Lifecycle.{Parts, listened, with_port, after_start, init}

module _ {zk : ZooKeeper} where
  -- The client has its handle, its heartbeat and `running_`.
  abbrev pub IsUp : Client zk → Type 0
  IsUp c = (c.handle ≡ true) × (c.running ≡ true) × (c.heartbeat ≡ true) × (c.is_connected ≡ true)

  after_wait_ok :
      (c : Client zk) (r : zk.State × Bool)
      → (after_wait zk c r).1 ≡ ok tt
      → IsUp (after_wait zk c r).0
  after_wait_ok c (z, true) h = (refl, refl, refl, refl)
  after_wait_ok c (z, false) h = absurd (ground (arith, h))

  started_ok :
      (c : Client zk) (r : zk.State × Bool) → (started zk c r).1 ≡ ok tt → IsUp (started zk c r).0
  unfolding started
  started_ok c (z, true) h = after_wait_ok c (wait_connected zk 3 z c.is_connected) h
  started_ok c (z, false) h = absurd (ground (arith, h))

  start_ok : (c : Client zk) → (start zk c).1 ≡ ok tt → IsUp (start zk c).0
  unfolding start
  start_ok c h = go (stoi (get (codes "zookeeper_timeout_ms") (codes "6000") c.config)) h
    where
      opened : ℤ → Client zk → Client zk × Result (Unit {0})
      opened timeout c' = started zk c' (zk.init c'.zoo (host_of c'.config) timeout)

      go : (r : Result ℤ) → (follow opened (c, r)).1 ≡ ok tt → IsUp (follow opened (c, r)).0
      go (ok timeout) h = started_ok c (zk.init c.zoo (host_of c.config) timeout) h
      go (throw e) h = absurd (ground (arith, h))

module _ {a : Asio} {W : Type 0} where
  -- The transport serves by the callback and waits for one more client than before, on the same data.
  abbrev pub IsListening : (W → Bytes → W × Bytes) → AsioTransport a W → AsioTransport a W → Type 0
  IsListening callback t t' =
      (t'.listening ≡ true)
      × (t'.server_callback ≡ some callback)
      × (t'.pending ≡ accept t.next_socket ∷ t.pending)
      × (t'.live ≡ t.live)
      × (t'.world ≡ t.world)

  start_server_ok :
      (ip : Bytes) (port : ℤ) (callback : W → Bytes → W × Bytes) (t : AsioTransport a W)
      → (start_server ip port callback t).1 ≡ ok tt
      → IsListening callback t (start_server ip port callback t).0
  unfolding start_server do_accept
  start_server_ok ip port callback t h = elim (Bool-cases (a.is_address ip)) [
    | inr e ↦ absurd (ground (arith, e, h))
    | inl e ↦ elim (Bool-cases (a.listen t.net ip port).1) [
      | inr f ↦ absurd (ground (arith, e, f, h))
      | inl f ↦ rw (e, f) (refl, refl, refl, refl, refl)
    ]
  ]

module _ {zk : ZooKeeper} {a : Asio} {W : Type 0} where
  abbrev IsReady :
      (W → Bytes → W × Bytes) → AsioTransport a W → Parts zk a W × Result (Bytes × ℤ) → Type 0
  IsReady callback t r = IsUp r.0.0 × IsListening callback t r.0.1

  listened_ok :
      (c : Client zk) (ip : Bytes) (port : ℤ) (callback : W → Bytes → W × Bytes)
      (t : AsioTransport a W) (r : AsioTransport a W × Result (Unit {0})) (at : Bytes × ℤ)
      → IsUp c
      → (r.1 ≡ ok tt → IsListening callback t r.0)
      → (listened c ip port r).1 ≡ ok at
      → IsReady callback t (listened c ip port r)
  listened_ok c ip port callback t (t', ok _) at up h e = (up, h refl)
  listened_ok c ip port callback t (t', throw x) at up h e = absurd (ground (arith, e))

  with_port_ok :
      (c : Client zk) (ip : Bytes) (callback : W → Bytes → W × Bytes) (t : AsioTransport a W)
      (r : Result ℤ) (at : Bytes × ℤ)
      → IsUp c
      → (with_port ip callback c t r).1 ≡ ok at
      → IsReady callback t (with_port ip callback c t r)
  with_port_ok c ip callback t (throw x) at up e = absurd (ground (arith, e))
  with_port_ok c ip callback t (ok port) at up e =
      listened_ok c ip port callback t (start_server ip port callback t) at up
        (start_server_ok ip port callback t) e

  after_start_ok :
      (config : Dict Bytes) (callback : W → Bytes → W × Bytes) (t : AsioTransport a W)
      (r : Client zk × Result (Unit {0})) (at : Bytes × ℤ)
      → (r.1 ≡ ok tt → IsUp r.0)
      → (after_start config callback t r).1 ≡ ok at
      → IsReady callback t (after_start config callback t r)
  after_start_ok config callback t (c, throw x) at up e = absurd (ground (arith, e))
  after_start_ok config callback t (c, ok _) at up e = with_port_ok c _ callback t _ at (up refl) e

  -- When Init of a server returns, the registry's client is connected with its heartbeat, and the transport serves
  -- by the callback with one accept waiting.
  pub init-IsReady :
      (config : Dict Bytes) (callback : W → Bytes → W × Bytes) (c : Client zk)
      (t : AsioTransport a W) (at : Bytes × ℤ)
      → (init config callback (c, t)).1 ≡ ok at
      → IsUp (init config callback (c, t)).0.0
        × IsListening callback t (init config callback (c, t)).0.1
  unfolding init
  init-IsReady config callback c t at h =
      after_start_ok config callback t (start zk c) at (start_ok c) h
