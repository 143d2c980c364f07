-- ===== src/Transport.antt =====
-- transport/asio_transport.cc: the fields, the methods, and the handlers, which run when an asynchronous
-- operation completes. Handlers run one at a time here; callbacks are numbers.
pub mod Counts
pub mod Untouched
pub mod Line
pub mod Hub
pub mod Replies
pub mod Lifetime
pub mod Callbacks
pub mod Waiting
pub mod Serving
use xrpc.Base.{
  ℕ, suc, Bool, true, false, not, Option, none, some, List, [], ◌∷◌, ◌++◌, Bytes, codes, ◌==◌,
  if◌then◌else◌, Result, ok, throw,
}
use mathlib.Core.Option
use mathlib.Core.List.{foldl}
use xrpc.Base.Int.{ℤ}

-- What the code calls of Asio. Sockets are numbers; an error is its message. `has_peer` is that `remote_endpoint`
-- returns.
pub record Asio : Type 1 where
  pub State : Type 0
  pub is_address : Bytes → Bool
  pub connect : State → ℕ → Bytes → ℤ → State × Option Bytes
  pub write : State → ℕ → Bytes → State × Option Bytes
  pub listen : State → Bytes → ℤ → State × Bool
  pub is_open : State → ℕ → Bool
  pub has_peer : State → ℕ → Bool
  pub close : State → ℕ → State

-- The asynchronous operations that were started and have not completed.
pub data Pending : Type 0 where
  client_read : Pending
  async_write async_read : ℕ → Pending
  accept server_read : ℕ → Pending

-- The calls of the callbacks given to SendAsync.
abbrev pub Calls : Type 0
Calls = List (ℕ × Bytes × Bool)

-- `live` is that the thread runs the io_context: neither stopped nor ended by an exception. `listening` is an
-- open acceptor. A new socket takes the next number.
pub record AsioTransport (a : Asio) (W : Type 0) : Type 0 where
  pub client_socket : Option ℕ
  pub listening : Bool
  pub server_callback : Option (W → Bytes → W × Bytes)
  pub response : Bytes
  pub response_received : Bool
  pub server_sockets : List ℕ
  pub next_socket : ℕ
  pub pending : List Pending
  pub live : Bool
  pub world : W
  pub net : a.State

abbrev connection_failed : Bytes
connection_failed = codes "Connection failed"

abbrev address_failed : Bytes
address_failed = codes "Invalid argument"

abbrev listen_failed : Bytes
listen_failed = codes "bind"

-- `std::set::insert` and `erase`.
unfoldable pub has_socket : ℕ → List ℕ → Bool
has_socket s [] = false
has_socket s (x ∷ xs) = if x == s then true else has_socket s xs

unfoldable pub add_socket : ℕ → List ℕ → List ℕ
unfolding has_socket
add_socket s xs = if has_socket s xs then xs else s ∷ xs

unfoldable pub remove_socket : ℕ → List ℕ → List ℕ
remove_socket s [] = []
remove_socket s (x ∷ xs) = let rest = remove_socket s xs in if x == s then rest else x ∷ rest

-- The operation at a place, and the others.
unfoldable pub take_nth : ℕ → List Pending → Option (Pending × List Pending)
take_nth n [] = none
take_nth xrpc.Base.zero (p ∷ ps) = some (p, ps)
take_nth (suc n) (p ∷ ps) = Option.map (λ (q, qs). (q, p ∷ qs)) (take_nth n ps)

abbrev closed : (a : Asio) → a.State → ℕ → a.State
closed a n s = if a.is_open n s then a.close n s else n

module _ {a : Asio} {W : Type 0} where
  abbrev pub start : Pending → AsioTransport a W → AsioTransport a W
  start p t = record t { pending = p ∷ t.pending }

  unfoldable pub client_open : AsioTransport a W → Bool
  client_open t = elim t.client_socket [ none ↦ false | some s ↦ a.is_open t.net s ]

  abbrev pub connected :
      AsioTransport a W → a.State × Option Bytes → AsioTransport a W × Result (Unit {0})
  connected t (n, none) = (record t { net = n }, ok tt)
  connected t (n, some e) = (record t { net = n }, throw connection_failed)

  -- An open socket is kept, whatever it is connected to.
  unfoldable pub connect : Bytes → ℤ → AsioTransport a W → AsioTransport a W × Result (Unit {0})
  connect ip port t =
      let s = t.next_socket in
      let t' = record t { client_socket = some s; next_socket = suc s } in
      if client_open t
      then (t, ok tt)
      else if a.is_address ip
      then connected t' (a.connect t.net s ip port)
      else (t', throw address_failed)

  unfoldable pub do_accept : AsioTransport a W → AsioTransport a W
  do_accept t =
      if t.listening
      then record t { next_socket = suc t.next_socket; pending = accept t.next_socket ∷ t.pending }
      else t

  unfoldable pub start_server :
      Bytes
      → ℤ
      → (W → Bytes → W × Bytes)
      → AsioTransport a W
      → AsioTransport a W × Result (Unit {0})
  start_server ip port callback t =
      let t' = record t { server_callback = some callback } in
      let (n, fine) = a.listen t.net ip port in
      if a.is_address ip
      then if fine
        then (do_accept (record t' { net = n; listening = true }), ok tt)
        else (record t' { net = n }, throw listen_failed)
      else (t', throw address_failed)

  abbrev pub written : AsioTransport a W → a.State × Option Bytes → AsioTransport a W × Bool
  written t (n, none) = (record t { net = n; pending = client_read ∷ t.pending }, true)
  written t (n, some e) = (record t { net = n }, false)

  abbrev pub send_on : Bytes → AsioTransport a W → ℕ → Bool → AsioTransport a W × Bool
  send_on text t s true = written (record t { response_received = false }) (a.write t.net s text)
  send_on text t s false = (t, false)

  abbrev pub send_over : Bytes → AsioTransport a W → Option ℕ → AsioTransport a W × Bool
  send_over text t none = (t, false)
  send_over text t (some s) = send_on text t s (a.is_open t.net s)

  -- `Send` up to its loop; whether the loop is reached.
  unfoldable pub send_request : Bytes → AsioTransport a W → AsioTransport a W × Bool
  send_request text t = send_over text t t.client_socket

  unfoldable pub send_async : Bytes → ℕ → AsioTransport a W → AsioTransport a W × Calls
  send_async text callback t =
      if client_open t
      then (start (async_write callback) t, [])
      else (t, (callback, [], false) ∷ [])

  -- `remote_endpoint` among the arguments of a log comes first, and throws when the peer is gone; no one catches.
  abbrev pub logged : Bool → AsioTransport a W → AsioTransport a W → AsioTransport a W
  logged true t u = u
  logged false t u = record t { live = false }

  abbrev pub answered : ℕ → AsioTransport a W → a.State × Option Bytes → AsioTransport a W
  answered s t (n, none) =
      logged (a.has_peer n s) (record t { net = n })
        (record t { net = n; pending = server_read s ∷ t.pending })
  answered s t (n, some e) = record t { net = n; live = false }

  -- The answer goes out unless it is empty. `write` without an error code throws, and no one catches.
  abbrev pub reply : ℕ → Bytes → AsioTransport a W → AsioTransport a W
  reply s [] t = start (server_read s) t
  reply s (b ∷ answer) t = answered s t (a.write t.net s (b ∷ answer))

  unfoldable pub serve : ℕ → Bytes → AsioTransport a W → AsioTransport a W
  serve s request t = elim t.server_callback [
    | none ↦ reply s [] t
    | some callback ↦
        let (w, answer) = callback t.world request in reply s answer (record t { world = w })
  ]

  -- The handlers; what was read, or an error.
  unfoldable pub handle : Pending → Result Bytes → AsioTransport a W → AsioTransport a W × Calls
  handle client_read (ok text) t = (record t { response = text; response_received = true }, [])
  handle client_read (throw e) t = (t, [])
  handle (async_write callback) (ok _) t = (start (async_read callback) t, [])
  handle (async_write callback) (throw e) t = (t, (callback, [], false) ∷ [])
  handle (async_read callback) (ok text) t = (t, (callback, text, true) ∷ [])
  handle (async_read callback) (throw e) t = (t, (callback, [], false) ∷ [])
  handle (accept s) (ok _) t = (
    logged (a.has_peer t.net s) t (
        do_accept
          (start (server_read s) (record t { server_sockets = add_socket s t.server_sockets }))),
    [],
  )
  handle (accept s) (throw e) t = (do_accept t, [])
  handle (server_read s) (ok request) t = (serve s request t, [])
  handle (server_read s) (throw e) t = (
    logged (a.has_peer t.net s) t (record t { server_sockets = remove_socket s t.server_sockets }),
    [],
  )

  abbrev pub completed :
      Result Bytes → AsioTransport a W → Option (Pending × List Pending) → AsioTransport a W × Calls
  completed result t none = (t, [])
  completed result t (some (p, rest)) = handle p result (record t { pending = rest })

  -- One pending operation completes and its handler runs.
  unfoldable pub complete : ℕ × Result Bytes → AsioTransport a W → AsioTransport a W × Calls
  complete (n, result) t = if t.live then completed result t (take_nth n t.pending) else (t, [])

  -- The loop of `Send` over the completions that follow; `none` is that it has not ended. The completions are those
  -- whose handlers the io_context's own thread runs, and those that `poll_one` runs and that do not throw.
  unfoldable pub await : List (ℕ × Result Bytes) → AsioTransport a W → Option (AsioTransport a W)
  await [] t = if t.response_received then some t else none
  await (c ∷ cs) t =
      let more = await cs (complete c t).0 in if t.response_received then some t else more

  unfoldable pub stop : AsioTransport a W → AsioTransport a W
  stop t = record t {
    listening = false;
    server_sockets = [];
    live = false;
    net =
        foldl (closed a) (elim t.client_socket [ none ↦ t.net | some s ↦ closed a t.net s ])
          t.server_sockets;
  }
