-- ===== src/Transport/Line.antt =====
-- A client's and a server's AsioTransport of transport/asio_transport.cc on the two ends of a connection. What the
-- network makes complete is an argument; a line has the form in which Channel uses a transport.
pub mod Calling
pub mod Joining
pub mod Posting
pub mod Sequence
use xrpc.Base.{
  ℕ, ◌≡◌, ◌≤◌, ◌<◌, Bool, true, false, Option, none, some, List, [], ◌∷◌, ◌++◌, Bytes, length, drop,
  Result, ok, throw, if◌then◌else◌,
}
use xrpc.Base.Int.{ℤ}
use xrpc.Interfaces
use xrpc.Transport.{
  Asio, AsioTransport, Pending, client_read, async_write, async_read, accept, server_read, Calls,
  take_nth, client_open, connect, send_request, send_async, await, complete,
}
use xrpc.Transport.Counts.{count}
use xrpc.Transport.Callbacks.{carries}
use xrpc.Transport.Waiting.{reads_response}
use xrpc.Transport.Serving.{reads}
use xrpc.Transport.Serving.Completions.{completes_all}

-- The buffers of the handlers.
abbrev pub read_size : ℕ
read_size = 8192

-- What was written on each socket, when the connection is up: an open socket knows its peer, takes every text and stays
-- open, and a socket that was connected is open.
pub record Streams (a : Asio) : Type 0 where
  pub sent : a.State → ℕ → Bytes
  pub takes :
      (n : a.State) (s : ℕ) (text : Bytes)
      → a.is_open n s ≡ true
      → ((a.write n s text).1 ≡ none)
        × (a.is_open (a.write n s text).0 s ≡ true)
        × (sent (a.write n s text).0 s ≡ sent n s ++ text)
  pub knows : (n : a.State) (s : ℕ) → a.is_open n s ≡ true → a.has_peer n s ≡ true
  pub joins :
      (n : a.State) (s : ℕ) (ip : Bytes) (port : ℤ)
      → (a.connect n s ip port).1 ≡ none
      → a.is_open (a.connect n s ip port).0 s ≡ true

pub has_peer-write :
    {a : Asio} (sa : Streams a) (n : a.State) (s : ℕ) (text : Bytes)
    → a.is_open n s ≡ true
    → a.has_peer (a.write n s text).0 s ≡ true
has_peer-write {a} sa n s text up = sa.knows (a.write n s text).0 s (sa.takes n s text up).1

-- The completions that the network causes among pending operations: at a server that a client connects to, with the
-- socket that was accepted; at the server, and at the client, for what the other end wrote; and for a write.
-- `borrowed` is what an async_write finds where the text of its SendAsync was: it reads the caller's buffer, which
-- SendRequestAsync may have freed by then.
pub record Network : Type 0 where
  pub accepted : List Pending → ℕ × List (ℕ × Result Bytes)
  pub inputs : ℕ → Bytes → List Pending → List (ℕ × Result Bytes)
  pub outputs : Bytes → List Pending → List (ℕ × Result Bytes)
  pub borrowed : Bytes → Bytes
  pub written : ℕ → List Pending → List (ℕ × Result Bytes)
  pub posted : ℕ → Bytes → List Pending → List (ℕ × Result Bytes)

-- A text that one read can give.
abbrev pub OneRead : Bytes → Type 0
OneRead text = (0 < length text) × (length text ≤ read_size)

-- The only operation of its kind that waits.
abbrev pub Alone : (Pending → Bool) → ℕ → Pending → List Pending → List Pending → Type 0
Alone test n p ps rest = (take_nth n ps ≡ some (p, rest)) × (count test rest ≡ 0)

abbrev pub accepting : Pending → Bool
accepting (accept _) = true
accepting _ = false

-- A connection is accepted, and what one end writes reaches one read of the other whole, if it fits the buffer.
pub record IsWhole (w : Network) : Type 0 where
  pub accepts_it :
      (n s : ℕ) (ps rest : List Pending)
      → Alone accepting n (accept s) ps rest
      → w.accepted ps ≡ (s, (n, ok []) ∷ [])
  pub gives_request :
      (n s : ℕ) (text : Bytes) (ps rest : List Pending)
      → OneRead text
      → Alone (reads s) n (server_read s) ps rest
      → w.inputs s text ps ≡ (n, ok text) ∷ []
  pub gives_answer :
      (n : ℕ) (text : Bytes) (ps rest : List Pending)
      → OneRead text
      → Alone reads_response n client_read ps rest
      → w.outputs text ps ≡ (n, ok text) ∷ []
  pub ends_write :
      (n callback : ℕ) (ps rest : List Pending)
      → Alone (carries callback) n (async_write callback) ps rest
      → w.written callback ps ≡ (n, ok []) ∷ []
  pub gives_posted :
      (n callback : ℕ) (text : Bytes) (ps rest : List Pending)
      → OneRead text
      → Alone (carries callback) n (async_read callback) ps rest
      → w.posted callback text ps ≡ (n, ok text) ∷ []

-- `peer` is the server's socket of the connection.
pub record Line (a b : Asio) (V W : Type 0) : Type 0 where
  pub client : AsioTransport a V
  pub server : AsioTransport b W
  pub peer : ℕ

-- What was added to the bytes that were written on a socket.
abbrev pub added : Bytes → Bytes → Bytes
added before after = drop (length before) after

abbrev pub client_sent : {a : Asio} {V : Type 0} → Streams a → AsioTransport a V → Option ℕ → Bytes
client_sent sa t none = []
client_sent sa t (some s) = sa.sent t.net s

module _ {a b : Asio} (sb : Streams b) {V W : Type 0} where
  -- What the server has written since.
  abbrev pub output : Line a b V W → AsioTransport b W → Bytes
  output l t = added (sb.sent l.server.net l.peer) (sb.sent t.net l.peer)

module _ {a b : Asio} (sa : Streams a) (sb : Streams b) (w : Network) {V W : Type 0} where
  abbrev pub joined_at :
      Line a b V W
      → AsioTransport a V × Result (Unit {0})
      → ℕ × List (ℕ × Result Bytes)
      → Line a b V W × Result (Unit {0})
  joined_at l (t, throw e) (s, events) = (record l { client = t }, throw e)
  joined_at l (t, ok _) (s, events) =
      (record { client = t; server = completes_all events l.server; peer = s }, ok tt)

  -- Connect; only a new connection reaches the server.
  unfoldable pub join : Line a b V W → Bytes → ℤ → Line a b V W × Result (Unit {0})
  join l ip port =
      if client_open l.client
      then (record l { client = (connect ip port l.client).0 }, (connect ip port l.client).1)
      else joined_at l (connect ip port l.client) (w.accepted l.server.pending)

  -- The server after the client has written.
  abbrev pub fed : Line a b V W → AsioTransport a V → AsioTransport b W
  fed l t =
      let s = l.client.client_socket in
      completes_all
        (w.inputs l.peer (added (client_sent sa l.client s) (client_sent sa t s)) l.server.pending)
        l.server

  abbrev pub received :
      (Line a b V W → Line a b V W × Bool × Bytes)
      → Line a b V W
      → Option (AsioTransport a V)
      → Line a b V W × Bool × Bytes
  received unended l none = unended l
  received unended l (some t) = (record l { client = t }, true, t.response)

  -- Send: what it writes reaches the server, and what the server writes reaches its loop. `unended` stands for a
  -- loop that does not end.
  unfoldable pub ask :
      (Line a b V W → Line a b V W × Bool × Bytes)
      → Line a b V W
      → Bytes
      → Line a b V W × Bool × Bytes
  ask unended l text =
      let (t, reached) = send_request text l.client in
      let served = fed l t in
      let l' : Line a b V W = record l { client = t; server = served } in
      if reached
      then received unended l' (await (w.outputs (output sb l served) t.pending) t)
      else (l', false, [])

  -- A line as the channel uses it.
  abbrev pub line : (Line a b V W → Line a b V W × Bool × Bytes) → xrpc.Interfaces.Transport
  line unended = record { State = Line a b V W; connect = join; send = ask unended }
