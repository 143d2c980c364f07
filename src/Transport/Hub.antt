-- ===== src/Transport/Hub.antt =====
-- One server of transport/asio_transport.cc with any number of clients, whose Sends overlap in any order.

pub mod Replied
pub mod Order
use xrpc.Base.{
  ℕ, ◌≡◌, ◌≤◌, length, Bool, true, Option, none, some, List, [], ◌∷◌, Bytes, Result, ok,
  if◌then◌else◌, ◌==◌,
}
use xrpc.Transport.{
  Asio, AsioTransport, Pending, client_read, server_read, take_nth, send_request, complete,
}
use xrpc.Transport.Line.{Streams, added, read_size}

-- What is on the way between a client and the server. A client sends one request at a time, since Send holds
-- the mutex of its transport. An empty answer is not written, so nothing comes back.
pub data Flight : Type 0 where
  quiet : Flight
  request : Bytes → Flight
  response : Bytes → Flight
  silence : Flight

abbrev pub sent_back : Bytes → Flight
sent_back [] = silence
sent_back (b ∷ answer) = response (b ∷ answer)

abbrev pub update {ℓ} : {A : Type ℓ} → ℕ → A → (ℕ → A) → ℕ → A
update i x f k = if i == k then x else f k

pub record Hub (a b : Asio) (V W : Type 0) : Type 0 where
  pub clients : ℕ → AsioTransport a V
  pub flights : ℕ → Flight
  pub server : AsioTransport b W

-- The requests in the order in which the server read them, the last one first.
abbrev pub Log : Type 0
Log = List (ℕ × Bytes)

module _ {b : Asio} (sb : Streams b) (peer : ℕ → ℕ) {W : Type 0} where
  -- What the server wrote to a client when its read completed.
  abbrev pub answer_by : ℕ → AsioTransport b W → AsioTransport b W → Bytes
  answer_by i t t' = added (sb.sent t.net (peer i)) (sb.sent t'.net (peer i))

module _ {a b : Asio} (sb : Streams b) (peer : ℕ → ℕ) {V W : Type 0} where
  -- A client's Send up to its loop.
  abbrev pub asking : ℕ → Bytes → Hub a b V W → Hub a b V W
  asking i text h = record h {
    clients = update i (send_request text (h.clients i)).0 h.clients;
    flights = update i (request text) h.flights;
  }

  -- The server's read of a request, at a place among its operations.
  abbrev pub serving : ℕ → ℕ → Bytes → Hub a b V W → Hub a b V W
  serving i n text h = record h {
    server = (complete (n, ok text) h.server).0;
    flights =
        update i (sent_back (answer_by sb peer i h.server (complete (n, ok text) h.server).0))
          h.flights;
  }

  -- The client's read of an answer.
  abbrev pub receiving : ℕ → ℕ → Bytes → Hub a b V W → Hub a b V W
  receiving i n text h = record h {
    clients = update i (complete (n, ok text) (h.clients i)).0 h.clients;
    flights = update i quiet h.flights;
  }

  -- A read gives at most `read_size` bytes, and what fits it whole.
  pub data Step (h : Hub a b V W) (log : Log) : Hub a b V W → Log → Type 0 where
    asks :
        (i : ℕ) (text : Bytes)
        → h.flights i ≡ quiet
        → (send_request text (h.clients i)).1 ≡ true
        → Step h log (asking i text h) log
    serves :
        (i n : ℕ) (text : Bytes) (rest : List Pending)
        → h.flights i ≡ request text
        → length text ≤ read_size
        → take_nth n h.server.pending ≡ some (server_read (peer i), rest)
        → Step h log (serving i n text h) ((i, text) ∷ log)
    receives :
        (i n : ℕ) (text : Bytes) (rest : List Pending)
        → h.flights i ≡ response text
        → length text ≤ read_size
        → take_nth n (h.clients i).pending ≡ some (client_read, rest)
        → Step h log (receiving i n text h) log

  pub data Runs (h : Hub a b V W) : Hub a b V W → Log → Type 0 where
    here : Runs h h []
    next :
        {h' h'' : Hub a b V W} {log log' : Log}
        → Runs h h' log
        → Step h' log h'' log'
        → Runs h h'' log'

module _ {W : Type 0} (callback : W → Bytes → W × Bytes) (world : W) where
  -- The server's data after plain calls of its callback in the order of the log.
  abbrev pub world_of : Log → W
  world_of [] = world
  world_of ((i, text) ∷ log) = (callback (world_of log) text).0

  -- The answer to the last request of a client in these calls.
  abbrev pub last_answer : ℕ → Log → Option Bytes
  last_answer i [] = none
  last_answer i ((k, text) ∷ log) =
      if k == i then some (callback (world_of log) text).1 else last_answer i log
