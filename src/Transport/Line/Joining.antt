-- ===== src/Transport/Line/Joining.antt =====
-- Connect of transport/asio_transport.cc and HandleAccept at the server: how a line comes up.

use xrpc.Base.{
  ℕ, suc, ◌≡◌, refl, ap, ◌∙◌, true, false, Option, none, some, List, [], ◌∷◌, Bytes, ok, if_true,
  arith,
}
use xrpc.Base.Int.{ℤ}
use xrpc.Transport.{
  Asio, AsioTransport, Pending, accept, server_read, take_nth, add_socket, do_accept, client_open,
  connected, connect, complete, handle, logged,
}
use xrpc.Transport.Counts.{count}
use xrpc.Transport.Waiting.{reads_response}
use xrpc.Transport.Serving.{reads}
use xrpc.Transport.Serving.Completions.{completes_all}
use xrpc.Transport.Replies.{complete-taken}
use xrpc.Transport.Line.{Streams, Network, IsWhole, Alone, accepting, Line, join}
use xrpc.Transport.Line.Calling.{IsJoined}

module _ {a : Asio} {V : Type 0} where
  connected-none :
      (t : AsioTransport a V) (r : a.State × Option Bytes)
      → r.1 ≡ none
      → connected t r ≡ (record t { net = r.0 }, ok tt)
  connected-none t (n, none) h = refl
  connected-none t (n, some e) h = absurd (ground (arith, h))

  -- A new socket of the client.
  abbrev pub linked : AsioTransport a V → a.State → AsioTransport a V
  linked t n = record t {
    client_socket = some t.next_socket;
    next_socket = suc t.next_socket;
    net = n;
  }

  connect-linked :
      (ip : Bytes) (port : ℤ) (t : AsioTransport a V)
      → client_open t ≡ false
      → a.is_address ip ≡ true
      → (a.connect t.net t.next_socket ip port).1 ≡ none
      → connect ip port t ≡ (linked t (a.connect t.net t.next_socket ip port).0, ok tt)
  unfolding connect
  connect-linked ip port t new address fine =
      rw (new, address)
        (connected-none
          (record t { client_socket = some t.next_socket; next_socket = suc t.next_socket })
          (a.connect t.net t.next_socket ip port) fine)

  -- The server when it has accepted a socket.
  abbrev pub welcomed : AsioTransport a V → ℕ → List Pending → AsioTransport a V
  welcomed t k rest = record t {
    server_sockets = add_socket k t.server_sockets;
    next_socket = suc t.next_socket;
    pending = accept t.next_socket ∷ server_read k ∷ rest;
  }

  accept-welcomed :
      (n k : ℕ) (rest : List Pending) (t : AsioTransport a V)
      → t.live ≡ true
      → t.listening ≡ true
      → a.has_peer t.net k ≡ true
      → take_nth n t.pending ≡ some (accept k, rest)
      → (complete (n, ok []) t).0 ≡ welcomed t k rest
  unfolding handle do_accept
  accept-welcomed n k rest t live listens known taken =
      ap (λ u. u.0) (complete-taken n (ok []) (accept k) rest t live taken)
      ∙ ap
          (λ fine.
            logged fine (record t { pending = rest })
              (do_accept (record t {
                server_sockets = add_socket k t.server_sockets;
                pending = server_read k ∷ rest;
              })))
          known
      ∙ if_true _ _ listens

module _ {a b : Asio} (sa : Streams a) (sb : Streams b) (w : Network) {V W : Type 0}
    (callback : W → Bytes → W × Bytes) (ip : Bytes) (port : ℤ) where
  -- The client has no connection, and the server, which listens by the callback, takes the one that it asks for.
  pub record IsJoinable (l : Line a b V W) : Type 0 where
    pub client_up : l.client.live ≡ true
    pub unconnected : client_open l.client ≡ false
    pub quiet : count reads_response l.client.pending ≡ 0
    pub address : a.is_address ip ≡ true
    pub reached : (a.connect l.client.net l.client.next_socket ip port).1 ≡ none
    pub server_up : l.server.live ≡ true
    pub listens : l.server.listening ≡ true
    pub serves : l.server.server_callback ≡ some callback
    pub place : ℕ
    pub socket : ℕ
    pub others : List Pending
    pub waits : Alone accepting place (accept socket) l.server.pending others
    pub unread : count (reads socket) others ≡ 0
    pub reachable : b.is_open l.server.net socket ≡ true

  module _ (whole : IsWhole w) (l : Line a b V W) (j : IsJoinable l) where
    -- The line that came up.
    abbrev pub up : Line a b V W
    up = record {
      client = linked l.client (a.connect l.client.net l.client.next_socket ip port).0;
      server = welcomed l.server j.socket j.others;
      peer = j.socket;
    }

    pub join-up : join sa sb w l ip port ≡ (up, ok tt)
    unfolding join completes_all
    join-up =
        rw
          (
            j.unconnected,
            connect-linked ip port l.client j.unconnected j.address j.reached,
            whole.accepts_it j.place j.socket l.server.pending j.others j.waits,
            accept-welcomed j.place j.socket j.others l.server j.server_up j.listens
                (sb.knows l.server.net j.socket j.reachable) j.waits.0,
          )
          refl

    pub up-IsJoined : IsJoined sa sb w callback l.client.next_socket up
    unfolding take_nth count
    up-IsJoined = record {
      client_up = j.client_up;
      socket = refl;
      reachable = sa.joins l.client.net l.client.next_socket ip port j.reached;
      quiet = j.quiet;
      server_up = j.server_up;
      serves = j.serves;
      peer_reachable = j.reachable;
      place = 1;
      others = accept l.server.next_socket ∷ j.others;
      waits = (refl, omega (arith, j.unread));
    }
