-- ===== src/Transport/Line/Calling.antt =====
-- One Send of transport/asio_transport.cc over a line.
use xrpc.Base.{
  ℕ, ◌≡◌, refl, ap, ◌∙◌, Bool, true, false, Option, none, some, List, [], ◌∷◌, Bytes,
  drop-length_append, ok, arith,
}
use xrpc.Transport.{
  Asio, AsioTransport, Pending, client_read, server_read, take_nth, written, send_on, send_over,
  send_request, await, handle,
}
use xrpc.Transport.Counts.{count}
use xrpc.Transport.Waiting.{reads_response, asked, complete-asked, await-done}
use xrpc.Transport.Serving.{reads}
use xrpc.Transport.Serving.Completions.{completes_all}
use xrpc.Transport.Replies.{read-answers}
use xrpc.Transport.Line.{
  has_peer-write, Streams, Network, IsWhole, OneRead, Alone, Line, added, client_sent, fed, output,
  ask,
}

module _ {a : Asio} {V : Type 0} where
  written-none :
      (t : AsioTransport a V) (r : a.State × Option Bytes)
      → r.1 ≡ none
      → written (record t { response_received = false }) r ≡ (asked t r.0, true)
  written-none t (n, none) h = refl
  written-none t (n, some e) h = absurd (ground (arith, h))

  -- Send on an open socket that takes the text reaches its loop.
  pub send_request-asked :
      (text : Bytes) (t : AsioTransport a V) (s : ℕ)
      → t.client_socket ≡ some s
      → a.is_open t.net s ≡ true
      → (a.write t.net s text).1 ≡ none
      → send_request text t ≡ (asked t (a.write t.net s text).0, true)
  unfolding send_request
  send_request-asked text t s socket reachable fine =
      ap (send_over text t) socket
      ∙ ap (send_on text t s) reachable
      ∙ written-none t (a.write t.net s text) fine

  -- The loop of Send ends with the text that its read gives.
  pub await-asked :
      (text : Bytes) (t : AsioTransport a V) (n : a.State)
      → t.live ≡ true
      → await ((0, ok text) ∷ []) (asked t n)
        ≡ some (record t { response = text; response_received = true; net = n })
  unfolding await handle
  await-asked text t n live =
      ap (await []) (ap (λ u. u.0) (complete-asked (ok text) t n live))
      ∙ await-done (record t { response = text; response_received = true; net = n }) [] refl

pub sent-added :
    {a : Asio} (sa : Streams a) (n : a.State) (s : ℕ) (text : Bytes)
    → a.is_open n s ≡ true
    → added (sa.sent n s) (sa.sent (a.write n s text).0 s) ≡ text
sent-added sa n s text reachable =
    ap (added (sa.sent n s)) (sa.takes n s text reachable).2 ∙ drop-length_append (sa.sent n s) text

module _ {a b : Asio} (sa : Streams a) (sb : Streams b) (w : Network) {V W : Type 0}
    (callback : W → Bytes → W × Bytes) (c : ℕ) where
  -- Both ends are up, and the server waits for a request by its callback.
  pub record IsJoined (l : Line a b V W) : Type 0 where
    pub client_up : l.client.live ≡ true
    pub socket : l.client.client_socket ≡ some c
    pub reachable : a.is_open l.client.net c ≡ true
    pub quiet : count reads_response l.client.pending ≡ 0
    pub server_up : l.server.live ≡ true
    pub serves : l.server.server_callback ≡ some callback
    pub peer_reachable : b.is_open l.server.net l.peer ≡ true
    pub place : ℕ
    pub others : List Pending
    pub waits : Alone (reads l.peer) place (server_read l.peer) l.server.pending others

  -- The ends after a call.
  abbrev pub client_after : Line a b V W → Bytes → Bytes → AsioTransport a V
  client_after l text answer = record l.client {
    response = answer;
    response_received = true;
    net = (a.write l.client.net c text).0;
  }

  abbrev pub server_after : Line a b V W → Bytes → List Pending → AsioTransport b W
  server_after l text others = record l.server {
    world = (callback l.server.world text).0;
    net = (b.write l.server.net l.peer (callback l.server.world text).1).0;
    pending = server_read l.peer ∷ others;
  }

  abbrev pub after : Line a b V W → Bytes → List Pending → Line a b V W
  after l text others = record l {
    client = client_after l text (callback l.server.world text).1;
    server = server_after l text others;
  }

  module _ (whole : IsWhole w) (l : Line a b V W) (text : Bytes) (j : IsJoined l)
      (short : OneRead text) (brief : OneRead (callback l.server.world text).1) where
    fed-after :
        fed sa sb w l (asked l.client (a.write l.client.net c text).0)
        ≡ server_after l text j.others
    unfolding completes_all
    fed-after =
        ap
          (λ o.
            completes_all
              (w.inputs l.peer
                (added (client_sent sa l.client o)
                  (client_sent sa (asked l.client (a.write l.client.net c text).0) o))
                l.server.pending)
              l.server)
          j.socket
        ∙ ap (λ x. completes_all (w.inputs l.peer x l.server.pending) l.server)
            (sent-added sa l.client.net c text j.reachable)
        ∙ ap (λ x. completes_all x l.server)
            (whole.gives_request j.place l.peer text l.server.pending j.others short j.waits)
        ∙ ap (λ u. u.0)
            (read-answers j.place l.peer text j.others l.server callback j.server_up j.serves
              j.waits.0 brief.0
              (sb.takes l.server.net l.peer (callback l.server.world text).1 j.peer_reachable).0
              (has_peer-write sb l.server.net l.peer (callback l.server.world text).1
                j.peer_reachable))

    pub output-after : output sb l (server_after l text j.others) ≡ (callback l.server.world text).1
    output-after =
        sent-added sb l.server.net l.peer (callback l.server.world text).1 j.peer_reachable

    -- One Send over a line where both ends are up, and the request and the answer fit one read, gives the
    -- answer of the server's callback.
    pub ask-after :
        (unended : Line a b V W → Line a b V W × Bool × Bytes)
        → ask sa sb w unended l text
          ≡ (after l text j.others, true, (callback l.server.world text).1)
    unfolding ask take_nth
    ask-after unended =
        rw
          (
            send_request-asked text l.client c j.socket j.reachable
                (sa.takes l.client.net c text j.reachable).0,
            fed-after,
            output-after,
            whole.gives_answer 0 (callback l.server.world text).1 (client_read ∷ l.client.pending)
                l.client.pending brief (refl, j.quiet),
            await-asked (callback l.server.world text).1 l.client (a.write l.client.net c text).0
                j.client_up,
          )
          refl

    pub after-IsJoined : IsJoined (after l text j.others)
    unfolding take_nth
    after-IsJoined = record {
      client_up = j.client_up;
      socket = j.socket;
      reachable = (sa.takes l.client.net c text j.reachable).1;
      quiet = j.quiet;
      server_up = j.server_up;
      serves = j.serves;
      peer_reachable =
          (sb.takes l.server.net l.peer (callback l.server.world text).1 j.peer_reachable).1;
      place = 0;
      others = j.others;
      waits = (refl, j.waits.1);
    }
