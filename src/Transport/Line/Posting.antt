-- ===== src/Transport/Line/Posting.antt =====
-- SendAsync of transport/asio_transport.cc over a line: its write, the server's part, and its read.
use xrpc.Base.{ℕ, ◌≡◌, refl, ap, ◌∙◌, true, some, List, [], ◌∷◌, ◌++◌, Bytes, Result, ok, if_true}
use xrpc.Transport.{
  Asio, AsioTransport, Pending, async_write, async_read, Calls, take_nth, client_open, send_async,
  complete, handle,
}
use xrpc.Transport.Counts.{count}
use xrpc.Transport.Callbacks.{carries}
use xrpc.Transport.Serving.Completions.{completes_all}
use xrpc.Transport.Replies.{complete-taken, read-answers}
use xrpc.Transport.Line.{Streams, Network, IsWhole, OneRead, Line, has_peer-write, output}
use xrpc.Transport.Line.Calling.{IsJoined, server_after, output-after}

module _ {a : Asio} {V : Type 0} where
  -- Operations complete, and their handlers call callbacks.
  unfoldable pub hear : List (ℕ × Result Bytes) → AsioTransport a V → AsioTransport a V × Calls
  hear [] t = (t, [])
  hear (c ∷ cs) t =
      let (t', calls) = complete c t in let (t'', more) = hear cs t' in (t'', calls ++ more)

  send_async-open :
      (text : Bytes) (callback s : ℕ) (t : AsioTransport a V)
      → t.client_socket ≡ some s
      → a.is_open t.net s ≡ true
      → send_async text callback t ≡ (record t { pending = async_write callback ∷ t.pending }, [])
  unfolding send_async client_open
  send_async-open text callback s t socket reachable =
      rw (socket, client_open) (if_true _ _ reachable)

  hear-write :
      (callback : ℕ) (t : AsioTransport a V)
      → t.live ≡ true
      → hear ((0, ok []) ∷ []) (record t { pending = async_write callback ∷ t.pending })
        ≡ (record t { pending = async_read callback ∷ t.pending }, [])
  unfolding hear handle take_nth
  hear-write callback t live =
      ap (λ (u : AsioTransport a V × Calls). (u.0, u.1 ++ []))
        (complete-taken 0 (ok []) (async_write callback) t.pending
          (record t { pending = async_write callback ∷ t.pending }) live refl)

  hear-read :
      (callback : ℕ) (text : Bytes) (t : AsioTransport a V)
      → t.live ≡ true
      → hear ((0, ok text) ∷ []) (record t { pending = async_read callback ∷ t.pending })
        ≡ (t, (callback, text, true) ∷ [])
  unfolding hear handle take_nth
  hear-read callback text t live =
      ap (λ (u : AsioTransport a V × Calls). (u.0, u.1 ++ []))
        (complete-taken 0 (ok text) (async_read callback) t.pending
          (record t { pending = async_read callback ∷ t.pending }) live refl)

module _ {a b : Asio} (sb : Streams b) (w : Network) {V W : Type 0} where
  -- The server when what the write found of the text has reached it.
  abbrev pub posted_to : Line a b V W → Bytes → AsioTransport b W
  posted_to l text = completes_all (w.inputs l.peer (w.borrowed text) l.server.pending) l.server

  -- SendAsync, the completion of its write, the server's part, and the completion of its read.
  unfoldable pub post : Line a b V W → Bytes → ℕ → Line a b V W × Calls
  post l text callback =
      let (t, failed) = send_async text callback l.client in
      let (t', lost) = hear (w.written callback t.pending) t in
      let served = posted_to l text in
      let (t'', calls) = hear (w.posted callback (output sb l served) t'.pending) t' in
      (record l { client = t''; server = served }, failed ++ (lost ++ calls))

module _ {a b : Asio} (sa : Streams a) (sb : Streams b) (w : Network) {V W : Type 0}
    (callback : W → Bytes → W × Bytes) (c : ℕ) where
  -- The line after it: the client is as it was.
  abbrev pub after_post : Line a b V W → Bytes → List Pending → Line a b V W
  after_post l text others = record l { server = server_after sa sb w callback c l text others }

  module _ (whole : IsWhole w) (l : Line a b V W) (text : Bytes) (id : ℕ)
      (j : IsJoined sa sb w callback c l) (fresh : count (carries id) l.client.pending ≡ 0)
      (kept : w.borrowed text ≡ text) (short : OneRead text)
      (brief : OneRead (callback l.server.world text).1) where
    served-after : posted_to sb w l text ≡ server_after sa sb w callback c l text j.others
    unfolding completes_all
    served-after =
        ap (λ read. completes_all (w.inputs l.peer read l.server.pending) l.server) kept
        ∙ ap (λ events. completes_all events l.server)
            (whole.gives_request j.place l.peer text l.server.pending j.others short j.waits)
        ∙ ap (λ (u : AsioTransport b W × Calls). u.0)
            (read-answers j.place l.peer text j.others l.server callback j.server_up j.serves
              j.waits.0 brief.0
              (sb.takes l.server.net l.peer (callback l.server.world text).1 j.peer_reachable).0
              (has_peer-write sb l.server.net l.peer (callback l.server.world text).1
                j.peer_reachable))

    -- Over a connection whose ends are up, when the request and the answer have 1 to 8192 bytes and are each given
    -- whole by one read, and the write reads the request before it is freed, the callback of a SendAsync is called once, with the answer of the server's callback
    -- and true.
    pub post-after :
        post sb w l text id
        ≡ (after_post l text j.others, (id, (callback l.server.world text).1, true) ∷ [])
    unfolding post take_nth
    post-after =
        rw
          (
            send_async-open text id c l.client j.socket j.reachable,
            whole.ends_write 0 id (async_write id ∷ l.client.pending) l.client.pending
                (refl, fresh),
            hear-write id l.client j.client_up,
            served-after,
            output-after sa sb w callback c whole l text j short brief,
            whole.gives_posted 0 id (callback l.server.world text).1
                (async_read id ∷ l.client.pending) l.client.pending brief (refl, fresh),
            hear-read id (callback l.server.world text).1 l.client j.client_up,
          )
          refl
