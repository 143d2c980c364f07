-- ===== src/Transport/Waiting.antt =====
-- The loop of Send in transport/asio_transport.cc.
use xrpc.Base.{
  ℕ, ◌+◌, ◌≡◌, refl, ap, sym, ◌∙◌, Bool, true, false, Option, none, some, List, [], ◌∷◌, Bytes,
  arith, Option-cases, Bool-cases, inl, inr, Result, ok, throw, if_false, if_true,
}
use xrpc.Transport.{
  Asio, AsioTransport, Pending, client_read, async_write, async_read, accept, server_read, take_nth,
  do_accept, add_socket, serve, reply, answered, handle, complete, await, written, send_on,
  send_over, send_request,
}
use xrpc.Transport.Counts.{
  hit, count, count-take_nth, count-do_accept, count-serve, complete-cases, logged-cases,
}

abbrev pub reads_response : Pending → Bool
reads_response client_read = true
reads_response _ = false

module _ {a : Asio} {W : Type 0} where
  -- No response is there and no read for one waits.
  abbrev Starved : AsioTransport a W → Type 0
  Starved t = (count reads_response t.pending ≡ 0) × (t.response_received ≡ false)

  received-do_accept :
      (t : AsioTransport a W) → (do_accept t).response_received ≡ t.response_received
  unfolding do_accept
  received-do_accept t = elim (Bool-cases t.listening) [ inl e ↦ rw e refl | inr e ↦ rw e refl ]

  received-answered :
      (s : ℕ) (t : AsioTransport a W) (r : a.State × Option Bytes)
      → (answered s t r).response_received ≡ t.response_received
  received-answered s t (n, none) =
      logged-cases (λ u. u.response_received ≡ t.response_received) (a.has_peer n s)
        (record t { net = n }) _ refl refl
  received-answered s t (n, some e) = refl

  received-reply :
      (s : ℕ) (answer : Bytes) (t : AsioTransport a W)
      → (reply s answer t).response_received ≡ t.response_received
  received-reply s [] t = refl
  received-reply s (b ∷ answer) t = received-answered s t (a.write t.net s (b ∷ answer))

  received-serve :
      (s : ℕ) (request : Bytes) (t : AsioTransport a W)
      → (serve s request t).response_received ≡ t.response_received
  unfolding serve
  received-serve s request t = elim (Option-cases t.server_callback) [
    | inl e ↦ rw (e, serve) (received-reply s [] t)
    | inr (callback, e) ↦
        rw (e, serve)
          (received-reply s (callback t.world request).1
            (record t { world = (callback t.world request).0 }))
  ]

  handle-Starved :
      (p : Pending) (r : Result Bytes) (t : AsioTransport a W)
      → reads_response p ≡ false
      → Starved t
      → Starved (handle p r t).0
  unfolding handle count
  handle-Starved client_read r t h w = absurd (ground (arith, h))
  handle-Starved (async_write k) (ok _) t h w = (omega (arith, w.0), w.1)
  handle-Starved (async_write k) (throw e) t h w = w
  handle-Starved (async_read k) (ok text) t h w = w
  handle-Starved (async_read k) (throw e) t h w = w
  handle-Starved (accept s) (ok _) t h w =
      let t' : AsioTransport a W = record t {
        server_sockets = add_socket s t.server_sockets;
        pending = server_read s ∷ t.pending;
      } in
      logged-cases Starved (a.has_peer t.net s) t (do_accept t') w
        (omega (arith, count-do_accept reads_response t' refl, w.0), received-do_accept t' ∙ w.1)
  handle-Starved (accept s) (throw e) t h w =
      (count-do_accept reads_response t refl ∙ w.0, received-do_accept t ∙ w.1)
  handle-Starved (server_read s) (ok request) t h w =
      (count-serve reads_response s request t refl ∙ w.0, received-serve s request t ∙ w.1)
  handle-Starved (server_read s) (throw e) t h w = logged-cases Starved (a.has_peer t.net s) t _ w w

  complete-Starved :
      (n : ℕ) (r : Result Bytes) (t : AsioTransport a W) → Starved t → Starved (complete (n, r) t).0
  complete-Starved n r t w =
      complete-cases (λ u. Starved u.0) n r t w
        (λ p rest taken.
          let size = count-take_nth reads_response n t.pending p rest taken in
          handle-Starved p r (record t { pending = rest })
            (no_read p (count reads_response rest) (sym size ∙ w.0))
            (omega (arith, size, w.0), w.1))
    where
      no_read : (p : Pending) (k : ℕ) → hit (reads_response p) + k ≡ 0 → reads_response p ≡ false
      no_read client_read k h = absurd (omega (arith, h))
      no_read (async_write _) k h = refl
      no_read (async_read _) k h = refl
      no_read (accept _) k h = refl
      no_read (server_read _) k h = refl

  -- Once no response is there and no read for one waits, the loop of Send ends after no
  -- sequence of completions.
  await-Starved :
      (cs : List (ℕ × Result Bytes)) (t : AsioTransport a W) → Starved t → await cs t ≡ none
  unfolding await
  await-Starved [] t w = if_false (some t) none w.1
  await-Starved ((n, r) ∷ cs) t w =
      if_false (some t) (await cs (complete (n, r) t).0) w.1
      ∙ await-Starved cs (complete (n, r) t).0 (complete-Starved n r t w)

  pub await-done :
      (t : AsioTransport a W) (cs : List (ℕ × Result Bytes))
      → t.response_received ≡ true
      → await cs t ≡ some t
  unfolding await
  await-done t [] h = if_true (some t) none h
  await-done t (c ∷ cs) h = if_true (some t) (await cs (complete c t).0) h

  -- What `Send` leaves when it reaches its loop.
  abbrev pub asked : AsioTransport a W → a.State → AsioTransport a W
  asked t n = record t { response_received = false; pending = client_read ∷ t.pending; net = n }

  written_lem :
      (t : AsioTransport a W) (r : a.State × Option Bytes)
      → (written (record t { response_received = false }) r).1 ≡ true
      → (n : a.State) × (written (record t { response_received = false }) r ≡ (asked t n, true))
  written_lem t (n, none) h = (n, refl)
  written_lem t (n, some e) h = absurd (ground (arith, h))

  abbrev Reached : AsioTransport a W → AsioTransport a W × Bool → Type 0
  Reached t r = (n : a.State) × (r ≡ (asked t n, true))

  send_on_lem :
      (text : Bytes) (t : AsioTransport a W) (s : ℕ) (fine : Bool)
      → (send_on text t s fine).1 ≡ true
      → Reached t (send_on text t s fine)
  send_on_lem text t s true h = written_lem t (a.write t.net s text) h
  send_on_lem text t s false h = absurd (ground (arith, h))

  send_over_lem :
      (text : Bytes) (t : AsioTransport a W) (o : Option ℕ)
      → (send_over text t o).1 ≡ true
      → Reached t (send_over text t o)
  send_over_lem text t none h = absurd (ground (arith, h))
  send_over_lem text t (some s) h = send_on_lem text t s (a.is_open t.net s) h

  send_request_lem :
      (text : Bytes) (t : AsioTransport a W)
      → (send_request text t).1 ≡ true
      → Reached t (send_request text t)
  unfolding send_request
  send_request_lem text t h = send_over_lem text t t.client_socket h

  pub complete-asked :
      (r : Result Bytes) (t : AsioTransport a W) (n : a.State)
      → t.live ≡ true
      → complete (0, r) (asked t n)
        ≡ handle client_read r (record t { response_received = false; net = n })
  unfolding complete take_nth
  complete-asked r t n live = if_true _ _ live

  -- When Send has written its request and its read completes with an error, no sequence of further completions
  -- ends its loop, if no read of another Send was pending.
  pub await-read_error :
      (text e : Bytes) (t : AsioTransport a W) (cs : List (ℕ × Result Bytes))
      → t.live ≡ true
      → count reads_response t.pending ≡ 0
      → (send_request text t).1 ≡ true
      → await ((0, throw e) ∷ cs) (send_request text t).0 ≡ none
  unfolding await handle
  await-read_error text e t cs live alone h =
      let (n, sent) = send_request_lem text t h in
      let failed = ap (λ u. u.0) (complete-asked (throw e) t n live) in
      rw (sent, failed)
        (await-Starved cs (record t { response_received = false; net = n }) (alone, refl))

  -- When Send has written its request and its read completes with some bytes, the loop ends with these
  -- bytes as the response, whatever would complete later, and the other operations go on waiting.
  await-read :
      (text input : Bytes) (t : AsioTransport a W) (cs : List (ℕ × Result Bytes))
      → t.live ≡ true
      → (send_request text t).1 ≡ true
      → (u : AsioTransport a W) × (await ((0, ok input) ∷ cs) (send_request text t).0 ≡ some u)
        × (u.response ≡ input)
        × (u.pending ≡ t.pending)
  unfolding handle await
  await-read text input t cs live h =
      let (n, sent) = send_request_lem text t h in
      let read = ap (λ u. u.0) (complete-asked (ok input) t n live) in
      let done = record t { response = input; response_received = true; net = n } in
      (done, rw (sent, read) (await-done done cs refl), refl, refl)
