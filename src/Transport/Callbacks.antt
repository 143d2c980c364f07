-- ===== src/Transport/Callbacks.antt =====
-- The callbacks given to SendAsync of transport/asio_transport.cc.
use xrpc.Base.{
  ℕ, ◌+◌, ◌≡◌, refl, ap, sym, ◌∙◌, Bool, false, List, [], ◌∷◌, ◌++◌, Bytes, arith, ◌==◌, Bool-cases,
  inl, inr, Result, ok, throw,
}
use xrpc.Transport.{
  Asio, AsioTransport, Pending, client_read, async_write, async_read, accept, server_read, Calls,
  add_socket, do_accept, connect, start_server, send_request, send_async, client_open, handle,
  complete, stop,
}
use xrpc.Base.Int.{ℤ}
use xrpc.Transport.Counts.{
  hit, count, count-take_nth, count-do_accept, count-serve, complete-cases, logged-cases,
}
use xrpc.Transport.Untouched.{pending-connect, count-start_server, count-send_request}

-- The operations that will run the callback.
abbrev pub carries : ℕ → Pending → Bool
carries callback (async_write k) = k == callback
carries callback (async_read k) = k == callback
carries callback _ = false

unfoldable pub called : ℕ → Calls → ℕ
called callback [] = 0
called callback ((k, _, _) ∷ calls) = hit (k == callback) + called callback calls

pub called-append :
    (callback : ℕ) (xs ys : Calls)
    → called callback (xs ++ ys) ≡ called callback xs + called callback ys
unfolding called
called-append callback [] ys = omega arith
called-append callback ((k, _, _) ∷ xs) ys = omega (arith, called-append callback xs ys)

-- A call of a method, Send up to its loop, or the completion of a pending operation.
pub data Act (W : Type 0) : Type 0 where
  connects : Bytes → ℤ → Act W
  starts : Bytes → ℤ → (W → Bytes → W × Bytes) → Act W
  asks : Bytes → Act W
  sends : Bytes → ℕ → Act W
  stops : Act W
  completes : ℕ → Result Bytes → Act W

-- The calls of SendAsync with the callback.
abbrev pub sends_it : {W : Type 0} → ℕ → Act W → Bool
sends_it callback (sends text k) = k == callback
sends_it callback _ = false

abbrev pub sent : {W : Type 0} → ℕ → List (Act W) → ℕ
sent callback [] = 0
sent callback (x ∷ xs) = hit (sends_it callback x) + sent callback xs

module _ {a : Asio} {W : Type 0} where
  abbrev pub waiting : ℕ → AsioTransport a W → ℕ
  waiting callback t = count (carries callback) t.pending

  unfoldable pub act : Act W → AsioTransport a W → AsioTransport a W × Calls
  act (connects ip port) t = ((connect ip port t).0, [])
  act (starts ip port callback) t = ((start_server ip port callback t).0, [])
  act (asks text) t = ((send_request text t).0, [])
  act stops t = (stop t, [])
  act (sends text callback) t = send_async text callback t
  act (completes n result) t = complete (n, result) t

  unfoldable pub acts : List (Act W) → AsioTransport a W → AsioTransport a W × Calls
  acts [] t = (t, [])
  acts (x ∷ xs) t =
      let (t', calls) = act x t in let (t'', more) = acts xs t' in (t'', calls ++ more)

  -- What a handler leaves waiting and what it runs make up what it took.
  handle-called :
      (callback : ℕ) (p : Pending) (r : Result Bytes) (t : AsioTransport a W)
      → waiting callback (handle p r t).0 + called callback (handle p r t).1
        ≡ hit (carries callback p) + waiting callback t
  unfolding handle count called
  handle-called callback client_read (ok text) t = omega arith
  handle-called callback client_read (throw e) t = omega arith
  handle-called callback (async_write k) (ok _) t = omega arith
  handle-called callback (async_write k) (throw e) t = omega arith
  handle-called callback (async_read k) (ok text) t = omega arith
  handle-called callback (async_read k) (throw e) t = omega arith
  handle-called callback (accept s) (ok _) t =
      let t' : AsioTransport a W = record t {
        server_sockets = add_socket s t.server_sockets;
        pending = server_read s ∷ t.pending;
      } in
      logged-cases (λ u. waiting callback u + 0 ≡ 0 + waiting callback t) (a.has_peer t.net s) t
        (do_accept t') (omega arith) (omega (arith, count-do_accept (carries callback) t' refl))
  handle-called callback (accept s) (throw e) t =
      omega (arith, count-do_accept (carries callback) t refl)
  handle-called callback (server_read s) (ok request) t =
      omega (arith, count-serve (carries callback) s request t refl)
  handle-called callback (server_read s) (throw e) t =
      logged-cases (λ u. waiting callback u + 0 ≡ 0 + waiting callback t) (a.has_peer t.net s) t _
        (omega arith) (omega arith)

  complete-called :
      (callback n : ℕ) (r : Result Bytes) (t : AsioTransport a W)
      → waiting callback (complete (n, r) t).0 + called callback (complete (n, r) t).1
        ≡ waiting callback t
  complete-called callback n r t =
      complete-cases (λ u. waiting callback u.0 + called callback u.1 ≡ waiting callback t) n r t
        (unfold called in omega arith)
        (λ p rest taken.
          handle-called callback p r (record t { pending = rest })
          ∙ sym (count-take_nth (carries callback) n t.pending p rest taken))

  send_async-called :
      (callback : ℕ) (text : Bytes) (k : ℕ) (t : AsioTransport a W)
      → waiting callback (send_async text k t).0 + called callback (send_async text k t).1
        ≡ hit (k == callback) + waiting callback t
  unfolding send_async count called
  send_async-called callback text k t = elim (Bool-cases (client_open t)) [
    | inl e ↦ rw e (omega arith)
    | inr e ↦ rw e (omega arith)
  ]

  act-called :
      (callback : ℕ) (x : Act W) (t : AsioTransport a W)
      → waiting callback (act x t).0 + called callback (act x t).1
        ≡ hit (sends_it callback x) + waiting callback t
  unfolding act
  act-called callback (connects ip port) t =
      unfold called in omega (arith, ap (count (carries callback)) (pending-connect ip port t))
  act-called callback (starts ip port f) t =
      unfold called in omega (arith, count-start_server (carries callback) ip port f t (λ s. refl))
  act-called callback (asks text) t =
      unfold called in omega (arith, count-send_request (carries callback) text t refl)
  act-called callback stops t = unfold called in unfold stop in omega arith
  act-called callback (sends text k) t = omega (arith, send_async-called callback text k t)
  act-called callback (completes n r) t = omega (arith, complete-called callback n r t)

  -- Along every sequence of Connect, StartServer, Send (up to its loop), SendAsync, Stop and completions, a callback
  -- has run as often as it was given to SendAsync, less the operations that still carry it.
  pub acts-called :
      (callback : ℕ) (xs : List (Act W)) (t : AsioTransport a W)
      → waiting callback (acts xs t).0 + called callback (acts xs t).1
        ≡ sent callback xs + waiting callback t
  unfolding acts
  acts-called callback [] t = unfold called in omega arith
  acts-called callback (x ∷ xs) t =
      let (t', calls) = act x t in
      let more = (acts xs t').1 in
      let first = act-called callback x t in
      let later = acts-called callback xs t' in
      omega (arith, called-append callback calls more, first, later)
