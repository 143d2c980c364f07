-- ===== src/Transport/Serving/Acts.antt =====
-- The server's side of transport/asio_transport.cc from the constructor on, whatever is called and completes.
use xrpc.Base.{
  ℕ, ◌≡◌, refl, sym, ◌∙◌, subst, true, false, some, List, [], ◌∷◌, arith, Bool-cases, inl, inr,
  if_false,
}
use xrpc.Transport.{
  Asio, AsioTransport, client_read, async_write, take_nth, do_accept, send_async, client_open,
  completed, complete, stop, Calls,
}
use xrpc.Transport.Counts.{count}
use xrpc.Transport.Untouched.{connect-cases, start_server-cases, send_request-cases}
use xrpc.Transport.Callbacks.{Act, connects, starts, asks, sends, stops, completes, act, acts}
use xrpc.Transport.Serving.{IsServing, Serving, do_accept-IsServing}
use xrpc.Transport.Serving.Completions.{complete-Serving}
use xrpc.Transport.Lifetime.{new_transport, new_transport-Serving}

module _ {a : Asio} {W : Type 0} where
  live-do_accept : (t : AsioTransport a W) → (do_accept t).live ≡ t.live
  unfolding do_accept
  live-do_accept t = elim (Bool-cases t.listening) [ inl e ↦ rw e refl | inr e ↦ rw e refl ]

  -- A transport that has ended stays so.
  pub act-ended : (x : Act W) (t : AsioTransport a W) → t.live ≡ false → (act x t).0.live ≡ false
  unfolding act stop send_async complete
  act-ended (connects ip port) t h = connect-cases (λ u. u.live ≡ false) ip port t h (λ n. h)
  act-ended (starts ip port callback) t h =
      start_server-cases (λ u. u.live ≡ false) ip port callback t (λ n. h)
        (λ n. live-do_accept _ ∙ h)
  act-ended (asks text) t h = send_request-cases (λ u. u.live ≡ false) text t h (λ n. h) (λ n. h)
  act-ended (sends text k) t h = elim (Bool-cases (client_open t)) [
    | inl e ↦ rw e h
    | inr e ↦ rw e h
  ]
  act-ended stops t h = refl
  act-ended (completes n r) t h =
      subst (λ (u : AsioTransport a W × Calls). u.0.live ≡ false)
        (sym (if_false (completed r t (take_nth n t.pending)) (t, []) h)) h

  -- The operations of a client do not count.
  asked-IsServing :
      (t : AsioTransport a W) (n : a.State)
      → IsServing t
      → IsServing
          (record t { response_received = false; net = n; pending = client_read ∷ t.pending })
  unfolding count
  asked-IsServing t n w = record {
    one_read = λ s. omega (arith, w.one_read s);
    one_accept = λ s. omega (arith, w.one_accept s);
    free = λ s below. omega (arith, w.free s below);
  }

  posted-IsServing :
      (k : ℕ) (t : AsioTransport a W)
      → IsServing t
      → IsServing (record t { pending = async_write k ∷ t.pending })
  unfolding count
  posted-IsServing k t w = record {
    one_read = λ s. omega (arith, w.one_read s);
    one_accept = λ s. omega (arith, w.one_accept s);
    free = λ s below. omega (arith, w.free s below);
  }

  act-IsServing : (x : Act W) (t : AsioTransport a W) → IsServing t → Serving (act x t).0
  unfolding act stop send_async
  act-IsServing (connects ip port) t w = connect-cases Serving ip port t (inr w) (λ n. inr (record {
    one_read = w.one_read;
    one_accept = w.one_accept;
    free = λ s below. w.free s (omega (arith, below));
  }))
  act-IsServing (starts ip port callback) t w =
      start_server-cases Serving ip port callback t
        (λ n. inr (record { one_read = w.one_read; one_accept = w.one_accept; free = w.free }))
        (λ n. inr (
          do_accept-IsServing
            (record t { server_callback = some callback; net = n; listening = true })
            (record { one_read = w.one_read; one_accept = w.one_accept; free = w.free })))
  act-IsServing (asks text) t w =
      send_request-cases Serving text t (inr w)
        (λ n. inr (record { one_read = w.one_read; one_accept = w.one_accept; free = w.free }))
        (λ n. inr (asked-IsServing t n w))
  act-IsServing (sends text k) t w = elim (Bool-cases (client_open t)) [
    | inl e ↦ rw e (inr (posted-IsServing k t w))
    | inr e ↦ rw e (inr w)
  ]
  act-IsServing stops t w = inl refl
  act-IsServing (completes n r) t w = complete-Serving n r t w

  act-Serving : (x : Act W) (t : AsioTransport a W) → Serving t → Serving (act x t).0
  act-Serving x t (inl over) = inl (act-ended x t over)
  act-Serving x t (inr w) = act-IsServing x t w

  acts-Serving : (xs : List (Act W)) (t : AsioTransport a W) → Serving t → Serving (acts xs t).0
  unfolding acts
  acts-Serving [] t w = w
  acts-Serving (x ∷ xs) t w = acts-Serving xs (act x t).0 (act-Serving x t w)

  -- From the constructor on, after every sequence of Connect, StartServer, Send (up to its loop), SendAsync, Stop and
  -- completions, the transport has ended, or each connected socket waits in exactly one read, no
  -- socket waits twice to be accepted or is connected while it waits, and new sockets have numbers that no accepted
  -- socket has.
  pub acts-new-Serving :
      (xs : List (Act W)) (world : W) (net : a.State)
      → Serving (acts xs (new_transport {a = a} world net)).0
  acts-new-Serving xs world net =
      acts-Serving xs (new_transport world net) (new_transport-Serving world net)
