-- ===== src/Transport/Serving/Completions.antt =====
-- The handlers of transport/asio_transport.cc on the server's side, in any order of completions.
use xrpc.Base.{
  ℕ, ◌≡◌, refl, sym, subst, false, Option, none, some, List, [], ◌∷◌, Bytes, Option-cases, inl, inr,
  Result, ok, throw, if_false,
}
use xrpc.Transport.{
  Asio, AsioTransport, Pending, client_read, async_write, async_read, accept, server_read, take_nth,
  serve, reply, answered, handle, completed, complete,
}
use xrpc.Transport.Counts.{complete-cases, logged-cases}
use xrpc.Transport.Serving.{
  IsServing, Serving, Taken, do_accept-IsServing, take_nth-Taken, accepted-IsServing,
  same-IsServing, started-IsServing, armed-IsServing, gone-IsServing,
}

module _ {a : Asio} {W : Type 0} where
  answered-Serving :
      (k : ℕ) (t : AsioTransport a W) (r : a.State × Option Bytes)
      → Taken (server_read k) t
      → Serving (answered k t r)
  answered-Serving k t (n, none) w =
      let armed = armed-IsServing k t w in
      logged-cases Serving (a.has_peer n k) (record t { net = n }) _ (inl refl)
        (inr
          (record { one_read = armed.one_read; one_accept = armed.one_accept; free = armed.free }))
  answered-Serving k t (n, some e) w = inl refl

  reply-Serving :
      (k : ℕ) (answer : Bytes) (t : AsioTransport a W)
      → Taken (server_read k) t
      → Serving (reply k answer t)
  reply-Serving k [] t w = inr (armed-IsServing k t w)
  reply-Serving k (b ∷ answer) t w = answered-Serving k t (a.write t.net k (b ∷ answer)) w

  serve-Serving :
      (k : ℕ) (request : Bytes) (t : AsioTransport a W)
      → Taken (server_read k) t
      → Serving (serve k request t)
  unfolding serve
  serve-Serving k request t w = elim (Option-cases t.server_callback) [
    | inl e ↦ rw (e, serve) (reply-Serving k [] t w)
    | inr (callback, e) ↦
        let (world, answer) = callback t.world request in
        rw (e, serve)
          (reply-Serving k answer (record t { world = world })
            (record { one_read = w.one_read; one_accept = w.one_accept; free = w.free }))
  ]

  handle-Serving :
      (p : Pending) (r : Result Bytes) (t : AsioTransport a W)
      → Taken p t
      → Serving (handle p r t).0
  unfolding handle
  handle-Serving client_read (ok text) t w =
      let same = same-IsServing client_read t w (λ s. refl) in
      inr (record { one_read = same.one_read; one_accept = same.one_accept; free = same.free })
  handle-Serving client_read (throw e) t w = inr (same-IsServing client_read t w (λ s. refl))
  handle-Serving (async_write k) (ok _) t w =
      inr (started-IsServing k t (same-IsServing (async_write k) t w (λ s. refl)))
  handle-Serving (async_write k) (throw e) t w =
      inr (same-IsServing (async_write k) t w (λ s. refl))
  handle-Serving (async_read k) (ok text) t w = inr (same-IsServing (async_read k) t w (λ s. refl))
  handle-Serving (async_read k) (throw e) t w = inr (same-IsServing (async_read k) t w (λ s. refl))
  handle-Serving (accept k) (ok _) t w =
      logged-cases Serving (a.has_peer t.net k) t _ (inl refl)
        (inr (do_accept-IsServing _ (accepted-IsServing k t w)))
  handle-Serving (accept k) (throw e) t w =
      inr (do_accept-IsServing t (same-IsServing (accept k) t w (λ s. refl)))
  handle-Serving (server_read k) (ok request) t w = serve-Serving k request t w
  handle-Serving (server_read k) (throw e) t w =
      logged-cases Serving (a.has_peer t.net k) t _ (inl refl) (inr (gone-IsServing k t w))

  pub complete-Serving :
      (n : ℕ) (r : Result Bytes) (t : AsioTransport a W)
      → IsServing t
      → Serving (complete (n, r) t).0
  complete-Serving n r t w =
      complete-cases (λ u. Serving u.0) n r t (inr w)
        (λ p rest taken.
          handle-Serving p r (record t { pending = rest }) (take_nth-Taken n t p rest taken w))

  unfoldable pub completes_all : List (ℕ × Result Bytes) → AsioTransport a W → AsioTransport a W
  completes_all [] t = t
  completes_all (c ∷ cs) t = completes_all cs (complete c t).0

  ended :
      (cs : List (ℕ × Result Bytes)) (t : AsioTransport a W)
      → t.live ≡ false
      → (completes_all cs t).live ≡ false
  unfolding completes_all complete
  ended [] t h = h
  ended (c ∷ cs) t h =
      subst (λ u. (completes_all cs u.0).live ≡ false)
        (sym (if_false (completed c.1 t (take_nth c.0 t.pending)) (t, []) h)) (ended cs t h)

  -- As long as the transport lives, after every sequence of completions each connected socket waits in exactly one
  -- read, no socket waits twice to be accepted or is connected while it waits, and new sockets have
  -- numbers that no other has.
  completes_all-Serving :
      (cs : List (ℕ × Result Bytes)) (t : AsioTransport a W)
      → Serving t
      → Serving (completes_all cs t)
  unfolding completes_all
  completes_all-Serving cs t (inl stopped) = inl (ended cs t stopped)
  completes_all-Serving [] t (inr w) = inr w
  completes_all-Serving (c ∷ cs) t (inr w) =
      completes_all-Serving cs (complete c t).0 (complete-Serving c.0 c.1 t w)
