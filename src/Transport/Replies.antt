-- ===== src/Transport/Replies.antt =====
-- HandleServerRead of transport/asio_transport.cc: what a request leaves at the server.
use xrpc.Base.{
  ℕ, ◌≡◌, ◌<◌, ap, ◌∙◌, true, Option, none, some, List, [], ◌∷◌, Bytes, length, Result, ok, arith,
  if_true,
}
use xrpc.Transport.{
  Asio, AsioTransport, Pending, server_read, take_nth, serve, reply, answered, handle, completed,
  complete, logged, Calls,
}

abbrev no_calls : Calls
no_calls = []

module _ {a : Asio} {W : Type 0} where
  pub serve-reply :
      (socket : ℕ) (request : Bytes) (t : AsioTransport a W) (callback : W → Bytes → W × Bytes)
      → t.server_callback ≡ some callback
      → serve socket request t
        ≡ reply socket
            (callback t.world request).1
            (record t { world = (callback t.world request).0 })
  unfolding serve
  serve-reply socket request t callback h =
      ap
        (λ o. elim o as (λ _. AsioTransport a W) [
          | none ↦ reply socket [] t
          | some f ↦ reply socket (f t.world request).1 (record t { world = (f t.world request).0 })
        ])
        h

  answered-written :
      (s : ℕ) (t : AsioTransport a W) (r : a.State × Option Bytes)
      → r.1 ≡ none
      → a.has_peer r.0 s ≡ true
      → answered s t r ≡ record t { net = r.0; pending = server_read s ∷ t.pending }
  answered-written s t (n, none) h known =
      ap
        (λ fine.
          logged fine (record t { net = n })
            (record t { net = n; pending = server_read s ∷ t.pending }))
        known
  answered-written s t (n, some e) h known = absurd (ground (arith, h))

  pub reply-written :
      (s : ℕ) (answer : Bytes) (t : AsioTransport a W)
      → 0 < length answer
      → (a.write t.net s answer).1 ≡ none
      → a.has_peer (a.write t.net s answer).0 s ≡ true
      → reply s answer t
        ≡ record t { net = (a.write t.net s answer).0; pending = server_read s ∷ t.pending }
  reply-written s [] t h written known = absurd (omega (arith, h))
  reply-written s (b ∷ answer) t h written known =
      answered-written s t (a.write t.net s (b ∷ answer)) written known

  -- The operation at a place completes.
  pub complete-taken :
      (n : ℕ) (r : Result Bytes) (p : Pending) (rest : List Pending) (t : AsioTransport a W)
      → t.live ≡ true
      → take_nth n t.pending ≡ some (p, rest)
      → complete (n, r) t ≡ handle p r (record t { pending = rest })
  unfolding complete
  complete-taken n r p rest t live taken = if_true _ _ live ∙ ap (completed r t) taken

  -- A read that completes at the server runs the callback and writes its answer, if there is one.
  pub read-answers :
      (n s : ℕ) (request : Bytes) (rest : List Pending) (t : AsioTransport a W)
      (callback : W → Bytes → W × Bytes)
      → t.live ≡ true
      → t.server_callback ≡ some callback
      → take_nth n t.pending ≡ some (server_read s, rest)
      → 0 < length (callback t.world request).1
      → (a.write t.net s (callback t.world request).1).1 ≡ none
      → a.has_peer (a.write t.net s (callback t.world request).1).0 s ≡ true
      → complete (n, ok request) t ≡ (
        record t {
          world = (callback t.world request).0;
          net = (a.write t.net s (callback t.world request).1).0;
          pending = server_read s ∷ rest;
        },
        [],
      )
  unfolding handle
  read-answers n s request rest t callback live serves taken full written known =
      let (world, answer) = callback t.world request in
      let read : AsioTransport a W = record t { pending = rest } in
      complete-taken n (ok request) (server_read s) rest t live taken
      ∙ ap (λ (u : AsioTransport a W). (u, no_calls))
          (serve-reply s request read callback serves
            ∙ reply-written s answer (record read { world = world }) full written known)
