-- ===== src/Transport/Counts.antt =====
-- How many operations of a kind wait in transport/asio_transport.cc.
use xrpc.Base.{
  ℕ, zero, suc, ◌+◌, ◌≡◌, refl, Bool, true, false, Option, none, some, List, [], ◌∷◌, arith,
  Option-cases, Bool-cases, inl, inr,
}
use xrpc.Base.{Bytes, Result, if_true, if_false, subst, sym}
use xrpc.Transport.{
  Asio, AsioTransport, Pending, accept, server_read, take_nth, do_accept, answered, reply, serve,
  Calls, handle, completed, complete, logged,
}

-- One for a hit.
abbrev pub hit : Bool → ℕ
hit true = 1
hit false = 0

unfoldable pub count : (Pending → Bool) → List Pending → ℕ
count test [] = 0
count test (p ∷ ps) = hit (test p) + count test ps

-- The operation that completes counts no more.
pub count-take_nth :
    (test : Pending → Bool) (n : ℕ) (ps : List Pending) (p : Pending) (rest : List Pending)
    → take_nth n ps ≡ some (p, rest)
    → count test ps ≡ hit (test p) + count test rest
unfolding take_nth count
count-take_nth test n [] p rest h = absurd (ground (arith, h))
count-take_nth test zero (q ∷ ps) p rest h = ground (arith, h)
count-take_nth test (suc n) (q ∷ ps) p rest h = elim (Option-cases (take_nth n ps)) [
  | inl e ↦ absurd (ground (arith, e, h))
  | inr ((r, rs), e) ↦ ground (arith, e, h, count-take_nth test n ps r rs e)
]

module _ {a : Asio} {W : Type 0} where
  -- The log goes well, or its exception ends the thread.
  pub logged-cases :
      (P : AsioTransport a W → Type 0) (fine : Bool) (t u : AsioTransport a W)
      → P (record t { live = false })
      → P u
      → P (logged fine t u)
  logged-cases P true t u ended on = on
  logged-cases P false t u ended on = ended

module _ {a : Asio} {W : Type 0} (test : Pending → Bool) where
  pub count-do_accept :
      (t : AsioTransport a W)
      → test (accept t.next_socket) ≡ false
      → count test (do_accept t).pending ≡ count test t.pending
  unfolding do_accept count
  count-do_accept t h = elim (Bool-cases t.listening) [
    | inl e ↦ rw (e, h) (omega arith)
    | inr e ↦ rw e refl
  ]

  count-answered :
      (s : ℕ) (t : AsioTransport a W) (r : a.State × Option Bytes)
      → test (server_read s) ≡ false
      → count test (answered s t r).pending ≡ count test t.pending
  unfolding count
  count-answered s t (n, none) h =
      logged-cases (λ u. count test u.pending ≡ count test t.pending) (a.has_peer n s)
        (record t { net = n }) _ refl (rw h (omega arith))
  count-answered s t (n, some e) h = refl

  count-reply :
      (s : ℕ) (answer : Bytes) (t : AsioTransport a W)
      → test (server_read s) ≡ false
      → count test (reply s answer t).pending ≡ count test t.pending
  unfolding count
  count-reply s [] t h = rw h (omega arith)
  count-reply s (b ∷ answer) t h = count-answered s t (a.write t.net s (b ∷ answer)) h

  pub count-serve :
      (s : ℕ) (request : Bytes) (t : AsioTransport a W)
      → test (server_read s) ≡ false
      → count test (serve s request t).pending ≡ count test t.pending
  unfolding serve
  count-serve s request t h = elim (Option-cases t.server_callback) [
    | inl e ↦ rw (e, serve) (count-reply s [] t h)
    | inr (callback, e) ↦
        rw (e, serve)
          (count-reply s (callback t.world request).1
            (record t { world = (callback t.world request).0 }) h)
  ]

module _ {a : Asio} {W : Type 0} where
  -- A completion is that of one pending operation, or none.
  pub complete-cases :
      (P : AsioTransport a W × Calls → Type 0) (n : ℕ) (r : Result Bytes) (t : AsioTransport a W)
      → P (t, [])
      → ((p : Pending) (rest : List Pending)
          → take_nth n t.pending ≡ some (p, rest)
          → P (handle p r (record t { pending = rest })))
      → P (complete (n, r) t)
  unfolding complete
  complete-cases P n r t idle hits = elim (Bool-cases t.live) [
    | inr e ↦ subst P (sym (if_false (completed r t (take_nth n t.pending)) (t, []) e)) idle
    | inl e ↦
        subst P (sym (if_true (completed r t (take_nth n t.pending)) (t, []) e))
          (found (take_nth n t.pending) refl)
  ]
    where
      found : (o : Option (Pending × List Pending)) → take_nth n t.pending ≡ o → P (completed r t o)
      found none e = idle
      found (some (p, rest)) e = hits p rest e
