-- ===== src/Transport/Serving.antt =====
-- The server's side of transport/asio_transport.cc: which reads and accepts wait.
pub mod Completions
pub mod Acts
use xrpc.Base.{
  ℕ, zero, suc, ◌+◌, ◌≡◌, ◌⊎◌, ◌≤◌, ◌<◌, refl, ap, sym, ◌∙◌, subst, Bool, true, false, Option, none,
  some, List, [], ◌∷◌, Bytes, arith, if◌then◌else◌, ◌==◌, Option-cases, Bool-cases, inl, inr,
  Result, ok, throw, if_false, if_true,
}
use xrpc.Transport.{
  Asio, AsioTransport, Pending, client_read, async_write, async_read, accept, server_read, Calls,
  take_nth, do_accept, start, has_socket, add_socket, remove_socket, serve, reply, answered, handle,
  completed, complete,
}
use xrpc.Transport.Counts.{hit, count, count-take_nth, count-do_accept, complete-cases}

abbrev pub reads : ℕ → Pending → Bool
reads s (server_read k) = k == s
reads s _ = false

abbrev pub accepts : ℕ → Pending → Bool
accepts s (accept k) = k == s
accepts s _ = false

-- One for a connected socket.
abbrev member : ℕ → List ℕ → ℕ
member s xs = hit (has_socket s xs)

has_socket-add :
    (s k : ℕ) (xs : List ℕ)
    → has_socket s (add_socket k xs) ≡ (if k == s then true else has_socket s xs)
unfolding add_socket has_socket
has_socket-add s k xs = ground arith

has_socket-remove :
    (s k : ℕ) (xs : List ℕ)
    → has_socket s (remove_socket k xs) ≡ (if k == s then false else has_socket s xs)
unfolding remove_socket has_socket
has_socket-remove s k [] = ground arith
has_socket-remove s k (x ∷ xs) = ground (arith, has_socket-remove s k xs)

module _ {a : Asio} {W : Type 0} where
  -- Each connected socket waits in one read; a socket that waits to be accepted is not connected, and waits once; the
  -- numbers from `next_socket` on are free.
  pub record IsServing (t : AsioTransport a W) : Type 0 where
    pub one_read : (s : ℕ) → count (reads s) t.pending ≡ member s t.server_sockets
    pub one_accept : (s : ℕ) → count (accepts s) t.pending + member s t.server_sockets ≤ 1
    pub free :
        (s : ℕ) → t.next_socket ≤ s → count (accepts s) t.pending + member s t.server_sockets ≡ 0

  abbrev pub Serving : AsioTransport a W → Type 0
  Serving t = (t.live ≡ false) ⊎ IsServing t

  pub do_accept-IsServing : (t : AsioTransport a W) → IsServing t → IsServing (do_accept t)
  unfolding do_accept
  do_accept-IsServing t w = elim (Bool-cases t.listening) [
    | inr e ↦ subst IsServing (sym (if_false (more t) t e)) w
    | inl e ↦ subst IsServing (sym (if_true (more t) t e)) (more-IsServing t w)
  ]
    where
      more : AsioTransport a W → AsioTransport a W
      more t = record t {
        next_socket = suc t.next_socket;
        pending = accept t.next_socket ∷ t.pending;
      }

      more-IsServing : (t : AsioTransport a W) → IsServing t → IsServing (more t)
      more-IsServing t w =
          unfold count in
          record {
            one_read = λ s. omega (arith, w.one_read s);
            one_accept = λ s. elim (Bool-cases (t.next_socket == s)) [
              | inl e ↦ rw e (omega (arith, w.free s (ground (arith, e))))
              | inr e ↦ rw e (omega (arith, w.one_accept s))
            ];
            free = λ s h. elim (Bool-cases (t.next_socket == s)) [
              | inl e ↦ absurd (ground (arith, e, h))
              | inr e ↦ rw e (omega (arith, w.free s (omega (arith, h))))
            ];
          }

  -- What holds when the operation `p` has been taken out.
  pub record Taken (p : Pending) (t : AsioTransport a W) : Type 0 where
    pub one_read : (s : ℕ) → hit (reads s p) + count (reads s) t.pending ≡ member s t.server_sockets
    pub one_accept :
        (s : ℕ) → hit (accepts s p) + count (accepts s) t.pending + member s t.server_sockets ≤ 1
    pub free :
        (s : ℕ)
        → t.next_socket ≤ s
        → hit (accepts s p) + count (accepts s) t.pending + member s t.server_sockets ≡ 0

  pub take_nth-Taken :
      (n : ℕ) (t : AsioTransport a W) (p : Pending) (rest : List Pending)
      → take_nth n t.pending ≡ some (p, rest)
      → IsServing t
      → Taken p (record t { pending = rest })
  take_nth-Taken n t p rest h w = record {
    one_read = λ s. omega (arith, count-take_nth (reads s) n t.pending p rest h, w.one_read s);
    one_accept =
        λ s. omega (arith, count-take_nth (accepts s) n t.pending p rest h, w.one_accept s);
    free =
        λ s below. omega (arith, count-take_nth (accepts s) n t.pending p rest h, w.free s below);
  }

  pub accepted-IsServing :
      (k : ℕ) (t : AsioTransport a W)
      → Taken (accept k) t
      → IsServing (record t {
        server_sockets = add_socket k t.server_sockets;
        pending = server_read k ∷ t.pending;
      })
  unfolding count
  accepted-IsServing k t w = record {
    one_read = λ s. rw (has_socket-add s k t.server_sockets) (elim (Bool-cases (k == s)) [
      | inl e ↦ rw e (omega (arith, at_accept s e (w.one_accept s), w.one_read s))
      | inr e ↦ rw e (omega (arith, w.one_read s))
    ]);
    one_accept = λ s. rw (has_socket-add s k t.server_sockets) (elim (Bool-cases (k == s)) [
      | inl e ↦ rw e (omega (arith, at_accept s e (w.one_accept s)))
      | inr e ↦ rw e (omega (arith, w.one_accept s))
    ]);
    free = λ s below. rw (has_socket-add s k t.server_sockets) (elim (Bool-cases (k == s)) [
      | inl e ↦ absurd (omega (arith, at_free s e (w.free s below)))
      | inr e ↦ rw e (omega (arith, w.free s below))
    ]);
  }
    where
      at_accept :
          (s : ℕ)
          → (k == s) ≡ true
          → hit (k == s) + count (accepts s) t.pending + member s t.server_sockets ≤ 1
          → count (accepts s) t.pending + member s t.server_sockets ≡ 0
      at_accept s e h =
          let h' : 1 + count (accepts s) t.pending + member s t.server_sockets ≤ 1 =
            subst (λ b. hit b + count (accepts s) t.pending + member s t.server_sockets ≤ 1) e h in
          omega (arith, h')

      at_free :
          (s : ℕ)
          → (k == s) ≡ true
          → hit (k == s) + count (accepts s) t.pending + member s t.server_sockets ≡ 0
          → 1 + count (accepts s) t.pending + member s t.server_sockets ≡ 0
      at_free s e h =
          subst (λ b. hit b + count (accepts s) t.pending + member s t.server_sockets ≡ 0) e h

  pub same-IsServing :
      (p : Pending) (t : AsioTransport a W)
      → Taken p t
      → ((s : ℕ) → reads s p ≡ false)
      → IsServing t
  same-IsServing p t w other = record {
    one_read = λ s. omega (arith, w.one_read s, ap hit (other s));
    one_accept = λ s. omega (arith, w.one_accept s);
    free = λ s below. omega (arith, w.free s below);
  }

  pub started-IsServing :
      (k : ℕ) (t : AsioTransport a W) → IsServing t → IsServing (start (async_read k) t)
  unfolding count
  started-IsServing k t w = record {
    one_read = λ s. omega (arith, w.one_read s);
    one_accept = λ s. omega (arith, w.one_accept s);
    free = λ s below. omega (arith, w.free s below);
  }

  -- The read is set again.
  pub armed-IsServing :
      (k : ℕ) (t : AsioTransport a W)
      → Taken (server_read k) t
      → IsServing (record t { pending = server_read k ∷ t.pending })
  unfolding count
  armed-IsServing k t w = record {
    one_read = w.one_read;
    one_accept = λ s. omega (arith, w.one_accept s);
    free = λ s below. omega (arith, w.free s below);
  }

  pub gone-IsServing :
      (k : ℕ) (t : AsioTransport a W)
      → Taken (server_read k) t
      → IsServing (record t { server_sockets = remove_socket k t.server_sockets })
  gone-IsServing k t w = record {
    one_read = λ s. rw (has_socket-remove s k t.server_sockets) (elim (Bool-cases (k == s)) [
      | inl e ↦ rw e (omega (arith, ap hit e, w.one_read s, w.one_accept s))
      | inr e ↦ rw e (omega (arith, ap hit e, w.one_read s))
    ]);
    one_accept = λ s. rw (has_socket-remove s k t.server_sockets) (elim (Bool-cases (k == s)) [
      | inl e ↦ rw e (omega (arith, w.one_accept s))
      | inr e ↦ rw e (omega (arith, w.one_accept s))
    ]);
    free = λ s below. rw (has_socket-remove s k t.server_sockets) (elim (Bool-cases (k == s)) [
      | inl e ↦ rw e (omega (arith, w.free s below))
      | inr e ↦ rw e (omega (arith, w.free s below))
    ]);
  }
