-- ===== src/Transport/Untouched.antt =====
-- What Connect, StartServer and the start of Send of transport/asio_transport.cc leave of the waiting operations, and
-- that none of them brings a transport back that has ended.
use xrpc.Base.{
  ℕ, suc, ◌∷◌, ◌≡◌, refl, Bool, true, false, Option, none, some, Bytes, arith, Bool-cases, inl, inr,
}
use xrpc.Base.Int.{ℤ}
use xrpc.Transport.{
  Asio, AsioTransport, Pending, client_read, accept, client_open, connected, connect, do_accept,
  start_server, written, send_on, send_over, send_request,
}
use xrpc.Transport.Counts.{count, count-do_accept}

module _ {a : Asio} {W : Type 0} where
  -- Cases of Connect: it changes the client's socket, the next number and the network.
  pub connect-cases :
      (P : AsioTransport a W → Type 0) (ip : Bytes) (port : ℤ) (t : AsioTransport a W)
      → P t
      → ((n : a.State)
          → P (record t {
            client_socket = some t.next_socket;
            next_socket = suc t.next_socket;
            net = n;
          }))
      → P (connect ip port t).0
  unfolding connect
  connect-cases P ip port t same new = elim (Bool-cases (client_open t)) [
    | inl e ↦ rw e same
    | inr e ↦ elim (Bool-cases (a.is_address ip)) [
      | inr f ↦ rw (e, f) (new t.net)
      | inl f ↦ rw (e, f) (joined (a.connect t.net t.next_socket ip port))
    ]
  ]
    where
      joined :
          (r : a.State × Option Bytes)
          → P
              (connected
                (record t { client_socket = some t.next_socket; next_socket = suc t.next_socket })
                r).0
      joined (n, none) = new n
      joined (n, some e) = new n

  -- Cases of StartServer: it sets the callback, and may listen and accept.
  pub start_server-cases :
      (P : AsioTransport a W → Type 0) (ip : Bytes) (port : ℤ) (callback : W → Bytes → W × Bytes)
      (t : AsioTransport a W)
      → ((n : a.State) → P (record t { server_callback = some callback; net = n }))
      → ((n : a.State)
          → P (do_accept (record t { server_callback = some callback; net = n; listening = true })))
      → P (start_server ip port callback t).0
  unfolding start_server
  start_server-cases P ip port callback t failed listens = elim (Bool-cases (a.is_address ip)) [
    | inr e ↦ rw e (failed t.net)
    | inl e ↦ elim (Bool-cases (a.listen t.net ip port).1) [
      | inr f ↦ rw (e, f) (failed (a.listen t.net ip port).0)
      | inl f ↦ rw (e, f) (listens (a.listen t.net ip port).0)
    ]
  ]

  -- Cases of Send up to its loop.
  pub send_request-cases :
      (P : AsioTransport a W → Type 0) (text : Bytes) (t : AsioTransport a W)
      → P t
      → ((n : a.State) → P (record t { response_received = false; net = n }))
      → ((n : a.State)
          → P (record t { response_received = false; net = n; pending = client_read ∷ t.pending }))
      → P (send_request text t).0
  unfolding send_request
  send_request-cases P text t same failed fine = over t.client_socket
    where
      wrote :
          (r : a.State × Option Bytes) → P (written (record t { response_received = false }) r).0
      wrote (n, none) = fine n
      wrote (n, some e) = failed n

      on : (s : ℕ) (b : Bool) → P (send_on text t s b).0
      on s true = wrote (a.write t.net s text)
      on s false = same

      over : (o : Option ℕ) → P (send_over text t o).0
      over none = same
      over (some s) = on s (a.is_open t.net s)

  pub pending-connect :
      (ip : Bytes) (port : ℤ) (t : AsioTransport a W) → (connect ip port t).0.pending ≡ t.pending
  pending-connect ip port t = connect-cases (λ u. u.pending ≡ t.pending) ip port t refl (λ n. refl)

  pub count-start_server :
      (test : Pending → Bool) (ip : Bytes) (port : ℤ) (callback : W → Bytes → W × Bytes)
      (t : AsioTransport a W)
      → ((s : ℕ) → test (accept s) ≡ false)
      → count test (start_server ip port callback t).0.pending ≡ count test t.pending
  count-start_server test ip port callback t h =
      start_server-cases (λ u. count test u.pending ≡ count test t.pending) ip port callback t
        (λ n. refl)
        (λ n.
          count-do_accept test
            (record t { server_callback = some callback; net = n; listening = true })
            (h t.next_socket))

  pub count-send_request :
      (test : Pending → Bool) (text : Bytes) (t : AsioTransport a W)
      → test client_read ≡ false
      → count test (send_request text t).0.pending ≡ count test t.pending
  unfolding count
  count-send_request test text t h =
      send_request-cases (λ u. count test u.pending ≡ count test t.pending) text t refl (λ n. refl)
        (λ n. rw h (omega arith))
