-- ===== src/Transport/Hub/Replied.antt =====
-- HandleServerRead of transport/asio_transport.cc: what a request changes at a server with many clients.
use xrpc.Base.{
  ℕ, ◌≡◌, refl, ap, sym, ◌∙◌, subst, true, some, List, [], ◌∷◌, Bytes, length, drop,
  drop-length_append, arith, ok,
}
use mathlib.Core.List.{append-nil}
use xrpc.Transport.{
  Asio, AsioTransport, Pending, server_read, take_nth, complete, handle, reply, Calls,
}
use xrpc.Transport.Replies.{serve-reply, reply-written, complete-taken}
use xrpc.Transport.Line.{Streams, has_peer-write, added}
use xrpc.Transport.Line.Calling.{sent-added}

added_same : (xs : Bytes) → added xs xs ≡ []
added_same xs = ap (drop (length xs)) (sym (append-nil xs)) ∙ drop-length_append xs []

-- A write leaves the other sockets open.
abbrev pub KeepsOpen : Asio → Type 0
KeepsOpen b =
    (n : b.State) (s k : ℕ) (text : Bytes)
    → b.is_open n k ≡ true
    → b.is_open (b.write n s text).0 k ≡ true

module _ {b : Asio} (sb : Streams b) (keeps : KeepsOpen b) {W : Type 0} where
  -- What a reply on a socket does to a server.
  pub record Replied (s : ℕ) (answer : Bytes) (t u : AsioTransport b W) : Type 0 where
    pub live : u.live ≡ t.live
    pub callback : u.server_callback ≡ t.server_callback
    pub world : u.world ≡ t.world
    pub wrote : added (sb.sent t.net s) (sb.sent u.net s) ≡ answer
    pub open_still : (k : ℕ) → b.is_open t.net k ≡ true → b.is_open u.net k ≡ true

  reply-Replied :
      (s : ℕ) (answer : Bytes) (t : AsioTransport b W)
      → b.is_open t.net s ≡ true
      → Replied s answer t (reply s answer t)
  reply-Replied s [] t up = record {
    live = refl;
    callback = refl;
    world = refl;
    wrote = added_same (sb.sent t.net s);
    open_still = λ k h. h;
  }
  reply-Replied s (x ∷ answer) t up =
      subst (Replied s (x ∷ answer) t)
        (sym (
          reply-written s (x ∷ answer) t (omega arith) (sb.takes t.net s (x ∷ answer) up).0
            (has_peer-write sb t.net s (x ∷ answer) up)))
        (record {
          live = refl;
          callback = refl;
          world = refl;
          wrote = sent-added sb t.net s (x ∷ answer) up;
          open_still = λ k h. keeps t.net s k (x ∷ answer) h;
        })

  -- A request that the server reads.
  pub complete-Replied :
      (n s : ℕ) (text : Bytes) (rest : List Pending) (t : AsioTransport b W)
      (callback : W → Bytes → W × Bytes)
      → t.live ≡ true
      → t.server_callback ≡ some callback
      → take_nth n t.pending ≡ some (server_read s, rest)
      → b.is_open t.net s ≡ true
      → Replied s
          (callback t.world text).1
          (record t { pending = rest; world = (callback t.world text).0 })
          (complete (n, ok text) t).0
  unfolding handle
  complete-Replied n s text rest t callback live set taken up =
      let called = record t { pending = rest; world = (callback t.world text).0 } in
      subst (Replied s (callback t.world text).1 called)
        (sym (
          ap (λ (u : AsioTransport b W × Calls). u.0)
            (complete-taken n (ok text) (server_read s) rest t live taken)
          ∙ serve-reply s text (record t { pending = rest }) callback set))
        (reply-Replied s (callback t.world text).1 called up)
