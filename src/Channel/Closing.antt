-- ===== src/Channel/Closing.antt =====
-- The destructor of core/channel/xrpc_channel.cc, and the calls that wait for an answer then.
use xrpc.Base.{
  ℕ, ◌≡◌, refl, sym, subst, false, List, [], ◌∷◌, arith, Bool-cases, inl, inr, if_false,
}
use xrpc.Registry.ZooKeeper.{ZooKeeper}
use xrpc.Registry.Session.{Client}
use xrpc.Registry.Session
use xrpc.Transport.{
  Asio, AsioTransport, Calls, take_nth, client_open, send_async, completed, complete, stop,
}
use xrpc.Transport.Counts.{hit}
use xrpc.Transport.Callbacks.{
  Act, connects, starts, asks, sends, stops, completes, act, acts, called, called-append, sent,
  sends_it,
}
use xrpc.Transport.Lifetime.{destroy_transport}
use xrpc.Transport.Serving.Acts.{act-ended}

-- The body, and the destructors of its two parts, which stop them again.
unfoldable pub close_channel :
    {zk : ZooKeeper} {a : Asio} {W : Type 0}
    → Client zk × AsioTransport a W
    → Client zk × AsioTransport a W
unfolding destroy_transport
close_channel {zk} (c, t) = (xrpc.Registry.Session.stop zk c, destroy_transport t)

module _ {a : Asio} {W : Type 0} where
  -- On a transport that has ended, only SendAsync itself runs a callback.
  act-ended_called :
      (callback : ℕ) (x : Act W) (t : AsioTransport a W)
      → t.live ≡ false
      → hit (sends_it callback x) ≡ 0
      → called callback (act x t).1 ≡ 0
  unfolding act send_async complete called
  act-ended_called callback (connects ip port) t ended h = refl
  act-ended_called callback (starts ip port f) t ended h = refl
  act-ended_called callback (asks text) t ended h = refl
  act-ended_called callback stops t ended h = refl
  act-ended_called callback (sends text k) t ended h = elim (Bool-cases (client_open t)) [
    | inl e ↦ rw e refl
    | inr e ↦ rw e (omega (arith, h))
  ]
  act-ended_called callback (completes n r) t ended h =
      subst (λ (u : AsioTransport a W × Calls). called callback u.1 ≡ 0)
        (sym (if_false (completed r t (take_nth n t.pending)) (t, []) ended)) refl

  acts-ended_called :
      (callback : ℕ) (xs : List (Act W)) (t : AsioTransport a W)
      → t.live ≡ false
      → sent callback xs ≡ 0
      → called callback (acts xs t).1 ≡ 0
  unfolding acts
  acts-ended_called callback [] t ended h = unfold called in refl
  acts-ended_called callback (x ∷ xs) t ended h =
      let (t', calls) = act x t in
      let more = (acts xs t').1 in
      let now = act-ended_called callback x t ended (omega (arith, h)) in
      let later = acts-ended_called callback xs t' (act-ended x t ended) (omega (arith, h)) in
      omega (arith, called-append callback calls more, now, later)

  -- After the destructor of a channel, no callback of a SendAsync runs any more, pending or not, whatever is called
  -- and completes, unless it is handed to SendAsync again.
  pub close_channel-called :
      {zk : ZooKeeper} (callback : ℕ) (xs : List (Act W)) (c : Client zk) (t : AsioTransport a W)
      → sent callback xs ≡ 0
      → called callback (acts xs (close_channel (c, t)).1).1 ≡ 0
  unfolding close_channel stop
  close_channel-called callback xs c t h =
      acts-ended_called callback xs (close_channel (c, t)).1 refl h
