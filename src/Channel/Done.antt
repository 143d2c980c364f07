-- ===== src/Channel/Done.antt =====
-- The closure of an asynchronous call.
use xrpc.Base.{
  ℕ, ◌≡◌, refl, Bool, true, false, ◌&&◌, Option, none, some, List, [], ◌∷◌, ◌++◌, Bytes, Result, ok,
  throw, arith, Bool-cases, inl, inr,
}
use xrpc.Base.Int.{ℤ}
use xrpc.Proto.{RpcHeader, Protobuf}
use xrpc.Codec.ZlibCalls.{Zlib}
use xrpc.Controller.{Controller, run_closure}
use xrpc.Interfaces.{Registry, Transport}
use xrpc.Channel.{
  on_reply, Waiting, Called, caught, call_sync, call_async, send_encoded, call_connected,
  call_addressed, call_method,
}

module _ (pb : Protobuf) (z : Zlib) (input : Bytes) (success : Bool) (later : Controller)
    (response : pb.Message) where
  on_reply-ran : (d : ℕ) → (on_reply pb z d input success later response).2 ≡ d ∷ []
  unfolding on_reply
  on_reply-ran d = ground arith

  -- What a waiting request runs when the transport answers it with these bytes and this success.
  abbrev ran_later : Option (Waiting pb z) → List ℕ
  ran_later none = []
  ran_later (some w) = (on_reply pb z w.done input success later response).2

  module _ (reg : Registry) (tr : Transport) where
    -- All closures that a call runs, then and later.
    abbrev pub ran_in_all : Called pb z reg tr → List ℕ
    ran_in_all called = called.ran ++ ran_later called.waiting

    ran_caught :
        (reason : Bytes) (done : Option ℕ) (c : Controller) (m : pb.Message) (r : reg.State)
        (t : tr.State)
        → ran_in_all (caught pb z reg tr reason done c m r t) ≡ run_closure done
    unfolding caught
    ran_caught reason none c m r t = refl
    ran_caught reason (some d) c m r t = refl

    ran_async :
        (is_xrpc : Bool) (wire : Bytes) (d : ℕ) (c : Controller) (m : pb.Message) (r : reg.State)
        (t : tr.State)
        → ran_in_all (call_async pb z reg tr is_xrpc wire d c m r t) ≡ d ∷ []
    unfolding call_async
    ran_async true wire d c m r t = on_reply-ran d
    ran_async false wire d c m r t = refl

    ran_encoded :
        (is_xrpc : Bool) (wire : Result Bytes) (done : Option ℕ) (c : Controller) (m : pb.Message)
        (r : reg.State) (t : tr.State)
        → ran_in_all (send_encoded pb z reg tr is_xrpc wire done c m r t) ≡ run_closure done
    unfolding send_encoded
    ran_encoded is_xrpc (throw reason) done c m r t = ran_caught reason done c m r t
    ran_encoded is_xrpc (ok wire) (some d) c m r t = ran_async is_xrpc wire d c m r t
    ran_encoded is_xrpc (ok wire) none c m r t = unfold call_sync in refl

    ran_connected :
        (is_xrpc : Bool) (h : RpcHeader) (done : Option ℕ) (c : Controller) (q m : pb.Message)
        (r : reg.State) (t : tr.State × Result (Unit {0}))
        → ran_in_all (call_connected pb z reg tr is_xrpc h done c q m r t) ≡ run_closure done
    unfolding call_connected
    ran_connected is_xrpc h done c q m r (t, throw reason) = ran_caught reason done c m r t
    ran_connected is_xrpc h done c q m r (t, ok _) = elim (Bool-cases (is_xrpc && c.canceled)) [
      | inl stop ↦ rw stop (ran_caught _ done c m r t)
      | inr go ↦ rw go (ran_encoded is_xrpc _ done c m r t)
    ]

    ran_addressed :
        (is_xrpc : Bool) (h : RpcHeader) (done : Option ℕ) (c : Controller) (q m : pb.Message)
        (t : tr.State) (r : reg.State × Result (Bytes × ℤ))
        → ran_in_all (call_addressed pb z reg tr is_xrpc h done c q m t r) ≡ run_closure done
    unfolding call_addressed
    ran_addressed is_xrpc h done c q m t (r, throw reason) = ran_caught reason done c m r t
    ran_addressed is_xrpc h done c q m t (r, ok (ip, port)) =
        ran_connected is_xrpc h done c q m r (tr.connect t ip port)

    -- On every path of CallMethod, whatever the registry, the transport and the reply are,
    -- the caller's closure runs exactly once if there is one: at once, or in the callback
    -- that the transport was given.
    pub call_method-done_once :
        (is_xrpc : Bool) (service method : Bytes) (id : ℕ) (done : Option ℕ) (c : Controller)
        (q m : pb.Message) (r : reg.State) (t : tr.State)
        → ran_in_all (call_method pb z reg tr is_xrpc service method id done c q m r t)
          ≡ run_closure done
    unfolding call_method
    call_method-done_once is_xrpc service method id done c q m r t =
        ran_addressed is_xrpc _ done c q m t _
