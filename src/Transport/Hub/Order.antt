-- ===== src/Transport/Hub/Order.antt =====
-- Overlapping Sends of transport/asio_transport.cc: each client gets its own answer, as if the server's callback were called
-- for one request after another.
use xrpc.Base.{
  ℕ, ◌≡◌, refl, ap, sym, ◌∙◌, subst, true, Option, none, some, List, [], ◌∷◌, Bytes, arith, ok,
  Bool-cases, inl, inr, ◌==◌,
}
use xrpc.Transport.{
  Asio, AsioTransport, Pending, client_read, take_nth, send_request, complete, handle, Calls,
}
use xrpc.Transport.Untouched.{send_request-cases}
use xrpc.Transport.Replies.{complete-taken}
use xrpc.Transport.Line.{Streams}
use xrpc.Transport.Hub.Replied.{KeepsOpen, complete-Replied}
use xrpc.Transport.Hub.{
  Flight, quiet, request, response, silence, sent_back, Hub, Log, answer_by, Step, asks, serves,
  receives, Runs, here, next, world_of, last_answer,
}

-- A client whose Send has returned has its answer.
abbrev pub Got : {a : Asio} {V : Type 0} → Option Bytes → AsioTransport a V → Type 0
Got none t = Unit {0}
Got (some answer) t = (t.response_received ≡ true) × (t.response ≡ answer)

-- What holds of a client by what is on the way.
abbrev Told : {a : Asio} {V : Type 0} → Option Bytes → Flight → AsioTransport a V → Type 0
Told answer quiet t = Got answer t
Told answer (request text) t = Unit {0}
Told answer (response text) t = answer ≡ some text
Told answer silence t = Unit {0}

Told-sent_back :
    {a : Asio} {V : Type 0} (answer : Bytes) (t : AsioTransport a V)
    → Told (some answer) (sent_back answer) t
Told-sent_back [] t = tt
Told-sent_back (b ∷ answer) t = refl

module _ {a : Asio} {V : Type 0} where
  live-send_request :
      (text : Bytes) (t : AsioTransport a V) → t.live ≡ true → (send_request text t).0.live ≡ true
  live-send_request text t h = send_request-cases (λ u. u.live ≡ true) text t h (λ n. h) (λ n. h)

  -- The client's read completes.
  complete-read :
      (n : ℕ) (text : Bytes) (rest : List Pending) (t : AsioTransport a V)
      → t.live ≡ true
      → take_nth n t.pending ≡ some (client_read, rest)
      → (complete (n, ok text) t).0
        ≡ record t { pending = rest; response = text; response_received = true }
  unfolding handle
  complete-read n text rest t live taken =
      ap (λ (u : AsioTransport a V × Calls). u.0)
        (complete-taken n (ok text) client_read rest t live taken)

same_client : (i k : ℕ) → (i == k) ≡ true → i ≡ k
same_client i k e = ground (arith, e)

module _ {a b : Asio} (sb : Streams b) (keeps : KeepsOpen b) (peer : ℕ → ℕ) {V W : Type 0}
    (callback : W → Bytes → W × Bytes) (world : W) where
  record Inv (h : Hub a b V W) (log : Log) : Type 0 where
    server_up : h.server.live ≡ true
    set : h.server.server_callback ≡ some callback
    reachable : (i : ℕ) → b.is_open h.server.net (peer i) ≡ true
    holds : h.server.world ≡ world_of callback world log
    clients_up : (i : ℕ) → (h.clients i).live ≡ true
    told : (i : ℕ) → Told (last_answer callback world i log) (h.flights i) (h.clients i)

  Step-Inv :
      {h h' : Hub a b V W} {log log' : Log} → Step sb peer h log h' log' → Inv h log → Inv h' log'
  Step-Inv {h} (asks i text calm reached) v = record {
    server_up = v.server_up;
    set = v.set;
    reachable = v.reachable;
    holds = v.holds;
    clients_up = λ k. elim (Bool-cases (i == k)) [
      | inl e ↦ rw e (live-send_request text (h.clients i) (v.clients_up i))
      | inr e ↦ rw e (v.clients_up k)
    ];
    told = λ k. elim (Bool-cases (i == k)) [ inl e ↦ rw e tt | inr e ↦ rw e (v.told k) ];
  }
  Step-Inv {h} {log = log} (serves i n text rest going fits taken) v =
      let r =
        complete-Replied sb keeps n (peer i) text rest h.server callback v.server_up v.set taken
          (v.reachable i) in
      let wrote : answer_by sb peer i h.server (complete (n, ok text) h.server).0
          ≡ (callback (world_of callback world log) text).1 =
        r.wrote ∙ ap (λ x. (callback x text).1) v.holds in
      record {
        server_up = r.live ∙ v.server_up;
        set = r.callback ∙ v.set;
        reachable = λ k. r.open_still (peer k) (v.reachable k);
        holds = r.world ∙ ap (λ x. (callback x text).0) v.holds;
        clients_up = v.clients_up;
        told = λ k. elim (Bool-cases (i == k)) [
          | inl e ↦
              rw (e, wrote)
                (Told-sent_back (callback (world_of callback world log) text).1 (h.clients k))
          | inr e ↦ rw e (v.told k)
        ];
      }
  Step-Inv {h} {log = log} (receives i n text rest going fits taken) v =
      let owed : last_answer callback world i log ≡ some text =
        subst (λ f. Told (last_answer callback world i log) f (h.clients i)) going (v.told i) in
      let read = complete-read n text rest (h.clients i) (v.clients_up i) taken in
      record {
        server_up = v.server_up;
        set = v.set;
        reachable = v.reachable;
        holds = v.holds;
        clients_up = λ k. elim (Bool-cases (i == k)) [
          | inl e ↦ rw e (ap (λ (u : AsioTransport a V). u.live) read ∙ v.clients_up i)
          | inr e ↦ rw e (v.clients_up k)
        ];
        told = λ k. elim (Bool-cases (i == k)) [
          | inl e ↦
              rw (e, read)
                (rw
                  (subst (λ j. last_answer callback world j log ≡ some text) (same_client i k e)
                    owed)
                  (refl, refl))
          | inr e ↦ rw e (v.told k)
        ];
      }

module _ {a b : Asio} (sb : Streams b) (keeps : KeepsOpen b) (peer : ℕ → ℕ) {V W : Type 0}
    (callback : W → Bytes → W × Bytes) where
  -- Nothing is on the way, both ends of every connection are up, and the server serves by the callback.
  pub record IsCalm (h : Hub a b V W) : Type 0 where
    pub server_up : h.server.live ≡ true
    pub set : h.server.server_callback ≡ some callback
    pub reachable : (i : ℕ) → b.is_open h.server.net (peer i) ≡ true
    pub clients_up : (i : ℕ) → (h.clients i).live ≡ true
    pub calm : (i : ℕ) → h.flights i ≡ quiet

  Runs-Inv :
      {h h' : Hub a b V W} {log : Log}
      → IsCalm h
      → Runs sb peer h h' log
      → Inv sb keeps peer callback h.server.world h' log
  Runs-Inv {h} c here = record {
    server_up = c.server_up;
    set = c.set;
    reachable = c.reachable;
    holds = refl;
    clients_up = c.clients_up;
    told = λ i. subst (λ f. Told none f (h.clients i)) (sym (c.calm i)) tt;
  }
  Runs-Inv {h} c (next r s) = Step-Inv sb keeps peer callback h.server.world s (Runs-Inv c r)

  -- When Sends of any number of clients to one server overlap in any order, the server's data are what plain calls of its
  -- callback make of them, one request after another in the order in which the server read them, and each
  -- client whose Send returned has the answer to its own last request in these calls. The connections stay up, and one read
  -- gives a request or an answer whole.
  pub Runs-ordered :
      (h h' : Hub a b V W) (log : Log)
      → IsCalm h
      → Runs sb peer h h' log
      → (h'.server.world ≡ world_of callback h.server.world log)
        × ((i : ℕ)
            → h'.flights i ≡ quiet
            → Got (last_answer callback h.server.world i log) (h'.clients i))
  Runs-ordered h h' log c r =
      let v = Runs-Inv c r in
      (
        v.holds,
        λ i q.
            subst (λ f. Told (last_answer callback h.server.world i log) f (h'.clients i)) q
              (v.told i),
      )
