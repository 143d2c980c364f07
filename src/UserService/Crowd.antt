-- ===== src/UserService/Crowd.antt =====
-- Clients of examples/client/user_client.cc that log in at the same time at one server of
-- examples/server/user_server.cc.
use xrpc.Base.{
  ℕ, ◌<◌, ◌^◌, ◌≡◌, refl, ap, sym, ◌∙◌, subst, Bool, true, none, some, Option, [], ◌∷◌, Bytes,
  codes, ok, Result, if◌then◌else◌, ◌==◌, Bool-cases, inl, inr, ◌||◌, arith,
}
use xrpc.Base.Int.{ℤ}
use xrpc.Base.Dict.{Dict, lookup}
use xrpc.Proto.{Protobuf}
use xrpc.Proto.Wire.{ProtobufLaws}
use xrpc.Codec.{encode}
use xrpc.Codec.ZlibCalls.{Zlib, ZlibLaws}
use xrpc.Controller.{Controller}
use xrpc.Interfaces.{Registry, Transport}
use xrpc.Server.{Service, Server, on_message}
use xrpc.Server.Keeps.{Keeps, on_message-keeps}
use xrpc.Server.Lifecycle.{text_of_answer}
use xrpc.Server.Process.{on_this}
use xrpc.Transport.{Asio}
use xrpc.Transport.Line.{Streams}
use xrpc.Transport.Hub.{Hub, Log, quiet, Runs, world_of, last_answer}
use xrpc.Transport.Hub.Replied.{KeepsOpen}
use xrpc.Transport.Hub.Order.{IsCalm, Got, Runs-ordered}
use xrpc.Channel.{Called, request_header}
use xrpc.Channel.Remote.{Route}
use xrpc.UserService.{
  LoginRequest, LoginResponse, LoginMessages, UserWorld, user_service, is_empty, local_login, login,
  call_user,
}
use xrpc.UserService.Logins.{accepts}
use xrpc.UserService.Wire.{IsRequestWire, LoginLaws}
use xrpc.UserService.Remote.{answer_to}
use xrpc.UserService.Client.{sync_login}
use xrpc.UserService.Sync.{sync_login-accepts}

-- The last request of a client in a log.
abbrev pub last_request : ℕ → Log → Option Bytes
last_request i [] = none
last_request i ((k, text) ∷ log) = if k == i then some text else last_request i log

module _ {W : Type 0} (callback : W → Bytes → W × Bytes) (world : W) where
  -- It was answered on the data that the requests before it left.
  abbrev Answered : ℕ → Log → Bytes → Type 0
  Answered i log text =
      (before : Log) × (last_answer callback world i log
        ≡ some (callback (world_of callback world before) text).1)

  last_request-Answered :
      (i : ℕ) (log : Log) (text : Bytes) → last_request i log ≡ some text → Answered i log text
  last_request-Answered i [] text h = absurd (ground (arith, h))
  last_request-Answered i ((k, other) ∷ log) text h = elim (Bool-cases (k == i)) [
    | inl e ↦ (
      log,
      rw e (ap (λ x. some (callback (world_of callback world log) x).1) (ground (arith, e, h))),
    )
    | inr e ↦
        let (before, same) = last_request-Answered i log text (ground (arith, e, h)) in
        (before, rw e same)
  ]

module _ {R : Type 0} {pb : Protobuf} (messages : LoginMessages pb) (rand : R → R × ℕ) where
  -- A login does not change who is known.
  abbrev pub Knows : Dict Bytes → UserWorld R → Type 0
  Knows users w = w.users ≡ users

  login-Knows :
      (users : Dict Bytes) (w : UserWorld R) (c : Controller) (q : LoginRequest) (p : LoginResponse)
      → Knows users w
      → Knows users (login rand w c q p none).0
  unfolding login
  login-Knows users w c q p h = elim (Bool-cases (is_empty q.username || is_empty q.password)) [
    | inl e ↦ rw e h
    | inr e ↦ elim (Bool-cases (local_login q.username q.password w)) [
      | inl f ↦ rw (e, f) h
      | inr f ↦ rw (e, f) h
    ]
  ]

  pub user_service-Keeps : (users : Dict Bytes) → Keeps (Knows users) (user_service messages rand)
  unfolding call_user
  user_service-Keeps users = record {
    call_keeps = λ method w c request response h.
        login-Knows users w c (messages.to_request request) (messages.to_response response) h;
    closure_keeps = λ w closure h. h;
  }

module _ (pb : Protobuf) (z : Zlib) (messages : LoginMessages pb) {R : Type 0} (rand : R → R × ℕ)
    (s : Server pb (UserWorld R)) where
  -- Every service that is registered is the example's.
  abbrev pub OnlyLogins : Type 0
  OnlyLogins =
      (name : Bytes) (service : Service pb (UserWorld R))
      → lookup name s.services ≡ some service
      → service ≡ user_service messages rand

  record Same (t : Server pb (UserWorld R)) : Type 0 where
    services : t.services ≡ s.services
    users : t.world.users ≡ s.world.users

  -- Requests of any kind leave the services and the users.
  world_of-Same : OnlyLogins → (log : Log) → Same (world_of (on_this pb z) s log)
  unfolding on_this
  world_of-Same only [] = record { services = refl; users = refl }
  world_of-Same only ((i, text) ∷ log) =
      let before = world_of (on_this pb z) s log in
      let same = world_of-Same only log in
      record {
        services = same.services;
        users =
            on_message-keeps pb z (Knows messages rand s.world.users) before
              (λ name service found.
                subst (Keeps (Knows messages rand s.world.users))
                  (sym (only name service (ap (lookup name) (sym same.services) ∙ found)))
                  (user_service-Keeps messages rand s.world.users))
              same.users text;
      }

now_users :
    {C : Type 0} {users users' : Dict Bytes} (result : Result (Bool × C)) (q : LoginRequest)
    (after : C)
    → result ≡ ok (accepts users q, after)
    → users ≡ users'
    → result ≡ ok (accepts users' q, after)
now_users result q after h e = subst (λ u. result ≡ ok (accepts u q, after)) e h

-- What a Send brings back for a text is the answer to what was encoded.
brought :
    (tr : Transport) (encoded : Result Bytes) (on : Bytes → Result Bytes) (wire got : Bytes)
    (t t' : tr.State)
    → encoded ≡ ok wire
    → tr.send t wire ≡ (t', true, got)
    → got ≡ text_of_answer (on wire)
    → (text answer : Bytes) → encoded ≡ ok text
    → on text ≡ ok answer
    → tr.send t text ≡ (t', true, answer)
brought tr encoded on wire got t t' sent brings same text answer e handled =
    let at : wire ≡ text = cc (sent, e) in
    subst (λ x. tr.send t x ≡ (t', true, answer)) at
      (brings
        ∙ ap (λ x. (t', true, x))
            (same ∙ ap (λ x. text_of_answer (on x)) at ∙ ap text_of_answer handled))

module _ (pb : Protobuf) (pl : ProtobufLaws pb) (z : Zlib) (zl : ZlibLaws z) (reg : Registry)
    (tr : Transport) (messages : LoginMessages pb) (laws : LoginLaws pl messages) {R : Type 0}
    (rand : R → R × ℕ) where
  -- A login that returned what the users accept, with the response that the service gives on data with these users.
  abbrev pub LogsInAmong : Result (Bool × Called pb z reg tr) → LoginRequest → Dict Bytes → Type 0
  LogsInAmong result q users =
      (after : Called pb z reg tr) × (result ≡ ok (accepts users q, after))
      × ((w : UserWorld R) × (w.users ≡ users)
          × (messages.to_response after.response ≡ answer_to pl laws rand w q))

  -- When any number of clients send whatever requests at the same time to one server with the example service only, a
  -- SyncLogin whose Send brings back what its client got returns true exactly on
  -- credentials that are not empty and stored at the server at the start, in whatever order the requests
  -- are read, and its caller has the response that the service gave on data with these users. Nothing is on the
  -- way at the start; the connections stay up; one read gives a request or an answer whole; the channel has a route;
  -- the client's last request is that of the login and its Send has returned; the texts of
  -- the credentials are UTF-8 and together below a megabyte, and the numbers drawn are below 2^31.
  pub sync_login-crowd :
      {a b : Asio} (sb : Streams b) (keeps : KeepsOpen b) (peer : ℕ → ℕ) {V : Type 0}
      (h h' : Hub a b V (Server pb (UserWorld R))) (log : Log) (i : ℕ) (ip : Bytes) (port : ℤ)
      (id : ℕ) (q : LoginRequest) (old : LoginResponse) (wire : Bytes) (r r' : reg.State)
      (t t' t'' : tr.State)
      → OnlyLogins pb z messages rand h.server.world
      → lookup (codes "UserService") h.server.world.services ≡ some (user_service messages rand)
      → IsCalm sb keeps peer (on_this pb z) h
      → Runs sb peer h h' log
      → h'.flights i ≡ quiet
      → last_request i log ≡ some wire
      → encode pb z
          (request_header (codes "UserService") (codes "Login") id)
          (messages.of_request q)
        ≡ ok wire
      → Route reg tr (codes "UserService") (codes "Login") ip port r r' t t'
      → tr.send t' wire ≡ (t'', true, (h'.clients i).response)
      → IsRequestWire pl.is_utf8 q
      → ((d : R) → (rand d).1 < 2 ^ 31)
      → id < 2 ^ 31
      → LogsInAmong
          (sync_login pb z reg tr messages (ok (r, t)) id q old)
          q
          h.server.world.world.users
  unfolding on_this
  sync_login-crowd sb keeps peer h h' log i ip port id q old wire r r' t t' t'' only found calm runs
        returned asked sent route brings utf8 int id_int =
      let s = h.server.world in
      let (before, answered) = last_request-Answered (on_this pb z) s i log wire asked in
      let at = world_of (on_this pb z) s before in
      let same = world_of-Same pb z messages rand s only before in
      let got = (Runs-ordered sb keeps peer (on_this pb z) h h' log calm runs).1 i returned in
      let response : (h'.clients i).response ≡ text_of_answer (on_message pb z at wire).1 =
        (subst (λ o. Got o (h'.clients i)) answered got).1 in
      let came =
        sync_login-accepts pb pl z zl reg tr messages laws rand at ip port id q old r r' t t' t''
          route
          (brought tr
            (encode pb z (request_header (codes "UserService") (codes "Login") id)
              (messages.of_request q))
            (λ text. (on_message pb z at text).1) wire (h'.clients i).response t' t'' sent brings
            response)
          (ap (lookup (codes "UserService")) same.services ∙ found) utf8 (int at.world.draws)
          id_int in
      (
        _,
        now_users _ q _ came same.users,
        (at.world, same.users, laws.read_response (answer_to pl laws rand at.world q)),
      )
