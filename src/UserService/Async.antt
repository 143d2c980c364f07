-- ===== src/UserService/Async.antt =====
-- AsyncLogin of examples/client/user_client.cc against a server of examples/server/user_server.cc.
use xrpc.Base.{
  ℕ, ◌<◌, ◌^◌, ◌≡◌, refl, subst, sym, Option, ◌∙◌, true, false, none, some, [], ◌∷◌, Bytes, codes,
  ok, Result, Bool-cases, inl, inr, if◌then◌else◌, if_true, if_false, if_both, ◌||◌, suc, ◌==◌,
  arith,
}
use xrpc.Base.Int.{ℤ}
use xrpc.Base.Dict.{lookup}
use xrpc.Proto.{Protobuf}
use xrpc.Proto.Wire.{ProtobufLaws, text_size}
use xrpc.Codec.ZlibCalls.{Zlib, ZlibLaws}
use xrpc.Controller.{Controller, fresh, set_failed}
use xrpc.Interfaces.{Registry, Transport}
use xrpc.Server.{Server, on_message}
use xrpc.Codec.{encode}
use xrpc.Channel.{on_reply, request_header}
use xrpc.Channel.Remote.{Route}
use xrpc.Channel.RemoteAsync.{Waits, async_done, async_failed}
use xrpc.UserService.{
  LoginRequest, LoginResponse, LoginMessages, UserWorld, empty_response, user_service, is_empty,
  invalid_input, invalid_credentials, empty_input,
}
use xrpc.UserService.Logins.{accepts, reason_of, granted_by, refused_by}
use xrpc.UserService.Wire.{IsRequestWire, LoginLaws, login-IsWire}
use xrpc.UserService.Remote.{answer_to}
use xrpc.UserService.Exchange.{Exchange, EndsWith, accepted_login, refused_login, refused-EndsWith}
use xrpc.UserService.Client.{
  AsyncCallback, Attempt, attempt, attempts, async_login, call_login, resumed, notified,
  on_callback, verdict, is_granted, max_retries,
}

-- A callback with an error text does not grant the login.
verdict-failed :
    (text : Bytes) (response : LoginResponse)
    → is_empty text ≡ false
    → is_granted (verdict (record { error_text = text; called = true }) response) ≡ false
unfolding verdict
verdict-failed [] response h = ground arith
verdict-failed (_ ∷ _) response h = refl

module _ (pb : Protobuf) (pl : ProtobufLaws pb) (z : Zlib) (zl : ZlibLaws z) (reg : Registry)
    (tr : Transport) (messages : LoginMessages pb) (laws : LoginLaws pl messages) {R : Type 0}
    (rand : R → R × ℕ) (s : Server pb (UserWorld R)) (ip : Bytes) (port : ℤ) where
  -- A channel with a route to the server, whose answer arrives in time.
  pub record Answered (q : LoginRequest) (channel : Result (Attempt reg tr)) : Type 0 where
    pub a : Attempt reg tr
    pub registry' : reg.State
    pub transport' : tr.State
    pub opened : channel ≡ ok a
    pub route :
        Route reg tr
          (codes "UserService")
          (codes "Login")
          ip
          port
          a.registry
          registry'
          a.transport
          transport'
    pub id_int : a.id < 2 ^ 31
    pub arrives :
        (wire answer : Bytes)
        → encode pb z
            (request_header (codes "UserService") (codes "Login") a.id)
            (messages.of_request q)
          ≡ ok wire
        → (on_message pb z s wire).1 ≡ ok answer
        → a.arrival wire ≡ some (record { input = answer; success = true })

  module _ (q : LoginRequest)
      (found : lookup (codes "UserService") s.services ≡ some (user_service messages rand))
      (wire : IsRequestWire pl.is_utf8 q) (int : (rand s.world.draws).1 < 2 ^ 31) where
    -- What the callback has of a controller.
    abbrev told : Controller → AsyncCallback
    told c = record { error_text = c.error_text; called = true }

    abbrev AnsweredWith :
        (a : Attempt reg tr)
        → reg.State
        → tr.State
        → LoginResponse
        → Controller
        → LoginResponse
        → Type 0
    AnsweredWith a r' t' old c response =
        (sent : Bytes) × (answer : Bytes) × (call_login pb z reg tr messages a.registry a.transport
            a.id (some 0) q old
          ≡ Waits pb z reg tr r' t' fresh (messages.of_response old) sent 0)
        × (encode pb z (request_header (codes "UserService") (codes "Login") a.id)
              (messages.of_request q)
            ≡ ok sent)
        × ((on_message pb z s sent).1 ≡ ok answer)
        × (on_reply pb z 0 answer true fresh (messages.of_response old)
            ≡ (c, messages.of_response response, 0 ∷ []))

    attempt-AnsweredWith :
        (a : Attempt reg tr) (r' : reg.State) (t' : tr.State) (old response : LoginResponse)
        (c : Controller)
        → ((wire answer : Bytes)
            → encode pb z
                (request_header (codes "UserService") (codes "Login") a.id)
                (messages.of_request q)
              ≡ ok wire
            → (on_message pb z s wire).1 ≡ ok answer
            → a.arrival wire ≡ some (record { input = answer; success = true }))
        → AnsweredWith a r' t' old c response
        → attempt pb z reg tr messages a q old ≡ (told c, response)
    unfolding attempt resumed notified on_callback
    attempt-AnsweredWith a r' t' old response c arrives
          (sent, answer, called, encoded, handled, replied) =
        rw (called, arrives sent answer encoded handled, replied, laws.read_response response) refl

    waited_login :
        (channel : Result (Attempt reg tr)) (w : Answered q channel) (old : LoginResponse)
        (c : Controller) (response : LoginResponse) (failure : Option Bytes)
        (x : Exchange pl laws rand s w.a.id q old response failure)
        → EndsWith pl.is_utf8 c failure
        → AnsweredWith w.a w.registry' w.transport' old c response
    waited_login channel w old c response none x fine =
        subst (λ c. AnsweredWith w.a w.registry' w.transport' old c response) (sym fine)
          (async_done pb pl z zl reg tr s (codes "UserService") (codes "Login") ip port w.a.id 0
            fresh (messages.of_request q) (messages.of_response old) (messages.of_response response)
            x.body w.a.registry w.registry' w.a.transport w.transport' w.route refl
            (login-IsWire pl laws w.a.id w.id_int) x.made x.small (user_service messages rand) 0
            (messages.of_request q) x.answer x.reaches x.raises x.replied x.brief x.fits)
    waited_login channel w old c response (some reason) x (e, utf8, brief) =
        subst (λ c. AnsweredWith w.a w.registry' w.transport' old c response) (sym e)
          (async_failed pb pl z zl reg tr s (codes "UserService") (codes "Login") ip port w.a.id 0
            fresh (messages.of_request q) (messages.of_response old) (messages.of_response response)
            x.body w.a.registry w.registry' w.a.transport w.transport' w.route refl
            (login-IsWire pl laws w.a.id w.id_int) x.made x.small (user_service messages rand) 0
            (messages.of_request q) x.answer reason x.reaches x.raises utf8
            (unfold text_size in omega arith) x.replied x.brief x.fits)

    reply_accepted :
        (channel : Result (Attempt reg tr)) (w : Answered q channel) (old : LoginResponse)
        → accepts s.world.users q ≡ true
        → AnsweredWith w.a w.registry' w.transport' old fresh
            (granted_by rand s.world q empty_response)
    reply_accepted channel w old h =
        waited_login channel w old fresh _ none
          (accepted_login pl laws rand s w.a.id q old found wire int h) refl

    reply_refused :
        (channel : Result (Attempt reg tr)) (w : Answered q channel) (old : LoginResponse)
        → accepts s.world.users q ≡ false
        → AnsweredWith w.a w.registry' w.transport' old
            (set_failed (reason_of q).0 fresh)
            (refused_by rand q empty_response)
    reply_refused channel w old h =
        waited_login channel w old (set_failed (reason_of q).0 fresh) _ (some (reason_of q).0)
          (refused_login pl laws rand s w.a.id q old found wire h)
          (refused-EndsWith pl laws rand s w.a.id q old)

    reason_of-full : is_empty (reason_of q).0 ≡ false
    reason_of-full =
        if_both (λ (p : Bytes × Bytes). is_empty p.0 ≡ false)
          (is_empty q.username || is_empty q.password) (invalid_input, empty_input)
          (invalid_credentials, invalid_credentials) (λ h. refl) (λ h. refl)

    verdict-accepted :
        is_granted (verdict (told fresh) (granted_by rand s.world q empty_response)) ≡ true
    unfolding verdict
    verdict-accepted = refl

    verdict-refused :
        is_granted
          (verdict (told (set_failed (reason_of q).0 fresh)) (refused_by rand q empty_response))
        ≡ false
    unfolding set_failed
    verdict-refused =
        verdict-failed (reason_of q).0 (refused_by rand q empty_response) reason_of-full

    attempts_round :
        (channels : ℕ → Result (Attempt reg tr)) (left n : ℕ) (w : Answered q (channels n))
        (old response : LoginResponse) (c : Controller)
        → AnsweredWith w.a w.registry' w.transport' old c response
        → attempts pb z reg tr messages (suc left) n channels q old ≡ (
            if is_granted (verdict (told c) response)
            then ok (true, n, response)
            else if n == max_retries
            then ok (false, n, response)
            else attempts pb z reg tr messages left (suc n) channels q response)
    unfolding attempts
    attempts_round channels left n w old response c answered =
        rw
          (
            w.opened,
            attempt-AnsweredWith w.a w.registry' w.transport' old response c w.arrives answered,
          )
          refl

    -- AsyncLogin, when the answers of a server that offers the example service arrive in time, returns
    -- true at its first attempt on credentials that are not empty and stored at the server. On any
    -- others it asks a second time, over another channel with a route to the server, and returns
    -- false. Its caller has the response that the service gave. The texts of the credentials are UTF-8 and
    -- together below a megabyte, and the numbers drawn are below 2^31.
    pub async_login-accepts :
        (channels : ℕ → Result (Attempt reg tr)) (old : LoginResponse)
        → Answered q (channels 1)
        → (accepts s.world.users q ≡ false → Answered q (channels 2))
        → async_login pb z reg tr messages channels q old
          ≡ ok (
            accepts s.world.users q,
            (if accepts s.world.users q then 1 else 2),
            answer_to pl laws rand s.world q,
          )
    unfolding async_login
    async_login-accepts channels old first second = elim (Bool-cases (accepts s.world.users q)) [
      | inl known ↦ rw known (
          attempts_round channels 1 1 first old _ fresh
            (reply_accepted (channels 1) first old known)
          ∙ if_true _ _ verdict-accepted)
      | inr unknown ↦ rw unknown (
          let refused = refused_by rand q empty_response in
          let later = second unknown in
          attempts_round channels 1 1 first old refused (set_failed (reason_of q).0 fresh)
            (reply_refused (channels 1) first old unknown)
          ∙ if_false _ _ verdict-refused
          ∙ attempts_round channels 0 2 later refused refused (set_failed (reason_of q).0 fresh)
              (reply_refused (channels 2) later refused unknown)
          ∙ if_false _ _ verdict-refused)
    ]
