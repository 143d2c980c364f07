-- ===== src/UserService/Sync.antt =====
-- SyncLogin of examples/client/user_client.cc against a server of examples/server/user_server.cc.
use xrpc.Base.{
  ℕ, ◌<◌, ◌^◌, ◌≡◌, refl, ap, sym, ◌∙◌, Bool, true, false, none, some, Option, [], Bytes, codes, ok,
  Bool-cases, inl, inr, if◌then◌else◌, arith,
}
use xrpc.Base.Int.{ℤ}
use xrpc.Base.Dict.{lookup}
use xrpc.Proto.{Protobuf}
use xrpc.Proto.Wire.{ProtobufLaws, text_size}
use xrpc.Codec.ZlibCalls.{Zlib, ZlibLaws}
use xrpc.Controller.{Controller, fresh, set_failed}
use xrpc.Interfaces.{Registry, Transport}
use xrpc.Server.{Server, on_message}
use xrpc.Codec.{encode}
use xrpc.Channel.{Called, request_header}
use xrpc.Channel.Remote.{Route, remote_done, remote_failed}
use xrpc.UserService.{LoginRequest, LoginResponse, LoginMessages, UserWorld, user_service}
use xrpc.UserService.Logins.{accepts, reason_of}
use xrpc.UserService.Wire.{IsRequestWire, LoginLaws, login-IsWire}
use xrpc.UserService.Remote.{answer_to}
use xrpc.UserService.Exchange.{Exchange, EndsWith, accepted_login, refused_login, refused-EndsWith}
use xrpc.UserService.Client.{sync_login, sync_granted, call_login}

module _ (pb : Protobuf) (pl : ProtobufLaws pb) (z : Zlib) (zl : ZlibLaws z) (reg : Registry)
    (tr : Transport) (messages : LoginMessages pb) (laws : LoginLaws pl messages) {R : Type 0}
    (rand : R → R × ℕ) (s : Server pb (UserWorld R)) (ip : Bytes) (port : ℤ) (id : ℕ)
    (q : LoginRequest) (old : LoginResponse) (r r' : reg.State) (t t' t'' : tr.State)
    (route : Route reg tr (codes "UserService") (codes "Login") ip port r r' t t')
    (delivers : (wire answer : Bytes)
      → encode pb z
          (request_header (codes "UserService") (codes "Login") id)
          (messages.of_request q)
        ≡ ok wire
      → (on_message pb z s wire).1 ≡ ok answer
      → tr.send t' wire ≡ (t'', true, answer))
    (found : lookup (codes "UserService") s.services ≡ some (user_service messages rand))
    (wire : IsRequestWire pl.is_utf8 q) (int : (rand s.world.draws).1 < 2 ^ 31)
    (id_int : id < 2 ^ 31) where
  abbrev logged : Called pb z reg tr
  logged = call_login pb z reg tr messages r t id none q old

  -- The channel after the call.
  abbrev pub ended : Controller → LoginResponse → Called pb z reg tr
  ended c response = record {
    registry = r';
    transport = t'';
    controller = c;
    response = messages.of_response response;
    ran = [];
    waiting = none;
  }

  sync_settled :
      (c : Controller) (response : LoginResponse) (failure : Option Bytes)
      (x : Exchange pl laws rand s id q old response failure)
      → EndsWith pl.is_utf8 c failure
      → logged ≡ ended c response
  sync_settled c response none x fine =
      remote_done pb pl z zl reg tr s true (codes "UserService") (codes "Login") ip port id fresh
        (messages.of_request q) (messages.of_response old) (messages.of_response response) x.body r
        r' t t' t'' route refl (login-IsWire pl laws id id_int) x.made x.small delivers
        (user_service messages rand) 0 (messages.of_request q) x.answer x.reaches x.raises x.replied
        x.brief x.fits
      ∙ ap (λ c. ended c response) (sym fine)
  sync_settled c response (some reason) x (e, utf8, brief) =
      remote_failed pb pl z zl reg tr s true (codes "UserService") (codes "Login") ip port id fresh
        (messages.of_request q) (messages.of_response old) (messages.of_response response) x.body r
        r' t t' t'' route refl (login-IsWire pl laws id id_int) x.made x.small delivers
        (user_service messages rand) 0 (messages.of_request q) x.answer reason x.reaches x.raises
        utf8 (unfold text_size in omega arith) x.replied x.brief x.fits
      ∙ ap (λ c. ended c response) (sym e)

  -- The controller that the call leaves.
  abbrev pub settled_controller : Controller
  settled_controller = if accepts s.world.users q then fresh else set_failed (reason_of q).0 fresh

  sync_login_lem :
      (c : Controller) (response : LoginResponse) (b : Bool)
      → logged ≡ ended c response
      → (if c.failed then false else response.success) ≡ b
      → sync_login pb z reg tr messages (ok (r, t)) id q old ≡ ok (b, ended c response)
  unfolding sync_login sync_granted
  sync_login_lem c response b e h =
      ap (λ called. ok (sync_granted pb z reg tr messages called, called)) e
      ∙ ap (λ (p : LoginResponse). ok (if c.failed then false else p.success, ended c response))
          (laws.read_response response)
      ∙ ap (λ b. ok (b, ended c response)) h

  -- SyncLogin, over a channel with a route to a server that offers the example service, returns true
  -- exactly on credentials that are not empty and stored at the server. Its caller has the response
  -- that the service gave: a token, or the text of the failure. The texts of the credentials are UTF-8 and
  -- together below a megabyte, and the numbers drawn are below 2^31.
  pub sync_login-accepts :
      sync_login pb z reg tr messages (ok (r, t)) id q old
      ≡ ok (accepts s.world.users q, ended settled_controller (answer_to pl laws rand s.world q))
  sync_login-accepts = elim (Bool-cases (accepts s.world.users q)) [
    | inl known ↦ rw known (
        sync_login_lem fresh _ true
          (sync_settled fresh _ none (accepted_login pl laws rand s id q old found wire int known)
            refl)
          refl)
    | inr unknown ↦ rw unknown (
        unfold set_failed in
        sync_login_lem (set_failed (reason_of q).0 fresh) _ false
          (sync_settled (set_failed (reason_of q).0 fresh) _ (some (reason_of q).0)
            (refused_login pl laws rand s id q old found wire unknown)
            (refused-EndsWith pl laws rand s id q old))
          refl)
  ]
