-- ===== src/UserService/Exchange.antt =====
-- A login of examples/client/user_client.cc that reaches the service of examples/server/user_server.cc.
use xrpc.Base.{
  ℕ, ◌<◌, ◌^◌, ◌≡◌, refl, ap, ◌∙◌, Bool, true, false, Option, none, some, Bytes, codes, length,
  text_eq,
}
use xrpc.Base.Dict.{lookup}
use xrpc.Proto.{Protobuf}
use xrpc.Proto.Wire.{ProtobufLaws}
use xrpc.Controller.{Controller, fresh, set_failed}
use xrpc.Server.{Reply, Server, find_method, raised}
use xrpc.Server.Services.{Reaches, reply}
use xrpc.Channel.{request_header}
use xrpc.UserService.{
  LoginRequest, LoginResponse, LoginMessages, UserWorld, empty_request, empty_response,
  user_service,
}
use xrpc.UserService.Logins.{accepts, reason_of, granted_by, refused_by}
use xrpc.UserService.Wire.{IsRequestWire, IsResponseWire, LoginLaws}
use xrpc.UserService.Remote.{
  reason_of-Plain, call_user-accepted, call_user-refused, granted_by-IsResponseWire,
  refused_by-IsResponseWire,
}

-- The caller's controller after a failure of the service, if there was one, whose text can be sent.
abbrev pub EndsWith : (Bytes → Bool) → Controller → Option Bytes → Type 0
EndsWith is_utf8 c none = c ≡ fresh
EndsWith is_utf8 c (some reason) =
    (c ≡ set_failed reason fresh) × (is_utf8 reason ≡ true) × (length reason < 64)

module _ {pb : Protobuf} (pl : ProtobufLaws pb) {messages : LoginMessages pb}
    (laws : LoginLaws pl messages) {R : Type 0} (rand : R → R × ℕ) (s : Server pb (UserWorld R))
    (id : ℕ) (q : LoginRequest) (old : LoginResponse) where
  abbrev pub replies : Reply pb (UserWorld R)
  replies = reply s (user_service messages rand) 0 (messages.of_request q)

  -- A login that reaches the service and is answered by `response`, which parses into the caller's
  -- object; `failure` is what the call of the service raises.
  pub record Exchange (response : LoginResponse) (failure : Option Bytes) : Type 0 where
    pub body : Bytes
    pub made : pb.serialize (messages.of_request q) ≡ some body
    pub small : length body < 2 ^ 30
    pub reaches :
        Reaches s
          (request_header (codes "UserService") (codes "Login") id)
          body
          (user_service messages rand)
          0
          (messages.of_request q)
    pub raises : raised pb replies ≡ failure
    pub answer : Bytes
    pub replied : pb.serialize replies.response ≡ some answer
    pub brief : length answer < 2 ^ 30
    pub fits : pb.parse (messages.of_response old) answer ≡ (true, messages.of_response response)

  exchanged :
      (response : LoginResponse) (failure : Option Bytes) (e : Reply pb (UserWorld R))
      → lookup (codes "UserService") s.services ≡ some (user_service messages rand)
      → IsRequestWire pl.is_utf8 q
      → replies ≡ e
      → raised pb e ≡ failure
      → e.response ≡ messages.of_response response
      → IsResponseWire pl.is_utf8 response
      → Exchange response failure
  unfolding find_method text_eq
  exchanged response failure e found wire called raises same response_wire =
      let (body, made, small, parsed) = laws.request_wire q empty_request wire in
      let (answer, replied, brief, fits) = laws.response_wire response old response_wire in
      record {
        body = body;
        made = made;
        small = small;
        reaches = record { live = refl; found = found; offers = refl; parsed = parsed };
        raises = ap (raised pb) called ∙ raises;
        answer = answer;
        replied = ap (λ r. pb.serialize r.response) called ∙ ap pb.serialize same ∙ replied;
        brief = brief;
        fits = fits;
      }

  pub accepted_login :
      lookup (codes "UserService") s.services ≡ some (user_service messages rand)
      → IsRequestWire pl.is_utf8 q
      → (rand s.world.draws).1 < 2 ^ 31
      → accepts s.world.users q ≡ true
      → Exchange (granted_by rand s.world q empty_response) none
  accepted_login found wire int h =
      exchanged (granted_by rand s.world q empty_response) none _ found wire
        (call_user-accepted pl laws rand s.world q 0 h) refl refl
        (granted_by-IsResponseWire pl laws rand s.world q wire int)

  pub refused_login :
      lookup (codes "UserService") s.services ≡ some (user_service messages rand)
      → IsRequestWire pl.is_utf8 q
      → accepts s.world.users q ≡ false
      → Exchange (refused_by rand q empty_response) (some (reason_of q).0)
  unfolding set_failed
  refused_login found wire h =
      exchanged (refused_by rand q empty_response) (some (reason_of q).0) _ found wire
        (call_user-refused pl laws rand s.world q 0 h) refl refl
        (refused_by-IsResponseWire pl laws rand q)

  pub refused-EndsWith :
      EndsWith pl.is_utf8 (set_failed (reason_of q).0 fresh) (some (reason_of q).0)
  refused-EndsWith = let (utf8, _, brief, _) = reason_of-Plain pl laws rand q in (refl, utf8, brief)
