-- ===== src/UserService/Remote.antt =====
-- What the service of examples/server/user_server.cc sends back for a request that it is called with.
use xrpc.Base.{
  ℕ, ◌<◌, ◌^◌, ◌≡◌, refl, true, false, none, [], Bytes, length, if◌then◌else◌, if_both, arith, ◌||◌,
}
use xrpc.Proto.{Protobuf}
use xrpc.Proto.Wire.{ProtobufLaws}
use xrpc.Controller.{fresh, set_failed}
use xrpc.UserService.{
  LoginRequest, LoginResponse, LoginMessages, UserWorld, empty_response, invalid_input,
  invalid_credentials, empty_input, is_empty, call_user,
}
use xrpc.UserService.Logins.{accepts, reason_of, granted_by, refused_by, login-accepts}
use xrpc.UserService.Wire.{IsRequestWire, IsResponseWire, LoginLaws, token_of-utf8, length-token_of}

module _ {pb : Protobuf} (pl : ProtobufLaws pb) {messages : LoginMessages pb}
    (laws : LoginLaws pl messages) {R : Type 0} (rand : R → R × ℕ) where
  -- What the service answers to a request, and the text of its failure.
  abbrev pub answer_to : UserWorld R → LoginRequest → LoginResponse
  answer_to w q =
      if accepts w.users q
      then granted_by rand w q empty_response
      else refused_by rand q empty_response

  pub call_user-accepted :
      (w : UserWorld R) (q : LoginRequest) (method : ℕ)
      → accepts w.users q ≡ true
      → call_user messages rand method w fresh
          (messages.of_request q)
          (messages.of_response empty_response)
        ≡ record {
          world = record w { draws = (rand w.draws).0 };
          controller = fresh;
          response = messages.of_response (granted_by rand w q empty_response);
          thrown = none;
        }
  unfolding call_user
  call_user-accepted w q method h =
      rw
        (
          laws.read_request q,
          laws.read_response empty_response,
          login-accepts rand w fresh q empty_response none,
          h,
        )
        refl

  pub call_user-refused :
      (w : UserWorld R) (q : LoginRequest) (method : ℕ)
      → accepts w.users q ≡ false
      → call_user messages rand method w fresh
          (messages.of_request q)
          (messages.of_response empty_response)
        ≡ record {
          world = w;
          controller = set_failed (reason_of q).0 fresh;
          response = messages.of_response (refused_by rand q empty_response);
          thrown = none;
        }
  unfolding call_user
  call_user-refused w q method h =
      rw
        (
          laws.read_request q,
          laws.read_response empty_response,
          login-accepts rand w fresh q empty_response none,
          h,
        )
        refl

  pub granted_by-IsResponseWire :
      (w : UserWorld R) (q : LoginRequest)
      → IsRequestWire pl.is_utf8 q
      → (rand w.draws).1 < 2 ^ 31
      → IsResponseWire pl.is_utf8 (granted_by rand w q empty_response)
  granted_by-IsResponseWire w q wire int = record {
    token_utf8 = token_of-utf8 pl laws q.username (rand w.draws).1 wire.username_utf8;
    error_utf8 = pl.ascii_utf8 [] tt;
    small = omega (arith, wire.small, length-token_of q.username (rand w.draws).1 int);
  }

  -- The texts of a failure are ASCII and short.
  abbrev pub Plain : Bytes × Bytes → Type 0
  Plain (a, b) = (pl.is_utf8 a ≡ true) × (pl.is_utf8 b ≡ true) × (length a < 64) × (length b < 64)

  pub reason_of-Plain : (q : LoginRequest) → Plain (reason_of q)
  reason_of-Plain q =
      if_both Plain (is_empty q.username || is_empty q.password) (invalid_input, empty_input)
        (invalid_credentials, invalid_credentials)
        (λ h. (
          pl.ascii_utf8 invalid_input (omega arith),
          pl.ascii_utf8 empty_input (omega arith),
          omega arith,
          omega arith,
        ))
        (λ h. (
          pl.ascii_utf8 invalid_credentials (omega arith),
          pl.ascii_utf8 invalid_credentials (omega arith),
          omega arith,
          omega arith,
        ))

  pub refused_by-IsResponseWire :
      (q : LoginRequest) → IsResponseWire pl.is_utf8 (refused_by rand q empty_response)
  refused_by-IsResponseWire q =
      let (_, utf8, _, small) = reason_of-Plain q in
      record { token_utf8 = pl.ascii_utf8 [] tt; error_utf8 = utf8; small = omega arith }
