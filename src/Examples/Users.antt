-- ===== src/Examples/Users.antt =====
-- The login messages in the small wire format, a server with the example service, and a transport to it.
use xrpc.Base.{
  ℕ, ◌+◌, ◌<◌, ◌^◌, ◌≡◌, refl, true, [], ◌∷◌, Bytes, codes, length, drop, length-append, ok, arith,
  take-length_append, drop-length_append,
}
use xrpc.Base.Int.{pos}
use xrpc.Server.{Server, on_message}
use xrpc.Interfaces.{Transport}
use xrpc.UserService.{
  LoginRequest, LoginResponse, LoginMessages, UserWorld, new_users, user_service,
}
use xrpc.UserService.Wire.{IsRequestWire, IsResponseWire, LoginLaws}
use xrpc.Examples.Wire.{
  plain, plain_laws, put_text, get_text, put_bool, get_bool, get-put_bool, length-put_bool,
}
use xrpc.Examples.Deflate.{runs}
use xrpc.Examples.Network.{answered}

-- A zero first, since a body of `plain` does not begin with 255.
abbrev pub of_request : LoginRequest → Bytes
of_request q = 0 ∷ put_text q.username (put_text q.password [])

abbrev pub to_request : Bytes → LoginRequest
to_request s =
    let (username, s₁) = get_text (drop 1 s) in
    record { username = username; password = (get_text s₁).0 }

abbrev pub of_response : LoginResponse → Bytes
of_response p = 0 ∷ put_bool p.success (put_text p.token (put_text p.error_message []))

abbrev pub to_response : Bytes → LoginResponse
to_response s =
    let (success, s₁) = get_bool (drop 1 s) in
    let (token, s₂) = get_text s₁ in
    record { success = success; token = token; error_message = (get_text s₂).0 }

abbrev pub messages : LoginMessages plain
messages = record {
  of_request = of_request;
  to_request = to_request;
  of_response = of_response;
  to_response = to_response;
}

pub to-of_request : (q : LoginRequest) → to_request (of_request q) ≡ q
to-of_request q = simp (take-length_append, drop-length_append)

pub to-of_response : (p : LoginResponse) → to_response (of_response p) ≡ p
to-of_response p = simp (get-put_bool, take-length_append, drop-length_append)

pub length-of_request :
    (q : LoginRequest) → IsRequestWire (λ s. true) q → length (of_request q) < 2 ^ 30
length-of_request q w =
    omega (
      arith,
      w.small,
      length-append q.username (put_text q.password []),
      length-append q.password [],
    )

pub length-of_response :
    (p : LoginResponse) → IsResponseWire (λ s. true) p → length (of_response p) < 2 ^ 30
length-of_response p w =
    let rest = put_text p.token (put_text p.error_message []) in
    omega (
      arith,
      w.small,
      length-put_bool p.success rest,
      length-append p.token (put_text p.error_message []),
      length-append p.error_message [],
    )

abbrev pub messages_laws : LoginLaws plain_laws messages
messages_laws = record {
  utf8-append = λ s t ws wt. refl;
  read_request = to-of_request;
  read_response = to-of_response;
  request_wire = λ q old w. (of_request q, refl, length-of_request q w, refl);
  response_wire = λ p old w. (of_response p, refl, length-of_response p w, refl);
}

abbrev pub count_draws : ℕ → ℕ × ℕ
count_draws n = (n + 1, n)

abbrev pub user_server : Server plain (UserWorld ℕ)
user_server = record {
  services = (codes "UserService", user_service messages count_draws) ∷ [];
  server_ip = codes "0.0.0.0";
  server_port = pos 8080;
  world = record { users = new_users; draws = 7 };
}

abbrev pub user_line : Transport
user_line = record {
  State = ℕ;
  connect = λ t ip port. (t, ok tt);
  send = λ t wire.
      let (fine, text) = answered (on_message plain runs user_server wire).1 in (t + 1, fine, text);
}
