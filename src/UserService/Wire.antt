-- ===== src/UserService/Wire.antt =====
-- What Protocol Buffers documents of the messages in protos/example/user_service.proto, and the sizes of
-- the ones that examples/server/user_server.cc sends.
use xrpc.Base.{
  ℕ, ◌+◌, ◌<◌, ◌≤◌, ◌^◌, ◌≡◌, Bool, true, some, ◌∷◌, ◌++◌, Bytes, length, arith, codes,
  length-append,
}
use xrpc.Base.Int.{pos}
use xrpc.Base.Decimal.{to_string}
use xrpc.Base.Decimal.Size.{to_string-Ascii, length-to_string}
use xrpc.Proto.{Protobuf}
use xrpc.Proto.Wire.{ProtobufLaws, IsWire, text_size}
use xrpc.Channel.{request_header}
use xrpc.UserService.{LoginRequest, LoginResponse, LoginMessages, token_of}

-- The fields are texts that a proto3 `string` can hold, of at most a megabyte.
pub record IsRequestWire (is_utf8 : Bytes → Bool) (q : LoginRequest) : Type 0 where
  pub username_utf8 : is_utf8 q.username ≡ true
  pub password_utf8 : is_utf8 q.password ≡ true
  pub small : length q.username + length q.password < 2 ^ 20

pub record IsResponseWire (is_utf8 : Bytes → Bool) (p : LoginResponse) : Type 0 where
  pub token_utf8 : is_utf8 p.token ≡ true
  pub error_utf8 : is_utf8 p.error_message ≡ true
  pub small : length p.token + length p.error_message < 2 ^ 21

-- A message serializes, and its bytes parse into any object of its class.
pub record LoginLaws {pb : Protobuf} (pl : ProtobufLaws pb) (messages : LoginMessages pb)
    : Type 0 where
  pub utf8-append :
      (s t : Bytes) → pl.is_utf8 s ≡ true → pl.is_utf8 t ≡ true → pl.is_utf8 (s ++ t) ≡ true
  pub read_request : (q : LoginRequest) → messages.to_request (messages.of_request q) ≡ q
  pub read_response : (p : LoginResponse) → messages.to_response (messages.of_response p) ≡ p
  pub request_wire :
      (q old : LoginRequest)
      → IsRequestWire pl.is_utf8 q
      → (body : Bytes) × (pb.serialize (messages.of_request q) ≡ some body)
        × (length body < 2 ^ 30)
        × (pb.parse (messages.of_request old) body ≡ (true, messages.of_request q))
  pub response_wire :
      (p old : LoginResponse)
      → IsResponseWire pl.is_utf8 p
      → (body : Bytes) × (pb.serialize (messages.of_response p) ≡ some body)
        × (length body < 2 ^ 30)
        × (pb.parse (messages.of_response old) body ≡ (true, messages.of_response p))

module _ {pb : Protobuf} (pl : ProtobufLaws pb) {messages : LoginMessages pb}
    (laws : LoginLaws pl messages) where
  pub login-IsWire :
      (id : ℕ)
      → id < 2 ^ 31
      → IsWire pl.is_utf8 (request_header (codes "UserService") (codes "Login") id)
  unfolding text_size
  login-IsWire id h = record {
    service_utf8 = pl.ascii_utf8 (codes "UserService") (omega arith);
    method_utf8 = pl.ascii_utf8 (codes "Login") (omega arith);
    args_size_fits = omega arith;
    request_id_fits = omega arith;
    status_fits = omega arith;
    metadata_utf8 = tt;
    error_wire = tt;
    small = omega arith;
  }

  pub token_of-utf8 :
      (username : Bytes) (draw : ℕ)
      → pl.is_utf8 username ≡ true
      → pl.is_utf8 (token_of username draw) ≡ true
  unfolding token_of
  token_of-utf8 username draw h =
      laws.utf8-append (codes "token_") _ (pl.ascii_utf8 (codes "token_") (omega arith)) (
        laws.utf8-append username _ h
          (pl.ascii_utf8 (b'_' ∷ to_string (pos draw)) (omega arith, to_string-Ascii draw)))

pub length-token_of :
    (username : Bytes) (draw : ℕ)
    → draw < 2 ^ 31
    → length (token_of username draw) ≤ length username + 17
unfolding token_of
length-token_of username draw h = omega (
  arith,
  length-append (codes "token_") (username ++ (b'_' ∷ to_string (pos draw))),
  length-append username (b'_' ∷ to_string (pos draw)),
  length-to_string draw h,
)
