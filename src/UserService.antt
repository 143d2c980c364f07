-- ===== src/UserService.antt =====
-- examples/server/user_server.cc with the messages of protos/example/user_service.proto: the example
-- service as a service of the server's model. Its mutex makes `Validate` one step.
pub mod Logins
pub mod Wire
pub mod Remote
pub mod Exchange
pub mod Sync
pub mod Async
pub mod Registered
pub mod Wired
pub mod WiredAsync
pub mod Crowd
pub mod Main
pub mod Client
use xrpc.Base.{
  ℕ, zero, suc, Bool, true, false, ◌||◌, Option, none, some, List, [], ◌∷◌, ◌++◌, Bytes, codes,
  text_eq, if◌then◌else◌,
}
use xrpc.Base.Int.{pos}
use xrpc.Base.Decimal.{to_string}
use xrpc.Base.Dict.{Dict, lookup, insert}
use xrpc.Controller.{Controller, set_failed, run_closure}
use xrpc.Proto.{Protobuf}
use xrpc.Server.{Reply, Service}

pub record LoginRequest : Type 0 where
  pub username : Bytes
  pub password : Bytes

pub record LoginResponse : Type 0 where
  pub success : Bool
  pub token : Bytes
  pub error_message : Bytes

abbrev pub empty_request : LoginRequest
empty_request = record { username = []; password = [] }

abbrev pub empty_response : LoginResponse
empty_response = record { success = false; token = []; error_message = [] }

-- The generated classes: an object as a message, and the downcast of the generated `CallMethod`.
pub record LoginMessages (pb : Protobuf) : Type 0 where
  pub of_request : LoginRequest → pb.Message
  pub to_request : pb.Message → LoginRequest
  pub of_response : LoginResponse → pb.Message
  pub to_response : pb.Message → LoginResponse

-- What the constructor of `UserDatabase` puts into `users_`.
unfoldable pub new_users : Dict Bytes
unfolding insert
new_users =
    insert (codes "admin") (codes "admin123") (insert (codes "test_user") (codes "test_pass") [])

unfoldable pub validate : Bytes → Bytes → Dict Bytes → Bool
validate username password users = elim (lookup username users) [
  | none ↦ false
  | some stored ↦ text_eq stored password
]

-- `empty`.
abbrev pub is_empty : Bytes → Bool
is_empty [] = true
is_empty (_ ∷ _) = false

abbrev pub invalid_input : Bytes
invalid_input = codes "Invalid input"

abbrev pub empty_input : Bytes
empty_input = codes "Username or password empty"

abbrev pub invalid_credentials : Bytes
invalid_credentials = codes "Invalid credentials"

unfoldable pub token_of : Bytes → ℕ → Bytes
token_of username draw = codes "token_" ++ (username ++ (b'_' ∷ to_string (pos draw)))

-- The members of the service, and the state of `rand`.
pub record UserWorld (R : Type 0) : Type 0 where
  pub users : Dict Bytes
  pub draws : R

module _ {R : Type 0} where
  unfoldable pub local_login : Bytes → Bytes → UserWorld R → Bool
  unfolding validate
  local_login username password w = validate username password w.users

  -- `done` may be null; the last part is what ran.
  unfoldable pub login :
      (R → R × ℕ)
      → UserWorld R
      → Controller
      → LoginRequest
      → LoginResponse
      → Option ℕ
      → UserWorld R × Controller × LoginResponse × List ℕ
  login rand w c request response done =
      if is_empty request.username || is_empty request.password
      then (
        w,
        set_failed invalid_input c,
        record response { success = false; error_message = empty_input },
        run_closure done,
      )
      else if local_login request.username request.password w
      then (let (draws, draw) = rand w.draws in
          (
            record w { draws = draws },
            c,
            record response { success = true; token = token_of request.username draw },
            run_closure done,
          ))
      else (
        w,
        set_failed invalid_credentials c,
        record response { success = false; error_message = invalid_credentials },
        run_closure done,
      )

  module _ {pb : Protobuf} (messages : LoginMessages pb) (rand : R → R × ℕ) where
    -- The generated `CallMethod`: the service has the one method, and the server passes no closure.
    unfoldable pub call_user :
        ℕ → UserWorld R → Controller → pb.Message → pb.Message → Reply pb (UserWorld R)
    call_user method w c request response =
        let (w', c', response', _) =
          login rand w c (messages.to_request request) (messages.to_response response) none in
        record {
          world = w';
          controller = c';
          response = messages.of_response response';
          thrown = none;
        }

    abbrev pub user_service : Service pb (UserWorld R)
    user_service = record {
      name = codes "UserService";
      methods = codes "Login" ∷ [];
      request_prototype = λ method. messages.of_request empty_request;
      response_prototype = λ method. messages.of_response empty_response;
      call = call_user;
      run_closure = λ w closure. w;
    }
