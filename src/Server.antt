-- ===== src/Server.antt =====
-- core/server/xrpc_server.cc: the services of a server, their registration and the handler of one message.
-- The mutex of `CallServiceMethod` makes calls of services a sequence, so one world is passed on.
pub mod Answers
pub mod Calls
pub mod Services
pub mod Lifecycle
pub mod Process
pub mod Keeps
use xrpc.Base.{
  ℕ, suc, Bool, true, false, Option, none, some, List, [], ◌∷◌, ◌++◌, Bytes, codes, text_eq,
  if◌then◌else◌, Result, ok, throw, ◌>>=◌,
}
use mathlib.Core.Option
use mathlib.Core.List.{foldl}
use xrpc.Base.Int.{ℤ, pos}
use xrpc.Base.Decimal.{to_string}
use xrpc.Base.Dict.{Dict, lookup, insert}
use xrpc.Proto.{RpcHeader, empty_header, with_error, Protobuf}
use xrpc.Codec.ZlibCalls.{Zlib}
use xrpc.Codec.{Decoded, encode_response, decode}
use xrpc.Controller.{Controller, fresh, destroy}
use xrpc.Interfaces.{Registry}

-- core/common/xrpc_common.h.
pub data ErrorCode : Type 0 where
  no_error timeout not_found server_error client_error cancelled : ErrorCode

abbrev code_number : ErrorCode → ℕ
code_number ErrorCode.no_error = 0
code_number ErrorCode.timeout = 1
code_number ErrorCode.not_found = 2
code_number ErrorCode.server_error = 3
code_number ErrorCode.client_error = 4
code_number ErrorCode.cancelled = 5

-- How `Service::CallMethod` ends: by a return, or by a std::exception with this text. Services that throw anything else
-- are outside the model.
pub record Reply (pb : Protobuf) (W : Type 0) : Type 0 where
  pub world : W
  pub controller : Controller
  pub response : pb.Message
  pub thrown : Option Bytes

-- A `google::protobuf::Service` and its descriptor. Methods go by their index in the descriptor. `W` is all that
-- the services work on; `run_closure` runs a closure that a method left with its controller.
pub record Service (pb : Protobuf) (W : Type 0) : Type 0 where
  pub name : Bytes
  pub methods : List Bytes
  pub request_prototype : ℕ → pb.Message
  pub response_prototype : ℕ → pb.Message
  pub call : ℕ → W → Controller → pb.Message → pb.Message → Reply pb W
  pub run_closure : W → ℕ → W

pub record Server (pb : Protobuf) (W : Type 0) : Type 0 where
  pub services : Dict (Service pb W)
  pub server_ip : Bytes
  pub server_port : ℤ
  pub world : W

-- The loop over `method(i)->name()`, stopped at the first hit.
unfoldable pub find_method : Bytes → List Bytes → Option ℕ
find_method name [] = none
find_method name (m ∷ ms) = if text_eq m name then some 0 else Option.map suc (find_method name ms)

abbrev pub internal_error : Bytes
internal_error = codes "Internal server error"

abbrev decode_error : Bytes
decode_error = codes "Failed to decode request"

abbrev pub cancelled_error : Bytes
cancelled_error = codes "Request canceled by client"

abbrev pub service_error : Bytes
service_error = codes "Service not found"

abbrev pub method_error : Bytes
method_error = codes "Method not found"

abbrev pub request_error : Bytes
request_error = codes "Failed to parse request"

-- `data += ","` from the second method on.
unfoldable pub join_methods : List Bytes → Bytes
join_methods [] = []
join_methods (m ∷ []) = m
join_methods (m ∷ n ∷ ms) = m ++ (b',' ∷ join_methods (n ∷ ms))

unfoldable pub instance_path : Bytes → Bytes → ℤ → Bytes
instance_path service ip port = b'/' ∷ (service ++ (b'/' ∷ (ip ++ (b':' ∷ to_string port))))

unfoldable pub instance_data : List Bytes → Bytes
unfolding join_methods
instance_data methods = codes "methods=" ++ join_methods methods

module _ (pb : Protobuf) {W : Type 0} where
  -- The service is in the map before the registry is asked.
  unfoldable pub register_service :
      (reg : Registry)
      → Service pb W
      → Server pb W
      → reg.State
      → Server pb W × reg.State × Result (Unit {0})
  unfolding instance_path instance_data
  register_service reg service s r =
      let path = instance_path service.name s.server_ip s.server_port in
      let (r', done) = reg.register r path (instance_data service.methods) true in
      (record s { services = insert service.name service s.services }, r', done)

  abbrev pub raised : Reply pb W → Option Bytes
  raised r = elim r.thrown [
    | some e ↦ some e
    | none ↦ if r.controller.failed then some r.controller.error_text else none
  ]

  -- The world and the response after it, and the exception if one leaves the function. The
  -- controller is destroyed on both ways out.
  unfoldable pub call_service_method :
      Server pb W → Bytes → ℕ → pb.Message → pb.Message → Bool → W × pb.Message × Option Bytes
  call_service_method s service_name method request response is_cancelled =
      elim (lookup service_name s.services) [
        | none ↦ (s.world, response, some service_error)
        | some service ↦
            let r = service.call method s.world fresh request response in
            let world = foldl service.run_closure r.world (destroy r.controller) in
            if is_cancelled
            then (s.world, response, some cancelled_error)
            else (world, r.response, raised r)
      ]

module _ (pb : Protobuf) (z : Zlib) where
  -- `error_header` with its status, code and message, and an empty header for a body.
  unfoldable pub refuse : RpcHeader → ℕ → Bytes → Result Bytes
  refuse header code message =
      encode_response pb z (with_error header code message) (pb.of_header empty_header)

  -- The inner `catch`.
  unfoldable pub call_failed : RpcHeader → Bytes → pb.Message → Result Bytes
  call_failed header reason response = encode_response pb z (with_error header 5 reason) response

module _ (pb : Protobuf) (z : Zlib) {W : Type 0} where
  -- The inner `try`: an exception of `EncodeResponse` is caught too.
  unfoldable pub answer : RpcHeader → W × pb.Message × Option Bytes → W × Result Bytes
  answer header (world, response, some reason) = (world, call_failed pb z header reason response)
  answer header (world, response, none) =
      let sent = encode_response pb z (record header { status = pos 0 }) response in
      (
        world,
        (elim sent [ ok text ↦ ok text | throw reason ↦ call_failed pb z header reason response ]),
      )

  unfoldable pub invoke : Server pb W → RpcHeader → Bytes → Service pb W → ℕ → W × Result Bytes
  invoke s header args service method =
      let (parsed, request) = pb.parse (service.request_prototype method) args in
      let called =
        call_service_method pb s header.service_name method request
          (service.response_prototype method) header.cancelled in
      if parsed then answer header called else (s.world, refuse pb z header 4 request_error)

  unfoldable pub dispatch : Server pb W → RpcHeader → Bytes → W × Result Bytes
  dispatch s header args = elim (lookup header.service_name s.services) [
    | none ↦ (s.world, refuse pb z header 2 service_error)
    | some service ↦ elim (find_method header.method_name service.methods) [
      | none ↦ (s.world, refuse pb z header 3 method_error)
      | some method ↦ invoke s header args service method
    ]
  ]

  -- The outer `catch`.
  abbrev pub guarded : W × Result Bytes → W × Result Bytes
  guarded (world, ok text) = (world, ok text)
  guarded (world, throw _) = (world, refuse pb z empty_header 6 internal_error)

  unfoldable pub on_message : Server pb W → Bytes → W × Result Bytes
  on_message s input =
      let d = decode pb z input empty_header [] in
      guarded (
        if d.success
        then if d.header.cancelled
          then (s.world, refuse pb z d.header (code_number ErrorCode.cancelled) cancelled_error)
          else dispatch s d.header d.args
        else (s.world, refuse pb z d.header 1 decode_error))
