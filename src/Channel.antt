-- ===== src/Channel.antt =====
-- core/channel/xrpc_channel.cc: one call of a method from the client's side. `rand()` is an argument.
-- A controller of another class is modelled by the same record: only `SetFailed` is called on it.
pub mod Address
pub mod Lifecycle
pub mod Closing
pub mod Done
pub mod Remote
pub mod RemoteAsync
pub mod Wired
use xrpc.Base.{
  ℕ, ◌+◌, Bool, true, false, not, ◌&&◌, Option, none, some, List, [], ◌∷◌, ◌++◌, Bytes, codes, take,
  drop, if◌then◌else◌, Result, ok, throw, ◌>>=◌,
}
use xrpc.Base.Int.{ℤ, is_zero}
use xrpc.Base.Decimal.{find_byte, stoi}
use xrpc.Proto.{RpcHeader, empty_header, has_error, error_message, Protobuf}
use xrpc.Codec.ZlibCalls.{Zlib}
use xrpc.Codec.{encode, decode_response}
use xrpc.Controller.{Controller, set_failed, run_closure}
use xrpc.Interfaces.{Registry, Transport}

abbrev no_instance : Bytes
no_instance = codes "Service instance not found"

abbrev bad_address : Bytes
bad_address = codes "Invalid address format"

abbrev canceled_before : Bytes
canceled_before = codes "Request was canceled before sending"

abbrev send_failed : Bytes
send_failed = codes "Failed to send request"

abbrev pub decode_failed : Bytes
decode_failed = codes "Failed to decode response"

abbrev async_send_failed : Bytes
async_send_failed = codes "Failed to send async request"

abbrev async_canceled : Bytes
async_canceled = codes "Request was canceled"

abbrev async_decode_failed : Bytes
async_decode_failed = codes "Failed to decode async response"

-- The first instance, if it has a colon.
unfoldable pub first_address : List Bytes → Result Bytes
first_address [] = throw no_instance
first_address (address ∷ _) = elim (find_byte b':' address) [
  | none ↦ throw bad_address
  | some _ ↦ ok address
]

unfoldable pub get_service_address :
    (reg : Registry) → reg.State → Bytes → Bytes → reg.State × Result Bytes
unfolding first_address
get_service_address reg r service method =
    let (r', found) = reg.find_instances_by_method r service method in (r', found >>= first_address)

-- `npos` makes both parts the whole text.
unfoldable pub endpoint : Bytes → Result (Bytes × ℤ)
endpoint address = elim (find_byte b':' address) [
  | none ↦ stoi address >>= λ port. ok (address, port)
  | some colon ↦ stoi (drop (colon + 1) address) >>= λ port. ok (take colon address, port)
]

-- `rand()` fits the field; the other fields stay at their defaults.
abbrev pub request_header : Bytes → Bytes → ℕ → RpcHeader
request_header service method id = record empty_header {
  service_name = service;
  method_name = method;
  request_id = id;
}

module _ (pb : Protobuf) (z : Zlib) where
  -- What both paths do with the bytes of a response.
  unfoldable pub settle : Bytes → Bytes → Controller → pb.Message → Controller × pb.Message
  settle failure input c response =
      let (decoded, header, response') = decode_response pb z input empty_header response in
      if decoded
      then if not (is_zero header.status) && has_error header
        then (set_failed (error_message header) c, response')
        else (c, response')
      else (set_failed failure c, response')

  -- The callback that `SendRequestAsync` hands to the transport; the last part is what it ran.
  unfoldable pub on_reply :
      ℕ → Bytes → Bool → Controller → pb.Message → Controller × pb.Message × List ℕ
  unfolding settle
  on_reply done input success c response =
      let (c', response') = settle async_decode_failed input c response in
      if not success
      then (set_failed async_send_failed c, response, done ∷ [])
      else if c.canceled
      then (set_failed async_canceled c, response, done ∷ [])
      else (c', response', done ∷ [])

  -- The request that waits for the transport, with the closure that its callback will run.
  pub record Waiting : Type 0 where
    pub request : Bytes
    pub done : ℕ

  pub record Called (reg : Registry) (tr : Transport) : Type 0 where
    pub registry : reg.State
    pub transport : tr.State
    pub controller : Controller
    pub response : pb.Message
    pub ran : List ℕ
    pub waiting : Option Waiting

module _ (pb : Protobuf) (z : Zlib) (reg : Registry) (tr : Transport) where
  -- The `catch`: the exception's text goes to the controller, and `done` runs.
  unfoldable pub caught :
      Bytes → Option ℕ → Controller → pb.Message → reg.State → tr.State → Called pb z reg tr
  caught reason done c response r t = record {
    registry = r;
    transport = t;
    controller = set_failed reason c;
    response = response;
    ran = run_closure done;
    waiting = none;
  }

  -- `SendRequest`, and what follows it in `CallMethod`. `done` is null here, so nothing runs.
  unfoldable pub call_sync :
      Bytes → Controller → pb.Message → reg.State → tr.State → Called pb z reg tr
  call_sync wire c response r t =
      let (t', sent, input) = tr.send t wire in
      let (c', response') = settle pb z decode_failed input c response in
      record {
        registry = r;
        transport = t';
        controller = if sent then c' else set_failed send_failed c;
        response = if sent then response' else response;
        ran = [];
        waiting = none;
      }

  -- `SendRequestAsync` up to `SendAsync`; the controller of another class gets no callback.
  unfoldable pub call_async :
      Bool → Bytes → ℕ → Controller → pb.Message → reg.State → tr.State → Called pb z reg tr
  call_async is_xrpc wire done c response r t = record {
    registry = r;
    transport = t;
    controller = c;
    response = response;
    ran = if is_xrpc then [] else done ∷ [];
    waiting = if is_xrpc then some (record { request = wire; done = done }) else none;
  }

  unfoldable pub send_encoded :
      Bool
      → Result Bytes
      → Option ℕ
      → Controller
      → pb.Message
      → reg.State
      → tr.State
      → Called pb z reg tr
  send_encoded is_xrpc (throw reason) done c response r t = caught reason done c response r t
  send_encoded is_xrpc (ok wire) (some d) c response r t = call_async is_xrpc wire d c response r t
  send_encoded is_xrpc (ok wire) none c response r t = call_sync wire c response r t

  -- From the connection on: a call that was canceled before goes no further.
  unfoldable pub call_connected :
      Bool
      → RpcHeader
      → Option ℕ
      → Controller
      → pb.Message
      → pb.Message
      → reg.State
      → tr.State × Result (Unit {0})
      → Called pb z reg tr
  call_connected is_xrpc header done c request response r (t, throw reason) =
      caught reason done c response r t
  call_connected is_xrpc header done c request response r (t, ok _) =
      if is_xrpc && c.canceled
      then caught canceled_before done c response r t
      else send_encoded is_xrpc (encode pb z header request) done c response r t

  unfoldable pub call_addressed :
      Bool
      → RpcHeader
      → Option ℕ
      → Controller
      → pb.Message
      → pb.Message
      → tr.State
      → reg.State × Result (Bytes × ℤ)
      → Called pb z reg tr
  call_addressed is_xrpc header done c request response t (r, throw reason) =
      caught reason done c response r t
  call_addressed is_xrpc header done c request response t (r, ok (ip, port)) =
      call_connected is_xrpc header done c request response r (tr.connect t ip port)

  -- `is_xrpc` is the success of the `dynamic_cast`; `done` may be null.
  unfoldable pub call_method :
      Bool
      → Bytes
      → Bytes
      → ℕ
      → Option ℕ
      → Controller
      → pb.Message
      → pb.Message
      → reg.State
      → tr.State
      → Called pb z reg tr
  call_method is_xrpc service method id done c request response r t =
      let (r', address) = get_service_address reg r service method in
      call_addressed is_xrpc (request_header service method id) done c request response t
        (r', address >>= endpoint)
