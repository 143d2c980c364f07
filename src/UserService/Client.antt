-- ===== src/UserService/Client.antt =====
-- examples/client/user_client.cc: AsyncCallback and the two logins of UserClient. What the constructor
-- of a channel leaves, or throws, is an argument; the printed lines are left out.
pub mod Arguments
pub mod Retries
pub mod Workers
pub mod Tally
use mathlib.Core.List.{foldl}
use xrpc.Base.{
  ℕ, zero, suc, ◌-◌, Bool, true, false, not, Option, none, some, List, Bytes, codes, if◌then◌else◌,
  ◌==◌, Result, ok, throw, ◌>>=◌,
}
use xrpc.Proto.{Protobuf}
use xrpc.Codec.ZlibCalls.{Zlib}
use xrpc.Controller.{Controller, fresh}
use xrpc.Interfaces.{Registry, Transport}
use xrpc.Channel.{Called, Waiting, call_method, on_reply}
use xrpc.UserService.{LoginRequest, LoginResponse, LoginMessages, is_empty}

-- The controller is a pointer to the one of the call.
pub record AsyncCallback : Type 0 where
  pub error_text : Bytes
  pub called : Bool

abbrev pub new_callback : AsyncCallback
new_callback = record { error_text = codes ""; called = false }

unfoldable pub on_callback : Controller → AsyncCallback → AsyncCallback
on_callback controller callback = record callback {
  error_text = controller.error_text;
  called = true;
}

-- The closures that a call ran; each is the one that was made with `NewCallback`.
unfoldable pub notified : Controller → List ℕ → AsyncCallback → AsyncCallback
unfolding on_callback
notified controller ran callback = foldl (λ c closure. on_callback controller c) callback ran

-- What the callback of `SendAsync` gets.
pub record Arrival : Type 0 where
  pub input : Bytes
  pub success : Bool

-- A channel as its constructor leaves it, the number that `rand` gives, and what arrives for
-- a request within the 8000 milliseconds of `Wait`.
pub record Attempt (reg : Registry) (tr : Transport) : Type 0 where
  pub registry : reg.State
  pub transport : tr.State
  pub id : ℕ
  pub arrival : Bytes → Option Arrival

-- What one attempt ends in: the branches of the loop's body.
pub data Verdict : Type 0 where
  timed_out : Verdict
  failed : Bytes → Verdict
  refused : Bytes → Verdict
  granted : Bytes → Verdict

unfoldable pub verdict : AsyncCallback → LoginResponse → Verdict
verdict callback response =
    if not callback.called
    then timed_out
    else if not (is_empty callback.error_text)
    then failed callback.error_text
    else if not response.success
    then refused response.error_message
    else granted response.token

-- `Wait` returned true, there was no error text, and the response was a success.
abbrev pub is_granted : Verdict → Bool
is_granted (granted _) = true
is_granted _ = false

abbrev pub max_retries : ℕ
max_retries = 2

module _ (pb : Protobuf) (z : Zlib) (reg : Registry) (tr : Transport)
    (messages : LoginMessages pb) where
  abbrev pub call_login :
      reg.State → tr.State → ℕ → Option ℕ → LoginRequest → LoginResponse → Called pb z reg tr
  call_login r t id done request response =
      call_method pb z reg tr true (codes "UserService") (codes "Login") id done fresh
        (messages.of_request request) (messages.of_response response) r t

  -- The two tests after the call.
  unfoldable pub sync_granted : Called pb z reg tr → Bool
  sync_granted called =
      if called.controller.failed then false else (messages.to_response called.response).success

  -- The result comes with the channel before its destructor.
  unfoldable pub sync_login :
      Result (reg.State × tr.State)
      → ℕ
      → LoginRequest
      → LoginResponse
      → Result (Bool × Called pb z reg tr)
  unfolding sync_granted
  sync_login channel id request response = channel >>= λ (r, t).
      let called = call_login r t id none request response in ok (sync_granted called, called)

  -- The transport's callback, if the request waits and its answer comes in time.
  unfoldable pub resumed :
      Option (Waiting pb z)
      → (Bytes → Option Arrival)
      → Controller
      → pb.Message
      → AsyncCallback
      → AsyncCallback × pb.Message
  resumed none arrival c response callback = (callback, response)
  resumed (some w) arrival c response callback = elim (arrival w.request) [
    | none ↦ (callback, response)
    | some a ↦
        let (c', response', ran) = on_reply pb z w.done a.input a.success c response in
        (notified c' ran callback, response')
  ]

  -- The body of the loop up to the result of `Wait`.
  unfoldable pub attempt :
      Attempt reg tr → LoginRequest → LoginResponse → AsyncCallback × LoginResponse
  unfolding resumed notified
  attempt a request response =
      let called = call_login a.registry a.transport a.id (some 0) request response in
      let (callback, response') =
        resumed called.waiting a.arrival called.controller called.response
          (notified called.controller called.ran new_callback) in
      (callback, messages.to_response response')

  -- The loop from attempt `n` on, with the number of the last attempt made. `left` counts down.
  unfoldable pub attempts :
      ℕ
      → ℕ
      → (ℕ → Result (Attempt reg tr))
      → LoginRequest
      → LoginResponse
      → Result (Bool × ℕ × LoginResponse)
  attempts zero n channels request response = ok (false, n - 1, response)
  attempts (suc left) n channels request response = channels n >>= λ a.
      let (callback, response') = attempt a request response in
      let rest = attempts left (suc n) channels request response' in
      if is_granted (verdict callback response')
      then ok (true, n, response')
      else if n == max_retries
      then ok (false, n, response')
      else rest

  unfoldable pub async_login :
      (ℕ → Result (Attempt reg tr))
      → LoginRequest
      → LoginResponse
      → Result (Bool × ℕ × LoginResponse)
  unfolding attempts
  async_login channels request response = attempts max_retries 1 channels request response
