-- ===== src/Examples/Logins.antt =====
-- The theorems on the example programs, at the test users of the client.
use xrpc.Base.{
  ◌+◌, ◌/◌, ◌≡◌, refl, Bool, true, false, some, [], ◌∷◌, Bytes, codes, arith, text_eq, ok,
}
use xrpc.Base.Int.{pos}
use xrpc.Base.Dict.{lookup, insert}
use xrpc.Base.Decimal.{to_string, digits}
use xrpc.Server.{on_message}
use xrpc.Channel.Remote.{Route}
use xrpc.UserService.{LoginRequest, empty_response, new_users, validate}
use xrpc.UserService.Logins.{accepts}
use xrpc.UserService.Async.{Answered, async_login-accepts}
use xrpc.UserService.Client.{Attempt, async_login}
use xrpc.UserService.Client.Arguments.{
  Settings, IsRunnable, run, args_of, defaults, parse_args, parse_args-args_of,
  parse_args-IsRunnable,
}
use xrpc.UserService.Client.Retries.{Outcome, async_login-Outcome}
use xrpc.UserService.Client.Workers.{
  Counters, Steps, launched, stop, go, ends, count_outcome, threads_from, worker,
}
use xrpc.UserService.Client.Tally.{steps-accepts}
use xrpc.Examples.Wire.{plain, plain_laws}
use xrpc.Examples.Deflate.{runs, runs_laws}
use xrpc.Examples.Network.{directory, answered}
use xrpc.Examples.Users.{messages, messages_laws, count_draws, user_server, user_line}

abbrev stranger : LoginRequest
stranger = record { username = codes "invalid_user"; password = codes "123" }

route :
    Route directory user_line
      (codes "UserService")
      (codes "Login")
      (codes "0.0.0.0")
      (pos 8080)
      tt
      tt
      0
      0
route = record {
  others = [];
  listed = refl;
  plain = (refl, (refl, (refl, (refl, (refl, (refl, (refl, tt)))))));
  fits = omega arith;
  joined = refl;
}

-- A channel to the server, whose answers arrive.
abbrev channel : Attempt directory user_line
channel = record {
  registry = tt;
  transport = 0;
  id = 5;
  arrival = λ wire.
      let (fine, text) = answered (on_message plain runs user_server wire).1 in
      some (record { input = text; success = fine });
}

arrives :
    (wire answer : Bytes)
    → (on_message plain runs user_server wire).1 ≡ ok answer
    → channel.arrival wire ≡ some (record { input = answer; success = true })
arrives wire answer e = rw e refl

channel-Answered :
    Answered plain plain_laws runs runs_laws directory user_line messages messages_laws count_draws
      user_server
      (codes "0.0.0.0")
      (pos 8080)
      stranger
      (ok channel)
channel-Answered = record {
  a = channel;
  registry' = tt;
  transport' = 0;
  opened = refl;
  route = route;
  id_int = omega arith;
  arrives = λ wire answer sent e. arrives wire answer e;
}

async_login-accepts_example :
    async_login plain runs directory user_line messages (λ n. ok channel) stranger empty_response
    ≡ ok (
      false,
      2,
      record { success = false; token = []; error_message = codes "Invalid credentials" },
    )
unfolding new_users validate lookup insert text_eq
async_login-accepts_example =
    async_login-accepts plain plain_laws runs runs_laws directory user_line messages messages_laws
      count_draws user_server (codes "0.0.0.0") (pos 8080) stranger refl
      (record { username_utf8 = refl; password_utf8 = refl; small = omega arith }) (omega arith)
      (λ n. ok channel) empty_response channel-Answered (λ h. channel-Answered)

async_login-Outcome_example :
    Outcome plain runs directory user_line messages
      (λ n. ok channel)
      stranger
      1
      empty_response
      (async_login plain runs directory user_line messages
        (λ n. ok channel)
        stranger
        empty_response)
async_login-Outcome_example =
    async_login-Outcome plain runs directory user_line messages (λ n. ok channel) stranger
      empty_response

abbrev eleven : Settings
eleven = record { use_sync = false; use_async = true; thread_count = pos 11 }

parse_args-args_of_example : parse_args (args_of eleven) defaults ≡ run eleven
parse_args-args_of_example =
    parse_args-args_of eleven (record { positive = refl; fits = omega arith; chosen = refl })

parse_args-IsRunnable_example : IsRunnable eleven
unfolding to_string digits
parse_args-IsRunnable_example =
    parse_args-IsRunnable (args_of eleven) eleven
      (parse_args-args_of eleven (record { positive = refl; fits = omega arith; chosen = refl }))

-- Two threads, of which the second ends first.
abbrev one_left : Counters
one_left = record { success_count = 1; fail_count = 0; running = 0 ∷ [] }

abbrev none_left : Counters
none_left = record { success_count = 2; fail_count = 0; running = [] }

abbrev known : LoginRequest → Bool
known = accepts new_users

two_threads : Steps (worker eleven known known) (launched (pos 2)) none_left
unfolding count_outcome threads_from new_users validate lookup insert text_eq
two_threads =
    go _ one_left none_left (ends (0 ∷ []) [] 1 refl)
      (go _ none_left none_left (ends [] [] 0 refl) (stop _))

steps-accepts_example : (none_left.fail_count ≡ 2 / 3) × (none_left.success_count + 2 / 3 ≡ 2)
steps-accepts_example =
    steps-accepts eleven known known 2 none_left (λ u. refl) (λ u. refl) two_threads refl
