-- ===== src/UserService/Main.antt =====
-- The `main` of examples/server/user_server.cc, with its signal handler, and that of
-- examples/client/user_client.cc. What the parts that they call return or throw is an argument.
use xrpc.Base.{ℕ, Bool, true, false, List, Bytes, Result, ok, throw}
use xrpc.UserService.Client.Arguments.{Settings, Parsed, run, usage, thrown, parse_args, defaults}
use xrpc.UserService.Client.Workers.{Counters}

-- A process that runs, has returned a code, or was ended by an exception that nothing caught.
pub data Process : Type 0 where
  running : Process
  exited : ℕ → Process
  terminated : Bytes → Process

-- `running` of the server, which its main waits on, is still true.
abbrev waits : Bool → Process
waits true = running
waits false = exited 0

-- SignalHandler: the flag goes, and a main that waits returns.
unfoldable signal_handler : Process → Process
signal_handler running = waits false
signal_handler (exited code) = exited code
signal_handler (terminated what) = terminated what

abbrev after_launch : Bool → Result (Unit {0}) → Process
after_launch flag (throw _) = exited 1
after_launch flag (ok _) = waits flag

module _ {S : Type 0} where
  abbrev after_register : (S → Result (Unit {0})) → Bool → Result S → Process
  after_register start flag (throw what) = terminated what
  after_register start flag (ok s) = after_launch flag (start s)

  abbrev after_server : (S → Result S) → (S → Result (Unit {0})) → Bool → Result S → Process
  after_server register start flag (throw what) = terminated what
  after_server register start flag (ok s) = after_register start flag (register s)

  -- InitLoggerFromConfig, the constructor, RegisterService and Start of the server, and the wait. Only
  -- the first and the last of the calls stand in a `try`.
  unfoldable server_main :
      Result (Unit {0}) → Result S → (S → Result S) → (S → Result (Unit {0})) → Bool → Process
  server_main (throw _) server register start flag = exited 1
  server_main (ok _) server register start flag = after_server register start flag server

-- The end of the client's threads: an exception in one ends the process.
abbrev joined : Result Counters → Process
joined (throw what) = terminated what
joined (ok _) = exited 0

abbrev with_logger : Result (Unit {0}) → Result Counters → Process
with_logger (throw _) threads = exited 1
with_logger (ok _) threads = joined threads

abbrev with_parsed : Parsed → Result (Unit {0}) → (Settings → Result Counters) → Process
with_parsed (run s) logger threads = with_logger logger (threads s)
with_parsed (usage code) logger threads = exited code
with_parsed (thrown what) logger threads = terminated what

unfoldable client_main : List Bytes → Result (Unit {0}) → (Settings → Result Counters) → Process
client_main args logger threads = with_parsed (parse_args args defaults) logger threads
