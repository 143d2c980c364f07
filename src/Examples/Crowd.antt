-- ===== src/Examples/Crowd.antt =====
-- A login beside a client that sends what is no request, at one server of the example.
use xrpc.Base.{ℕ, ◌+◌, refl, true, false, none, some, [], ◌∷◌, Bytes, codes, ok, arith, text_eq}
use xrpc.Base.Int.{pos, int_of_u32}
use xrpc.Base.Decimal.{to_string, digits}
use xrpc.Base.Dict.{lookup, insert}
use xrpc.Codec.{encode, pack, frame, decode, unpack, encode_response}
use xrpc.Proto.{with_error}
use xrpc.Controller.{set_failed, destroy}
use xrpc.Interfaces.{Transport}
use xrpc.Server.{Server, on_message, dispatch, invoke, find_method, call_service_method, refuse}
use xrpc.Server.Lifecycle.{text_of_answer}
use xrpc.Server.Process.{on_this}
use xrpc.Transport.{server_read, take_nth, send_request, complete, serve, handle}
use xrpc.Transport.Hub.{
  Hub, Log, quiet, asking, serving, receiving, asks, serves, receives, Runs, here, next,
}
use xrpc.Transport.Hub.Order.{IsCalm}
use xrpc.Channel.Remote.{Route}
use xrpc.UserService.{
  UserWorld, empty_response, user_service, call_user, login, local_login, new_users, validate,
  token_of,
}
use xrpc.UserService.Client.{sync_login}
use xrpc.UserService.Crowd.{OnlyLogins, LogsInAmong, sync_login-crowd}
use xrpc.Examples.Wire.{
  plain, plain_laws, put_header, put_entries, read_exact, get_header, get_entries,
}
use xrpc.Examples.Deflate.{runs, runs_laws}
use xrpc.Examples.Network.{directory}
use xrpc.Examples.Users.{messages, messages_laws}
use xrpc.Examples.Lines.{memory, streams}
use xrpc.Examples.Wired.{tester, wire, encoded}

abbrev Object : Type 0
Object = Server plain (UserWorld ℕ)

abbrev same_draws : ℕ → ℕ × ℕ
same_draws n = (n, 7)

abbrev login_server : Object
login_server = record {
  services = (codes "UserService", user_service messages same_draws) ∷ [];
  server_ip = codes "0.0.0.0";
  server_port = pos 8080;
  world = record { users = new_users; draws = 0 };
}

abbrev peer : ℕ → ℕ
peer i = i + 10

abbrev garbage : Bytes
garbage = codes "b"

abbrev start_hub : Hub memory memory ℕ Object
start_hub = record {
  clients = λ i. record {
    client_socket = some 0;
    listening = false;
    server_callback = none;
    response = [];
    response_received = false;
    server_sockets = [];
    next_socket = 1;
    pending = [];
    live = true;
    world = 0;
    net = λ s. [];
  };
  flights = λ i. quiet;
  server = record {
    client_socket = none;
    listening = true;
    server_callback = some (on_this plain runs);
    response = [];
    response_received = false;
    server_sockets = [];
    next_socket = 12;
    pending = server_read 10 ∷ server_read 11 ∷ [];
    live = true;
    world = login_server;
    net = λ s. [];
  };
}

abbrev asked_hub : Hub memory memory ℕ Object
asked_hub = asking streams peer 1 garbage (asking streams peer 0 wire start_hub)

abbrev served_hub : Hub memory memory ℕ Object
served_hub = serving streams peer 0 1 wire (serving streams peer 1 1 garbage asked_hub)

abbrev answer_text : Bytes
answer_text = text_of_answer (on_message plain runs login_server wire).1

abbrev end_hub : Hub memory memory ℕ Object
end_hub = receiving streams peer 0 0 answer_text served_hub

abbrev log : Log
log = (0, wire) ∷ (1, garbage) ∷ []

start_hub-IsCalm : IsCalm streams (λ n s k text h. refl) peer (on_this plain runs) start_hub
start_hub-IsCalm = record {
  server_up = refl;
  set = refl;
  reachable = λ i. refl;
  clients_up = λ i. refl;
  calm = λ i. refl;
}

overlap : Runs streams peer start_hub end_hub log
unfolding send_request complete handle serve take_nth on_this on_message encode pack frame
    put_header put_entries decode unpack dispatch invoke read_exact int_of_u32 get_header
    get_entries text_eq lookup insert find_method call_service_method call_user login new_users
    validate token_of digits to_string encode_response set_failed destroy xrpc.Server.answer
    local_login refuse with_error
overlap =
    next
      (next
        (next (next (next here (asks 0 wire refl refl)) (asks 1 garbage refl refl))
          (serves 1 1 garbage (server_read 10 ∷ []) refl (omega arith) refl))
        (serves 0 1 wire (server_read 11 ∷ []) refl (omega arith) refl))
      (receives 0 0 answer_text [] refl (omega arith) refl)

-- A transport that brings back what the first client got.
abbrev answering : Transport
answering = record {
  State = Unit {0};
  connect = λ t ip port. (t, ok tt);
  send = λ t text. (t, true, (end_hub.clients 0).response);
}

route :
    Route directory answering
      (codes "UserService")
      (codes "Login")
      (codes "0.0.0.0")
      (pos 8080)
      tt
      tt
      tt
      tt
route = record {
  others = [];
  listed = refl;
  plain = (refl, (refl, (refl, (refl, (refl, (refl, (refl, tt)))))));
  fits = omega arith;
  joined = refl;
}

only_logins : OnlyLogins plain runs messages same_draws login_server
unfolding lookup
only_logins name service found = ground (arith, found)

sync_login-crowd_example :
    LogsInAmong plain plain_laws runs runs_laws directory answering messages messages_laws
      same_draws
      (sync_login plain runs directory answering messages (ok (tt, tt)) 5 tester empty_response)
      tester
      login_server.world.users
unfolding lookup text_eq
sync_login-crowd_example =
    sync_login-crowd plain plain_laws runs runs_laws directory answering messages messages_laws
      same_draws streams (λ n s k text h. refl) peer start_hub end_hub log 0 (codes "0.0.0.0")
      (pos 8080) 5 tester empty_response wire tt tt tt tt tt only_logins refl start_hub-IsCalm
      overlap refl refl encoded route refl
      (record { username_utf8 = refl; password_utf8 = refl; small = omega arith })
      (λ d. omega arith) (omega arith)
