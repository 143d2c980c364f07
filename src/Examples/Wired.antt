-- ===== src/Examples/Wired.antt =====
-- A login from the constructors of both processes on, over the store and the network in memory.
use xrpc.Base.{
  ℕ, ◌≡◌, refl, true, false, none, some, [], ◌∷◌, Bytes, codes, ok, Result, arith, text_eq,
}
use xrpc.Base.Int.{pos}
use xrpc.Base.Decimal.{to_string, digits, stoi, skip_space, read_digits}
use xrpc.Base.Dict.{lookup, insert}
use xrpc.Config.{load, get, load_lines, get_lines}
use xrpc.Server.{Server, on_message, register_service, instance_path, instance_data, join_methods}
use xrpc.Server.Lifecycle.{init, text_of_answer}
use xrpc.Codec.{encode, pack, frame, decode, unpack, encode_response}
use xrpc.Server.{dispatch, invoke, find_method, call_service_method}
use xrpc.UserService.{call_user, login, local_login}
use xrpc.Controller.{set_failed, destroy}
use xrpc.Base.Int.{int_of_u32}
use xrpc.Examples.Wire.{read_exact, get_header, get_entries}
use xrpc.Channel.{request_header}
use xrpc.Channel.Lifecycle.{open_channel}
use xrpc.UserService.Wired.{offered, LogsIn, logged, sync_login-wired}
use xrpc.Server.Process.Opened.{IsServer, open_server-IsServer}
use xrpc.Server.Process.{ServerProcess, on_this, open_server, offer}
use xrpc.Transport.{accept, start_server, do_accept}
use xrpc.Transport.Lifetime.{new_transport}
use xrpc.Transport.{client_open, take_nth}
use xrpc.Transport.Counts.{count}
use xrpc.Transport.Line.{OneRead, Line, line}
use xrpc.Transport.Line.Joining.{IsJoinable}
use xrpc.UserService.Client.{async_login}
use xrpc.UserService.WiredAsync.{Dialled, channels_over, async_login-wired}
use xrpc.Examples.Network.{directory}
use xrpc.Registry.Session.{
  new_client, start, started, wait_connected, Client, ◌>>◌, ◌>>=◌, zoo, lift, set_cache,
}
use xrpc.Registry.Nodes.{
  find_last_byte, register, require_connected, ensure_parent, check, write_node, remember,
}
use xrpc.Registry.Cache.{service_of, until_slash, contains}
use xrpc.Registry.ZooKeeper.{zok}
use xrpc.UserService.{UserWorld, LoginRequest, empty_response, new_users, validate, token_of}
use xrpc.Examples.Wire.{plain, plain_laws, put_header, put_entries}
use xrpc.Examples.Deflate.{runs, runs_laws}
use xrpc.Examples.Store.{store, client, without_repeats, names_under}
use xrpc.Examples.Nodes.{store_laws}
use xrpc.Examples.Users.{messages, messages_laws, count_draws}
use xrpc.Examples.Lines.{memory, streams, hands_on, hands_on-IsWhole}

abbrev pub world : UserWorld ℕ
world = record { users = new_users; draws = 7 }

abbrev quiet : memory.State
quiet s = []

abbrev pub object : Server plain (UserWorld ℕ)
object = record {
  services = [];
  server_ip = codes "0.0.0.0";
  server_port = pos 8080;
  world = world;
}

-- What the constructor of a server makes of empty configuration files.
abbrev process : ServerProcess store memory plain (UserWorld ℕ)
process = (
  client,
  record {
    client_socket = none;
    listening = true;
    server_callback = some (on_this plain runs);
    response = [];
    response_received = false;
    server_sockets = [];
    next_socket = 1;
    pending = accept 0 ∷ [];
    live = true;
    world = object;
    net = quiet;
  },
)

server_opened :
    open_server store memory plain runs world quiet [] (some []) (some []) client.zoo
    ≡ (client.zoo, ok process)
unfolding open_server new_client load get load_lines get_lines start started wait_connected stoi
    lookup skip_space read_digits init start_server do_accept new_transport
server_opened = refl

open_server-IsServer_example : IsServer (on_this plain runs) world process
open_server-IsServer_example =
    open_server-IsServer store memory plain runs world quiet [] (some []) (some []) client.zoo
      client.zoo process server_opened

abbrev pub tester : LoginRequest
tester = record { username = codes "test_user"; password = codes "test_pass" }

abbrev registered : ServerProcess store memory plain (UserWorld ℕ) × Result (Unit {0})
registered =
    offered plain plain_laws runs runs_laws store store_laws streams streams hands_on
      hands_on-IsWhole messages messages_laws count_draws tt process

-- The nodes that the server's registration left, and a channel's client on them.
abbrev nodes : store.State
nodes = registered.0.0.zoo

abbrev other_client : Client store
other_client = record client { zoo = nodes }

channel_opened : open_channel store [] (some []) (some []) nodes ≡ (nodes, ok other_client)
unfolding open_channel new_client load get load_lines get_lines start started wait_connected stoi
    lookup skip_space read_digits
channel_opened = refl

abbrev pub wire : Bytes
wire = text_of_answer (
    encode plain runs (request_header (codes "UserService") (codes "Login") 5)
      (messages.of_request tester))

pub encoded :
    encode plain runs
      (request_header (codes "UserService") (codes "Login") 5)
      (messages.of_request tester)
    ≡ ok wire
unfolding encode pack frame
encoded = refl

brief_request : OneRead wire
unfolding encode pack frame put_header put_entries
brief_request = omega arith

abbrev answer_text : Bytes
answer_text = text_of_answer (on_message plain runs registered.0.1.world wire).1

brief_answer : OneRead answer_text
unfolding on_message encode pack frame put_header put_entries decode unpack offer register_service
    dispatch invoke read_exact int_of_u32 get_header get_entries text_eq lookup insert find_method
    call_service_method call_user login new_users validate token_of digits to_string encode_response
    set_failed destroy xrpc.Server.answer join_methods instance_data instance_path local_login
brief_answer = omega arith

offered_ok : registered.1 ≡ ok tt
unfolding offer lookup insert text_eq to_string digits register_service instance_path instance_data
    join_methods register require_connected ensure_parent find_last_byte check write_node remember
    service_of until_slash ◌>>◌ ◌>>=◌ zoo lift set_cache without_repeats names_under contains
offered_ok = refl

listed : (store.children nodes (b'/' ∷ codes "UserService")).1 ≡ (zok, codes "0.0.0.0:8080" ∷ [])
unfolding offer lookup insert text_eq to_string digits register_service instance_path instance_data
    join_methods register require_connected ensure_parent find_last_byte check write_node remember
    service_of until_slash ◌>>◌ ◌>>=◌ zoo lift set_cache without_repeats names_under contains
listed = refl

no_slash : find_last_byte b'/' object.server_ip ≡ none
unfolding find_last_byte
no_slash = refl

sync_login-wired_example :
    LogsIn plain plain_laws runs runs_laws store store_laws streams streams hands_on
      hands_on-IsWhole messages messages_laws count_draws tt
      (logged plain plain_laws runs runs_laws store store_laws streams streams hands_on
        hands_on-IsWhole messages messages_laws count_draws tt process other_client quiet 5 tester
        empty_response
        (λ l. (l, false, [])))
      tester
      world
unfolding to_string digits
sync_login-wired_example =
    sync_login-wired plain plain_laws runs runs_laws store store_laws streams streams hands_on
      hands_on-IsWhole messages messages_laws count_draws tt [] (some []) (some []) client.zoo
      client.zoo world quiet process [] (some []) (some []) nodes nodes other_client quiet 5 tester
      empty_response [] wire (λ l. (l, false, [])) server_opened offered_ok channel_opened refl
      listed (record { address = refl; reached = refl; reachable = refl }) encoded brief_request
      brief_answer no_slash (refl, (refl, (refl, (refl, (refl, (refl, (refl, tt))))))) (omega arith)
      (record { username_utf8 = refl; password_utf8 = refl; small = omega arith }) (omega arith)
      (omega arith)

abbrev sockets : Line memory memory (Unit {0}) (Server plain (UserWorld ℕ))
sockets = record { client = new_transport tt quiet; server = registered.0.1; peer = 0 }

sockets-IsJoinable :
    IsJoinable streams streams hands_on (on_this plain runs) (codes "0.0.0.0") (pos 8080) sockets
unfolding offer register_service new_transport count client_open take_nth
sockets-IsJoinable = record {
  client_up = refl;
  unconnected = refl;
  quiet = refl;
  address = refl;
  reached = refl;
  server_up = refl;
  listens = refl;
  serves = refl;
  place = 0;
  socket = 0;
  others = [];
  waits = (refl, refl);
  unread = refl;
  reachable = refl;
}

dialled :
    Dialled plain plain_laws runs runs_laws directory streams streams hands_on hands_on-IsWhole
      messages messages_laws count_draws {V = Unit {0}} registered.0.1.world
      (codes "0.0.0.0")
      (pos 8080)
      (λ l. (l, false, []))
      tester
unfolding new_transport count to_string digits
dialled = record {
  registry = tt;
  registry' = tt;
  l = sockets;
  id = 5;
  others = [];
  listed = refl;
  joinable = sockets-IsJoinable;
  same = refl;
  unused = refl;
  id_int = omega arith;
  wire = wire;
  sent = encoded;
  kept = refl;
  short = brief_request;
  brief = brief_answer;
}

async_login-wired_example :
    async_login plain runs directory
      (line streams streams hands_on (λ l. (l, false, [])))
      messages
      (channels_over plain plain_laws runs runs_laws directory streams streams hands_on
        hands_on-IsWhole messages messages_laws count_draws registered.0.1.world
        (codes "0.0.0.0")
        (pos 8080)
        (λ l. (l, false, []))
        dialled
        dialled)
      tester
      empty_response
    ≡ ok (true, 1, record { success = true; token = codes "token_test_user_7"; error_message = [] })
unfolding new_users validate token_of lookup insert text_eq to_string digits offer register_service
async_login-wired_example =
    async_login-wired plain plain_laws runs runs_laws directory streams streams hands_on
      hands_on-IsWhole messages messages_laws count_draws registered.0.1.world (codes "0.0.0.0")
      (pos 8080) (λ l. (l, false, [])) tester empty_response dialled dialled refl
      (refl, (refl, (refl, (refl, (refl, (refl, (refl, tt))))))) (omega arith)
      (record { username_utf8 = refl; password_utf8 = refl; small = omega arith }) (omega arith)
