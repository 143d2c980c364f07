-- ===== src/UserService/Registered.antt =====
-- The whole way of a login: examples/server/user_server.cc registers with ZooKeeper, and a channel of
-- examples/client/user_client.cc finds it there and calls it.
use xrpc.Base.{
  ℕ, ◌<◌, ◌≤◌, ◌^◌, ◌≡◌, refl, ap, true, none, some, Option, List, [], ◌∷◌, ◌++◌, Bytes, codes,
  length, ok, Result, arith, text_eq,
}
use xrpc.Base.Int.{IsInt32}
use xrpc.Base.Decimal.{to_string}
use xrpc.Base.Dict.{lookup, lookup-insert_self}
use xrpc.Proto.{Protobuf}
use xrpc.Proto.Wire.{ProtobufLaws}
use xrpc.Codec.ZlibCalls.{Zlib, ZlibLaws}
use xrpc.Interfaces.{Transport}
use xrpc.Server.{Server, on_message, register_service, instance_path, instance_data, join_methods}
use xrpc.Codec.{encode}
use xrpc.Channel.{Called, request_header}
use xrpc.Channel.Address.{NoColon}
use xrpc.Channel.Remote.{Route}
use xrpc.Channel.Lifecycle.{open_channel, open_channel-IsNew}
use xrpc.Registry.Cache.{contains}
use xrpc.Registry.ZooKeeper.{zok, ZooKeeper}
use xrpc.Registry.Session.{Client}
use xrpc.Registry.Chains.{IsLive}
use xrpc.Registry.Nodes.{find_last_byte, find_instances_by_method}
use xrpc.Registry.Finding.{zookeeper_client}
use xrpc.Registry.Shared.{ZooKeeperLaws}
use xrpc.Registry.Shared.First.{register-find_first}
use xrpc.UserService.{LoginRequest, LoginResponse, LoginMessages, UserWorld, user_service}
use xrpc.UserService.Logins.{accepts}
use xrpc.UserService.Wire.{IsRequestWire, LoginLaws}
use xrpc.UserService.Remote.{answer_to}
use xrpc.UserService.Client.{sync_login}
use xrpc.UserService.Sync.{sync_login-accepts}

abbrev service_name : Bytes
service_name = codes "UserService"

login-offered : contains (codes "Login") (codes "Login" ∷ []) ≡ true
unfolding contains text_eq
login-offered = refl

login-short : length (instance_data (codes "Login" ∷ [])) ≤ 512
unfolding instance_data join_methods
login-short = omega arith

uncached :
    {zk : ZooKeeper} (d : Client zk)
    → d.service_cache ≡ []
    → lookup service_name d.service_cache ≡ none
unfolding lookup
uncached d h = ap (lookup service_name) h

module _ (pb : Protobuf) (pl : ProtobufLaws pb) (z : Zlib) (zl : ZlibLaws z) (zk : ZooKeeper)
    (nodes : ZooKeeperLaws zk) (tr : Transport) (messages : LoginMessages pb)
    (laws : LoginLaws pl messages) {R : Type 0} (rand : R → R × ℕ) (s : Server pb (UserWorld R))
    (c d : Client zk) where
  -- The server and its client after RegisterService.
  abbrev registered : Server pb (UserWorld R) × (zookeeper_client zk).State × Result (Unit {0})
  registered = register_service pb (zookeeper_client zk) (user_service messages rand) s c

  abbrev path : Bytes
  path = instance_path service_name s.server_ip s.server_port

  registered-found : lookup service_name registered.0.services ≡ some (user_service messages rand)
  unfolding register_service
  registered-found = lookup-insert_self service_name (user_service messages rand) s.services

  registered-first :
      (rest : List Bytes)
      → registered.2 ≡ ok tt
      → find_last_byte b'/' s.server_ip ≡ none
      → nodes.node d.zoo path ≡ nodes.node registered.1.zoo path
      → IsLive d
      → lookup service_name d.service_cache ≡ none
      → (zk.children d.zoo (b'/' ∷ service_name)).1
        ≡ (zok, (s.server_ip ++ b':' ∷ to_string s.server_port) ∷ rest)
      → (others : List Bytes) × ((find_instances_by_method service_name (codes "Login") d).1
          ≡ ok ((s.server_ip ++ b':' ∷ to_string s.server_port) ∷ others))
  unfolding register_service
  registered-first rest done plain sees live fresh lists =
      register-find_first nodes service_name s.server_ip s.server_port (codes "Login" ∷ [])
        (codes "Login") true c d rest login-offered plain login-short done sees live fresh lists

  -- After the RegisterService of the example service returned, SyncLogin of another process, whose
  -- channel asks ZooKeeper and reaches the server that is listed first, returns true exactly on
  -- credentials that are not empty and stored at the server, and its caller has the response that the
  -- service gave. The channel's constructor returned, and its client sees the node that the server wrote; the server's ip has no slash or colon and its port is an `int`; the
  -- texts of the credentials are UTF-8 and together below a megabyte, and the numbers drawn are below
  -- 2^31.
  pub sync_login-registered :
      (config_file : Bytes) (text registry_text : Option Bytes) (k k' : zk.State) (id : ℕ)
      (q : LoginRequest) (old : LoginResponse) (rest : List Bytes) (t t' t'' : tr.State)
      → registered.2 ≡ ok tt
      → find_last_byte b'/' s.server_ip ≡ none
      → NoColon s.server_ip
      → IsInt32 s.server_port
      → nodes.node d.zoo path ≡ nodes.node registered.1.zoo path
      → open_channel zk config_file text registry_text k ≡ (k', ok d)
      → (zk.children d.zoo (b'/' ∷ service_name)).1
        ≡ (zok, (s.server_ip ++ b':' ∷ to_string s.server_port) ∷ rest)
      → tr.connect t s.server_ip s.server_port ≡ (t', ok tt)
      → ((wire answer : Bytes)
          → encode pb z (request_header service_name (codes "Login") id) (messages.of_request q)
            ≡ ok wire
          → (on_message pb z registered.0 wire).1 ≡ ok answer
          → tr.send t' wire ≡ (t'', true, answer))
      → IsRequestWire pl.is_utf8 q
      → (rand s.world.draws).1 < 2 ^ 31
      → id < 2 ^ 31
      → (after : Called pb z (zookeeper_client zk) tr) × (sync_login pb z
            (zookeeper_client zk)
            tr
            messages
            (ok (d, t))
            id
            q
            old
          ≡ ok (accepts s.world.users q, after))
        × (messages.to_response after.response ≡ answer_to pl laws rand s.world q)
  unfolding register_service
  sync_login-registered config_file text registry_text k k' id q old rest t t' t'' done plain colon
        port sees opened lists joined delivers wire int id_int =
      let new = open_channel-IsNew zk config_file text registry_text k k' d opened in
      let (others, first) =
        registered-first rest done plain sees new.live (uncached d new.uncached) lists in
      let d' = (find_instances_by_method service_name (codes "Login") d).0 in
      let route : Route (zookeeper_client zk) tr service_name (codes "Login") s.server_ip
          s.server_port d d' t t' =
        record {
          others = others;
          listed = ap (λ r. (d', r)) first;
          plain = colon;
          fits = port;
          joined = joined;
        } in
      let came =
        sync_login-accepts pb pl z zl (zookeeper_client zk) tr messages laws rand registered.0
          s.server_ip s.server_port id q old d d' t t' t'' route delivers registered-found wire int
          id_int in
      (_, came, laws.read_response (answer_to pl laws rand s.world q))
