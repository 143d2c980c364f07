-- ===== src/UserService/Wired.antt =====
-- A login from examples/client/user_client.cc to examples/server/user_server.cc with nothing between them but ZooKeeper and
-- a network: both processes from their constructors on.

use xrpc.Base.{
  ℕ, ◌<◌, ◌^◌, ◌≡◌, refl, ap, sym, subst, Bool, true, none, Option, List, [], ◌∷◌, ◌++◌, Bytes,
  codes, ok, Result,
}
use xrpc.Base.Int.{IsInt32}
use xrpc.Base.Decimal.{to_string}
use xrpc.Proto.{Protobuf}
use xrpc.Proto.Wire.{ProtobufLaws}
use xrpc.Codec.{encode}
use xrpc.Codec.ZlibCalls.{Zlib, ZlibLaws}
use xrpc.Server.{Server, on_message, register_service, instance_path}
use xrpc.Server.Lifecycle.{text_of_answer}
use xrpc.Server.Process.{on_this, ServerProcess, open_server, offer}
use xrpc.Server.Process.Opened.{IsServer, open_server-IsServer}
use xrpc.Transport.{Asio, client_open, take_nth}
use xrpc.Transport.Counts.{count}
use xrpc.Transport.Lifetime.{new_transport}
use xrpc.Transport.Line.{Streams, Network, IsWhole, OneRead, Line, line}
use xrpc.Transport.Line.Joining.{IsJoinable, up, join-up, up-IsJoined}
use xrpc.Channel.{Called, request_header}
use xrpc.Channel.Address.{NoColon}
use xrpc.Channel.Lifecycle.{open_channel}
use xrpc.Channel.Wired.{delivers}
use xrpc.Registry.ZooKeeper.{zok, ZooKeeper}
use xrpc.Registry.Session.{Client}
use xrpc.Registry.Nodes.{find_last_byte}
use xrpc.Registry.Finding.{zookeeper_client}
use xrpc.Registry.Shared.{ZooKeeperLaws}
use xrpc.Interfaces.{Registry, Transport}
use xrpc.UserService.{LoginRequest, LoginResponse, LoginMessages, UserWorld, user_service}
use xrpc.UserService.Logins.{accepts}
use xrpc.UserService.Wire.{IsRequestWire, LoginLaws}
use xrpc.UserService.Remote.{answer_to}
use xrpc.UserService.Client.{sync_login}
use xrpc.UserService.Registered.{sync_login-registered}

module _ (pb : Protobuf) (pl : ProtobufLaws pb) (z : Zlib) (zl : ZlibLaws z) (zk : ZooKeeper)
    (nodes : ZooKeeperLaws zk) {a b : Asio} (sa : Streams a) (sb : Streams b) (w : Network)
    (whole : IsWhole w) (messages : LoginMessages pb) (laws : LoginLaws pl messages) {R : Type 0}
    (rand : R → R × ℕ) {V : Type 0} (v : V) where
  abbrev pub Sockets : Type 0
  Sockets = Line a b V (Server pb (UserWorld R))

  -- The client's transport is new.
  abbrev pub dial : ServerProcess zk b pb (UserWorld R) → a.State → Sockets
  dial p anet = record { client = new_transport v anet; server = p.1; peer = 0 }

  abbrev pub offered :
      ServerProcess zk b pb (UserWorld R) → ServerProcess zk b pb (UserWorld R) × Result (Unit {0})
  offered p = offer zk b pb z (user_service messages rand) p

  -- The client can reach the server at its address.
  pub record IsReachable (p : ServerProcess zk b pb (UserWorld R)) (anet : a.State) : Type 0 where
    pub address : a.is_address p.1.world.server_ip ≡ true
    pub reached : (a.connect anet 0 p.1.world.server_ip p.1.world.server_port).1 ≡ none
    pub reachable : b.is_open p.1.net 0 ≡ true

  dial-IsJoinable :
      (p : ServerProcess zk b pb (UserWorld R)) (world : UserWorld R) (anet : a.State)
      → IsServer (on_this pb z) world p
      → IsReachable p anet
      → IsJoinable sa sb w
          (on_this pb z)
          p.1.world.server_ip
          p.1.world.server_port
          (dial (offered p).0 anet)
  unfolding offer register_service client_open new_transport count
  dial-IsJoinable p world anet s r = record {
    client_up = refl;
    unconnected = refl;
    quiet = refl;
    address = r.address;
    reached = r.reached;
    server_up = s.live;
    listens = s.listens;
    serves = s.serves;
    place = 0;
    socket = 0;
    others = [];
    waits = (unfold take_nth in ap (take_nth 0) s.first, refl);
    unread = refl;
    reachable = r.reachable;
  }

  abbrev pub server_path : ServerProcess zk b pb (UserWorld R) → Bytes
  server_path p = instance_path (codes "UserService") p.1.world.server_ip p.1.world.server_port

  -- SyncLogin over the client `d` of a channel and a new transport, when the server offers the service.
  abbrev pub logged :
      (p : ServerProcess zk b pb (UserWorld R))
      → Client zk
      → a.State
      → ℕ
      → LoginRequest
      → LoginResponse
      → (unended : Sockets → Sockets × Bool × Bytes)
      → Result (Bool × Called pb z (zookeeper_client zk) (line sa sb w unended))
  logged p d anet id q old unended =
      sync_login pb z (zookeeper_client zk) (line sa sb w unended) messages
        (ok (d, dial (offered p).0 anet)) id q old

  -- A login that returned, on the data of a server: its result is what the data accepts, and its response what the
  -- service gives on it.
  abbrev pub LogsIn :
      {reg : Registry} {tr : Transport}
      → Result (Bool × Called pb z reg tr)
      → LoginRequest
      → UserWorld R
      → Type 0
  LogsIn {reg} {tr} result q world =
      (after : Called pb z reg tr) × (result ≡ ok (accepts world.users q, after))
      × (messages.to_response after.response ≡ answer_to pl laws rand world q)

  -- When the constructor of a server and its RegisterService of the example service returned, and the
  -- constructor of a channel in another process did, the first SyncLogin over that channel's new transport returns
  -- true exactly on credentials that are not empty and stored at the server, and its caller has the response
  -- that the service gave. The channel's client sees the node that the server wrote, ZooKeeper
  -- lists it first, and the server can be connected at its address, where it has no other client; the request and its
  -- answer have 1 to 8192 bytes and are each given whole by one read, and the connection stays up. The server's ip has no slash or colon and its port is an `int`; the texts of
  -- the credentials are UTF-8 and together below a megabyte, and the numbers drawn are below 2^31.
  pub sync_login-wired :
      (server_file : Bytes) (server_text server_registry : Option Bytes) (zoo zoo' : zk.State)
      (world : UserWorld R) (bnet : b.State) (p : ServerProcess zk b pb (UserWorld R))
      (channel_file : Bytes) (channel_text channel_registry : Option Bytes) (k k' : zk.State)
      (d : Client zk) (anet : a.State) (id : ℕ) (q : LoginRequest) (old : LoginResponse)
      (rest : List Bytes) (wire : Bytes) (unended : Sockets → Sockets × Bool × Bytes)
      → open_server zk b pb z world bnet server_file server_text server_registry zoo ≡ (zoo', ok p)
      → (offered p).1 ≡ ok tt
      → open_channel zk channel_file channel_text channel_registry k ≡ (k', ok d)
      → nodes.node d.zoo (server_path p) ≡ nodes.node (offered p).0.0.zoo (server_path p)
      → (zk.children d.zoo (b'/' ∷ codes "UserService")).1
        ≡ (zok, (p.1.world.server_ip ++ b':' ∷ to_string p.1.world.server_port) ∷ rest)
      → IsReachable p anet
      → encode pb z
          (request_header (codes "UserService") (codes "Login") id)
          (messages.of_request q)
        ≡ ok wire
      → OneRead wire
      → OneRead (text_of_answer (on_message pb z (offered p).0.1.world wire).1)
      → find_last_byte b'/' p.1.world.server_ip ≡ none
      → NoColon p.1.world.server_ip
      → IsInt32 p.1.world.server_port
      → IsRequestWire pl.is_utf8 q
      → (rand world.draws).1 < 2 ^ 31
      → id < 2 ^ 31
      → LogsIn (logged p d anet id q old unended) q world
  unfolding offer register_service new_transport
  sync_login-wired server_file server_text server_registry zoo zoo' world bnet p channel_file
        channel_text channel_registry k k' d anet id q old rest wire unended server_opened done
        channel_opened sees lists reach sent short brief plain colon port utf8 int id_int =
      let server =
        open_server-IsServer zk b pb z world bnet server_file server_text server_registry zoo zoo' p
          server_opened in
      let l = dial (offered p).0 anet in
      let ip = p.1.world.server_ip in
      let at = p.1.world.server_port in
      let j = dial-IsJoinable p world anet server reach in
      let l' = up sa sb w (on_this pb z) ip at whole l j in
      let joined = up-IsJoined sa sb w (on_this pb z) ip at whole l j in
      subst (LogsIn (logged p d anet id q old unended) q) server.holds (
        sync_login-registered pb pl z zl zk nodes (line sa sb w unended) messages laws rand
          p.1.world p.0 d channel_file channel_text channel_registry k k' id q old rest l l' _ done
          plain colon port sees channel_opened lists
          (join-up sa sb w (on_this pb z) ip at whole l j)
          (delivers pb z sa sb w whole l.client.next_socket l' unended joined _ wire sent short
            brief)
          utf8 (subst (λ (u : UserWorld R). (rand u.draws).1 < 2 ^ 31) (sym server.holds) int)
          id_int)
