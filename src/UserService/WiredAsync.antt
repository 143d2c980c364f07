-- ===== src/UserService/WiredAsync.antt =====
-- AsyncLogin of examples/client/user_client.cc over the sockets of transport/asio_transport.cc, to a server of
-- examples/server/user_server.cc.
use xrpc.Base.{
  ℕ, ◌<◌, ◌^◌, ◌≡◌, refl, ap, sym, subst, Bool, Option, none, some, List, [], ◌∷◌, ◌++◌, Bytes,
  codes, ok, Result, if◌then◌else◌, ◌∙◌, ◌==◌,
}
use xrpc.Base.Int.{ℤ, IsInt32}
use xrpc.Base.Decimal.{to_string}
use xrpc.Base.Dict.{lookup}
use xrpc.Proto.{Protobuf}
use xrpc.Proto.Wire.{ProtobufLaws}
use xrpc.Codec.{encode}
use xrpc.Codec.ZlibCalls.{Zlib, ZlibLaws}
use xrpc.Interfaces.{Registry}
use xrpc.Server.{Server, on_message}
use xrpc.Server.Lifecycle.{text_of_answer}
use xrpc.Server.Process.{on_this}
use xrpc.Transport.{Asio, Calls}
use xrpc.Transport.Counts.{count}
use xrpc.Transport.Callbacks.{carries}
use xrpc.Transport.Line.{Streams, Network, IsWhole, OneRead, Line, join, line}
use xrpc.Transport.Line.Joining.{IsJoinable, up, join-up, up-IsJoined}
use xrpc.Transport.Line.Posting.{post}
use xrpc.Channel.{request_header}
use xrpc.Channel.Address.{NoColon}
use xrpc.Channel.Wired.{posts}
use xrpc.UserService.{LoginRequest, LoginResponse, LoginMessages, UserWorld, user_service}
use xrpc.UserService.Logins.{accepts}
use xrpc.UserService.Wire.{IsRequestWire, LoginLaws}
use xrpc.UserService.Remote.{answer_to}
use xrpc.UserService.Client.{Arrival, Attempt, async_login}
use xrpc.UserService.Async.{Answered, async_login-accepts}

-- What the callback of SendAsync is called with.
abbrev pub first_call : Calls → Option Arrival
first_call [] = none
first_call ((_, text, success) ∷ _) = some (record { input = text; success = success })

module _ (pb : Protobuf) (pl : ProtobufLaws pb) (z : Zlib) (zl : ZlibLaws z) (reg : Registry)
    {a b : Asio} (sa : Streams a) (sb : Streams b) (w : Network) (whole : IsWhole w)
    (messages : LoginMessages pb) (laws : LoginLaws pl messages) {R : Type 0} (rand : R → R × ℕ)
    {V : Type 0} (s : Server pb (UserWorld R)) (ip : Bytes) (port : ℤ)
    (unended : Line a b V (Server pb (UserWorld R))
      → Line a b V (Server pb (UserWorld R)) × Bool × Bytes) where
  -- A channel whose registry lists a server first that can be connected and has the data of `s`. Its request and the
  -- answer fit one read each, and its write reads the request before it is freed.
  pub record Dialled (q : LoginRequest) : Type 0 where
    pub registry : reg.State
    pub registry' : reg.State
    pub l : Line a b V (Server pb (UserWorld R))
    pub id : ℕ
    pub others : List Bytes
    pub listed :
        reg.find_instances_by_method registry (codes "UserService") (codes "Login")
        ≡ (registry', ok ((ip ++ b':' ∷ to_string port) ∷ others))
    pub joinable : IsJoinable sa sb w (on_this pb z) ip port l
    pub same : l.server.world ≡ s
    pub unused : count (carries 0) l.client.pending ≡ 0
    pub id_int : id < 2 ^ 31
    pub wire : Bytes
    pub sent :
        encode pb z
          (request_header (codes "UserService") (codes "Login") id)
          (messages.of_request q)
        ≡ ok wire
    pub kept : w.borrowed wire ≡ wire
    pub short : OneRead wire
    pub brief : OneRead (text_of_answer (on_message pb z s wire).1)

  -- An attempt over the sockets: what arrives for its request is what they bring.
  abbrev pub attempt_over : {q : LoginRequest} → Dialled q → Attempt reg (line sa sb w unended)
  attempt_over d = record {
    registry = d.registry;
    transport = d.l;
    id = d.id;
    arrival = λ text. first_call (post sb w (join sa sb w d.l ip port).0 text 0).1;
  }

  -- The channel of each attempt.
  abbrev pub channels_over :
      {q : LoginRequest} → Dialled q → Dialled q → ℕ → Result (Attempt reg (line sa sb w unended))
  channels_over first second n = ok (attempt_over (if n == 1 then first else second))

  Dialled-Answered :
      {q : LoginRequest} (d : Dialled q)
      → NoColon ip
      → IsInt32 port
      → Answered pb pl z zl reg
          (line sa sb w unended)
          messages
          laws
          rand
          s
          ip
          port
          q
          (ok (attempt_over d))
  Dialled-Answered d plain fits =
      let l' = up sa sb w (on_this pb z) ip port whole d.l d.joinable in
      let joined = up-IsJoined sa sb w (on_this pb z) ip port whole d.l d.joinable in
      let up_at = join-up sa sb w (on_this pb z) ip port whole d.l d.joinable in
      record {
        a = attempt_over d;
        registry' = d.registry';
        transport' = l';
        opened = refl;
        route = record {
          others = d.others;
          listed = d.listed;
          plain = plain;
          fits = fits;
          joined = up_at;
        };
        id_int = d.id_int;
        arrives = λ text answer e handled.
            ap
              (λ (r : Line a b V (Server pb (UserWorld R)) × Result (Unit {0})).
                first_call (post sb w r.0 text 0).1)
              up_at
            ∙ ap first_call (
                posts pb z sa sb w whole d.l.client.next_socket l' unended joined _ d.wire d.sent
                  d.short
                  (subst (λ s. OneRead (text_of_answer (on_message pb z s d.wire).1)) (sym d.same)
                    d.brief)
                  d.kept 0 d.unused text answer e
                  (subst (λ s. (on_message pb z s text).1 ≡ ok answer) (sym d.same) handled));
      }

  -- AsyncLogin over the sockets of two channels, each of which has a registry that lists first
  -- a server that can be connected and offers the example service, the two servers with the
  -- same data, returns true at its first attempt on credentials that are not empty and stored
  -- there. On any others it asks a second time, over the other channel, and returns false. Its
  -- caller has the response that the service gave. Each write reads the request before
  -- CallMethod frees it. No handler of the client carries the callback's number, and the
  -- request and the answer have 1 to 8192 bytes and are each given whole by one read within the
  -- wait, over connections that stay up. The server's ip has no colon and its port is an int;
  -- the texts of the credentials are UTF-8 and together below a megabyte, and the numbers drawn
  -- are below 2^31.
  pub async_login-wired :
      (q : LoginRequest) (old : LoginResponse) (first second : Dialled q)
      → lookup (codes "UserService") s.services ≡ some (user_service messages rand)
      → NoColon ip
      → IsInt32 port
      → IsRequestWire pl.is_utf8 q
      → (rand s.world.draws).1 < 2 ^ 31
      → async_login pb z reg (line sa sb w unended) messages (channels_over first second) q old
        ≡ ok (
          accepts s.world.users q,
          (if accepts s.world.users q then 1 else 2),
          answer_to pl laws rand s.world q,
        )
  async_login-wired q old first second found plain fits wire int =
      async_login-accepts pb pl z zl reg (line sa sb w unended) messages laws rand s ip port q found
        wire int (channels_over first second) old (Dialled-Answered first plain fits)
        (λ h. Dialled-Answered second plain fits)
