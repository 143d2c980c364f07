-- ===== src/Lib.antt =====
-- xRPC: a library for remote calls of Protocol Buffers services over TCP, with ZooKeeper as the directory of the
-- servers.
--
-- The program's parts and how they interact. A stub calls `XrpcChannel::CallMethod`. The channel asks the registry for
-- the instances of the service that offer the method, takes the first, connects the transport to it, and
-- encodes a header and the request with the codec. The server decodes them in `XrpcServer::OnMessage`, calls the
-- service with a controller of its own, and encodes the response or an error. The channel decodes the answer and settles
-- the caller's controller and response. The registry keeps a cache beside ZooKeeper, which its heartbeat and its watcher
-- change while its methods run. The client of ZooKeeper takes its address from the configuration file.
-- The example server offers one service for logins, and the example client calls it from several threads.
--
-- Files and code (paths from the root of the repository):
--   Base        the types and lemmas that all files share: bytes, exceptions as values, `int`, maps keyed
--               by text, decimal numbers (`std::to_string`, `std::stoi`)
--   Proto       protos/xrpc.proto: the messages as records. Proto/Wire states the laws of the generated code
--   Codec       src/core/codec/xrpc_codec.cc: `pack` and `frame` are the parts of `encode` and
--               `encode_response` (Encode, EncodeResponse); `decode`, `decode_response`. Codec/Stream is Compress and
--               Decompress; the loop over chunks of 8192 bytes is `drain`. Codec/RoundTrip, Codec/Corrupt
--               and Codec/Stream/Drain prove
--   Controller  src/core/controller/xrpc_controller.cc, one function per method; `step` and `run` are sequences of
--               calls, Controller/Contract and Controller/Reports what holds after them
--   Interfaces  what the server and the channel use of the registry and of the transport, as records
--   Config      src/core/common/xrpc_config.cc: `load` (Load, one line in `parse_line`) and `get` (Get).
--               Config/Blanks, Config/Lines and Config/Loading prove
--   Registry    src/registry/zookeeper_client.cc. Registry/Cache is `service_cache_`, each function a section under
--               `cache_mutex_`; Registry/ZooKeeper the C client; Registry/Session the fields, Start and Stop;
--               Registry/Nodes the methods; Registry/Events WatcherCallback and Heartbeat; Registry/Steps
--               all of them as steps in any order; Registry/View the cache as a directory. The others prove, and
--               Registry/Finding gives the class the form of Interfaces
--   Server      src/core/server/xrpc_server.cc: `register_service` (RegisterService), `call_service_method`
--               (CallServiceMethod), `on_message` (OnMessage, with `dispatch`, `invoke`, `answer` and `guarded` for its
--               nested blocks); Server/Lifecycle is Init and the destructor, Server/Process the
--               constructor and Start. Server/Answers, Server/Calls,
--               Server/Services and the files of Server/Lifecycle prove
--   Channel     src/core/channel/xrpc_channel.cc: `get_service_address` (GetServiceAddress), `call_method` (CallMethod,
--               with SendRequest and SendRequestAsync as `call_sync` and `call_async`), `on_reply` (the callback of
--               an asynchronous call). Channel/Lifecycle is the constructor, Channel/Closing the destructor; Channel/Remote, Channel/RemoteAsync
--               and Channel/Wired put a channel and a server together
--   Transport   src/transport/asio_transport.cc: the fields and each method and handler; Transport/Lifetime is the
--               constructor, the destructor and Run. Transport/Line joins a client's and a server's transport, in the
--               form that Channel uses: `join` (Connect, and the accept), `ask` (Send), `post` (SendAsync). Transport/Hub is one server with many
--               clients, whose Sends overlap. The
--               other files prove
--   Logger      src/core/common/xrpc_logger.cc: `init_logger` (InitLogger) and `init_logger_from_config`
--               (InitLoggerFromConfig). Logger/Levels proves
--   UserService examples/server/user_server.cc with the messages of protos/example/user_service.proto: `login` (Login),
--               `validate` (Validate), and `user_service`, the class as a service of the server. UserService/Client is
--               examples/client/user_client.cc: `sync_login` (SyncLogin), `async_login` (AsyncLogin) with its loop
--               `attempts`; Client/Arguments is the loop of main over its arguments, Client/Workers its threads and their
--               counters, Main the two main functions.
--               Registered, Wired and WiredAsync are whole logins, Crowd many at the same time. Client/Retries, Client/Tally and the other files of UserService prove
--   Examples    stand-ins for the libraries, an echo service, the example server, and the theorems at concrete inputs
--
-- State and effects. A method that changes its object takes the state and returns it; an exception is a value that
-- carries the text of `what()`, and what was changed before it stays changed. Closures and callbacks are numbers, and
-- what a function runs is a list of them. A mutex that a method holds from its start to its end makes its body one step.
--
-- Parameters: the code generated by Protocol Buffers with its streams (`Protobuf`), zlib (`Zlib`), the ZooKeeper C client
-- (`ZooKeeper`), Asio's operations on sockets (`Asio`), what the network makes complete
-- (`Network`), spdlog (`Spdlog`), and the services that a server offers (`Service`). Theorems name the laws
-- that they use: a message that serializes parses back, a varint reads back, inflating a stream that deflate
-- made gives the text, a node that was created is listed and read back, an open socket knows its peer and
-- takes what is written (`Streams`), one read gives a whole text of at most 8192 bytes (`IsWhole`). What an async_write finds in the buffer of its
-- caller, which may be freed by then, is a parameter too (`borrowed`). ZooKeeper and the network may change by themselves between any two calls.
--
-- Bounds and fuel. Sizes are `uint32` on the wire and `int` where they are read, so that the round trips ask for bodies
-- below 2^30 bytes and headers below 2^29, with texts below 2^20 in a header. zlib takes the
-- size of a text in a `uInt`, which wraps at 2^32 (`available`). `drain` runs on the bytes that the stream still
-- has to give, which every chunk lowers; the theorems on Compress and Decompress show that this is enough. The
-- loop of Start runs over its three retries, that of AsyncLogin over its two attempts. The number that `rand` gives in Login
-- is an `int`.
--
-- Not modelled: the messages that are logged or printed (no state of the program depends on them, save where
-- `remote_endpoint` in their arguments throws), services that throw what is no std::exception (it would pass both handlers of
-- OnMessage), handlers that throw when `poll_one` runs them inside a Send (a transport that is asked serves no one here), threads beyond the steps above, the order of `std::map` in a round of
-- the heartbeat, and the times that the example client measures. Channel stands on any transport whose Send returns; a line
-- is one, with `unended` in the place of a Send that does not return, and Transport/Waiting shows when the loop ends.
pub mod Base
pub mod Proto
pub mod Codec
pub mod Controller
pub mod Interfaces
pub mod Config
pub mod Logger
pub mod Registry
pub mod Transport
pub mod Server
pub mod Channel
pub mod UserService
mod Examples
