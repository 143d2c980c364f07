-- ===== src/Transport/Lifetime.antt =====
-- The constructor, the destructor and Run of transport/asio_transport.cc. The thread that the constructor starts and the
-- destructor joins is `live`.
use xrpc.Base.{refl, true, false, none, [], arith, inr}
use xrpc.Transport.{Asio, AsioTransport, stop, has_socket}
use xrpc.Transport.Counts.{count}
use xrpc.Transport.Serving.{Serving}

module _ {a : Asio} {W : Type 0} where
  -- Over a network, with what its callback will work on.
  unfoldable pub new_transport : W → a.State → AsioTransport a W
  new_transport world net = record {
    client_socket = none;
    listening = false;
    server_callback = none;
    response = [];
    response_received = false;
    server_sockets = [];
    next_socket = 0;
    pending = [];
    live = true;
    world = world;
    net = net;
  }

  unfoldable pub destroy_transport : AsioTransport a W → AsioTransport a W
  unfolding stop
  destroy_transport t = stop t

  -- The thread runs the io_context already.
  unfoldable pub run_transport : AsioTransport a W → AsioTransport a W
  run_transport t = t

  pub new_transport-Serving : (world : W) (net : a.State) → Serving (new_transport world net)
  unfolding new_transport count has_socket
  new_transport-Serving world net =
      inr (record { one_read = λ s. refl; one_accept = λ s. omega arith; free = λ s below. refl })
