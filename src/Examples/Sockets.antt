-- ===== src/Examples/Sockets.antt =====
-- The theorems on transport/asio_transport.cc at concrete inputs.
use xrpc.Base.{
  ℕ, suc, ◌+◌, ◌≡◌, refl, true, false, none, some, List, [], ◌∷◌, Bytes, codes, ok, throw,
}
use xrpc.Transport.{Asio, AsioTransport, send_request, await}
use xrpc.Channel.Closing.{close_channel, close_channel-called}
use xrpc.Examples.Store.{client}
use xrpc.Base.Int.{pos}
use xrpc.Transport.Counts.{count}
use xrpc.Transport.Lifetime.{new_transport}
use xrpc.Transport.Serving.Acts.{acts-new-Serving}
use xrpc.Transport.Callbacks.{
  Act, starts, connects, asks, sends, completes, acts, called, sent, waiting, acts-called,
}
use xrpc.Transport.Waiting.{reads_response, await-read_error}
use xrpc.Transport.Serving.{Serving}

-- A network that takes everything and counts the writes.
abbrev network : Asio
network = record {
  State = ℕ;
  is_address = λ ip. true;
  connect = λ n s ip port. (n, none);
  write = λ n s text. (suc n, none);
  listen = λ n ip port. (n, true);
  is_open = λ n s. true;
  has_peer = λ n s. true;
  close = λ n s. n;
}

-- A server that answers what it is sent, with a client of its own.
abbrev idle : AsioTransport network ℕ
idle = record {
  client_socket = some 0;
  listening = true;
  server_callback = some (λ n text. (n + 1, text));
  response = [];
  response_received = false;
  server_sockets = [];
  next_socket = 1;
  pending = [];
  live = true;
  world = 0;
  net = 0;
}

abbrev ping : Bytes
ping = codes "ping"

abbrev calls : List (Act ℕ)
calls =
    sends ping 7
    ∷ sends ping 8
    ∷ completes 0 (ok [])
    ∷ completes 1 (throw (codes "reset"))
    ∷ completes 0 (ok ping)
    ∷ sends ping 7
    ∷ []

acts-called_example :
    waiting 7 (acts calls idle).0 + called 7 (acts calls idle).1 ≡ sent 7 calls + waiting 7 idle
acts-called_example = acts-called 7 calls idle

nothing_pending : count reads_response idle.pending ≡ 0
unfolding count
nothing_pending = refl

ping_sent : (send_request ping idle).1 ≡ true
unfolding send_request
ping_sent = refl

await-read_error_example :
    await ((0, throw (codes "reset")) ∷ (0, ok ping) ∷ []) (send_request ping idle).0 ≡ none
await-read_error_example =
    await-read_error ping (codes "reset") idle ((0, ok ping) ∷ []) refl nothing_pending ping_sent

-- A server that starts, is connected, serves, and sends itself.
abbrev working : List (Act ℕ)
working =
    starts (codes "0.0.0.0") (pos 8080) (λ n text. (n + 1, text))
    ∷ completes 0 (ok [])
    ∷ completes 1 (ok ping)
    ∷ connects (codes "0.0.0.0") (pos 8080)
    ∷ asks ping
    ∷ sends ping 7
    ∷ completes 2 (throw (codes "eof"))
    ∷ []

acts-new-Serving_example : Serving (acts working (new_transport {a = network} 0 0)).0
acts-new-Serving_example = acts-new-Serving working 0 0

-- What happens at a channel that is gone: the answer to its call would be there.
abbrev too_late : List (Act ℕ)
too_late = completes 0 (ok []) ∷ completes 0 (ok ping) ∷ []

close_channel-called_example :
    called 7 (acts too_late (close_channel (client, (acts (sends ping 7 ∷ []) idle).0)).1).1 ≡ 0
close_channel-called_example =
    close_channel-called 7 too_late client (acts (sends ping 7 ∷ []) idle).0 refl
