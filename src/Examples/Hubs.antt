-- ===== src/Examples/Hubs.antt =====
-- Two clients whose Sends overlap at one server, over the network in memory.
use xrpc.Base.{ℕ, ◌+◌, ◌≡◌, refl, [], ◌∷◌, codes, arith}
use xrpc.Transport.{server_read, take_nth, send_request, complete, serve, handle}
use xrpc.Transport.Hub.{
  Hub, Log, quiet, asking, serving, receiving, asks, serves, receives, Runs, here, next, world_of,
  last_answer,
}
use xrpc.Transport.Hub.Order.{IsCalm, Got, Runs-ordered}
use xrpc.Examples.Lines.{memory, streams, numbers, end_of}

abbrev peer : ℕ → ℕ
peer i = i + 10

abbrev idle_hub : Hub memory memory ℕ ℕ
idle_hub = record {
  clients = λ i. record end_of { pending = [] };
  flights = λ i. quiet;
  server = record end_of { pending = server_read 10 ∷ server_read 11 ∷ [] };
}

-- Both ask; the second request is read first; the first client has its answer before the second.
abbrev asked_hub : Hub memory memory ℕ ℕ
asked_hub = asking streams peer 1 (codes "b") (asking streams peer 0 (codes "a") idle_hub)

abbrev served_hub : Hub memory memory ℕ ℕ
served_hub = serving streams peer 0 1 (codes "a") (serving streams peer 1 1 (codes "b") asked_hub)

abbrev done_hub : Hub memory memory ℕ ℕ
done_hub = receiving streams peer 0 0 (1 ∷ codes "a") served_hub

abbrev log : Log
log = (0, codes "a") ∷ (1, codes "b") ∷ []

idle_hub-IsCalm : IsCalm streams (λ n s k text h. refl) peer numbers idle_hub
idle_hub-IsCalm = record {
  server_up = refl;
  set = refl;
  reachable = λ i. refl;
  clients_up = λ i. refl;
  calm = λ i. refl;
}

overlap : Runs streams peer idle_hub done_hub log
unfolding send_request complete handle serve take_nth
overlap =
    next
      (next
        (next (next (next here (asks 0 (codes "a") refl refl)) (asks 1 (codes "b") refl refl))
          (serves 1 1 (codes "b") (server_read 10 ∷ []) refl (omega arith) refl))
        (serves 0 1 (codes "a") (server_read 11 ∷ []) refl (omega arith) refl))
      (receives 0 0 (1 ∷ codes "a") [] refl (omega arith) refl)

Runs-ordered_example :
    (done_hub.server.world ≡ world_of numbers 0 log)
    × ((i : ℕ)
        → done_hub.flights i ≡ quiet
        → Got (last_answer numbers 0 i log) (done_hub.clients i))
Runs-ordered_example =
    Runs-ordered streams (λ n s k text h. refl) peer numbers idle_hub done_hub log idle_hub-IsCalm
      overlap
