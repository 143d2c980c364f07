-- ===== src/Examples/Network.antt =====
-- A registry with one entry and a transport that leads to the echo server.
use xrpc.Base.{ℕ, ◌+◌, ◌≡◌, Bool, true, false, [], ◌∷◌, ◌++◌, Bytes, codes, Result, ok, throw}
use xrpc.Base.Int.{pos}
use xrpc.Base.Decimal.{to_string}
use xrpc.Interfaces.{Registry, Transport}
use xrpc.Server.{on_message}
use xrpc.Examples.Wire.{plain}
use xrpc.Examples.Deflate.{runs}
use xrpc.Examples.Echo.{server}

abbrev pub directory : Registry
directory = record {
  State = Unit {0};
  register = λ r path text ephemeral. (r, ok tt);
  find_instances_by_method =
      λ r service method. (r, ok ((codes "0.0.0.0" ++ b':' ∷ to_string (pos 8080)) ∷ []));
}

abbrev pub answered : Result Bytes → Bool × Bytes
answered (ok text) = (true, text)
answered (throw _) = (false, [])

abbrev pub deliver : ℕ → Bytes → ℕ × Bool × Bytes
deliver sent wire =
    let (fine, text) = answered (on_message plain runs server wire).1 in (sent + 1, fine, text)

-- The state counts the requests.
abbrev pub line : Transport
line = record { State = ℕ; connect = λ t ip port. (t, ok tt); send = deliver }

pub deliver_ok :
    (wire answer : Bytes)
    → (on_message plain runs server wire).1 ≡ ok answer
    → line.send 0 wire ≡ (1, true, answer)
deliver_ok wire answer e = rw e
