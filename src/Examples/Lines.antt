-- ===== src/Examples/Lines.antt =====
-- A network in memory, which hands on what was written, and a line over it to a server that counts.
use xrpc.Base.{
  ℕ, zero, suc, ◌+◌, ◌≡◌, refl, ap, Bool, true, false, none, some, List, [], ◌∷◌, ◌++◌, Bytes,
  codes, ok, arith, if◌then◌else◌, ◌==◌, Option-cases, inl, inr,
}
use xrpc.Transport.{
  Asio, AsioTransport, Pending, client_read, async_write, async_read, accept, server_read, take_nth,
}
use xrpc.Transport.Counts.{count}
use xrpc.Transport.Callbacks.{carries}
use xrpc.Transport.Waiting.{reads_response}
use xrpc.Transport.Serving.{reads}
use xrpc.Transport.Line.{Streams, Network, IsWhole, Alone, accepting, Line}
use xrpc.Transport.Line.Calling.{IsJoined}
use xrpc.Transport.Line.Sequence.{call_all, results, ask_all-call_all}

-- What was written on each socket.
abbrev pub memory : Asio
memory = record {
  State = ℕ → Bytes;
  is_address = λ ip. true;
  connect = λ n s ip port. (n, none);
  write = λ n s text. ((λ k. if k == s then n s ++ text else n k), none);
  listen = λ n ip port. (n, true);
  is_open = λ n s. true;
  has_peer = λ n s. true;
  close = λ n s. n;
}

pub own_write :
    (n : ℕ → Bytes) (s : ℕ) (text : Bytes) → (if s == s then n s ++ text else n s) ≡ n s ++ text
own_write n s text = ground arith

abbrev pub streams : Streams memory
streams = record {
  sent = λ n s. n s;
  takes = λ n s text h. (refl, refl, own_write n s text);
  knows = λ n s h. refl;
  joins = λ n s ip port h. refl;
}

-- The first operation of a kind, and its place.
abbrev pub seek : (Pending → Bool) → List Pending → ℕ × Pending
seek test [] = (0, client_read)
seek test (p ∷ ps) = let (n, q) = seek test ps in if test p then (0, p) else (suc n, q)

abbrev pub socket_of : Pending → ℕ
socket_of (accept s) = s
socket_of _ = 0

abbrev pub hands_on : Network
hands_on = record {
  accepted = λ ps. let (n, p) = seek accepting ps in (socket_of p, (n, ok []) ∷ []);
  inputs = λ s text ps. ((seek (reads s) ps).0, ok text) ∷ [];
  outputs = λ text ps. ((seek reads_response ps).0, ok text) ∷ [];
  borrowed = λ text. text;
  written = λ callback ps. ((seek (carries callback) ps).0, ok []) ∷ [];
  posted = λ callback text ps. ((seek (carries callback) ps).0, ok text) ∷ [];
}

seek-Alone :
    (test : Pending → Bool) (n : ℕ) (p : Pending) (ps rest : List Pending)
    → test p ≡ true
    → Alone test n p ps rest
    → seek test ps ≡ (n, p)
unfolding take_nth count
seek-Alone test n p [] rest h (taken, alone) = absurd (ground (arith, taken))
seek-Alone test zero p (q ∷ ps) rest h (taken, alone) = ground (arith, h, taken)
seek-Alone test (suc n) p (q ∷ ps) rest h (taken, alone) = elim (Option-cases (take_nth n ps)) [
  | inl e ↦ absurd (ground (arith, e, taken))
  | inr ((r, rs), e) ↦ ground (arith, e, h, taken, alone, seek-Alone test n p ps rs h)
]

same : (n : ℕ) → (n == n) ≡ true
same n = ground arith

pub hands_on-IsWhole : IsWhole hands_on
hands_on-IsWhole = record {
  accepts_it = λ n s ps rest alone.
      ap (λ (x : ℕ × Pending). (socket_of x.1, (x.0, ok []) ∷ []))
        (seek-Alone accepting n (accept s) ps rest refl alone);
  gives_request = λ n s text ps rest short alone.
      ap (λ (x : ℕ × Pending). (x.0, ok text) ∷ [])
        (seek-Alone (reads s) n (server_read s) ps rest (same s) alone);
  gives_answer = λ n text ps rest short alone.
      ap (λ (x : ℕ × Pending). (x.0, ok text) ∷ [])
        (seek-Alone reads_response n client_read ps rest refl alone);
  ends_write = λ n callback ps rest alone.
      ap (λ (x : ℕ × Pending). (x.0, ok []) ∷ [])
        (seek-Alone (carries callback) n (async_write callback) ps rest (same callback) alone);
  gives_posted = λ n callback text ps rest short alone.
      ap (λ (x : ℕ × Pending). (x.0, ok text) ∷ [])
        (seek-Alone (carries callback) n (async_read callback) ps rest (same callback) alone);
}

-- A server that puts the number of the request before it.
abbrev pub numbers : ℕ → Bytes → ℕ × Bytes
numbers n text = (n + 1, n ∷ text)

abbrev pub end_of : AsioTransport memory ℕ
end_of = record {
  client_socket = some 4;
  listening = true;
  server_callback = some numbers;
  response = [];
  response_received = false;
  server_sockets = [];
  next_socket = 5;
  pending = server_read 3 ∷ [];
  live = true;
  world = 0;
  net = λ s. [];
}

abbrev both : Line memory memory ℕ ℕ
both = record { client = end_of; server = end_of; peer = 3 }

both-IsJoined : IsJoined streams streams hands_on numbers 4 both
unfolding take_nth count
both-IsJoined = record {
  client_up = refl;
  socket = refl;
  reachable = refl;
  quiet = refl;
  server_up = refl;
  serves = refl;
  peer_reachable = refl;
  place = 0;
  others = [];
  waits = (refl, refl);
}

abbrev twice : List Bytes
twice = codes "a" ∷ codes "b" ∷ []

ask_all-call_all_example :
    results streams streams hands_on hands_on-IsWhole numbers 4 (λ l. (l, false, [])) both twice
    ≡ call_all numbers 0 twice
ask_all-call_all_example =
    ask_all-call_all streams streams hands_on hands_on-IsWhole numbers 4 (λ l. (l, false, [])) both
      twice both-IsJoined (omega arith)
