-- ===== src/Transport/Line/Sequence.antt =====
-- Sends of transport/asio_transport.cc over a line, one after another.
use xrpc.Base.{ℕ, ◌≡◌, refl, ap, Bool, true, List, [], ◌∷◌, Bytes}
use xrpc.Transport.{Asio}
use xrpc.Transport.Line.{Streams, Network, IsWhole, OneRead, Line, ask}
use xrpc.Transport.Line.Calling.{IsJoined, after, ask-after, after-IsJoined}

module _ {a b : Asio} (sa : Streams a) (sb : Streams b) (w : Network) {V W : Type 0} where
  unfoldable pub ask_all :
      (Line a b V W → Line a b V W × Bool × Bytes)
      → Line a b V W
      → List Bytes
      → Line a b V W × List (Bool × Bytes)
  ask_all unended l [] = (l, [])
  ask_all unended l (text ∷ texts) =
      let (l', sent, answer) = ask sa sb w unended l text in
      let (l'', answers) = ask_all unended l' texts in (l'', (sent, answer) ∷ answers)

module _ {W : Type 0} (callback : W → Bytes → W × Bytes) where
  -- What plain calls of the callback give.
  unfoldable pub call_all : W → List Bytes → W × List (Bool × Bytes)
  call_all world [] = (world, [])
  call_all world (text ∷ texts) =
      let (world', answer) = callback world text in
      let (world'', answers) = call_all world' texts in (world'', (true, answer) ∷ answers)

  -- Each request and each answer of such calls fits one read.
  abbrev pub AllOneRead : W → List Bytes → Type 0
  AllOneRead world [] = Unit {0}
  AllOneRead world (text ∷ texts) =
      OneRead text × OneRead (callback world text).1 × AllOneRead (callback world text).0 texts

module _ {a b : Asio} (sa : Streams a) (sb : Streams b) (w : Network) (whole : IsWhole w)
    {V W : Type 0} (callback : W → Bytes → W × Bytes) (c : ℕ)
    (unended : Line a b V W → Line a b V W × Bool × Bytes) where
  -- The server's data and the answers after the Sends.
  abbrev pub results : Line a b V W → List Bytes → W × List (Bool × Bytes)
  results l texts =
      let (l', answers) = ask_all sa sb w unended l texts in (l'.server.world, answers)

  -- Over a connection whose ends are up, with each request and each answer of 1 to 8192 bytes and given whole by
  -- one read, any number of Sends, one after another, all return true with the answers that plain calls of the
  -- server's callback give, and leave the server's data as these calls do.
  pub ask_all-call_all :
      (l : Line a b V W) (texts : List Bytes)
      → IsJoined sa sb w callback c l
      → AllOneRead callback l.server.world texts
      → results l texts ≡ call_all callback l.server.world texts
  unfolding ask_all call_all
  ask_all-call_all l [] j fit = refl
  ask_all-call_all l (text ∷ texts) j (short, brief, fit) =
      rw (ask-after sa sb w callback c whole l text j short brief unended) (
        ap (λ (p : W × List (Bool × Bytes)). (p.0, (true, (callback l.server.world text).1) ∷ p.1))
          (ask_all-call_all (after sa sb w callback c l text j.others) texts
            (after-IsJoined sa sb w callback c whole l text j short brief) fit))
