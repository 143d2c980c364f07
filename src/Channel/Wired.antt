-- ===== src/Channel/Wired.antt =====
-- A request of core/channel/xrpc_channel.cc over a line of transport/asio_transport.cc to the OnMessage of
-- core/server/xrpc_server.cc.
use xrpc.Base.{ℕ, ◌≡◌, ap, ◌∙◌, subst, Bool, true, Bytes, Result, ok, [], ◌∷◌}
use xrpc.Proto.{Protobuf}
use xrpc.Codec.ZlibCalls.{Zlib}
use xrpc.Server.{Server, on_message}
use xrpc.Server.Lifecycle.{text_of_answer}
use xrpc.Server.Process.{on_this}
use xrpc.Transport.{Asio, Calls}
use xrpc.Transport.Counts.{count}
use xrpc.Transport.Callbacks.{carries}
use xrpc.Transport.Line.Posting.{post, post-after}
use xrpc.Transport.Line.{Streams, Network, IsWhole, OneRead, Line, ask}
use xrpc.Transport.Line.Calling.{IsJoined, after, ask-after}

module _ (pb : Protobuf) (z : Zlib) {a b : Asio} (sa : Streams a) (sb : Streams b) (w : Network)
    (whole : IsWhole w) {V W : Type 0} (c : ℕ) (l : Line a b V (Server pb W))
    (unended : Line a b V (Server pb W) → Line a b V (Server pb W) × Bool × Bytes)
    (j : IsJoined sa sb w (on_this pb z) c l) (encoded : Result Bytes) (wire : Bytes)
    (sent : encoded ≡ ok wire) (short : OneRead wire)
    (brief : OneRead (text_of_answer (on_message pb z l.server.world wire).1)) where
  -- The line after the call.
  abbrev pub line_after : Line a b V (Server pb W)
  line_after = after sa sb w (on_this pb z) c l wire j.others

  delivers_wire :
      (answer : Bytes)
      → (on_message pb z l.server.world wire).1 ≡ ok answer
      → ask sa sb w unended l wire ≡ (line_after, true, answer)
  unfolding on_this
  delivers_wire answer handled =
      ask-after sa sb w (on_this pb z) c whole l wire j short brief unended
      ∙ ap (λ (r : Result Bytes). (line_after, true, text_of_answer r)) handled

  -- What holds of the request that was encoded holds of every text that it is.
  same_text : (P : Bytes → Type 0) (text : Bytes) → encoded ≡ ok text → P wire → P text
  same_text P text e = subst P (cc (sent, e))

  -- The encoded request reaches OnMessage, and its answer comes back.
  pub delivers :
      (text answer : Bytes)
      → encoded ≡ ok text
      → (on_message pb z l.server.world text).1 ≡ ok answer
      → ask sa sb w unended l text ≡ (line_after, true, answer)
  delivers text answer e =
      same_text
        (λ text.
          (on_message pb z l.server.world text).1 ≡ ok answer
          → ask sa sb w unended l text ≡ (line_after, true, answer))
        text e (delivers_wire answer)

  module _ (kept : w.borrowed wire ≡ wire) (id : ℕ)
      (fresh : count (carries id) l.client.pending ≡ 0) where
    posts_wire :
        (answer : Bytes)
        → (on_message pb z l.server.world wire).1 ≡ ok answer
        → (post sb w l wire id).1 ≡ (id, answer, true) ∷ []
    unfolding on_this
    posts_wire answer handled =
        ap (λ (r : Line a b V (Server pb W) × Calls). r.1)
          (post-after sa sb w (on_this pb z) c whole l wire id j fresh kept short brief)
        ∙ ap (λ (r : Result Bytes). (id, text_of_answer r, true) ∷ []) handled

    -- The callback of SendAsync is called once, with the answer, if its write reads the request before it is freed.
    pub posts :
        (text answer : Bytes)
        → encoded ≡ ok text
        → (on_message pb z l.server.world text).1 ≡ ok answer
        → (post sb w l text id).1 ≡ (id, answer, true) ∷ []
    posts text answer e =
        same_text
          (λ text.
            (on_message pb z l.server.world text).1 ≡ ok answer
            → (post sb w l text id).1 ≡ (id, answer, true) ∷ [])
          text e (posts_wire answer)
