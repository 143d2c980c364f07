-- ===== src/UserService/Client/Retries.antt =====
-- The loop of AsyncLogin in examples/client/user_client.cc: how many attempts it makes.
use xrpc.Base.{
  subst, ℕ, zero, suc, ◌+◌, ◌≤◌, ◌≡◌, refl, sym, inl, inr, Bool, true, false, Result, ok, throw,
  Bytes, Result-cases, Bool-cases, if◌then◌else◌, if_true, if_false, ◌==◌, arith,
}
use xrpc.Proto.{Protobuf}
use xrpc.Codec.ZlibCalls.{Zlib}
use xrpc.Interfaces.{Registry, Transport}
use xrpc.UserService.{LoginRequest, LoginResponse, LoginMessages}
use xrpc.UserService.Client.{
  Attempt, verdict, is_granted, max_retries, attempt, attempts, async_login,
}

module _ (pb : Protobuf) (z : Zlib) (reg : Registry) (tr : Transport) (messages : LoginMessages pb)
    (channels : ℕ → Result (Attempt reg tr)) (request : LoginRequest) where
  -- What attempt `a` leaves in the response, and whether the loop returns true on it.
  abbrev pub left_by : Attempt reg tr → LoginResponse → LoginResponse
  left_by a response = (attempt pb z reg tr messages a request response).1

  abbrev pub wins : Attempt reg tr → LoginResponse → Bool
  wins a response =
      is_granted (verdict (attempt pb z reg tr messages a request response).0 (left_by a response))

  -- From attempt `n` with a response to attempt `k` with another: those between were made and lost.
  pub data Lost : ℕ → LoginResponse → ℕ → LoginResponse → Type 0 where
    here : (n : ℕ) (response : LoginResponse) → Lost n response n response
    lost :
        (n k : ℕ) (a : Attempt reg tr) (response response' : LoginResponse)
        → channels n ≡ ok a
        → wins a response ≡ false
        → Lost (suc n) (left_by a response) k response'
        → Lost n response k response'

  -- How the loop ends at attempt `n`: its channel throws, it wins, or it is the last and loses.
  pub data Ends (n : ℕ) (response : LoginResponse)
      : Result (Bool × ℕ × LoginResponse) → Type 0 where
    no_channel : (what : Bytes) → channels n ≡ throw what → Ends n response (throw what)
    won :
        (a : Attempt reg tr)
        → channels n ≡ ok a
        → wins a response ≡ true
        → Ends n response (ok (true, n, left_by a response))
    gave_up :
        (a : Attempt reg tr)
        → channels n ≡ ok a
        → wins a response ≡ false
        → n ≡ 2
        → Ends n response (ok (false, n, left_by a response))

  abbrev pub Outcome : ℕ → LoginResponse → Result (Bool × ℕ × LoginResponse) → Type 0
  Outcome n response result =
      (k : ℕ) × (response' : LoginResponse) × (n ≤ k)
      × (k ≤ 2)
      × Lost n response k response'
      × Ends k response' result

  again :
      (n : ℕ) (a : Attempt reg tr) (response : LoginResponse)
      (result : Result (Bool × ℕ × LoginResponse))
      → channels n ≡ ok a
      → wins a response ≡ false
      → Outcome (suc n) (left_by a response) result
      → Outcome n response result
  again n a response result opened loses (k, response', low, high, before, ends) =
      (k, response', omega arith, high, lost n k a response response' opened loses before, ends)

  abbrev looped : ℕ → ℕ → LoginResponse → Result (Bool × ℕ × LoginResponse)
  looped left n response = attempts pb z reg tr messages left n channels request response

  looped_closed :
      (left n : ℕ) (response : LoginResponse) (what : Bytes)
      → channels n ≡ throw what
      → looped (suc left) n response ≡ throw what
  unfolding attempts
  looped_closed left n response what e = rw e

  looped_opened :
      (left n : ℕ) (a : Attempt reg tr) (response : LoginResponse)
      → channels n ≡ ok a
      → looped (suc left) n response ≡ (
          if wins a response
          then ok (true, n, left_by a response)
          else if n == max_retries
          then ok (false, n, left_by a response)
          else looped left (suc n) (left_by a response))
  unfolding attempts
  looped_opened left n a response e = rw e

  abbrev after_loss : ℕ → ℕ → LoginResponse → Result (Bool × ℕ × LoginResponse)
  after_loss left n response' =
      if n == max_retries then ok (false, n, response') else looped left (suc n) response'

  round :
      (left n : ℕ) (response : LoginResponse)
      → 1 ≤ n
      → n ≤ 2
      → ((a : Attempt reg tr)
          → channels n ≡ ok a
          → wins a response ≡ false
          → Outcome n response (after_loss left n (left_by a response)))
      → Outcome n response (looped (suc left) n response)
  round left n response low high next = elim (Result-cases (channels n)) [
    | inr (what, closed) ↦ (
      n,
      response,
      omega arith,
      high,
      here n response,
      subst (Ends n response) (sym (looped_closed left n response what closed))
          (no_channel what closed),
    )
    | inl (a, opened) ↦
        subst (Outcome n response) (sym (looped_opened left n a response opened))
          (elim (Bool-cases (wins a response)) [
            | inl wins_now ↦ (
              n,
              response,
              omega arith,
              high,
              here n response,
              subst (Ends n response) (sym (if_true _ _ wins_now)) (won a opened wins_now),
            )
            | inr loses ↦
                subst (Outcome n response) (sym (if_false _ _ loses)) (next a opened loses)
          ])
  ]

  attempts-Outcome :
      (left n : ℕ) (response : LoginResponse)
      → 1 ≤ n
      → left + n ≡ 2
      → Outcome n response (looped (suc left) n response)
  attempts-Outcome zero n response low fuel =
      round zero n response low (omega arith) λ a opened loses. (
        n,
        response,
        omega arith,
        omega arith,
        here n response,
        subst (Ends n response) (sym (if_true {b = n == max_retries} _ _ (ground arith)))
            (gave_up a opened loses (omega arith)),
      )
  attempts-Outcome (suc left) n response low fuel =
      round (suc left) n response low (omega arith) λ a opened loses.
        subst (Outcome n response) (sym (if_false {b = n == max_retries} _ _ (ground arith))) (
          again n a response _ opened loses
            (attempts-Outcome left (suc n) (left_by a response) (omega arith) (omega arith)))

  -- AsyncLogin makes one attempt or two. Every attempt before the last lost; the last one won and it
  -- returns true, or it was the second and lost and it returns false, or its channel threw and it throws
  -- the same.
  pub async_login-Outcome :
      (response : LoginResponse)
      → Outcome 1 response (async_login pb z reg tr messages channels request response)
  unfolding async_login
  async_login-Outcome response = attempts-Outcome 1 1 response (omega arith) refl
