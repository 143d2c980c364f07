-- ===== src/UserService/Client/Workers.antt =====
-- examples/client/user_client.cc: the threads of `main` and their counters. A thread's last step is an
-- atomic increment, and the threads reach it in any order.
use xrpc.Base.{
  ℕ, zero, suc, ◌+◌, ◌%◌, ◌≡◌, subst, refl, ap, sym, ◌∙◌, Bool, true, false, List, [], ◌∷◌, ◌++◌,
  codes, if◌then◌else◌, length, length-append, arith,
}
use xrpc.Base.Int.{ℤ, pos, negsuc}
use xrpc.UserService.{LoginRequest, empty_request}
use xrpc.UserService.Client.Arguments.{Settings}

abbrev pub test_users : List LoginRequest
test_users =
    record { username = codes "test_user"; password = codes "test_pass" }
    ∷ record { username = codes "admin"; password = codes "admin123" }
    ∷ record { username = codes "invalid_user"; password = codes "123" }
    ∷ []

-- `operator[]` of a vector, which the code calls below the size only.
abbrev pub entry : ℕ → List LoginRequest → LoginRequest
entry n [] = empty_request
entry zero (u ∷ us) = u
entry (suc n) (u ∷ us) = entry n us

abbrev pub user_of : ℕ → LoginRequest
user_of i = entry (i % length test_users) test_users

-- What thread `i` does: `--sync` goes before `--async`.
abbrev pub worker : Settings → (LoginRequest → Bool) → (LoginRequest → Bool) → ℕ → Bool
worker s sync_login async_login i =
    let user = user_of i in if s.use_sync then sync_login user else async_login user

-- The counters and the threads that have not counted yet.
pub record Counters : Type 0 where
  pub success_count : ℕ
  pub fail_count : ℕ
  pub running : List ℕ

unfoldable pub count_outcome : Bool → Counters → Counters
count_outcome true c = record c { success_count = c.success_count + 1 }
count_outcome false c = record c { fail_count = c.fail_count + 1 }

-- The loop that starts the threads, from number `i` on.
unfoldable pub threads_from : ℕ → ℕ → List ℕ
threads_from i zero = []
threads_from i (suc n) = i ∷ threads_from (suc i) n

-- A negative count starts none.
abbrev pub launched : ℤ → Counters
launched (pos n) = record { success_count = 0; fail_count = 0; running = threads_from 0 n }
launched (negsuc n) = record { success_count = 0; fail_count = 0; running = [] }

abbrev pub mark : Bool → ℕ
mark true = 1
mark false = 0

module _ (outcome : ℕ → Bool) where
  -- One thread that runs counts its outcome and ends.
  pub data Step (c : Counters) : Counters → Type 0 where
    ends :
        (before after : List ℕ) (i : ℕ)
        → c.running ≡ before ++ i ∷ after
        → Step c (count_outcome (outcome i) (record c { running = before ++ after }))

  pub data Steps : Counters → Counters → Type 0 where
    stop : (c : Counters) → Steps c c
    go : (c d e : Counters) → Step c d → Steps d e → Steps c e

  -- The successes among some threads.
  unfoldable pub successes : List ℕ → ℕ
  successes [] = 0
  successes (i ∷ is) = mark (outcome i) + successes is

  successes-append : (is js : List ℕ) → successes (is ++ js) ≡ successes is + successes js
  unfolding successes
  successes-append [] js = omega arith
  successes-append (i ∷ is) js = omega (arith, successes-append is js)

  -- The counters and the threads still to count.
  pub record Adds (c d : Counters) : Type 0 where
    pub won : c.success_count + successes c.running ≡ d.success_count + successes d.running
    pub all :
        (c.success_count + c.fail_count) + length c.running
        ≡ (d.success_count + d.fail_count) + length d.running

  ends-Adds :
      (b : Bool) (won lost i : ℕ) (before after : List ℕ)
      → outcome i ≡ b
      → Adds
          (record { success_count = won; fail_count = lost; running = before ++ i ∷ after })
          (count_outcome b
            (record { success_count = won; fail_count = lost; running = before ++ after }))
  unfolding count_outcome successes
  ends-Adds true won lost i before after h = record {
    won =
        omega
          (arith, successes-append before (i ∷ after), successes-append before after, ap mark h);
    all = omega (arith, length-append before (i ∷ after), length-append before after);
  }
  ends-Adds false won lost i before after h = record {
    won =
        omega
          (arith, successes-append before (i ∷ after), successes-append before after, ap mark h);
    all = omega (arith, length-append before (i ∷ after), length-append before after);
  }

  step-Adds : (c d : Counters) → Step c d → Adds c d
  step-Adds c d (ends before after i e) =
      subst (λ running. Adds (record c { running = running }) d) (sym e)
        (ends-Adds (outcome i) c.success_count c.fail_count i before after refl)

  steps-Adds : (c d : Counters) → Steps c d → Adds c d
  steps-Adds c d (stop _) = record { won = refl; all = refl }
  steps-Adds c e (go _ d _ step steps) =
      let first = step-Adds c d step in
      let later = steps-Adds d e steps in
      record { won = first.won ∙ later.won; all = first.all ∙ later.all }

  length-threads_from : (i n : ℕ) → length (threads_from i n) ≡ n
  unfolding threads_from
  length-threads_from i zero = refl
  length-threads_from i (suc n) = omega (arith, length-threads_from (suc i) n)

  -- In whatever order the threads end: when none is left, `success_count` is the number of threads
  -- whose login succeeded, and the two counters add up to the number of the threads.
  pub steps-counted :
      (n : ℕ) (c : Counters)
      → Steps (launched (pos n)) c
      → c.running ≡ []
      → (c.success_count ≡ successes (threads_from 0 n)) × (c.success_count + c.fail_count ≡ n)
  unfolding successes
  steps-counted n c steps ended =
      let adds = steps-Adds (launched (pos n)) c steps in
      (
        omega (arith, adds.won, ap successes ended),
        omega (arith, adds.all, ap length ended, length-threads_from 0 n),
      )
