-- ===== src/UserService/Client/Tally.antt =====
-- The threads of examples/client/user_client.cc against the users of examples/server/user_server.cc.
use xrpc.Base.{
  ℕ, zero, suc, ◌+◌, ◌-◌, ◌/◌, ◌%◌, ◌<◌, ◌≡◌, refl, ap, ◌∙◌, Bool, [], inl, inr, Bool-cases,
  if_true, if_false, arith, text_eq,
}
use xrpc.Base.Int.{pos}
use xrpc.Base.Dict.{lookup, insert}
use xrpc.UserService.{LoginRequest, new_users, validate}
use xrpc.UserService.Logins.{accepts}
use xrpc.UserService.Client.Arguments.{Settings}
use xrpc.UserService.Client.Workers.{
  test_users, entry, user_of, worker, Counters, threads_from, launched, Steps, mark, successes,
  steps-counted,
}

-- Of the three test users, the server knows the first two.
accepts-entry : (k : ℕ) → k < 3 → mark (accepts new_users (entry k test_users)) ≡ 1 - k / 2
unfolding new_users validate lookup text_eq insert
accepts-entry zero h = refl
accepts-entry (suc zero) h = refl
accepts-entry (suc (suc zero)) h = refl
accepts-entry (suc (suc (suc k))) h = omega arith

successes-threads_from :
    (outcome : ℕ → Bool) (i n : ℕ)
    → ((k : ℕ) → mark (outcome k) ≡ 1 - k % 3 / 2)
    → successes outcome (threads_from i n) + (i + n) / 3 ≡ n + i / 3
unfolding successes threads_from
successes-threads_from outcome i zero known = omega arith
successes-threads_from outcome i (suc n) known =
    omega (arith, known i, successes-threads_from outcome (suc i) n known)

worker-known :
    (s : Settings) (sync_login async_login : LoginRequest → Bool) (i : ℕ)
    → ((u : LoginRequest) → sync_login u ≡ accepts new_users u)
    → ((u : LoginRequest) → async_login u ≡ accepts new_users u)
    → mark (worker s sync_login async_login i) ≡ 1 - i % 3 / 2
worker-known s sync_login async_login i fine fine' =
    ap mark (elim (Bool-cases s.use_sync) [
      | inl chosen ↦ if_true _ _ chosen ∙ fine (user_of i)
      | inr other ↦ if_false _ _ other ∙ fine' (user_of i)
    ])
    ∙ accepts-entry (i % 3) (omega arith)

-- When each login returns true exactly on what the example server accepts, then in whatever order the
-- threads end, the client counts one failure in three threads and successes for the others.
pub steps-accepts :
    (s : Settings) (sync_login async_login : LoginRequest → Bool) (n : ℕ) (c : Counters)
    → ((u : LoginRequest) → sync_login u ≡ accepts new_users u)
    → ((u : LoginRequest) → async_login u ≡ accepts new_users u)
    → Steps (worker s sync_login async_login) (launched (pos n)) c
    → c.running ≡ []
    → (c.fail_count ≡ n / 3) × (c.success_count + n / 3 ≡ n)
steps-accepts s sync_login async_login n c fine fine' steps ended =
    let outcome = worker s sync_login async_login in
    let (won, all) = steps-counted outcome n c steps ended in
    let total =
      successes-threads_from outcome 0 n
        (λ k. worker-known s sync_login async_login k fine fine') in
    (omega arith, omega arith)
