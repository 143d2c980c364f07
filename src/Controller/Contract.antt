-- ===== src/Controller/Contract.antt =====
-- What a caller of `RpcController` may rely on.
use xrpc.Base.{
  ℕ, ◌+◌, ◌≤◌, ◌≡◌, refl, ◌∙◌, ap, true, false, Option, none, some, List, [], ◌∷◌, ◌++◌, arith,
  ◌==◌, if◌then◌else◌, append_assoc, All, Bool-cases, inl, inr,
}
use xrpc.Controller.{
  Controller, fresh, run_closure, set_failed, start_cancel, notify_on_cancel, destroy, Call, resets,
  fails, cancels, notifies, step, run, life,
}

abbrev pub count : ℕ → List ℕ → ℕ
count c [] = 0
count c (x ∷ xs) = (if x == c then 1 else 0) + count c xs

count-append : (c : ℕ) (xs ys : List ℕ) → count c (xs ++ ys) ≡ count c xs + count c ys
count-append c [] ys = omega arith
count-append c (x ∷ xs) ys = omega (arith, count-append c xs ys)

-- How often a closure is handed over.
abbrev pub registered : ℕ → List Call → ℕ
registered c [] = 0
registered c (notifies callback ∷ xs) = count c (run_closure callback) + registered c xs
registered c (resets ∷ xs) = registered c xs
registered c (fails _ ∷ xs) = registered c xs
registered c (cancels ∷ xs) = registered c xs

step-count :
    (c : ℕ) (x : Call) (s : Controller)
    → count c (step x s).1 + count c (run_closure (step x s).0.cancel_callback)
      ≤ count c (run_closure s.cancel_callback) + registered c (x ∷ [])
unfolding step
step-count c resets s = omega arith
step-count c (fails r) s = omega arith
step-count c cancels s = ground arith
step-count c (notifies f) s = ground arith

registered-cons :
    (c : ℕ) (x : Call) (xs : List Call)
    → registered c (x ∷ xs) ≡ registered c (x ∷ []) + registered c xs
registered-cons c resets xs = omega arith
registered-cons c (fails r) xs = omega arith
registered-cons c cancels xs = omega arith
registered-cons c (notifies f) xs = omega arith

run-count :
    (c : ℕ) (xs : List Call) (s : Controller)
    → count c (run xs s).1 + count c (run_closure (run xs s).0.cancel_callback)
      ≤ count c (run_closure s.cancel_callback) + registered c xs
unfolding run
run-count c [] s = omega arith
run-count c (x ∷ xs) s = omega (
  arith,
  step-count c x s,
  run-count c xs (step x s).0,
  registered-cons c x xs,
  count-append c (step x s).1 (run xs (step x s).0).1,
)

-- In no life of a controller, whatever calls it gets, its destructor included, does a closure run
-- more often than it was handed to NotifyOnCancel.
pub life-le-registered : (c : ℕ) (xs : List Call) → count c (life xs) ≤ registered c xs
unfolding life
life-le-registered c xs =
    omega (
      arith,
      run-count c xs fresh,
      count-append c (run xs fresh).1 (destroy (run xs fresh).0),
      last,
    )
  where
    last :
        count c (destroy (run xs fresh).0) ≤ count c (run_closure (run xs fresh).0.cancel_callback)
    last = unfold destroy in ground arith

-- The calls that neither hand over a closure nor start over.
abbrev IsQuiet : Call → Type 0
IsQuiet resets = ⊥
IsQuiet (fails _) = Unit {0}
IsQuiet cancels = Unit {0}
IsQuiet (notifies _) = ⊥

start_cancel_again : (s : Controller) → s.canceled ≡ true → start_cancel s ≡ (s, [])
unfolding start_cancel
start_cancel_again s h = ground arith

start_cancel_first :
    (s : Controller)
    → s.canceled ≡ false
    → start_cancel s
      ≡ (record s { canceled = true; cancel_callback = none }, run_closure s.cancel_callback)
unfolding start_cancel
start_cancel_first s h = ground arith

notify_late :
    (f : Option ℕ) (s : Controller)
    → s.canceled ≡ true
    → notify_on_cancel f s ≡ (record s { cancel_callback = none }, run_closure f)
unfolding notify_on_cancel
notify_late f s h = ground arith

notify_early :
    (f : Option ℕ) (s : Controller)
    → s.canceled ≡ false
    → notify_on_cancel f s ≡ (record s { cancel_callback = f }, [])
unfolding notify_on_cancel
notify_early f s h = ground arith

-- What runs from `s` on.
abbrev outcome : List Call → Controller → List ℕ
outcome xs s = (run xs s).1 ++ destroy (run xs s).0

outcome-cons :
    (x : Call) (xs : List Call) (s : Controller)
    → outcome (x ∷ xs) s ≡ (step x s).1 ++ outcome xs (step x s).0
unfolding run
outcome-cons x xs s =
    append_assoc (step x s).1 (run xs (step x s).0).1 (destroy (run xs (step x s).0).0)

outcome_done :
    (xs : List Call) (s : Controller)
    → All IsQuiet xs
    → s.canceled ≡ true
    → s.cancel_callback ≡ none
    → outcome xs s ≡ []
unfolding step
outcome_done [] s q t e = unfold run destroy in ground arith
outcome_done (resets ∷ xs) s q t e = absurd q.0
outcome_done (fails r ∷ xs) s q t e =
    outcome-cons (fails r) xs s ∙ outcome_done xs (set_failed r s) q.1 t e
outcome_done (cancels ∷ xs) s q t e =
    outcome-cons cancels xs s ∙ rw (start_cancel_again s t) (outcome_done xs s q.1 t e)
outcome_done (notifies f ∷ xs) s q t e = absurd q.0

-- Once a closure is stored, quiet calls and the destructor run it once between them.
outcome_stored :
    (f : ℕ) (xs : List Call) (s : Controller)
    → All IsQuiet xs
    → s.canceled ≡ false
    → s.cancel_callback ≡ some f
    → outcome xs s ≡ f ∷ []
unfolding step
outcome_stored f [] s q n e = unfold run destroy in ground arith
outcome_stored f (resets ∷ xs) s q n e = absurd q.0
outcome_stored f (fails r ∷ xs) s q n e =
    outcome-cons (fails r) xs s ∙ outcome_stored f xs (set_failed r s) q.1 n e
outcome_stored f (cancels ∷ xs) s q n e =
    outcome-cons cancels xs s
    ∙ rw (start_cancel_first s n, e) (ap (◌∷◌ f) (outcome_done xs _ q.1 refl refl))
outcome_stored f (notifies g ∷ xs) s q n e = absurd q.0

outcome_awaits :
    (f : ℕ) (xs later : List Call) (s : Controller)
    → All IsQuiet xs
    → All IsQuiet later
    → s.cancel_callback ≡ none
    → outcome (xs ++ notifies (some f) ∷ later) s ≡ f ∷ []
unfolding step
outcome_awaits f [] later s q l e =
    outcome-cons (notifies (some f)) later s ∙ elim (Bool-cases s.canceled) [
      | inl h ↦ rw (notify_late (some f) s h) (ap (◌∷◌ f) (outcome_done later _ l h refl))
      | inr h ↦ rw (notify_early (some f) s h) (outcome_stored f later _ l h refl)
    ]
outcome_awaits f (resets ∷ xs) later s q l e = absurd q.0
outcome_awaits f (fails r ∷ xs) later s q l e =
    outcome-cons (fails r) _ s ∙ outcome_awaits f xs later (set_failed r s) q.1 l e
outcome_awaits f (cancels ∷ xs) later s q l e =
    outcome-cons cancels _ s ∙ elim (Bool-cases s.canceled) [
      | inl h ↦ rw (start_cancel_again s h) (outcome_awaits f xs later s q.1 l e)
      | inr h ↦ rw (start_cancel_first s h, e) (outcome_awaits f xs later _ q.1 l refl)
    ]
outcome_awaits f (notifies g ∷ xs) later s q l e = absurd q.0

-- A closure that is handed to NotifyOnCancel once, in a life with no Reset and no other call of it,
-- runs exactly once, be the call canceled before, after or never: the destructor runs it at the
-- latest.
pub life_once :
    (f : ℕ) (earlier later : List Call)
    → All IsQuiet earlier
    → All IsQuiet later
    → life (earlier ++ notifies (some f) ∷ later) ≡ f ∷ []
unfolding life
life_once f earlier later q l = outcome_awaits f earlier later fresh q l refl
