-- ===== src/Controller/Reports.antt =====
-- What `Failed`, `ErrorText` and `IsCanceled` of core/controller/xrpc_controller.cc report of the calls before.
use xrpc.Base.{ℕ, ◌≡◌, refl, Bool, true, false, Option, List, [], ◌∷◌, Bytes, arith}
use xrpc.Controller.{
  Controller, has_failed, error_text_of, is_canceled, reset, set_failed, start_cancel,
  notify_on_cancel, Call, resets, fails, cancels, notifies, step, run,
}

-- Whether SetFailed was called since the last Reset, or before all if it was then.
abbrev failed_after : Bool → List Call → Bool
failed_after old [] = old
failed_after old (resets ∷ xs) = failed_after false xs
failed_after old (fails _ ∷ xs) = failed_after true xs
failed_after old (cancels ∷ xs) = failed_after old xs
failed_after old (notifies _ ∷ xs) = failed_after old xs

-- The text of the last SetFailed since the last Reset, empty if there was none.
abbrev text_after : Bytes → List Call → Bytes
text_after old [] = old
text_after old (resets ∷ xs) = text_after [] xs
text_after old (fails reason ∷ xs) = text_after reason xs
text_after old (cancels ∷ xs) = text_after old xs
text_after old (notifies _ ∷ xs) = text_after old xs

abbrev canceled_after : Bool → List Call → Bool
canceled_after old [] = old
canceled_after old (resets ∷ xs) = canceled_after false xs
canceled_after old (fails _ ∷ xs) = canceled_after old xs
canceled_after old (cancels ∷ xs) = canceled_after true xs
canceled_after old (notifies _ ∷ xs) = canceled_after old xs

start_cancel-reports :
    (s : Controller)
    → (has_failed (start_cancel s).0 ≡ has_failed s)
      × (error_text_of (start_cancel s).0 ≡ error_text_of s)
      × (is_canceled (start_cancel s).0 ≡ true)
unfolding start_cancel has_failed error_text_of is_canceled
start_cancel-reports s = ground arith

notify-reports :
    (f : Option ℕ) (s : Controller)
    → (has_failed (notify_on_cancel f s).0 ≡ has_failed s)
      × (error_text_of (notify_on_cancel f s).0 ≡ error_text_of s)
      × (is_canceled (notify_on_cancel f s).0 ≡ is_canceled s)
unfolding notify_on_cancel has_failed error_text_of is_canceled
notify-reports f s = ground arith

-- What the three queries give after the calls.
abbrev pub Reports : List Call → Controller → Type 0
Reports xs s =
    (has_failed (run xs s).0 ≡ failed_after (has_failed s) xs)
    × (error_text_of (run xs s).0 ≡ text_after (error_text_of s) xs)
    × (is_canceled (run xs s).0 ≡ canceled_after (is_canceled s) xs)

-- After any calls, Failed reports whether SetFailed was called since the last Reset, ErrorText
-- the text of the last SetFailed since then, or the empty text, and IsCanceled whether
-- StartCancel was called since then; before the first Reset each goes on from what it reported.
pub run-Reports : (xs : List Call) (s : Controller) → Reports xs s
unfolding run step reset set_failed has_failed error_text_of is_canceled
run-Reports [] s = (refl, refl, refl)
run-Reports (resets ∷ xs) s = run-Reports xs (reset s)
run-Reports (fails r ∷ xs) s = run-Reports xs (set_failed r s)
run-Reports (cancels ∷ xs) s =
    let (failed, text, canceled) = start_cancel-reports s in
    rw (failed, text, canceled) at (run-Reports xs (start_cancel s).0)
run-Reports (notifies f ∷ xs) s =
    let (failed, text, canceled) = notify-reports f s in
    rw (failed, text, canceled) at (run-Reports xs (notify_on_cancel f s).0)
