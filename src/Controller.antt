-- ===== src/Controller.antt =====
-- core/controller/xrpc_controller.cc: the state of one call. Each method holds the mutex for its whole body,
-- so calls from several threads are a sequence of the steps below. Closures are pointers; a step
-- returns the ones that it ran.
pub mod Contract
pub mod Reports
use xrpc.Base.{
  ℕ, Bool, true, false, not, ◌&&◌, Option, none, some, List, [], ◌∷◌, ◌++◌, Bytes, if◌then◌else◌,
}

pub record Controller : Type 0 where
  pub failed : Bool
  pub error_text : Bytes
  pub canceled : Bool
  pub cancel_callback : Option ℕ

-- The constructor.
abbrev pub fresh : Controller
fresh = record { failed = false; error_text = []; canceled = false; cancel_callback = none }

-- `if (callback) callback->Run()`.
abbrev pub run_closure : Option ℕ → List ℕ
run_closure none = []
run_closure (some c) = c ∷ []

unfoldable pub reset : Controller → Controller
reset c = record c { failed = false; error_text = []; canceled = false; cancel_callback = none }

unfoldable pub set_failed : Bytes → Controller → Controller
set_failed reason c = record c { failed = true; error_text = reason }

-- `Failed`, `ErrorText` and `IsCanceled`.
unfoldable pub has_failed : Controller → Bool
has_failed c = c.failed

unfoldable pub error_text_of : Controller → Bytes
error_text_of c = c.error_text

unfoldable pub is_canceled : Controller → Bool
is_canceled c = c.canceled

-- The pointer is cleared behind the call.
unfoldable pub start_cancel : Controller → Controller × List ℕ
start_cancel c =
    if c.canceled
    then (c, [])
    else (record c { canceled = true; cancel_callback = none }, run_closure c.cancel_callback)

-- A null pointer is stored and not run.
unfoldable pub notify_on_cancel : Option ℕ → Controller → Controller × List ℕ
notify_on_cancel callback c =
    if c.canceled
    then (record c { cancel_callback = none }, run_closure callback)
    else (record c { cancel_callback = callback }, [])

-- The destructor.
unfoldable pub destroy : Controller → List ℕ
destroy c = if not c.canceled then run_closure c.cancel_callback else []

-- The methods that change the state.
pub data Call : Type 0 where
  resets : Call
  fails : Bytes → Call
  cancels : Call
  notifies : Option ℕ → Call

unfoldable pub step : Call → Controller → Controller × List ℕ
unfolding reset set_failed start_cancel notify_on_cancel
step resets c = (reset c, [])
step (fails reason) c = (set_failed reason c, [])
step cancels c = start_cancel c
step (notifies callback) c = notify_on_cancel callback c

unfoldable pub run : List Call → Controller → Controller × List ℕ
run [] c = (c, [])
run (x ∷ xs) c = let (c', ran) = step x c in let (end, later) = run xs c' in (end, ran ++ later)

-- A whole life: the calls, and the destructor.
unfoldable pub life : List Call → List ℕ
life xs = let (c, ran) = run xs fresh in ran ++ destroy c
