-- ===== src/UserService/Client/Arguments.antt =====
-- examples/client/user_client.cc: the arguments of `main`, up to the start of the threads.
use xrpc.Base.{
  ℕ, ◌≡◌, refl, ap, sym, ◌∙◌, subst, Bool, true, false, not, ◌&&◌, ◌||◌, List, [], ◌∷◌, Bytes,
  codes, text_eq, ltb, if◌then◌else◌, if_both, if_false, Result, ok, throw, append-nil, arith,
}
use xrpc.Base.Int.{ℤ, pos, negsuc, IsInt32}
use xrpc.Base.Decimal.{stoi, to_string}
use xrpc.Base.Decimal.Range.{Fits, stoi-Fits}
use xrpc.Base.Decimal.RoundTrip.{stoi-to_string}

pub record Settings : Type 0 where
  pub use_sync : Bool
  pub use_async : Bool
  pub thread_count : ℤ

abbrev pub defaults : Settings
defaults = record { use_sync = false; use_async = false; thread_count = pos 1 }

-- `main` goes on with these settings, prints the usage and returns a code, or is left by the
-- exception of `std::stoi`.
pub data Parsed : Type 0 where
  run : Settings → Parsed
  usage : ℕ → Parsed
  thrown : Bytes → Parsed

-- The tests on one argument, in their order; the one on `--threads` without what stands behind it.
pub data Flag : Type 0 where
  sync async threads help other : Flag

unfoldable pub flag_of : Bytes → Flag
flag_of arg =
    if text_eq arg (codes "--sync")
    then sync
    else if text_eq arg (codes "--async")
    then async
    else if text_eq arg (codes "--threads")
    then threads
    else if text_eq arg (codes "--help")
    then help
    else other

-- `thread_count < 1`.
abbrev pub below_one : ℤ → Bool
below_one (pos n) = ltb n 1
below_one (negsuc n) = true

-- The test after the loop.
abbrev pub checked : Settings → Parsed
checked s = if not s.use_sync && not s.use_async then usage 1 else run s

abbrev pub counted : Result ℤ → (ℤ → Parsed) → Parsed
counted (throw what) next = thrown what
counted (ok n) next = if below_one n then usage 1 else next n

-- The tests on the last argument: a `--threads` without a value is none of the flags.
abbrev pub last_flag : Flag → Settings → Parsed
last_flag sync s = checked (record s { use_sync = true })
last_flag async s = checked (record s { use_async = true })
last_flag threads s = usage 1
last_flag help s = usage 0
last_flag other s = usage 1

-- The tests on an argument with a `value` behind it: `next` goes on at the value, `after` behind it.
abbrev pub on_flag : Flag → Result ℤ → Settings → (Settings → Parsed) → (Settings → Parsed) → Parsed
on_flag sync value s next after = next (record s { use_sync = true })
on_flag async value s next after = next (record s { use_async = true })
on_flag threads value s next after = counted value (λ n. after (record s { thread_count = n }))
on_flag help value s next after = usage 0
on_flag other value s next after = usage 1

-- `argv` from the second entry on.
unfoldable pub parse_args : List Bytes → Settings → Parsed
parse_args [] s = checked s
parse_args (arg ∷ []) s = last_flag (flag_of arg) s
parse_args (arg ∷ value ∷ args) s =
    on_flag (flag_of arg) (stoi value) s (parse_args (value ∷ args)) (parse_args args)

-- A line of arguments for the settings.
abbrev pub flags_of : Settings → List Bytes → List Bytes
flags_of s rest =
    let asked = if s.use_async then codes "--async" ∷ rest else rest in
    if s.use_sync then codes "--sync" ∷ asked else asked

abbrev pub args_of : Settings → List Bytes
args_of s = codes "--threads" ∷ to_string s.thread_count ∷ flags_of s []

-- The thread count is a positive `int`, and a way of calling was chosen.
pub record IsRunnable (s : Settings) : Type 0 where
  pub positive : below_one s.thread_count ≡ false
  pub fits : IsInt32 s.thread_count
  pub chosen : (s.use_sync || s.use_async) ≡ true

parse_args-flags_of :
    (a b : Bool) (n m : ℤ)
    → (a || b) ≡ true
    → parse_args
        (flags_of (record { use_sync = a; use_async = b; thread_count = n }) [])
        (record { use_sync = false; use_async = false; thread_count = m })
      ≡ run (record { use_sync = a; use_async = b; thread_count = m })
unfolding parse_args flag_of text_eq
parse_args-flags_of true true n m h = refl
parse_args-flags_of true false n m h = refl
parse_args-flags_of false true n m h = refl
parse_args-flags_of false false n m h = ground arith

parse_args_threads :
    (value : Bytes) (args : List Bytes) (s : Settings)
    → parse_args (codes "--threads" ∷ value ∷ args) s
      ≡ counted (stoi value) (λ n. parse_args args (record s { thread_count = n }))
unfolding parse_args flag_of text_eq
parse_args_threads value args s = refl

-- Any settings with a positive `int` for the threads and a way of calling can be asked for, without
-- an upper bound on the threads but that of `int`.
pub parse_args-args_of : (s : Settings) → IsRunnable s → parse_args (args_of s) defaults ≡ run s
parse_args-args_of s w =
    let read =
      ap stoi (sym (append-nil (to_string s.thread_count)))
      ∙ stoi-to_string s.thread_count [] w.fits tt in
    parse_args_threads (to_string s.thread_count) (flags_of s []) defaults
    ∙ ap (λ r. counted r (λ n. parse_args (flags_of s []) (record defaults { thread_count = n })))
        read
    ∙ if_false _ _ w.positive
    ∙ parse_args-flags_of s.use_sync s.use_async s.thread_count s.thread_count w.chosen

-- What the loop runs with.
abbrev Runnable : Parsed → Type 0
Runnable (run s) = IsRunnable s
Runnable (usage code) = Unit {0}
Runnable (thrown what) = Unit {0}

-- The count so far is a positive `int`.
abbrev IsCount : ℤ → Type 0
IsCount n = (below_one n ≡ false) × IsInt32 n

checked-Runnable : (s : Settings) → IsCount s.thread_count → Runnable (checked s)
checked-Runnable s w =
    if_both Runnable (not s.use_sync && not s.use_async) (usage 1) (run s) (λ h. tt)
      λ h. record { positive = w.0; fits = w.1; chosen = ground arith }

counted-Runnable :
    (r : Result ℤ) (next : ℤ → Parsed)
    → Fits r
    → ((n : ℤ) → IsCount n → Runnable (next n))
    → Runnable (counted r next)
counted-Runnable (throw what) next fits good = tt
counted-Runnable (ok n) next fits good =
    if_both Runnable (below_one n) (usage 1) (next n) (λ h. tt) λ h. good n (h, fits)

parse_args-Runnable :
    (args : List Bytes) (s : Settings) → IsCount s.thread_count → Runnable (parse_args args s)
unfolding parse_args
parse_args-Runnable [] s w = checked-Runnable s w
parse_args-Runnable (arg ∷ []) s w = elim (flag_of arg) as (λ flag. Runnable (last_flag flag s)) [
  | sync ↦ checked-Runnable (record s { use_sync = true }) w
  | async ↦ checked-Runnable (record s { use_async = true }) w
  | threads ↦ tt
  | help ↦ tt
  | other ↦ tt
]
parse_args-Runnable (arg ∷ value ∷ args) s w =
    elim (flag_of arg)
      as (λ flag.
        Runnable (on_flag flag (stoi value) s (parse_args (value ∷ args)) (parse_args args))) [
          | sync ↦ parse_args-Runnable (value ∷ args) (record s { use_sync = true }) w
          | async ↦ parse_args-Runnable (value ∷ args) (record s { use_async = true }) w
          | threads ↦
              counted-Runnable (stoi value) _ (stoi-Fits value)
                λ n good. parse_args-Runnable args (record s { thread_count = n }) good
          | help ↦ tt
          | other ↦ tt
        ]

-- When the client goes on to its threads, their number is an `int` of at least 1 and a way of calling
-- was chosen, whatever the arguments are.
pub parse_args-IsRunnable :
    (args : List Bytes) (s : Settings) → parse_args args defaults ≡ run s → IsRunnable s
parse_args-IsRunnable args s e =
    subst Runnable e (parse_args-Runnable args defaults (refl, omega arith))
