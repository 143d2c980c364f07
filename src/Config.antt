-- ===== src/Config.antt =====
-- core/common/xrpc_config.cc: `Load` and `Get`. The file's text is an argument; `none` is a file
-- that does not open.
pub mod Blanks
pub mod Lines
pub mod Loading
use xrpc.Base.{
  ℕ, suc, ◌-◌, Bool, true, false, ◌||◌, Option, none, some, List, [], ◌∷◌, ◌++◌, Bytes, codes, take,
  drop, ◌==◌, if◌then◌else◌, Result, ok, throw,
}
use mathlib.Core.Option
use mathlib.Core.List.{foldl}
use xrpc.Base.Decimal.{find_byte}
use xrpc.Base.Dict.{Dict, lookup, insert}

-- `std::getline` until it fails: a newline ends a line, and what follows the last one is a line
-- only if it is not empty.
abbrev cons_line : ℕ → List Bytes → List Bytes
cons_line c [] = (c ∷ []) ∷ []
cons_line c (l ∷ ls) = (c ∷ l) ∷ ls

unfoldable pub get_lines : Bytes → List Bytes
get_lines [] = []
get_lines (c ∷ s) = let more = get_lines s in if c == b'\n' then [] ∷ more else cons_line c more

-- The members of " \t".
abbrev pub is_blank : ℕ → Bool
is_blank c = c == b' ' || c == b'\t'

-- `find_first_not_of` and `find_last_not_of`; `none` is `npos`.
unfoldable pub find_first_not_blank : Bytes → Option ℕ
find_first_not_blank [] = none
find_first_not_blank (c ∷ s) =
    if is_blank c then Option.map suc (find_first_not_blank s) else some 0

unfoldable pub find_last_not_blank : Bytes → Option ℕ
find_last_not_blank [] = none
find_last_not_blank (c ∷ s) = elim (find_last_not_blank s) [
  | some i ↦ some (suc i)
  | none ↦ if is_blank c then none else some 0
]

-- `erase(0, n)`: at `npos` everything goes.
abbrev erase_front : Option ℕ → Bytes → Bytes
erase_front none s = []
erase_front (some n) s = drop n s

-- `erase(n + 1)`: `npos + 1` wraps to 0, and everything goes.
abbrev erase_back : Option ℕ → Bytes → Bytes
erase_back none s = []
erase_back (some n) s = take (suc n) s

-- The two calls of `erase`, the second on what the first left.
unfoldable pub trim : Bytes → Bytes
trim s = let s' = erase_front (find_first_not_blank s) s in erase_back (find_last_not_blank s') s'

-- `line.empty() || line[0] == '#'`.
abbrev pub is_skipped : Bytes → Bool
is_skipped [] = true
is_skipped (c ∷ s) = c == b'#'

-- The split at the first equals sign, of a line that was trimmed.
unfoldable pub split_entry : Bytes → Option (Bytes × Bytes)
split_entry line = elim (find_byte b'=' line) [
  | none ↦ none
  | some i ↦ some (trim (take i line), trim (drop (suc i) line))
]

abbrev pub has_key : Option (Bytes × Bytes) → Option (Bytes × Bytes)
has_key none = none
has_key (some ([], v)) = none
has_key (some (c ∷ k, v)) = some (c ∷ k, v)

-- `line.substr(start, end - start + 1)`. Where there is a first such character there is a last.
abbrev pub middle : ℕ → Option ℕ → Bytes → Bytes
middle start none line = drop start line
middle start (some end) line = take (suc (end - start)) (drop start line)

-- One round of the loop: the entry of a line, if it has one.
unfoldable pub parse_line : Bytes → Option (Bytes × Bytes)
parse_line line = elim (find_first_not_blank line) [
  | none ↦ none
  | some start ↦
      let entry = has_key (split_entry (middle start (find_last_not_blank line) line)) in
      if is_skipped line then none else entry
]

abbrev pub add_entry : Dict Bytes → Option (Bytes × Bytes) → Dict Bytes
add_entry map none = map
add_entry map (some (k, v)) = insert k v map

-- `config_map_` after each line.
unfoldable pub load_lines : Dict Bytes → List Bytes → Dict Bytes
unfolding parse_line
load_lines map [] = map
load_lines map (l ∷ ls) = load_lines (add_entry map (parse_line l)) ls

abbrev pub open_failed : Bytes
open_failed = codes "Failed to open config file: "

unfoldable pub load : Bytes → Option Bytes → Dict Bytes → Result (Dict Bytes)
unfolding load_lines get_lines
load file none map = throw (open_failed ++ file)
load file (some text) map = ok (load_lines map (get_lines text))

unfoldable pub get : Bytes → Bytes → Dict Bytes → Bytes
unfolding lookup
get key default_value map = elim (lookup key map) [ none ↦ default_value | some v ↦ v ]
