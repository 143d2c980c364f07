-- ===== src/Config/Loading.antt =====
-- What Get of core/common/xrpc_config.cc gives after Load.
use xrpc.Base.{
  ◌≡◌, refl, ap, ◌∙◌, Bool, false, Option, none, some, List, [], ◌∷◌, ◌++◌, Bytes, All, ok, text_eq,
}
use xrpc.Base.Dict.{Dict, lookup, insert, lookup-insert, lookup-insert_self}
use xrpc.Config.{parse_line, add_entry, load_lines, get_lines, load, get}

-- Whether a line sets the key.
abbrev pub sets : Bytes → Option (Bytes × Bytes) → Bool
sets key none = false
sets key (some (k, v)) = text_eq k key

get-add_entry_other :
    (key : Bytes) (entry : Option (Bytes × Bytes)) (map : Dict Bytes)
    → sets key entry ≡ false
    → lookup key (add_entry map entry) ≡ lookup key map
get-add_entry_other key none map h = refl
get-add_entry_other key (some (k, v)) map h = rw (lookup-insert k key v map, h) refl

lookup-load_lines :
    (key : Bytes) (ls : List Bytes) (map : Dict Bytes)
    → All (λ l. sets key (parse_line l) ≡ false) ls
    → lookup key (load_lines map ls) ≡ lookup key map
unfolding load_lines
lookup-load_lines key [] map w = refl
lookup-load_lines key (l ∷ ls) map w =
    lookup-load_lines key ls (add_entry map (parse_line l)) w.1
    ∙ get-add_entry_other key (parse_line l) map w.0

load_lines-append :
    (ls ms : List Bytes) (map : Dict Bytes)
    → load_lines map (ls ++ ms) ≡ load_lines (load_lines map ls) ms
unfolding load_lines
load_lines-append [] ms map = refl
load_lines-append (l ∷ ls) ms map = load_lines-append ls ms (add_entry map (parse_line l))

-- After a Load that opens the file, Get of a key returns the value of the last line that sets it.
pub get-load :
    (file text key value default_value line : Bytes) (before after : List Bytes) (map : Dict Bytes)
    → get_lines text ≡ before ++ line ∷ after
    → parse_line line ≡ some (key, value)
    → All (λ l. sets key (parse_line l) ≡ false) after
    → (loaded : Dict Bytes) × (load file (some text) map ≡ ok loaded)
      × (get key default_value loaded ≡ value)
unfolding load get
get-load file text key value default_value line before after map split line_sets later =
    let m = load_lines map before in
    let loaded = load_lines (insert key value m) after in
    let read =
      ap (load_lines map) split ∙ load_lines-append before (line ∷ after) map ∙ one_line m in
    let found =
      lookup-load_lines key after (insert key value m) later ∙ lookup-insert_self key value m in
    (loaded, ap ok read, get_found loaded found)
  where
    one_line :
        (m : Dict Bytes) → load_lines m (line ∷ after) ≡ load_lines (insert key value m) after
    one_line m = rw (load_lines, line_sets) refl

    get_found :
        (loaded : Dict Bytes)
        → lookup key loaded ≡ some value
        → get key default_value loaded ≡ value
    get_found loaded h = rw (h, get) refl
