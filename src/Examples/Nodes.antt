-- ===== src/Examples/Nodes.antt =====
-- The store in memory keeps what ZooKeeper documents, and one client finds what another registered.
use xrpc.Base.{
  ℕ, ◌≤◌, ◌≡◌, refl, ap, sym, ◌∙◌, subst, true, Option, none, some, List, [], ◌∷◌, ◌++◌, Bytes,
  codes, length, drop, take_of_le, ok, Bool-cases, Option-cases, inl, inr, arith, text_eq,
  text_eq_iff, text_eq_refl, if◌then◌else◌, append_assoc, ◌==◌,
}
use xrpc.Base.Int.{pos}
use xrpc.Base.Decimal.{to_string, digits}
use xrpc.Base.Dict.{Dict, lookup, insert, lookup-insert}
use xrpc.Server.{instance_path, instance_data, join_methods}
use xrpc.Registry.Cache.{until_slash, contains, service_of}
use xrpc.Registry.ZooKeeper.{zok}
use xrpc.Registry.Session.{Client, ◌>>◌, ◌>>=◌, zoo, lift, set_cache}
use xrpc.Registry.Nodes.{
  find_last_byte, begins, register, require_connected, ensure_parent, check, write_node, remember,
  find_instances_by_method,
}
use xrpc.Registry.Shared.{ZooKeeperLaws, or_empty}
use xrpc.Registry.Shared.Listing.{register-find}
use xrpc.Examples.Store.{store, client, created, without_repeats, names_under, cut, code_of}

pub lookup-created :
    (nodes : Dict Bytes) (path : Bytes) (text found : Option Bytes) (p : Bytes)
    → (created nodes path text found).1 ≡ zok
    → lookup p (created nodes path text found).0
      ≡ (if text_eq path p then some (or_empty text) else lookup p nodes)
lookup-created nodes path text none p h = lookup-insert path p (or_empty text) nodes
lookup-created nodes path text (some _) p h = absurd (ground (arith, h))

contains-without_repeats :
    (x : Bytes) (xs : List Bytes) → contains x xs ≡ true → contains x (without_repeats xs) ≡ true
unfolding contains without_repeats
contains-without_repeats x [] h = h
contains-without_repeats x (y ∷ xs) h = elim (Bool-cases (contains y (without_repeats xs))) [
  | inl seen ↦ rw seen (elim (Bool-cases (text_eq y x)) [
    | inl same ↦ subst (λ z. contains z (without_repeats xs) ≡ true) ((text_eq_iff y x).0 same) seen
    | inr other ↦ contains-without_repeats x xs (ground (arith, h, other))
  ])
  | inr first ↦ rw first (elim (Bool-cases (text_eq y x)) [
    | inl same ↦ rw same refl
    | inr other ↦ rw other (contains-without_repeats x xs (ground (arith, h, other)))
  ])
]

until_slash_plain : (s : Bytes) → find_last_byte b'/' s ≡ none → until_slash s ≡ s
unfolding until_slash find_last_byte
until_slash_plain [] h = refl
until_slash_plain (c ∷ s) h = elim (Option-cases (find_last_byte b'/' s)) [
  | inl e ↦ elim (Bool-cases (c == b'/')) [
    | inl slash ↦ let h' = rw (e, slash) at h in absurd (ground (arith, h'))
    | inr plain ↦ rw plain (ap (◌∷◌ c) (until_slash_plain s e))
  ]
  | inr (i, e) ↦ let h' = rw e at h in absurd (ground (arith, h'))
]

begins_prefix : (p s : Bytes) → begins p (p ++ s) ≡ true
begins_prefix [] s = refl
begins_prefix (c ∷ p) s = ground (arith, begins_prefix p s)

drop_prefix : (p s : Bytes) → drop (length p) (p ++ s) ≡ s
drop_prefix [] s = refl
drop_prefix (c ∷ p) s = drop_prefix p s

names_under_lem :
    (path child text : Bytes) (nodes : Dict Bytes)
    → until_slash child ≡ child
    → lookup (path ++ child) nodes ≡ some text
    → contains child (names_under path nodes) ≡ true
unfolding lookup names_under contains
names_under_lem path child text [] plain h = absurd (ground (arith, h))
names_under_lem path child text ((p, t) ∷ nodes) plain h =
    elim (Bool-cases (text_eq p (path ++ child))) [
      | inl same ↦
          subst
            (λ p.
              contains child (
                if begins path p
                then until_slash (drop (length path) p) ∷ names_under path nodes
                else names_under path nodes)
              ≡ true)
            (sym ((text_eq_iff p (path ++ child)).0 same))
            (rw (begins_prefix path child, drop_prefix path child, plain, text_eq_refl child) refl)
      | inr other ↦
          let h' = rw other at h in
          let more = names_under_lem path child text nodes plain h' in
          elim (Bool-cases (begins path p)) [
            | inl under ↦ rw under (ground (arith, more))
            | inr aside ↦ rw aside more
          ]
    ]

pub children_listed :
    (nodes : Dict Bytes) (path child text : Bytes)
    → (store.children nodes path).1.0 ≡ zok
    → find_last_byte b'/' child ≡ none
    → lookup (path ++ b'/' ∷ child) nodes ≡ some text
    → contains child (store.children nodes path).1.1 ≡ true
children_listed nodes path child text h plain there =
    contains-without_repeats child (names_under (path ++ b'/' ∷ []) nodes) (
      names_under_lem (path ++ b'/' ∷ []) child text nodes (until_slash_plain child plain)
        (ap (λ p. lookup p nodes) (append_assoc path (b'/' ∷ []) child) ∙ there))

pub get_whole :
    (nodes : Dict Bytes) (path : Bytes) (size : ℕ) (text : Bytes)
    → lookup path nodes ≡ some text
    → length text ≤ size
    → (store.get nodes path size).1 ≡ (zok, some text)
get_whole nodes path size text h fits =
    ap (λ found. (code_of found, cut size found)) h
    ∙ ap (λ t. (zok, some t)) (take_of_le size text fits)

abbrev pub store_laws : ZooKeeperLaws store
store_laws = record {
  node = λ nodes path. lookup path nodes;
  node-create =
      λ nodes path text ephemeral p h. lookup-created nodes path text (lookup path nodes) p h;
  node-set = λ nodes path text version p h. lookup-insert path p text nodes;
  node-get = λ nodes path size p. refl;
  node-children = λ nodes path p. refl;
  get_whole = get_whole;
  children_listed = children_listed;
}

abbrev name : Bytes
name = codes "UserService"

abbrev ip : Bytes
ip = codes "0.0.0.0"

-- The server's client after its Register.
abbrev server_side : Client store
server_side =
    (register (instance_path name ip (pos 8080)) (instance_data (codes "Login" ∷ [])) true client).0

-- A client on the same nodes, with nothing cached.
abbrev client_side : Client store
client_side = record client { zoo = server_side.zoo }

register-find_example :
    (found : List Bytes) × ((find_instances_by_method name (codes "Login") client_side).1
      ≡ ok found)
    × (contains (ip ++ b':' ∷ to_string (pos 8080)) found ≡ true)
unfolding contains text_eq find_last_byte instance_data join_methods register require_connected
    ensure_parent check write_node remember ◌>>◌ ◌>>=◌ zoo lift set_cache lookup insert service_of
    instance_path to_string digits
register-find_example =
    register-find store_laws name ip (pos 8080) (codes "Login" ∷ []) (codes "Login") true client
      client_side refl refl (omega arith) refl refl refl refl refl
