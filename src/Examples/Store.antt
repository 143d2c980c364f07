-- ===== src/Examples/Store.antt =====
-- A ZooKeeper that holds its nodes in memory and is always connected.
use xrpc.Base.{
  ℕ, true, Option, none, some, List, [], ◌∷◌, ◌++◌, Bytes, codes, length, drop, take, if◌then◌else◌,
  Bool-cases, inl, inr,
}
use xrpc.Base.Dict.{Dict, lookup, insert, erase}
use xrpc.Registry.Cache.{until_slash, contains}
use xrpc.Registry.ZooKeeper.{Code, zok, znodeexists, znonode, connected, ZooKeeper}
use xrpc.Registry.Nodes.{begins}
use xrpc.Registry.Session.{Client}
use xrpc.Registry.Steps.Children.{Unique}
use xrpc.Registry.Shared.{or_empty}

unfoldable pub without_repeats : List Bytes → List Bytes
unfolding contains
without_repeats [] = []
without_repeats (x ∷ xs) =
    let rest = without_repeats xs in if contains x rest then rest else x ∷ rest

without_repeats-Unique : (xs : List Bytes) → Unique (without_repeats xs)
unfolding without_repeats
without_repeats-Unique [] = tt
without_repeats-Unique (x ∷ xs) = elim (Bool-cases (contains x (without_repeats xs))) [
  | inl seen ↦ rw seen (without_repeats-Unique xs)
  | inr first ↦ rw first (first, without_repeats-Unique xs)
]

-- The names under a path, which ends in a slash here.
unfoldable pub names_under : Bytes → Dict Bytes → List Bytes
unfolding until_slash
names_under path [] = []
names_under path ((p, text) ∷ nodes) =
    let more = names_under path nodes in
    if begins path p then until_slash (drop (length path) p) ∷ more else more

abbrev pub created : Dict Bytes → Bytes → Option Bytes → Option Bytes → Dict Bytes × Code
created nodes path text (some _) = (nodes, znodeexists)
created nodes path text none = (insert path (or_empty text) nodes, zok)

abbrev pub code_of : Option Bytes → Code
code_of none = znonode
code_of (some _) = zok

abbrev pub cut : ℕ → Option Bytes → Option Bytes
cut size none = none
cut size (some text) = some (take size text)

abbrev pub store : ZooKeeper
store = record {
  State = Dict Bytes;
  init = λ nodes host timeout. (nodes, true);
  close = λ nodes. nodes;
  sleep = λ nodes ms. nodes;
  session = λ nodes. connected;
  create = λ nodes path text ephemeral. created nodes path text (lookup path nodes);
  exists = λ nodes path. (nodes, (code_of (lookup path nodes), 0));
  wexists = λ nodes path. (nodes, code_of (lookup path nodes));
  set = λ nodes path text version. (insert path text nodes, zok);
  get = λ nodes path size. (nodes, (code_of (lookup path nodes), cut size (lookup path nodes)));
  children = λ nodes path. (nodes, (zok, without_repeats (names_under (path ++ b'/' ∷ []) nodes)));
  delete = λ nodes path. (erase path nodes, zok);
  zerror = λ code. codes "error";
}

pub store-Unique : (nodes : Dict Bytes) (path : Bytes) → Unique (store.children nodes path).1.1
store-Unique nodes path = without_repeats-Unique (names_under (path ++ b'/' ∷ []) nodes)

-- A client that Start has left connected, with nothing cached.
abbrev pub client : Client store
client = record {
  handle = true;
  is_connected = true;
  running = true;
  heartbeat = true;
  config = [];
  service_cache = [];
  watchers = [];
  zoo = [];
}
