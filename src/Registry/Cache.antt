-- ===== src/Registry/Cache.antt =====
-- `service_cache_` of registry/zookeeper_client.cc: for each service its instances, as pairs of a path and the data
-- of its node. Each function is one section under `cache_mutex_`.
pub mod Lookup
pub mod Invariant
use xrpc.Base.{
  ℕ, Bool, true, false, not, ◌||◌, Option, none, some, List, [], ◌∷◌, ◌++◌, Bytes, codes, text_eq,
  ◌==◌, if◌then◌else◌, Result, ok, throw,
}
use xrpc.Base.Dict.{Dict, lookup, insert, erase}

-- A path and its data.
abbrev pub Instances : Type 0
Instances = Dict Bytes

abbrev pub ServiceCache : Type 0
ServiceCache = Dict Instances

abbrev substr_failed : Bytes
substr_failed = codes "basic_string::substr"

unfoldable pub until_slash : Bytes → Bytes
until_slash [] = []
until_slash (c ∷ s) = if c == b'/' then [] else c ∷ until_slash s

-- `path.substr(1, path.find('/', 1) - 1)`: what stands between the first character and the next
-- slash, or the end. `substr` throws on the empty path.
unfoldable pub service_of : Bytes → Result Bytes
service_of [] = throw substr_failed
service_of (_ ∷ s) = ok (until_slash s)

-- `find_if` and an update in place, or `emplace_back`.
unfoldable pub put_instance : Bytes → Bytes → Instances → Instances
put_instance path text instances = insert path text instances

unfoldable pub instances_of : Bytes → ServiceCache → Instances
instances_of service cache = elim (lookup service cache) [ none ↦ [] | some xs ↦ xs ]

-- The section that ends `Register` and `Discover`; `operator[]` makes an empty list first.
unfoldable pub cache_put : Bytes → Bytes → Bytes → ServiceCache → ServiceCache
cache_put service path text cache =
    insert service (put_instance path text (instances_of service cache)) cache

-- The section that begins `Discover`.
unfoldable pub cache_find : Bytes → Bytes → ServiceCache → Option Bytes
cache_find service path cache = lookup path (instances_of service cache)

unfoldable pub keep_if : (Bytes → Bool) → Instances → Instances
keep_if test [] = []
keep_if test ((p, d) ∷ xs) = if test p then (p, d) ∷ keep_if test xs else keep_if test xs

abbrev pub is_empty : Instances → Bool
is_empty [] = true
is_empty (_ ∷ _) = false

-- `erase(remove_if(…))`, and the service goes with its last instance.
unfoldable pub cache_keep : Bytes → (Bytes → Bool) → ServiceCache → ServiceCache
cache_keep service test cache = elim (lookup service cache) [
  | none ↦ cache
  | some instances ↦
      let kept = keep_if test instances in
      if is_empty kept then erase service cache else insert service kept cache
]

-- The section of `Delete` and of a deletion event.
unfoldable pub cache_remove : Bytes → Bytes → ServiceCache → ServiceCache
cache_remove service path cache = cache_keep service (λ p. not (text_eq p path)) cache

unfoldable pub contains : Bytes → List Bytes → Bool
contains path [] = false
contains path (p ∷ ps) = text_eq p path || contains path ps

-- The section of `Heartbeat`: the instances that ZooKeeper still lists stay.
unfoldable pub cache_prune : Bytes → List Bytes → ServiceCache → ServiceCache
cache_prune service current cache = cache_keep service (λ p. contains p current) cache
