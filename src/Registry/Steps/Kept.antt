-- ===== src/Registry/Steps/Kept.antt =====
-- The cache of registry/zookeeper_client.cc along every sequence of its steps.
use xrpc.Base.{ℕ, Bool, true, false, List, ◌∷◌, Bytes, codes, Bool-cases, Option-cases, inl, inr}
use xrpc.Base.Dict.{Dict, lookup}
use xrpc.Config.{get}
use xrpc.Base.Decimal.{stoi}
use xrpc.Registry.Cache.{ServiceCache, service_of, cache_find, cache_remove}
use xrpc.Registry.Cache.Invariant.{
  IsCache, empty-IsCache, insert-IsCache, put-IsCache, keep-IsCache,
}
use xrpc.Registry.ZooKeeper.{Code, ZooKeeper}
use xrpc.Registry.Session.{
  Client, M, ◌>>=◌, pure, set_cache, set_watchers, zoo, is_ok, is_nonode, started, start, stop,
  host_of, after_wait,
}
use xrpc.Registry.Nodes.{
  register, discover, discover_service, find_instances_by_method, delete, watch, require_started,
  check, remember, forget, read_children, list_service, delete_node, fetch, find_or_fetch,
  keep_instances,
}
use xrpc.Registry.Keeps.{
  Keeps, follow-Keeps, bind-Keeps, then-Keeps, lift-Keeps, pure-Keeps, zoo-Keeps, check-Keeps,
  checked-Keeps, require_connected-Keeps, get_node_data-Keeps, ensure_parent-Keeps,
  write_node-Keeps, register_watcher-Keeps, remember-Keeps, read_children-Keeps,
}
use xrpc.Registry.Steps.Children.{IsName, Unique, read_children-Placed, read_children-Distinct}

module _ {zk : ZooKeeper} where
  abbrev pub Kept {ℓ} : {A : Type ℓ} → M zk A → Type 0
  Kept = Keeps (λ cache. IsCache cache)

  pub remember-Kept : (path text : Bytes) → Kept (remember path text)
  remember-Kept path text =
      remember-Keeps (λ cache. IsCache cache) path text
        (λ s cache e w. put-IsCache s path text cache e w)

  pub register-Kept : (path text : Bytes) (ephemeral : Bool) → Kept (register path text ephemeral)
  unfolding register
  register-Kept path text ephemeral = then-Keeps _ _ _ (require_connected-Keeps _) (
      then-Keeps _ _ _ (ensure_parent-Keeps _ path) (
        then-Keeps _ _ _ (bind-Keeps _ _ _ (zoo-Keeps _ _) (write_node-Keeps _ path text ephemeral))
          (remember-Kept path text)))

  fetch-Kept : (path : Bytes) → Kept (fetch path)
  fetch-Kept path =
      bind-Keeps _ _ _ (get_node_data-Keeps _ path)
        (λ text. then-Keeps _ _ _ (remember-Kept path text) (pure-Keeps _ text))

  find_or_fetch-Kept : (path service : Bytes) → Kept (find_or_fetch path service)
  unfolding find_or_fetch
  find_or_fetch-Kept path service c w =
      elim (Option-cases (cache_find service path c.service_cache)) [
        | inl e ↦ rw (e, find_or_fetch) (fetch-Kept path c w)
        | inr (text, e) ↦ rw (e, find_or_fetch) w
      ]

  pub discover-Kept : (path : Bytes) → Kept (discover path)
  unfolding discover
  discover-Kept path =
      lift-Keeps _ (service_of path) _ (λ service e. find_or_fetch-Kept path service)

  pub set_cache-Kept :
      (f : ServiceCache → ServiceCache)
      → ((cache : ServiceCache) → IsCache cache → IsCache (f cache))
      → Kept (set_cache f)
  unfolding set_cache
  set_cache-Kept f h c w = h c.service_cache w

  set_watchers-Kept : (f : Dict ℕ → Dict ℕ) → Kept (set_watchers f)
  unfolding set_watchers
  set_watchers-Kept f c w = w

  remove-Kept : (service path : Bytes) → Kept (set_cache (cache_remove service path))
  remove-Kept service path =
      set_cache-Kept _ (unfold cache_remove in λ cache w. keep-IsCache service _ cache w)

  pub forget-Kept : (path : Bytes) → Kept (forget path)
  unfolding forget
  forget-Kept path =
      lift-Keeps _ (service_of path) _
        (λ service e. then-Keeps _ _ _ (remove-Kept service path) (set_watchers-Kept _))

  delete_node-Kept : (path : Bytes) (exists : Code) → Kept (delete_node path exists)
  unfolding delete_node
  delete_node-Kept path exists c w = elim (Bool-cases (is_nonode exists)) [
    | inl e ↦ rw e (unfold pure in w)
    | inr e ↦ rw e (
        then-Keeps (λ cache. IsCache cache) _ _ (check-Keeps _ (is_ok exists) _ exists)
          (then-Keeps _ _ _ (checked-Keeps _ _ is_ok _) (forget-Kept path)) c w)
  ]

  pub delete-Kept : (path : Bytes) → Kept (delete path)
  unfolding delete
  delete-Kept path =
      then-Keeps _ _ _ (unfold require_started in λ c w. w)
        (bind-Keeps _ _ _ (zoo-Keeps _ _) (λ (code, version). delete_node-Kept path code))

  pub watch-Kept : (path : Bytes) (callback : ℕ) → Kept (watch path callback)
  unfolding watch
  watch-Kept path callback =
      then-Keeps _ _ _ (require_connected-Keeps _)
        (then-Keeps _ _ _ (set_watchers-Kept _) (register_watcher-Keeps _ path))

  waited-IsCache :
      (c : Client zk) (r : zk.State × Bool)
      → IsCache c.service_cache
      → IsCache (after_wait zk c r).0.service_cache
  waited-IsCache c (z, true) w = w
  waited-IsCache c (z, false) w = w

  opened-IsCache :
      (c : Client zk) (r : zk.State × Bool)
      → IsCache c.service_cache
      → IsCache (started zk c r).0.service_cache
  unfolding started
  opened-IsCache c (z, true) w = waited-IsCache c _ w
  opened-IsCache c (z, false) w = w

  pub start-Kept : Kept (start zk)
  unfolding start
  start-Kept c w =
      follow-Keeps (λ cache. IsCache cache)
        (λ timeout c'. started zk c' (zk.init c'.zoo (host_of c'.config) timeout))
        (λ timeout c w. opened-IsCache c (zk.init c.zoo (host_of c.config) timeout) w)
        (c, stoi (get (codes "zookeeper_timeout_ms") (codes "6000") c.config)) w

  pub stop-IsCache : (c : Client zk) → IsCache (stop zk c).service_cache
  unfolding stop
  stop-IsCache c = empty-IsCache

  -- A listing of a service whose name has no slash, when the children differ.
  listed-IsCache :
      (service : Bytes) (children : List Bytes)
      → IsName service
      → Unique children
      → Kept (λ c. keep_instances service (read_children (b'/' ∷ service) children c))
  listed-IsCache service children h distinct c w =
      insert-IsCache service _ _ (read_children-Placed service children c h)
        (read_children-Distinct service children c distinct)
        (read_children-Keeps (λ cache. IsCache cache) (b'/' ∷ service) children c w)

  list_service-Kept :
      (service : Bytes)
      → IsName service
      → ((z : zk.State) (path : Bytes) → Unique (zk.children z path).1.1)
      → Kept (list_service service)
  unfolding list_service zoo ◌>>=◌
  list_service-Kept service h distinct c w =
      let c' = record c { zoo = (zk.children c.zoo (b'/' ∷ service)).0 } in
      let (code, children) = (zk.children c.zoo (b'/' ∷ service)).1 in
      then-Keeps (λ cache. IsCache cache)
        (check (is_ok code) (codes "Failed to get children: ") code)
        (λ c. keep_instances service (read_children (b'/' ∷ service) children c))
        (check-Keeps _ (is_ok code) _ code)
        (listed-IsCache service children h (distinct c.zoo (b'/' ∷ service))) c' w

  discover_service-Kept :
      (service : Bytes)
      → IsName service
      → ((z : zk.State) (path : Bytes) → Unique (zk.children z path).1.1)
      → Kept (discover_service service)
  unfolding discover_service
  discover_service-Kept service h distinct c w =
      elim (Option-cases (lookup service c.service_cache)) [
        | inl e ↦ rw (e, discover_service) (list_service-Kept service h distinct c w)
        | inr (instances, e) ↦ rw (e, discover_service) w
      ]

  pub find-Kept :
      (service method : Bytes)
      → IsName service
      → ((z : zk.State) (path : Bytes) → Unique (zk.children z path).1.1)
      → Kept (find_instances_by_method service method)
  unfolding find_instances_by_method
  find-Kept service method h distinct =
      bind-Keeps _ _ _ (discover_service-Kept service h distinct) (λ instances. pure-Keeps _ _)
