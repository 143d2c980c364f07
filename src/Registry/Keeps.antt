-- ===== src/Registry/Keeps.antt =====
-- Predicates on the cache that a method of registry/zookeeper_client.cc keeps, whether it returns or throws.
use xrpc.Base.{
  ℕ, ◌≡◌, refl, Bool, List, [], ◌∷◌, Bytes, Result, ok, throw, ◌&&◌, ◌||◌, Option-cases, Bool-cases,
  inl, inr, take,
}
use xrpc.Registry.Cache.{ServiceCache, service_of, cache_put}
use xrpc.Registry.ZooKeeper.{Code, ZooKeeper}
use xrpc.Registry.Session.{
  Client, M, follow, ◌>>=◌, ◌>>◌, lift, zoo, is_ok, is_nonode, is_nodeexists, pure, set_cache,
}
use xrpc.Registry.Nodes.{
  require_connected, check, get_node_data, create_parent, ensure_parent, write_node, remember,
  register_watcher, read_children, add_child, find_last_byte,
}

module _ {zk : ZooKeeper} (Q : ServiceCache → Type 0) where
  abbrev pub Keeps {ℓ} : {A : Type ℓ} → M zk A → Type 0
  Keeps m = (c : Client zk) → Q c.service_cache → Q (m c).0.service_cache

  pub follow-Keeps {ℓ κ} :
      {A : Type ℓ} {B : Type κ} (f : A → M zk B)
      → ((a : A) → Keeps (f a))
      → (p : Client zk × Result A) → Q p.0.service_cache
      → Q (follow f p).0.service_cache
  follow-Keeps f h (c, ok a) w = h a c w
  follow-Keeps f h (c, throw e) w = w

  pub bind-Keeps {ℓ κ} :
      {A : Type ℓ} {B : Type κ} (m : M zk A) (f : A → M zk B)
      → Keeps m
      → ((a : A) → Keeps (f a))
      → Keeps (m >>= f)
  unfolding ◌>>=◌
  bind-Keeps m f hm hf c w = follow-Keeps f hf (m c) (hm c w)

  pub then-Keeps {κ} :
      {B : Type κ} (m : M zk (Unit {0})) (k : M zk B) → Keeps m → Keeps k → Keeps (m >> k)
  unfolding ◌>>◌
  then-Keeps m k hm hk c w = follow-Keeps (λ _. k) (λ _. hk) (m c) (hm c w)

  pub lift-Keeps {ℓ κ} :
      {A : Type ℓ} {B : Type κ} (r : Result A) (f : A → M zk B)
      → ((a : A) → r ≡ ok a → Keeps (f a))
      → Keeps (lift r >>= f)
  unfolding ◌>>=◌ lift
  lift-Keeps (ok a) f h c w = h a refl c w
  lift-Keeps (throw e) f h c w = w

  pub pure-Keeps {ℓ} : {A : Type ℓ} (a : A) → Keeps (pure a)
  unfolding pure
  pure-Keeps a c w = w

  pub zoo-Keeps {ℓ} : {A : Type ℓ} (call : zk.State → zk.State × A) → Keeps (zoo call)
  unfolding zoo
  zoo-Keeps call c w = w

  pub check-Keeps : (passed : Bool) (what : Bytes) (code : Code) → Keeps (check passed what code)
  unfolding check lift
  check-Keeps passed what code c w = w

  -- A call of the C client and the check of its return code.
  pub checked-Keeps :
      (call : zk.State → zk.State × Code) (test : Code → Bool) (what : Bytes)
      → Keeps (zoo call >>= (λ code. check (test code) what code))
  checked-Keeps call test what =
      bind-Keeps _ _ (zoo-Keeps call) (λ code. check-Keeps (test code) what code)

  pub require_connected-Keeps : Keeps (require_connected {zk = zk})
  unfolding require_connected
  require_connected-Keeps c w = w

  pub get_node_data-Keeps : (path : Bytes) → Keeps (get_node_data path)
  unfolding get_node_data
  get_node_data-Keeps path = then-Keeps _ _ require_connected-Keeps (
      bind-Keeps _ _ (zoo-Keeps _)
        (λ (code, text). then-Keeps _ _ (check-Keeps _ _ code) (unfold lift in λ c w. w)))

  create_parent-Keeps : (parent : Bytes) → Keeps (create_parent {zk = zk} parent)
  create_parent-Keeps [] = pure-Keeps tt
  create_parent-Keeps (b ∷ parent) = checked-Keeps _ (λ code. is_ok code || is_nodeexists code) _

  pub ensure_parent-Keeps : (path : Bytes) → Keeps (ensure_parent path)
  unfolding ensure_parent
  ensure_parent-Keeps path c w = elim (Option-cases (find_last_byte b'/' path)) [
    | inl e ↦ rw (e, ensure_parent) (pure-Keeps tt c w)
    | inr (i, e) ↦ rw (e, ensure_parent) (create_parent-Keeps (take i path) c w)
  ]

  pub write_node-Keeps :
      (path text : Bytes) (ephemeral : Bool) (found : Code × ℕ)
      → Keeps (write_node path text ephemeral found)
  unfolding write_node
  write_node-Keeps path text ephemeral (code, version) c w = elim (Bool-cases (is_ok code)) [
    | inl e ↦ rw e (checked-Keeps _ is_ok _ c w)
    | inr e ↦ rw e (checked-Keeps _ is_ok _ c w)
  ]

  pub register_watcher-Keeps : (path : Bytes) → Keeps (register_watcher path)
  unfolding register_watcher
  register_watcher-Keeps path c w = elim (Bool-cases (c.is_connected && c.handle)) [
    | inl e ↦ rw e (checked-Keeps _ (λ code. is_ok code || is_nonode code) _ c w)
    | inr e ↦ rw e w
  ]

  pub remember-Keeps :
      (path text : Bytes)
      → ((s : Bytes) (cache : ServiceCache)
          → service_of path ≡ ok s
          → Q cache
          → Q (cache_put s path text cache))
      → Keeps (remember path text)
  unfolding remember
  remember-Keeps path text h =
      lift-Keeps (service_of path) _ (λ s e. unfold set_cache in λ c w. h s c.service_cache e w)

  pub read_children-Keeps :
      (service_path : Bytes) (children : List Bytes) (c : Client zk)
      → Q c.service_cache
      → Q (read_children service_path children c).0.service_cache
  unfolding read_children
  read_children-Keeps sp [] c w = w
  read_children-Keeps sp (child ∷ children) c w =
      added _ (get_node_data _ c).1 _
        (read_children-Keeps sp children (get_node_data _ c).0 (get_node_data-Keeps _ c w))
    where
      added :
          (path : Bytes) (text : Result Bytes) (rest : Client zk × _)
          → Q rest.0.service_cache
          → Q (add_child path text rest).0.service_cache
      added path (ok d) rest w = w
      added path (throw e) rest w = w
