-- ===== src/Registry/Nodes.antt =====
-- The public methods of registry/zookeeper_client.cc on nodes: Register, Discover, DiscoverService,
-- FindInstancesByMethod, Delete, Watch, with RegisterWatcher and GetNodeData.
use xrpc.Base.{
  ℕ, suc, Bool, true, false, ◌&&◌, ◌||◌, Option, none, some, List, [], ◌∷◌, ◌++◌, Bytes, codes,
  take, drop, ◌==◌, if◌then◌else◌, Result, ok, throw,
}
use xrpc.Base.Dict.{lookup, insert, erase}
use xrpc.Registry.Cache.{Instances, service_of, cache_put, cache_find, cache_remove}
use xrpc.Registry.ZooKeeper.{Code, ZooKeeper}
use xrpc.Registry.Session.{
  Client, M, ◌>>=◌, ◌>>◌, pure, lift, set_cache, set_watchers, zoo, is_ok, is_nodeexists, is_nonode,
}

-- `rfind` of a character.
unfoldable pub find_last_byte : ℕ → Bytes → Option ℕ
find_last_byte b [] = none
find_last_byte b (c ∷ s) = elim (find_last_byte b s) [
  | some i ↦ some (suc i)
  | none ↦ if c == b then some 0 else none
]

-- `substr(rfind('/') + 1)`: `npos + 1` wraps to 0.
unfoldable pub base_name : Bytes → Bytes
base_name path = elim (find_last_byte b'/' path) [ none ↦ path | some i ↦ drop (suc i) path ]

abbrev pub begins : Bytes → Bytes → Bool
begins [] s = true
begins (a ∷ t) [] = false
begins (a ∷ t) (b ∷ s) = a == b && begins t s

-- `find` of a text, compared with `npos`.
unfoldable pub has_text : Bytes → Bytes → Bool
has_text t [] = begins t []
has_text t (c ∷ s) = begins t (c ∷ s) || has_text t s

abbrev pub methods_prefix : Bytes
methods_prefix = codes "methods="

unfoldable pub offers : Bytes → Bytes → Bool
offers method text =
    has_text (methods_prefix ++ method) text
    || has_text (methods_prefix ++ method ++ b',' ∷ []) text
    || has_text (b',' ∷ method) text

-- The loop of `FindInstancesByMethod`.
unfoldable pub matching : Bytes → Instances → List Bytes
matching method [] = []
matching method ((path, text) ∷ instances) =
    let more = matching method instances in
    if offers method text then base_name path ∷ more else more

abbrev pub not_connected : Bytes
not_connected = codes "ZooKeeper not connected"

abbrev not_started : Bytes
not_started = codes "ZookeeperClient::Delete - ZooKeeper client not started"

-- A length of -1 passed to the constructor of a string.
abbrev length_failed : Bytes
length_failed = codes "basic_string::_M_create"

abbrev buffer_size : ℕ
buffer_size = 512

abbrev pub text_of : Option Bytes → Result Bytes
text_of none = throw length_failed
text_of (some text) = ok text

module _ {zk : ZooKeeper} where
  unfoldable pub require_connected : M zk (Unit {0})
  require_connected c = (c, if c.is_connected && c.handle then ok tt else throw not_connected)

  unfoldable pub require_started : M zk (Unit {0})
  require_started c = (c, if c.handle then ok tt else throw not_started)

  unfoldable pub check : Bool → Bytes → Code → M zk (Unit {0})
  check passed what code = lift (if passed then ok tt else throw (what ++ zk.zerror code))

  unfoldable pub get_node_data : Bytes → M zk Bytes
  get_node_data path =
      require_connected
      >> (zoo (λ z. zk.get z path buffer_size) >>= (λ (code, text).
          check (is_ok code) (codes "Failed to get node: ") code >> lift (text_of text)))

  abbrev pub create_parent : Bytes → M zk (Unit {0})
  create_parent [] = pure tt
  create_parent (c ∷ parent) = zoo (λ z. zk.create z (c ∷ parent) none false) >>= (λ code.
      check (is_ok code || is_nodeexists code) (codes "Failed to create parent node: ") code)

  unfoldable pub ensure_parent : Bytes → M zk (Unit {0})
  ensure_parent path = elim (find_last_byte b'/' path) [
    | none ↦ pure tt
    | some last_slash ↦ create_parent (take last_slash path)
  ]

  unfoldable pub write_node : Bytes → Bytes → Bool → Code × ℕ → M zk (Unit {0})
  write_node path text ephemeral (code, version) =
      if is_ok code
      then (zoo (λ z. zk.set z path text version)
          >>= (λ code. check (is_ok code) (codes "Failed to update node: ") code))
      else (zoo (λ z. zk.create z path (some text) ephemeral)
          >>= (λ code. check (is_ok code) (codes "Failed to create node: ") code))

  -- The section that ends `Register`, `Discover` and a change event.
  unfoldable pub remember : Bytes → Bytes → M zk (Unit {0})
  remember path text =
      lift (service_of path) >>= (λ service. set_cache (cache_put service path text))

  unfoldable pub register : Bytes → Bytes → Bool → M zk (Unit {0})
  register path text ephemeral =
      require_connected
      >> (ensure_parent path
          >> (zoo (λ z. zk.exists z path) >>= write_node path text ephemeral >> remember path text))

  abbrev pub fetch : Bytes → M zk Bytes
  fetch path = get_node_data path >>= (λ text. remember path text >> pure text)

  unfoldable pub find_or_fetch : Bytes → Bytes → M zk Bytes
  find_or_fetch path service c = elim (cache_find service path c.service_cache) [
    | some text ↦ (c, ok text)
    | none ↦ fetch path c
  ]

  unfoldable pub discover : Bytes → M zk Bytes
  discover path = lift (service_of path) >>= find_or_fetch path

  -- `emplace_back`, or the exception that is caught in the loop.
  abbrev pub add_child : Bytes → Result Bytes → Client zk × Instances → Client zk × Instances
  add_child path (ok text) (c, more) = (c, (path, text) ∷ more)
  add_child path (throw e) rest = rest

  -- The loop over the children; a child whose data is not there is left out.
  unfoldable pub read_children : Bytes → List Bytes → Client zk → Client zk × Instances
  read_children service_path [] c = (c, [])
  read_children service_path (child ∷ children) c =
      let path = service_path ++ b'/' ∷ child in
      let (c', text) = get_node_data path c in
      add_child path text (read_children service_path children c')

  abbrev pub keep_instances : Bytes → Client zk × Instances → Client zk × Result Instances
  keep_instances service (c, instances) =
      (record c { service_cache = insert service instances c.service_cache }, ok instances)

  unfoldable pub list_service : Bytes → M zk Instances
  list_service service = zoo (λ z. zk.children z (b'/' ∷ service)) >>= (λ (code, children).
      check (is_ok code) (codes "Failed to get children: ") code
      >> (λ c. keep_instances service (read_children (b'/' ∷ service) children c)))

  unfoldable pub discover_service : Bytes → M zk Instances
  discover_service service c = elim (lookup service c.service_cache) [
    | some instances ↦ (c, ok instances)
    | none ↦ list_service service c
  ]

  unfoldable pub find_instances_by_method : Bytes → Bytes → M zk (List Bytes)
  find_instances_by_method service method =
      discover_service service >>= (λ instances. pure (matching method instances))

  -- The section of `Delete` and of a deletion event.
  unfoldable pub forget : Bytes → M zk (Unit {0})
  forget path =
      lift (service_of path)
      >>= (λ service. set_cache (cache_remove service path) >> set_watchers (erase path))

  unfoldable pub delete_node : Bytes → Code → M zk (Unit {0})
  delete_node path exists =
      if is_nonode exists
      then pure tt
      else (check (is_ok exists) (codes "ZookeeperClient::Delete - Error checking node existence: ")
            exists
          >> (zoo (λ z. zk.delete z path)
              >>= (λ rc.
                  check (is_ok rc) (codes "ZookeeperClient::Delete - Failed to delete node: ") rc)
              >> forget path))

  unfoldable pub delete : Bytes → M zk (Unit {0})
  delete path =
      require_started >> (zoo (λ z. zk.exists z path) >>= (λ (code, _). delete_node path code))

  -- Without a connection it only logs.
  unfoldable pub register_watcher : Bytes → M zk (Unit {0})
  register_watcher path c =
      if c.is_connected && c.handle
      then ((zoo (λ z. zk.wexists z path)
            >>= (λ code. check (is_ok code || is_nonode code) (codes "Failed to set watch: ") code))
          c)
      else (c, ok tt)

  unfoldable pub watch : Bytes → ℕ → M zk (Unit {0})
  watch path callback =
      require_connected >> (set_watchers (insert path callback) >> register_watcher path)
