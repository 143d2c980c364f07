-- ===== src/Registry/Session.antt =====
-- The client of registry/zookeeper_client.cc: its fields, a monad for its methods, `Start` and `Stop`.
-- `mutex_` makes the public methods a sequence, but the heartbeat and the watcher run between
-- their steps: see Events. Callbacks are pointers to functions that are not empty.
use xrpc.Base.{
  ℕ, zero, suc, Bool, true, false, Option, [], ◌∷◌, ◌++◌, Bytes, codes, if◌then◌else◌, Result, ok,
  throw,
}
use xrpc.Base.Decimal.{stoi}
use xrpc.Base.Dict.{Dict}
use xrpc.Config.{load, get}
use xrpc.Registry.Cache.{ServiceCache}
use xrpc.Registry.ZooKeeper.{Code, zok, znodeexists, znonode, SessionState, connected, ZooKeeper}

-- `heartbeat` is `heartbeat_thread_.joinable()`.
pub record Client (zk : ZooKeeper) : Type 0 where
  pub handle : Bool
  pub is_connected : Bool
  pub running : Bool
  pub heartbeat : Bool
  pub config : Dict Bytes
  pub service_cache : ServiceCache
  pub watchers : Dict ℕ
  pub zoo : zk.State

-- A method: what was changed before an exception stays changed.
abbrev pub M {ℓ} : ZooKeeper → Type ℓ → Type ℓ
M zk A = Client zk → Client zk × Result A

abbrev pub follow {ℓ κ} :
    {zk : ZooKeeper} {A : Type ℓ} {B : Type κ}
    → (A → M zk B)
    → Client zk × Result A
    → Client zk × Result B
follow f (c, ok a) = f a c
follow f (c, throw e) = (c, throw e)

infixl 5 ◌>>=◌ ◌>>◌
unfoldable pub ◌>>=◌ {ℓ κ} :
    {zk : ZooKeeper} {A : Type ℓ} {B : Type κ} → M zk A → (A → M zk B) → M zk B
◌>>=◌ m f c = follow f (m c)

unfoldable pub ◌>>◌ {κ} : {zk : ZooKeeper} {B : Type κ} → M zk (Unit {0}) → M zk B → M zk B
◌>>◌ m k c = follow (λ _. k) (m c)

module _ {zk : ZooKeeper} where
  unfoldable pub pure {ℓ} : {A : Type ℓ} → A → M zk A
  pure a c = (c, ok a)

  unfoldable pub lift {ℓ} : {A : Type ℓ} → Result A → M zk A
  lift r c = (c, r)

  unfoldable pub fail {ℓ} : {A : Type ℓ} → Bytes → M zk A
  fail e c = (c, throw e)

  unfoldable pub set_cache : (ServiceCache → ServiceCache) → M zk (Unit {0})
  set_cache f c = (record c { service_cache = f c.service_cache }, ok tt)

  unfoldable pub set_watchers : (Dict ℕ → Dict ℕ) → M zk (Unit {0})
  set_watchers f c = (record c { watchers = f c.watchers }, ok tt)

  -- A call of the C client.
  unfoldable pub zoo {ℓ} : {A : Type ℓ} → (zk.State → zk.State × A) → M zk A
  zoo call c = let (z, a) = call c.zoo in (record c { zoo = z }, ok a)

abbrev pub is_ok : Code → Bool
is_ok zok = true
is_ok _ = false

abbrev pub is_nodeexists : Code → Bool
is_nodeexists znodeexists = true
is_nodeexists _ = false

abbrev pub is_nonode : Code → Bool
is_nonode znonode = true
is_nonode _ = false

abbrev is_connected_state : SessionState → Bool
is_connected_state connected = true
is_connected_state _ = false

abbrev init_failed : Bytes
init_failed = codes "Failed to initialize ZooKeeper client"

abbrev connect_failed : Bytes
connect_failed = codes "Failed to connect to ZooKeeper"

abbrev pub config_path : Bytes
config_path = codes "/home/tan/program/CppWorkSpace/xrpc/configs/xrpc.conf"

abbrev pub host_of : Dict Bytes → Bytes
host_of config =
    get (codes "zookeeper_ip") (codes "127.0.0.1") config
    ++ (b':' ∷ get (codes "zookeeper_port") (codes "2181") config)

module _ (zk : ZooKeeper) where
  -- The loop over the retries, with what is left of them and `is_connected_`.
  unfoldable pub wait_connected : ℕ → zk.State → Bool → zk.State × Bool
  wait_connected zero z is_connected = (z, is_connected)
  wait_connected (suc n) z is_connected =
      let z' = zk.sleep z 500 in
      let more = wait_connected n z' false in
      if is_connected
      then (z, true)
      else if is_connected_state (zk.session z')
      then (z', true)
      else more

  -- What follows the loop. A thread is not started twice: `Start` is called once between two
  -- calls of `Stop`.
  abbrev pub after_wait : Client zk → zk.State × Bool → Client zk × Result (Unit {0})
  after_wait c (z, true) = (
    record c { handle = true; is_connected = true; running = true; heartbeat = true; zoo = z },
    ok tt,
  )
  after_wait c (z, false) =
      (record c { handle = false; is_connected = false; zoo = zk.close z }, throw connect_failed)

  -- From the new handle on.
  unfoldable pub started : Client zk → zk.State × Bool → Client zk × Result (Unit {0})
  started c (z, false) = (record c { handle = false; zoo = z }, throw init_failed)
  started c (z, true) = after_wait c (wait_connected 3 z c.is_connected)

  unfoldable pub start : M zk (Unit {0})
  start c =
      follow (λ timeout c'. started c' (zk.init c'.zoo (host_of c'.config) timeout))
        (c, stoi (get (codes "zookeeper_timeout_ms") (codes "6000") c.config))

  abbrev pub configured : zk.State → Result (Dict Bytes) → Result (Client zk)
  configured z (throw e) = throw e
  configured z (ok config) = ok (record {
    handle = false;
    is_connected = false;
    running = false;
    heartbeat = false;
    config = config;
    service_cache = [];
    watchers = [];
    zoo = z;
  })

  -- The constructor. The path of its configuration file is fixed; `text` is what the file holds.
  unfoldable pub new_client : Option Bytes → zk.State → Result (Client zk)
  new_client text z = configured z (load config_path text [])

  -- `is_connected_` is left as it is.
  unfoldable pub stop : Client zk → Client zk
  stop c = record c {
    running = false;
    heartbeat = false;
    watchers = [];
    service_cache = [];
    handle = false;
    zoo = if c.handle then zk.close c.zoo else c.zoo;
  }
