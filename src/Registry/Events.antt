-- ===== src/Registry/Events.antt =====
-- What runs beside the public methods of registry/zookeeper_client.cc: `WatcherCallback` on the thread of
-- the C client and `Heartbeat`. The callbacks given to Watch are numbered, and what they were called with is a result.
use xrpc.Base.{
  ℕ, true, false, ◌&&◌, Option, none, some, List, [], ◌∷◌, ◌++◌, Bytes, if◌then◌else◌, Result, ok,
  throw, map,
}
use xrpc.Base.Dict.{lookup, erase, keys}
use xrpc.Registry.Cache.{service_of, cache_prune}
use xrpc.Registry.ZooKeeper.{SessionState, connected, expired, connecting, other_state, ZooKeeper}
use xrpc.Registry.Session.{Client, M, ◌>>=◌, lift, set_cache, is_ok}
use xrpc.Registry.Nodes.{get_node_data, remember, forget, register_watcher}

-- The types of an event of a node.
pub data NodeEvent : Type 0 where
  created changed deleted child other_event : NodeEvent

-- `none` is the null path.
pub data Event : Type 0 where
  session_event : SessionState → Event
  node_event : NodeEvent → Option Bytes → Event

-- The calls of callbacks.
abbrev pub Calls : Type 0
Calls = List (ℕ × Bytes)

module _ {zk : ZooKeeper} where
  unfoldable pub on_session : SessionState → Client zk → Client zk
  on_session connected c = record c { is_connected = true }
  on_session expired c = record c { is_connected = false; service_cache = [] }
  on_session connecting c = record c { is_connected = false }
  on_session (other_state n) c = c

  -- `callback(data)`, which does not throw, and the watch set again.
  abbrev call_back : Bytes → ℕ → Bytes → Client zk → Client zk × Calls
  call_back path callback text c = ((register_watcher path c).0, (callback, text) ∷ [])

  abbrev pub deliver : Bytes → ℕ → Bytes → Client zk × Result (Unit {0}) → Client zk × Calls
  deliver path callback text (c, ok _) = call_back path callback text c
  deliver path callback text (c, throw e) = (c, [])

  -- A created or changed node, whose data is read again. An exception is logged.
  abbrev pub refresh : Bytes → ℕ → Client zk × Result Bytes → Client zk × Calls
  refresh path callback (c, ok text) = deliver path callback text (remember path text c)
  refresh path callback (c, throw e) = (c, [])

  abbrev pub drop_service : Bytes → M zk (Unit {0})
  drop_service path = lift (service_of path) >>= (λ service. set_cache (erase service))

  -- In the deleted branch no exception is caught: there one of `RegisterWatcher` would end the
  -- program, and the model goes on.
  unfoldable pub on_node : NodeEvent → Bytes → ℕ → Client zk → Client zk × Calls
  on_node created path callback c = refresh path callback (get_node_data path c)
  on_node changed path callback c = refresh path callback (get_node_data path c)
  on_node deleted path callback c = deliver path callback [] (forget path c)
  on_node child path callback c = ((drop_service path c).0, [])
  on_node other_event path callback c = (c, [])

  unfoldable pub with_callback : NodeEvent → Bytes → Client zk → Option ℕ → Client zk × Calls
  with_callback event path c none = (c, [])
  with_callback event path c (some callback) = on_node event path callback c

  abbrev pub dispatch_event : Event → Client zk → Client zk × Calls
  dispatch_event (session_event state) c = (on_session state c, [])
  dispatch_event (node_event event none) c = (c, [])
  dispatch_event (node_event event (some path)) c =
      with_callback event path c (lookup path c.watchers)

  unfoldable pub watcher_callback : Event → Client zk → Client zk × Calls
  watcher_callback event c = if c.handle && c.running then dispatch_event event c else (c, [])

  -- One service of a round of the heartbeat.
  unfoldable pub refresh_service : Bytes → Client zk → Client zk
  refresh_service service c =
      let (z, (code, children)) = zk.children c.zoo (b'/' ∷ service) in
      let paths = map (λ child. b'/' ∷ (service ++ b'/' ∷ child)) children in
      record c {
        zoo = z;
        service_cache =
            if is_ok code then cache_prune service paths c.service_cache else c.service_cache;
      }

  unfoldable pub refresh_services : List Bytes → Client zk → Client zk
  refresh_services [] c = c
  refresh_services (service ∷ services) c = refresh_services services (refresh_service service c)

  -- The loop's body under its condition, up to the sleep.
  unfoldable pub heartbeat_round : Client zk → Client zk
  heartbeat_round c =
      if c.running && c.is_connected && c.handle
      then refresh_services (keys c.service_cache) c
      else c
