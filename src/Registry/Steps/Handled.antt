-- ===== src/Registry/Steps/Handled.antt =====
-- The cache of registry/zookeeper_client.cc under the events of the C client and under the heartbeat.
use xrpc.Base.{
  ℕ, ◌&&◌, Option, none, some, List, [], ◌∷◌, Bytes, Result, ok, throw, Bool-cases, inl, inr,
}
use xrpc.Base.Dict.{lookup, keys}
use xrpc.Registry.Cache.{service_of, cache_prune}
use xrpc.Registry.Cache.Invariant.{IsCache, empty-IsCache, erase-IsCache, keep-IsCache}
use xrpc.Registry.ZooKeeper.{SessionState, connected, expired, connecting, other_state, ZooKeeper}
use xrpc.Registry.Session.{Client, is_ok}
use xrpc.Registry.Nodes.{get_node_data, remember, forget}
use xrpc.Registry.Events.{
  Event, session_event, node_event, NodeEvent, created, changed, deleted, child, other_event,
  on_session, on_node, with_callback, watcher_callback, refresh_service, refresh_services,
  heartbeat_round, refresh, deliver, drop_service, dispatch_event,
}
use xrpc.Registry.Keeps.{lift-Keeps, get_node_data-Keeps, register_watcher-Keeps}
use xrpc.Registry.Steps.Kept.{Kept, set_cache-Kept, remember-Kept, forget-Kept}

module _ {zk : ZooKeeper} where
  session-IsCache :
      (state : SessionState) (c : Client zk)
      → IsCache c.service_cache
      → IsCache (on_session state c).service_cache
  unfolding on_session
  session-IsCache connected c w = w
  session-IsCache expired c w = empty-IsCache
  session-IsCache connecting c w = w
  session-IsCache (other_state n) c w = w

  deliver-IsCache :
      (path : Bytes) (callback : ℕ) (text : Bytes) (r : Client zk × Result (Unit {0}))
      → IsCache r.0.service_cache
      → IsCache (deliver path callback text r).0.service_cache
  deliver-IsCache path callback text (c, ok u) w =
      register_watcher-Keeps (λ cache. IsCache cache) path c w
  deliver-IsCache path callback text (c, throw e) w = w

  refresh-IsCache :
      (path : Bytes) (callback : ℕ) (r : Client zk × Result Bytes)
      → IsCache r.0.service_cache
      → IsCache (refresh path callback r).0.service_cache
  refresh-IsCache path callback (c, ok text) w =
      deliver-IsCache path callback text (remember path text c) (remember-Kept path text c w)
  refresh-IsCache path callback (c, throw e) w = w

  drop_service-Kept : (path : Bytes) → Kept (drop_service {zk = zk} path)
  drop_service-Kept path =
      lift-Keeps _ (service_of path) _ (λ service e. set_cache-Kept _ (erase-IsCache service))

  node-IsCache :
      (event : NodeEvent) (path : Bytes) (callback : ℕ) (c : Client zk)
      → IsCache c.service_cache
      → IsCache (on_node event path callback c).0.service_cache
  unfolding on_node
  node-IsCache created path callback c w =
      refresh-IsCache path callback (get_node_data path c)
        (get_node_data-Keeps (λ cache. IsCache cache) path c w)
  node-IsCache changed path callback c w =
      refresh-IsCache path callback (get_node_data path c)
        (get_node_data-Keeps (λ cache. IsCache cache) path c w)
  node-IsCache deleted path callback c w =
      deliver-IsCache path callback [] (forget path c) (forget-Kept path c w)
  node-IsCache child path callback c w = drop_service-Kept path c w
  node-IsCache other_event path callback c w = w

  watched-IsCache :
      (event : NodeEvent) (path : Bytes) (o : Option ℕ) (c : Client zk)
      → IsCache c.service_cache
      → IsCache (with_callback event path c o).0.service_cache
  unfolding with_callback
  watched-IsCache event path none c w = w
  watched-IsCache event path (some callback) c w = node-IsCache event path callback c w

  dispatch-IsCache :
      (event : Event) (c : Client zk)
      → IsCache c.service_cache
      → IsCache (dispatch_event event c).0.service_cache
  dispatch-IsCache (session_event state) c w = session-IsCache state c w
  dispatch-IsCache (node_event event none) c w = w
  dispatch-IsCache (node_event event (some path)) c w =
      watched-IsCache event path (lookup path c.watchers) c w

  pub callback-IsCache :
      (event : Event) (c : Client zk)
      → IsCache c.service_cache
      → IsCache (watcher_callback event c).0.service_cache
  unfolding watcher_callback
  callback-IsCache event c w = elim (Bool-cases (c.handle && c.running)) [
    | inl e ↦ rw e (dispatch-IsCache event c w)
    | inr e ↦ rw e w
  ]

  pub heartbeat-IsCache :
      (service : Bytes) (c : Client zk)
      → IsCache c.service_cache
      → IsCache (refresh_service service c).service_cache
  unfolding refresh_service
  heartbeat-IsCache service c w =
      let answer = (zk.children c.zoo (b'/' ∷ service)).1 in
      elim (Bool-cases (is_ok answer.0)) [
        | inl e ↦ rw e (unfold cache_prune in keep-IsCache service _ c.service_cache w)
        | inr e ↦ rw e w
      ]

  services-IsCache :
      (services : List Bytes) (c : Client zk)
      → IsCache c.service_cache
      → IsCache (refresh_services services c).service_cache
  unfolding refresh_services
  services-IsCache [] c w = w
  services-IsCache (service ∷ services) c w =
      services-IsCache services (refresh_service service c) (heartbeat-IsCache service c w)

  pub round-IsCache :
      (c : Client zk) → IsCache c.service_cache → IsCache (heartbeat_round c).service_cache
  unfolding heartbeat_round
  round-IsCache c w = elim (Bool-cases (c.running && c.is_connected && c.handle)) [
    | inl e ↦ rw e (services-IsCache (keys c.service_cache) c w)
    | inr e ↦ rw e w
  ]
