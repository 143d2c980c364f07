-- ===== src/Registry/Steps/Reach.antt =====
-- Every sequence of steps of the client of registry/zookeeper_client.cc.
use xrpc.Base.{List, [], ◌∷◌, Bytes, All}
use xrpc.Registry.Cache.Invariant.{IsCache}
use xrpc.Registry.ZooKeeper.{ZooKeeper}
use xrpc.Registry.Session.{Client}
use xrpc.Registry.Steps.{Op, step, run}
use xrpc.Registry.Steps.Children.{IsName, Unique}
use xrpc.Registry.Steps.Kept.{
  start-Kept, stop-IsCache, register-Kept, discover-Kept, find-Kept, delete-Kept, watch-Kept,
}
use xrpc.Registry.Steps.Handled.{callback-IsCache, heartbeat-IsCache, round-IsCache}

-- A service is looked up by a name without a slash.
abbrev pub IsProper : {zk : ZooKeeper} → Op zk → Type 0
IsProper (Op.find_op service method) = IsName service
IsProper _ = Unit {0}

module _ {zk : ZooKeeper} where
  step-IsCache :
      (op : Op zk) (c : Client zk)
      → ((z : zk.State) (path : Bytes) → Unique (zk.children z path).1.1)
      → IsProper op
      → IsCache c.service_cache
      → IsCache (step op c).service_cache
  unfolding step
  step-IsCache Op.start_op c distinct h w = start-Kept c w
  step-IsCache Op.stop_op c distinct h w = stop-IsCache c
  step-IsCache (Op.register_op path text ephemeral) c distinct h w =
      register-Kept path text ephemeral c w
  step-IsCache (Op.discover_op path) c distinct h w = discover-Kept path c w
  step-IsCache (Op.find_op service method) c distinct h w = find-Kept service method h distinct c w
  step-IsCache (Op.delete_op path) c distinct h w = delete-Kept path c w
  step-IsCache (Op.watch_op path callback) c distinct h w = watch-Kept path callback c w
  step-IsCache (Op.event_op event) c distinct h w = callback-IsCache event c w
  step-IsCache (Op.heartbeat_op service) c distinct h w = heartbeat-IsCache service c w
  step-IsCache Op.round_op c distinct h w = round-IsCache c w
  step-IsCache (Op.others_op z) c distinct h w = w

  -- When ZooKeeper lists no child twice, services are looked up by names without a slash, and
  -- in the cache at the start (empty from the constructor) each path stands under its own
  -- service, and no path stands there twice, then the same holds after every sequence of Start,
  -- Stop, Register, Discover, FindInstancesByMethod, Delete, Watch, events, steps and rounds of
  -- the heartbeat, and changes by others.
  pub run-IsCache :
      (ops : List (Op zk)) (c : Client zk)
      → ((z : zk.State) (path : Bytes) → Unique (zk.children z path).1.1)
      → All IsProper ops
      → IsCache c.service_cache
      → IsCache (run ops c).service_cache
  unfolding run
  run-IsCache [] c distinct h w = w
  run-IsCache (op ∷ ops) c distinct h w =
      run-IsCache ops (step op c) distinct h.1 (step-IsCache op c distinct h.0 w)
