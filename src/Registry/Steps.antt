-- ===== src/Registry/Steps.antt =====
-- The steps of a client of registry/zookeeper_client.cc, in any order: the public methods, events of the
-- C client, the heartbeat's work on one service, and changes made by others to the nodes.
pub mod Children
pub mod Kept
pub mod Handled
pub mod Reach
use xrpc.Base.{ℕ, Bool, List, [], ◌∷◌, Bytes}
use xrpc.Registry.ZooKeeper.{ZooKeeper}
use xrpc.Registry.Session.{Client, start, stop}
use xrpc.Registry.Nodes.{register, discover, find_instances_by_method, delete, watch}
use xrpc.Registry.Events.{Event, watcher_callback, refresh_service, heartbeat_round}

pub data Op (zk : ZooKeeper) : Type 0 where
  start_op stop_op : Op zk
  register_op : Bytes → Bytes → Bool → Op zk
  discover_op : Bytes → Op zk
  find_op : Bytes → Bytes → Op zk
  delete_op : Bytes → Op zk
  watch_op : Bytes → ℕ → Op zk
  event_op : Event → Op zk
  heartbeat_op : Bytes → Op zk
  round_op : Op zk
  others_op : zk.State → Op zk

module _ {zk : ZooKeeper} where
  unfoldable pub step : Op zk → Client zk → Client zk
  step Op.start_op c = (start zk c).0
  step Op.stop_op c = stop zk c
  step (Op.register_op path text ephemeral) c = (register path text ephemeral c).0
  step (Op.discover_op path) c = (discover path c).0
  step (Op.find_op service method) c = (find_instances_by_method service method c).0
  step (Op.delete_op path) c = (delete path c).0
  step (Op.watch_op path callback) c = (watch path callback c).0
  step (Op.event_op event) c = (watcher_callback event c).0
  step (Op.heartbeat_op service) c = refresh_service service c
  step Op.round_op c = heartbeat_round c
  step (Op.others_op z) c = record c { zoo = z }

  unfoldable pub run : List (Op zk) → Client zk → Client zk
  run [] c = c
  run (op ∷ ops) c = run ops (step op c)
