-- ===== src/Registry/ZooKeeper.antt =====
-- The ZooKeeper C client, as registry/zookeeper_client.cc calls it. The state is that of the
-- session and of the servers; another client may change it between two calls.
use xrpc.Base.{ℕ, Bool, Option, List, Bytes}
use xrpc.Base.Int.{ℤ}

-- `ZOK`, `ZNODEEXISTS`, `ZNONODE`, and the other return codes.
pub data Code : Type 0 where
  zok znodeexists znonode : Code
  zfailure : ℕ → Code

-- `ZOO_CONNECTED_STATE`, `ZOO_EXPIRED_SESSION_STATE`, `ZOO_CONNECTING_STATE`, and the others.
pub data SessionState : Type 0 where
  connected expired connecting : SessionState
  other_state : ℕ → SessionState

pub record ZooKeeper : Type 1 where
  pub State : Type 0
  -- Whether there is a handle.
  pub init : State → Bytes → ℤ → State × Bool
  pub close : State → State
  pub sleep : State → ℕ → State
  pub session : State → SessionState
  -- Path, data (none is null), ephemeral.
  pub create : State → Bytes → Option Bytes → Bool → State × Code
  -- The version is that of the `Stat`.
  pub exists : State → Bytes → State × (Code × ℕ)
  -- Sets the watch too.
  pub wexists : State → Bytes → State × Code
  pub set : State → Bytes → Bytes → ℕ → State × Code
  -- Path and the size of the buffer; the bytes in it, or none for a node without data.
  pub get : State → Bytes → ℕ → State × (Code × Option Bytes)
  pub children : State → Bytes → State × (Code × List Bytes)
  pub delete : State → Bytes → State × Code
  pub zerror : Code → Bytes
