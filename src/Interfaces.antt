-- ===== src/Interfaces.antt =====
-- What the server and the channel use of registry/zookeeper_client.h and transport/asio_transport.h.
-- The state is that of the component together with the network behind it.
use xrpc.Base.{Bool, List, Bytes, Result}
use xrpc.Base.Int.{ℤ}

pub record Registry : Type 1 where
  pub State : Type 0
  pub register : State → Bytes → Bytes → Bool → State × Result (Unit {0})
  pub find_instances_by_method : State → Bytes → Bytes → State × Result (List Bytes)

pub record Transport : Type 1 where
  pub State : Type 0
  pub connect : State → Bytes → ℤ → State × Result (Unit {0})
  pub send : State → Bytes → State × Bool × Bytes
