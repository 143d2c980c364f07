-- ===== src/Examples/Echo.antt =====
-- A server with one service, whose world counts the calls.
use xrpc.Base.{ℕ, zero, suc, true, none, [], ◌∷◌, ◌++◌, Bytes, codes, ◌+◌}
use xrpc.Base.Int.{pos}
use xrpc.Controller.{Controller}
use xrpc.Proto.{RpcHeader, empty_header}
use xrpc.Server.{Reply, Service, Server}
use xrpc.Examples.Wire.{plain}

-- `Say` returns its request with a mark, `Fail` sets its controller failed.
abbrev pub act : ℕ → ℕ → Controller → Bytes → Bytes → Reply plain ℕ
act zero world c request response = record {
  world = world + 1;
  controller = c;
  response = request ++ codes "!";
  thrown = none;
}
act (suc _) world c request response = record {
  world = world + 1;
  controller = record c { failed = true; error_text = codes "no" };
  response = response;
  thrown = none;
}

abbrev pub echo : Service plain ℕ
echo = record {
  name = codes "Echo";
  methods = codes "Say" ∷ codes "Fail" ∷ [];
  request_prototype = λ i. [];
  response_prototype = λ i. [];
  call = act;
  run_closure = λ w c. w;
}

abbrev pub server : Server plain ℕ
server = record {
  services = (codes "Echo", echo) ∷ [];
  server_ip = codes "0.0.0.0";
  server_port = pos 8080;
  world = 0;
}

abbrev pub say : RpcHeader
say = record empty_header {
  service_name = codes "Echo";
  method_name = codes "Say";
  request_id = 12345;
}

abbrev pub fail : RpcHeader
fail = record say { method_name = codes "Fail" }

abbrev pub lost : RpcHeader
lost = record say { service_name = codes "Nobody" }
