-- ===== src/Examples/Remote.antt =====
-- The theorems on whole calls, at calls of the echo server.
use xrpc.Base.{
  ℕ, ◌+◌, ◌<◌, ◌^◌, ◌≡◌, refl, true, false, Option, none, some, [], ◌∷◌, Bytes, codes, arith,
  text_eq,
}
use xrpc.Base.Int.{pos}
use xrpc.Base.Dict.{lookup}
use xrpc.Controller.{Controller, fresh, set_failed, destroy}
use xrpc.Proto.Wire.{IsWire, text_size}
use xrpc.Server.{find_method, service_error}
use xrpc.Server.Answers.{by_service}
use xrpc.Codec.{encode}
use xrpc.Channel.{request_header, call_method, Called}
use xrpc.Channel.Done.{ran_in_all, call_method-done_once}
use xrpc.Channel.{on_reply}
use xrpc.Channel.RemoteAsync.{Waits, async_done}
use xrpc.Server.{on_message}
use xrpc.Channel.Remote.{Route, remote_done, remote_failed, remote_refused}
use xrpc.Base.{ok}
use xrpc.Examples.Wire.{plain, plain_laws}
use xrpc.Examples.Deflate.{runs, runs_laws}
use xrpc.Examples.Echo.{echo, server}
use xrpc.Examples.Network.{directory, line, deliver_ok}

-- A call of `method` of `service` with the request "hi", as request 7.
abbrev call : Bytes → Bytes → Option ℕ → Called plain runs directory line
call service method done =
    call_method plain runs directory line true service method 7 done fresh (codes "hi") [] tt 0

abbrev ends : Bytes → Controller → Called plain runs directory line
ends response c = record {
  registry = tt;
  transport = 1;
  controller = c;
  response = response;
  ran = [];
  waiting = none;
}

route :
    (service method : Bytes)
    → Route directory line service method (codes "0.0.0.0") (pos 8080) tt tt 0 0
route service method = record {
  others = [];
  listed = refl;
  plain = (refl, (refl, (refl, (refl, (refl, (refl, (refl, tt)))))));
  fits = omega arith;
  joined = refl;
}

small-IsWire :
    (service method : Bytes)
    → text_size (request_header service method 7) + 64 < 2 ^ 20
    → IsWire (λ s. true) (request_header service method 7)
small-IsWire service method small = record {
  service_utf8 = refl;
  method_utf8 = refl;
  args_size_fits = omega arith;
  request_id_fits = omega arith;
  status_fits = omega arith;
  metadata_utf8 = tt;
  error_wire = tt;
  small = omega arith;
}

call_method-done_once_example :
    ran_in_all plain runs [] false fresh [] directory line
      (call (codes "Echo") (codes "Say") (some 9))
    ≡ 9 ∷ []
call_method-done_once_example =
    call_method-done_once plain runs [] false fresh [] directory line true (codes "Echo")
      (codes "Say") 7 (some 9) fresh (codes "hi") [] tt 0

remote_done_example : call (codes "Echo") (codes "Say") none ≡ ends (codes "hi!") fresh
unfolding destroy
remote_done_example =
    remote_done plain plain_laws runs runs_laws directory line server true (codes "Echo")
      (codes "Say") (codes "0.0.0.0") (pos 8080) 7 fresh (codes "hi") [] (codes "hi!") (codes "hi")
      tt tt 0 0 1 (route _ _) refl (small-IsWire _ _ (unfold text_size in omega arith)) refl
      (omega arith) (λ wire answer sent e. deliver_ok wire answer e) echo 0 (codes "hi")
      (codes "hi!")
      (unfold lookup text_eq find_method in
        record { live = refl; found = refl; offers = refl; parsed = refl })
      refl refl (omega arith) refl

remote_failed_example :
    call (codes "Echo") (codes "Fail") none ≡ ends [] (set_failed (codes "no") fresh)
remote_failed_example =
    remote_failed plain plain_laws runs runs_laws directory line server true (codes "Echo")
      (codes "Fail") (codes "0.0.0.0") (pos 8080) 7 fresh (codes "hi") [] [] (codes "hi") tt tt 0 0
      1 (route _ _) refl (small-IsWire _ _ (unfold text_size in omega arith)) refl (omega arith)
      (λ wire answer sent e. deliver_ok wire answer e) echo 1 (codes "hi") [] (codes "no")
      (unfold lookup text_eq find_method in
        record { live = refl; found = refl; offers = refl; parsed = refl })
      refl refl (unfold text_size in omega arith) refl (omega arith) refl

remote_refused_example :
    call (codes "Nobody") (codes "Say") none ≡ ends [] (set_failed service_error fresh)
remote_refused_example =
    remote_refused plain plain_laws runs runs_laws directory line server true (codes "Nobody")
      (codes "Say") (codes "0.0.0.0") (pos 8080) 7 fresh (codes "hi") [] [] (codes "hi") tt tt 0 0 1
      (route _ _) refl (small-IsWire _ _ (unfold text_size in omega arith)) refl (omega arith)
      (λ wire answer sent e. deliver_ok wire answer e)
      (by_service refl (unfold lookup text_eq in refl)) (unfold text_size in omega arith) refl

async_done_example :
    (wire : Bytes) × (answer : Bytes) × (call (codes "Echo") (codes "Say") (some 9)
      ≡ Waits plain runs directory line tt 0 fresh [] wire 9)
    × (encode plain runs (request_header (codes "Echo") (codes "Say") 7) (codes "hi") ≡ ok wire)
    × ((on_message plain runs server wire).1 ≡ ok answer)
    × (on_reply plain runs 9 answer true fresh [] ≡ (fresh, codes "hi!", 9 ∷ []))
async_done_example =
    async_done plain plain_laws runs runs_laws directory line server (codes "Echo") (codes "Say")
      (codes "0.0.0.0") (pos 8080) 7 9 fresh (codes "hi") [] (codes "hi!") (codes "hi") tt tt 0 0
      (route _ _) refl (small-IsWire _ _ (unfold text_size in omega arith)) refl (omega arith) echo
      0 (codes "hi") (codes "hi!")
      (unfold lookup text_eq find_method in
        record { live = refl; found = refl; offers = refl; parsed = refl })
      refl refl (omega arith) refl
