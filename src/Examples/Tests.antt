-- ===== src/Examples/Tests.antt =====
-- The theorems at concrete inputs, and runs of the code.
use xrpc.Base.{
  ◌+◌, ◌<◌, ◌≤◌, ◌≡◌, refl, Bool, true, none, some, [], ◌∷◌, ◌++◌, Bytes, codes, length, replicate,
  arith, ok, text_eq, codes,
}
use xrpc.Base.Int.{pos}
use xrpc.Base.Dict.{lookup}
use xrpc.Codec.Stream.{compress, decompress}
use xrpc.Codec.Stream.Drain.{compress_total, decompress-deflated}
use xrpc.Codec.Corrupt.{decode_accepts_errors}
use xrpc.Codec.{frame, encode, encode_response, decode, decode_response}
use xrpc.Codec.RoundTrip.{sent_header, decode-encode, decode_response-encode_response}
use xrpc.Controller.{fresh, cancels, fails, notifies, resets, life}
use xrpc.Controller.Contract.{count, life-le-registered, life_once}
use xrpc.Controller.Reports.{Reports, run-Reports}
use xrpc.Proto.{RpcHeader, empty_header}
use xrpc.Proto.Wire.{IsWire, text_size}
use xrpc.Server.{on_message, service_error}
use xrpc.Server.Answers.{Tells, by_service, on_message_total}
use xrpc.Server.Calls.{refused-Tells}
use xrpc.Examples.Wire.{plain, plain_laws}
use xrpc.Examples.Deflate.{runs, runs_laws, torn, cut_short, shrink, strip}
use xrpc.Examples.Echo.{server, say, lost}

-- Compresses well: 203 bytes become four.
abbrev long_body : Bytes
long_body = replicate 200 b'a' ++ codes "bcd"

abbrev asked : RpcHeader
asked = record say { compressed = true }

-- The headers here hold short texts and no metadata.
abbrev is_utf8 : Bytes → Bool
is_utf8 = λ s. true

header-IsWire :
    (h : RpcHeader)
    → h.args_size ≡ 0
    → h.request_id ≡ 12345
    → h.status ≡ pos 0
    → h.metadata ≡ []
    → h.error ≡ none
    → length h.service_name + length h.method_name < 100
    → IsWire is_utf8 h
unfolding text_size
header-IsWire h size id status metadata error small = record {
  service_utf8 = refl;
  method_utf8 = refl;
  args_size_fits = omega arith;
  request_id_fits = omega arith;
  status_fits = rw status (omega arith);
  metadata_utf8 = rw metadata tt;
  error_wire = rw error tt;
  small = rw (metadata, error) (omega arith);
}

asked-IsWire : IsWire is_utf8 asked
asked-IsWire = header-IsWire asked refl refl refl refl refl (omega arith)

compress_total_example : compress runs long_body ≡ ok (shrink long_body)
compress_total_example = compress_total runs runs_laws long_body

decompress-deflated_example : decompress runs (shrink long_body) ≡ ok long_body
unfolding strip
decompress-deflated_example = decompress-deflated runs runs_laws long_body (omega arith)

-- A header that says that its body is compressed.
abbrev claimed : RpcHeader
claimed = record say { compressed = true; args_size = 3 }

claimed-IsWire : IsWire is_utf8 claimed
unfolding text_size
claimed-IsWire = record {
  service_utf8 = refl;
  method_utf8 = refl;
  args_size_fits = omega arith;
  request_id_fits = omega arith;
  status_fits = omega arith;
  metadata_utf8 = tt;
  error_wire = tt;
  small = omega arith;
}

decode_accepts_errors_example :
    (wire : Bytes) × (frame plain torn claimed (codes "ab?") ≡ ok wire)
    × (decode plain torn (wire ++ codes "more") empty_header []
        ≡ record { success = true; header = claimed; args = codes "ab" })
decode_accepts_errors_example =
    decode_accepts_errors plain plain_laws torn claimed empty_header (codes "ab?") (codes "ab")
      (codes "more") [] claimed-IsWire refl refl (omega arith) (omega arith) cut_short

decode-encode_example :
    (wire : Bytes) × (encode plain runs asked long_body ≡ ok wire)
    × (decode plain runs (wire ++ codes "more") empty_header [] ≡ record {
      success = true;
      header = sent_header {z = runs} runs_laws asked long_body;
      args = long_body;
    })
decode-encode_example =
    decode-encode plain plain_laws runs runs_laws asked long_body long_body (codes "more")
      empty_header [] asked-IsWire refl (omega arith) (omega arith)

decode_response-encode_response_example :
    (wire : Bytes) × (encode_response plain runs asked long_body ≡ ok wire)
    × (decode_response plain runs (wire ++ []) empty_header []
        ≡ (true, sent_header {z = runs} runs_laws asked long_body, long_body))
decode_response-encode_response_example =
    decode_response-encode_response plain plain_laws runs runs_laws asked empty_header long_body []
      long_body long_body [] true asked-IsWire refl (omega arith) (omega arith) refl

life_once_example : life (cancels ∷ notifies (some 7) ∷ fails [] ∷ []) ≡ 7 ∷ []
life_once_example = life_once 7 (cancels ∷ []) (fails [] ∷ []) (omega arith) (omega arith)

run-Reports_example :
    Reports (fails (codes "old") ∷ cancels ∷ resets ∷ fails (codes "new") ∷ []) fresh
run-Reports_example =
    run-Reports (fails (codes "old") ∷ cancels ∷ resets ∷ fails (codes "new") ∷ []) fresh

life-le-registered_example :
    count 3 (life (notifies (some 3) ∷ cancels ∷ notifies (some 3) ∷ resets ∷ [])) ≤ 2
life-le-registered_example =
    life-le-registered 3 (notifies (some 3) ∷ cancels ∷ notifies (some 3) ∷ resets ∷ [])

on_message_total_example : (answer : Bytes) × ((on_message plain runs server []).1 ≡ ok answer)
on_message_total_example = on_message_total plain plain_laws runs runs_laws server []

refused-Tells_example :
    (request : Bytes) × (answer : Bytes) × (encode plain runs lost (codes "hi") ≡ ok request)
    × (on_message plain runs server request ≡ (0, ok answer))
    × Tells plain runs answer empty_header [] [] 2 service_error
refused-Tells_example =
    refused-Tells plain plain_laws runs runs_laws server lost empty_header (codes "hi") [] []
      (codes "hi") (header-IsWire lost refl refl refl refl refl (omega arith))
      (unfold text_size in omega arith) refl (omega arith)
      (by_service refl (unfold lookup text_eq in refl)) refl
