-- ===== src/Proto/Wire.antt =====
-- What Protocol Buffers documents of the wire format, as far as xRPC relies on it.
use xrpc.Base.{
  ℕ, ◌+◌, ◌<◌, ◌^◌, ◌≡◌, Bool, true, Option, none, some, [], ◌∷◌, ◌++◌, Bytes, length, All,
}
use xrpc.Base.Dict.{Dict}
use xrpc.Base.Int.{pos, IsInt32}
use xrpc.Proto.{RpcHeader, RpcError, Protobuf, empty_header}

abbrev pub metadata_size : Dict Bytes → ℕ
metadata_size [] = 0
metadata_size ((k, v) ∷ m) = length k + length v + 20 + metadata_size m

abbrev pub error_size : Option RpcError → ℕ
error_size none = 0
error_size (some e) = length e.message

-- The bytes of text in a header, with an allowance for each entry of the metadata.
unfoldable pub text_size : RpcHeader → ℕ
text_size h =
    length h.service_name + length h.method_name + metadata_size h.metadata + error_size h.error

-- Texts that a proto3 `string` can hold.
module _ (is_utf8 : Bytes → Bool) where
  abbrev IsErrorWire : Option RpcError → Type 0
  IsErrorWire none = Unit {0}
  IsErrorWire (some e) = IsInt32 e.code × (is_utf8 e.message ≡ true)

  -- A header whose fields are in the ranges of their proto types, and of at most a megabyte.
  pub record IsWire (h : RpcHeader) : Type 0 where
    pub service_utf8 : is_utf8 h.service_name ≡ true
    pub method_utf8 : is_utf8 h.method_name ≡ true
    pub args_size_fits : h.args_size < 2 ^ 32
    pub request_id_fits : h.request_id < 2 ^ 64
    pub status_fits : IsInt32 h.status
    pub metadata_utf8 : All (λ e. (is_utf8 e.0 ≡ true) × (is_utf8 e.1 ≡ true)) h.metadata
    pub error_wire : IsErrorWire h.error
    pub small : text_size h < 2 ^ 20

pub record ProtobufLaws (pb : Protobuf) : Type 0 where
  pub is_utf8 : Bytes → Bool
  -- ASCII is UTF-8.
  pub ascii_utf8 : (s : Bytes) → All (λ c. c < 128) s → is_utf8 s ≡ true
  pub serialize_header_total :
      (h : RpcHeader)
      → IsWire is_utf8 h
      → (s : Bytes) × (pb.serialize_header h ≡ some s) × (length s < 2 ^ 24)
  pub parse-serialize_header :
      (h old : RpcHeader) (s : Bytes)
      → IsWire is_utf8 h
      → pb.serialize_header h ≡ some s
      → pb.parse_header old s ≡ (true, h)
  pub read-write_varint32 :
      (n : ℕ) (rest : Bytes)
      → n < 2 ^ 32
      → length rest + 5 < 2 ^ 31
      → pb.read_varint32 (pb.write_varint32 n ++ rest) ≡ (true, n, rest)
  pub read_string_exact :
      (s rest : Bytes)
      → length s + length rest < 2 ^ 31
      → pb.read_string (pos (length s)) (s ++ rest) ≡ (true, s, rest)
  -- A message of defaults alone takes no bytes.
  pub serialize_default : pb.serialize (pb.of_header empty_header) ≡ some []
