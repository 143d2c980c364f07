-- ===== src/Proto.antt =====
-- The messages of protos/xrpc.proto, with the setters that the code calls on the generated classes,
-- and the part of Protocol Buffers that the code relies on.
pub mod Wire
use xrpc.Base.{
  ℕ, ◌+◌, ◌<◌, ◌≤◌, ◌^◌, ◌≡◌, Bool, true, false, Option, none, some, List, [], ◌∷◌, ◌++◌, Bytes,
  length, All,
}
use xrpc.Base.Dict.{Dict}
use xrpc.Base.Int.{ℤ, pos, IsInt32}

pub record RpcError : Type 0 where
  pub code : ℤ
  pub message : Bytes

-- `error` is a submessage: `has_error` tells `some` from `none`.
pub record RpcHeader : Type 0 where
  pub service_name : Bytes
  pub method_name : Bytes
  pub args_size : ℕ
  pub request_id : ℕ
  pub status : ℤ
  pub metadata : Dict Bytes
  pub compressed : Bool
  pub error : Option RpcError
  pub cancelled : Bool

-- `RpcHeader()`: every field at its proto3 default.
abbrev pub empty_header : RpcHeader
empty_header = record {
  service_name = [];
  method_name = [];
  args_size = 0;
  request_id = 0;
  status = pos 0;
  metadata = [];
  compressed = false;
  error = none;
  cancelled = false;
}

abbrev pub has_error : RpcHeader → Bool
has_error h = elim h.error [ none ↦ false | some _ ↦ true ]

-- `error().message()`, which is the default where there is no error.
abbrev pub error_message : RpcHeader → Bytes
error_message h = elim h.error [ none ↦ [] | some e ↦ e.message ]

-- `set_status`, `mutable_error()->set_code` and `mutable_error()->set_message`.
unfoldable pub with_error : RpcHeader → ℕ → Bytes → RpcHeader
with_error h code message = record h {
  status = pos 1;
  error = some (record { code = pos code; message = message });
}

-- Generated code and the runtime library. A parse returns what the message object holds after
-- it, also when it fails, and so do the reads of a `CodedInputStream`, with the bytes not yet read.
pub record Protobuf : Type 1 where
  pub Message : Type 0
  pub serialize : Message → Option Bytes
  pub parse : Message → Bytes → Bool × Message
  pub of_header : RpcHeader → Message
  pub serialize_header : RpcHeader → Option Bytes
  pub parse_header : RpcHeader → Bytes → Bool × RpcHeader
  pub write_varint32 : ℕ → Bytes
  pub read_varint32 : Bytes → Bool × ℕ × Bytes
  pub read_string : ℤ → Bytes → Bool × Bytes × Bytes
