-- ===== src/Examples/Wire.antt =====
-- A small wire format that keeps what `ProtobufLaws` asks. A message is its own bytes.
use xrpc.Base.{
  ℕ, zero, suc, ◌+◌, ◌≤◌, ◌≡◌, refl, Bool, true, false, Option, none, some, [], ◌∷◌, ◌++◌, Bytes,
  length, take, drop, length-append, take-length_append, drop-length_append, arith, leb, ◌==◌,
  if◌then◌else◌, ltb,
}
use xrpc.Base.Dict.{Dict}
use xrpc.Base.Int.{ℤ, pos, negsuc}
use xrpc.Proto.{RpcHeader, RpcError, Protobuf}
use xrpc.Proto.Wire.{ProtobufLaws, IsWire, text_size, metadata_size, error_size}

abbrev pub put_text : Bytes → Bytes → Bytes
put_text t rest = length t ∷ (t ++ rest)

abbrev pub get_text : Bytes → Bytes × Bytes
get_text [] = ([], [])
get_text (n ∷ s) = (take n s, drop n s)

pub get-put_text : (t rest : Bytes) → get_text (put_text t rest) ≡ (t, rest)
get-put_text t rest = rw (take-length_append t rest, drop-length_append t rest)

abbrev put_int : ℤ → Bytes → Bytes
put_int (pos n) rest = 0 ∷ n ∷ rest
put_int (negsuc n) rest = 1 ∷ n ∷ rest

abbrev get_int : Bytes → ℤ × Bytes
get_int (zero ∷ n ∷ s) = (pos n, s)
get_int (suc _ ∷ n ∷ s) = (negsuc n, s)
get_int _ = (pos 0, [])

get-put_int : (i : ℤ) (rest : Bytes) → get_int (put_int i rest) ≡ (i, rest)
get-put_int (pos n) rest = refl
get-put_int (negsuc n) rest = refl

abbrev pub put_bool : Bool → Bytes → Bytes
put_bool true rest = 1 ∷ rest
put_bool false rest = 0 ∷ rest

abbrev pub get_bool : Bytes → Bool × Bytes
get_bool [] = (false, [])
get_bool (b ∷ s) = (b == 1, s)

pub get-put_bool : (b : Bool) (rest : Bytes) → get_bool (put_bool b rest) ≡ (b, rest)
get-put_bool true rest = refl
get-put_bool false rest = refl

unfoldable pub put_entries : Dict Bytes → Bytes → Bytes
put_entries [] rest = rest
put_entries ((k, v) ∷ m) rest = put_text k (put_text v (put_entries m rest))

unfoldable pub get_entries : ℕ → Bytes → Dict Bytes × Bytes
get_entries zero s = ([], s)
get_entries (suc n) s =
    let (k, s₁) = get_text s in
    let (v, s₂) = get_text s₁ in let (m, s₃) = get_entries n s₂ in ((k, v) ∷ m, s₃)

get-put_entries :
    (m : Dict Bytes) (rest : Bytes) → get_entries (length m) (put_entries m rest) ≡ (m, rest)
unfolding get_entries put_entries
get-put_entries [] rest = refl
get-put_entries ((k, v) ∷ m) rest =
    simp (take-length_append, drop-length_append, get-put_entries m rest)

abbrev put_error : Option RpcError → Bytes → Bytes
put_error none rest = 0 ∷ rest
put_error (some e) rest = 1 ∷ put_int e.code (put_text e.message rest)

abbrev get_error : Bytes → Option RpcError × Bytes
get_error (suc _ ∷ s) =
    let (c, s₁) = get_int s in
    let (m, s₂) = get_text s₁ in (some (record { code = c; message = m }), s₂)
get_error (zero ∷ s) = (none, s)
get_error [] = (none, [])

get-put_error : (e : Option RpcError) (rest : Bytes) → get_error (put_error e rest) ≡ (e, rest)
get-put_error none rest = refl
get-put_error (some e) rest = simp (get-put_int, take-length_append, drop-length_append)

unfoldable pub put_header : RpcHeader → Bytes
put_header h = put_text h.service_name (
    put_text h.method_name (
      h.args_size
      ∷ h.request_id
      ∷ put_int h.status (
          length h.metadata
          ∷ put_entries h.metadata
              (put_bool h.compressed (put_error h.error (put_bool h.cancelled []))))))

abbrev first_two : Bytes → ℕ × ℕ × Bytes
first_two (a ∷ b ∷ s) = (a, b, s)
first_two _ = (0, 0, [])

abbrev get_metadata : Bytes → Dict Bytes × Bytes
get_metadata [] = ([], [])
get_metadata (n ∷ s) = get_entries n s

unfoldable pub get_header : Bytes → RpcHeader
get_header s =
    let (service, s₁) = get_text s in
    let (method, s₂) = get_text s₁ in
    let (size, id, s₃) = first_two s₂ in
    let (status, s₄) = get_int s₃ in
    let (metadata, s₅) = get_metadata s₄ in
    let (compressed, s₆) = get_bool s₅ in
    let (error, s₇) = get_error s₆ in
    record {
      service_name = service;
      method_name = method;
      args_size = size;
      request_id = id;
      status = status;
      metadata = metadata;
      compressed = compressed;
      error = error;
      cancelled = (get_bool s₇).0;
    }

get-put_header : (h : RpcHeader) → get_header (put_header h) ≡ h
unfolding get_header put_header
get-put_header h = simp (
  take-length_append, drop-length_append, get-put_int, get-put_entries, get-put_bool, get-put_error,
)

length-put_entries :
    (m : Dict Bytes) (rest : Bytes) → length (put_entries m rest) ≤ metadata_size m + length rest
unfolding put_entries
length-put_entries [] rest = omega arith
length-put_entries ((k, v) ∷ m) rest = omega (
  arith,
  length-append k (put_text v (put_entries m rest)),
  length-append v (put_entries m rest),
  length-put_entries m rest,
)

length-put_int : (i : ℤ) (rest : Bytes) → length (put_int i rest) ≡ 2 + length rest
length-put_int (pos n) rest = omega arith
length-put_int (negsuc n) rest = omega arith

pub length-put_bool : (b : Bool) (rest : Bytes) → length (put_bool b rest) ≡ 1 + length rest
length-put_bool true rest = omega arith
length-put_bool false rest = omega arith

length-put_error :
    (e : Option RpcError) (rest : Bytes)
    → length (put_error e rest) ≤ 4 + error_size e + length rest
length-put_error none rest = omega arith
length-put_error (some e) rest =
    omega (arith, length-put_int e.code (put_text e.message rest), length-append e.message rest)

pub length-put_header : (h : RpcHeader) → length (put_header h) ≤ text_size h + 40
unfolding put_header text_size
length-put_header h =
    let flags = put_bool h.cancelled [] in
    let error = put_error h.error flags in
    let packed = put_bool h.compressed error in
    let entries = put_entries h.metadata packed in
    let status = put_int h.status (length h.metadata ∷ entries) in
    omega (
      arith,
      length-append h.service_name (put_text h.method_name (h.args_size ∷ h.request_id ∷ status)),
      length-append h.method_name (h.args_size ∷ h.request_id ∷ status),
      length-put_int h.status (length h.metadata ∷ entries),
      length-put_entries h.metadata packed,
      length-put_bool h.compressed error,
      length-put_error h.error flags,
      length-put_bool h.cancelled [],
    )

unfoldable pub read_exact : ℤ → Bytes → Bool × Bytes × Bytes
read_exact (negsuc n) s = (false, [], s)
read_exact (pos n) s = if leb n (length s) then (true, take n s, drop n s) else (false, s, [])

abbrev read_first : Bytes → Bool × ℕ × Bytes
read_first [] = (false, 0, [])
read_first (n ∷ s) = (true, n, s)

-- A message refuses bodies that begin with 255.
abbrev parse_bytes : Bytes → Bool
parse_bytes [] = true
parse_bytes (c ∷ s) = ltb c 255

abbrev pub plain : Protobuf
plain = record {
  Message = Bytes;
  serialize = λ m. some m;
  parse = λ old s. (parse_bytes s, s);
  of_header = λ h. [];
  serialize_header = λ h. some (put_header h);
  parse_header = λ old s. (true, get_header s);
  write_varint32 = λ n. n ∷ [];
  read_varint32 = read_first;
  read_string = read_exact;
}

pub read_exact_whole : (s rest : Bytes) → read_exact (pos (length s)) (s ++ rest) ≡ (true, s, rest)
unfolding read_exact
read_exact_whole s rest =
    ground (arith, length-append s rest, take-length_append s rest, drop-length_append s rest)

pub parse_plain :
    (h old : RpcHeader) (s : Bytes)
    → IsWire (λ s. true) h
    → plain.serialize_header h ≡ some s
    → plain.parse_header old s ≡ (true, h)
parse_plain h old s w e = cc (get-put_header h)

abbrev pub plain_laws : ProtobufLaws plain
plain_laws = record {
  is_utf8 = λ s. true;
  ascii_utf8 = λ s a. refl;
  serialize_header_total = λ h w. (put_header h, refl, omega (arith, w.small, length-put_header h));
  parse-serialize_header = parse_plain;
  read-write_varint32 = λ n rest h k. refl;
  read_string_exact = λ s rest h. read_exact_whole s rest;
  serialize_default = refl;
}
