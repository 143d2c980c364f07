-- ===== src/Registry/Offers.antt =====
-- FindInstancesByMethod of registry/zookeeper_client.cc on what RegisterService of core/server/xrpc_server.cc registers.
use xrpc.Base.{
  ℕ, zero, suc, ◌+◌, ◌≡◌, refl, ap, sym, ◌∙◌, Bool, true, ◌||◌, none, some, List, [], ◌∷◌, ◌++◌,
  Bytes, Bool-cases, inl, inr, arith, text_eq, text_eq_iff, length, drop, append_assoc, append-nil,
  subst, ltb, ◌/◌, ◌%◌, ◌≤◌,
}
use xrpc.Base.Int.{ℤ, pos, negsuc}
use xrpc.Base.Decimal.{to_string, digits}
use xrpc.Base.Dict.{lookup}
use xrpc.Server.{join_methods, instance_path, instance_data}
use xrpc.Registry.Cache.{Instances, contains}
use xrpc.Registry.Nodes.{
  find_last_byte, base_name, begins, has_text, offers, matching, methods_prefix,
}

begins-append : (t s : Bytes) → begins t (t ++ s) ≡ true
begins-append [] s = refl
begins-append (c ∷ t) s = ground (arith, begins-append t s)

has_text-begins : (t s : Bytes) → begins t s ≡ true → has_text t s ≡ true
unfolding has_text
has_text-begins t [] h = h
has_text-begins t (c ∷ s) h = rw h refl

has_text-after : (t a s : Bytes) → has_text t s ≡ true → has_text t (a ++ s) ≡ true
unfolding has_text
has_text-after t [] s h = h
has_text-after t (c ∷ a) s h = ground (arith, has_text-after t a s h)

pub has_text-within : (t a s : Bytes) → has_text t (a ++ (t ++ s)) ≡ true
has_text-within t a s = has_text-after t a (t ++ s) (has_text-begins t (t ++ s) (begins-append t s))

join_methods-first :
    (m x : Bytes) (ms : List Bytes)
    → text_eq x m ≡ true
    → (s : Bytes) × (join_methods (x ∷ ms) ≡ m ++ s)
unfolding join_methods
join_methods-first m x [] h = ([], (text_eq_iff x m).0 h ∙ sym (append-nil m))
join_methods-first m x (n ∷ ms) h =
    let rest = b',' ∷ join_methods (n ∷ ms) in (rest, ap (λ y. y ++ rest) ((text_eq_iff x m).0 h))

-- From the second method on a comma stands before the name.
has_text-join :
    (m n : Bytes) (ms : List Bytes)
    → contains m ms ≡ true
    → has_text (b',' ∷ m) (join_methods (n ∷ ms)) ≡ true
unfolding join_methods contains
has_text-join m n [] h = absurd (ground (arith, h))
has_text-join m n (x ∷ ms) h = elim (Bool-cases (text_eq x m)) [
  | inl same ↦ let (s, e) = join_methods-first m x ms same in rw e (has_text-within (b',' ∷ m) n s)
  | inr other ↦
      has_text-after (b',' ∷ m) n _
        (has_text-after (b',' ∷ m) (b',' ∷ []) _ (has_text-join m x ms (ground (arith, h, other))))
]

pub or_first : (a b c : Bool) → a ≡ true → (a || b || c) ≡ true
or_first a b c h = ground arith

pub or_last : (a b c : Bool) → c ≡ true → (a || b || c) ≡ true
or_last a b c h = ground arith

has_text-first : (p m s : Bytes) → has_text (p ++ m) (p ++ (m ++ s)) ≡ true
has_text-first p m s =
    subst (λ t. has_text (p ++ m) t ≡ true) (append_assoc p m s) (has_text-within (p ++ m) [] s)

-- Data that a server registers offers each of its methods.
pub offers-instance_data :
    (m : Bytes) (ms : List Bytes) → contains m ms ≡ true → offers m (instance_data ms) ≡ true
unfolding offers instance_data contains
offers-instance_data m [] h = absurd (ground (arith, h))
offers-instance_data m (x ∷ ms) h = elim (Bool-cases (text_eq x m)) [
  | inl same ↦
      let (s, e) = join_methods-first m x ms same in
      or_first (has_text (methods_prefix ++ m) (instance_data (x ∷ ms))) _ _
        (rw e (has_text-first methods_prefix m s))
  | inr other ↦
      or_last (has_text (methods_prefix ++ m) (instance_data (x ∷ ms)))
        (has_text (methods_prefix ++ m ++ b',' ∷ []) (instance_data (x ∷ ms))) _
        (has_text-after (b',' ∷ m) methods_prefix _
          (has_text-join m x ms (ground (arith, h, other))))
]

-- The loop keeps an instance whose data offers the method.
pub contains-matching :
    (m path text : Bytes) (xs : Instances)
    → lookup path xs ≡ some text
    → offers m text ≡ true
    → contains (base_name path) (matching m xs) ≡ true
unfolding lookup matching contains
contains-matching m path text [] h offered = absurd (ground (arith, h))
contains-matching m path text ((p, d) ∷ xs) h offered = ground (
  arith,
  text_eq_iff p path,
  text_eq_iff (base_name p) (base_name path),
  h,
  offered,
  contains-matching m path text xs,
)

find_last_byte-append :
    (b : ℕ) (s t : Bytes)
    → find_last_byte b t ≡ none
    → find_last_byte b (s ++ t) ≡ find_last_byte b s
unfolding find_last_byte
find_last_byte-append b [] t h = h
find_last_byte-append b (c ∷ s) t h = rw (find_last_byte-append b s t h) refl

digits-slash : (f n : ℕ) → find_last_byte b'/' (digits f n) ≡ none
unfolding digits find_last_byte
digits-slash zero n = refl
digits-slash (suc f) n = elim (Bool-cases (ltb n 10)) [
  | inl small ↦ rw small (one (b'0' + n) (omega arith))
  | inr large ↦ rw large (
      find_last_byte-append b'/' (digits f (n / 10)) _ (one (b'0' + n % 10) (omega arith))
      ∙ digits-slash f (n / 10))
]
  where
    one : (c : ℕ) → b'0' ≤ c → find_last_byte b'/' (c ∷ []) ≡ none
    one c h = ground arith

to_string-slash : (port : ℤ) → find_last_byte b'/' (to_string port) ≡ none
unfolding to_string
to_string-slash (pos n) = digits-slash (suc n) n
to_string-slash (negsuc n) =
    find_last_byte-append b'/' (b'-' ∷ []) _ (digits-slash (suc (suc n)) (suc n))
    ∙ unfold find_last_byte in refl

find_last_byte-last :
    (a b : Bytes)
    → find_last_byte b'/' b ≡ none
    → find_last_byte b'/' (a ++ b'/' ∷ b) ≡ some (length a)
unfolding find_last_byte
find_last_byte-last [] b h = rw h refl
find_last_byte-last (c ∷ a) b h = rw (find_last_byte-last a b h) refl

drop_after : (a b : Bytes) → drop (suc (length a)) (a ++ b'/' ∷ b) ≡ b
drop_after [] b = refl
drop_after (c ∷ a) b = drop_after a b

base_name-append : (a b : Bytes) → find_last_byte b'/' b ≡ none → base_name (a ++ b'/' ∷ b) ≡ b
unfolding base_name
base_name-append a b h = rw (find_last_byte-last a b h, base_name) (drop_after a b)

-- An address has no slash if the ip has none.
pub address-slash :
    (ip : Bytes) (port : ℤ)
    → find_last_byte b'/' ip ≡ none
    → find_last_byte b'/' (ip ++ b':' ∷ to_string port) ≡ none
address-slash ip port h =
    find_last_byte-append b'/' ip (b':' ∷ to_string port) (
      find_last_byte-append b'/' (b':' ∷ []) (to_string port) (to_string-slash port)
      ∙ unfold find_last_byte in refl)
    ∙ h

-- The instance's name is its address.
pub base_name-instance_path :
    (service ip : Bytes) (port : ℤ)
    → find_last_byte b'/' ip ≡ none
    → base_name (instance_path service ip port) ≡ ip ++ b':' ∷ to_string port
unfolding instance_path
base_name-instance_path service ip port h =
    base_name-append (b'/' ∷ service) _ (address-slash ip port h)
