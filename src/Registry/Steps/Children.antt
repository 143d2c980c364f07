-- ===== src/Registry/Steps/Children.antt =====
-- What DiscoverService of registry/zookeeper_client.cc puts together from the children of a service.
use xrpc.Base.{
  ◌≡◌, refl, ap, ◌∙◌, false, none, List, [], ◌∷◌, ◌++◌, Bytes, Result, ok, throw, Bool-cases, inl,
  inr, arith, ◌==◌, text_eq,
}
use xrpc.Base.Dict.{lookup}
use xrpc.Registry.Cache.{Instances, service_of, until_slash, contains}
use xrpc.Registry.Cache.Invariant.{Placed, Distinct}
use xrpc.Registry.ZooKeeper.{ZooKeeper}
use xrpc.Registry.Session.{Client}
use xrpc.Registry.Nodes.{get_node_data, read_children, add_child}

-- A name without a slash.
abbrev pub IsName : Bytes → Type 0
IsName s = until_slash s ≡ s

abbrev pub Unique : List Bytes → Type 0
Unique [] = Unit {0}
Unique (x ∷ xs) = (contains x xs ≡ false) × Unique xs

until_slash-append : (s t : Bytes) → IsName s → until_slash (s ++ b'/' ∷ t) ≡ s
unfolding until_slash
until_slash-append [] t h = refl
until_slash-append (c ∷ s) t h = elim (Bool-cases (c == b'/')) [
  | inl slash ↦ absurd (ground (arith, slash, h))
  | inr other ↦ rw other (ap (◌∷◌ c) (until_slash-append s t (ground (arith, other, h))))
]

-- The service of a path that is put together from a name and a child.
pub service_of-path : (s child : Bytes) → IsName s → service_of (b'/' ∷ (s ++ b'/' ∷ child)) ≡ ok s
unfolding service_of
service_of-path s child h = ap ok (until_slash-append s child h)

pub text_eq-append : (p a b : Bytes) → text_eq (p ++ b'/' ∷ a) (p ++ b'/' ∷ b) ≡ text_eq a b
unfolding text_eq
text_eq-append [] a b = refl
text_eq-append (c ∷ p) a b = ground (arith, text_eq-append p a b)

abbrev pub path_of : Bytes → Bytes → Bytes
path_of service child = (b'/' ∷ service) ++ b'/' ∷ child

module _ {zk : ZooKeeper} (service : Bytes) where
  abbrev read : List Bytes → Client zk → Client zk × Instances
  read = read_children (b'/' ∷ service)

  add-Placed :
      (path : Bytes) (text : Result Bytes) (rest : Client zk × Instances)
      → service_of path ≡ ok service
      → Placed service rest.1
      → Placed service (add_child path text rest).1
  add-Placed path (ok d) rest h w = (h, w)
  add-Placed path (throw e) rest h w = w

  pub read_children-Placed :
      (children : List Bytes) (c : Client zk) → IsName service → Placed service (read children c).1
  unfolding read_children
  read_children-Placed [] c h = tt
  read_children-Placed (child ∷ children) c h =
      let (c', text) = get_node_data (path_of service child) c in
      add-Placed (path_of service child) text (read children c') (service_of-path service child h)
        (read_children-Placed children c' h)

  add-absent :
      (p path : Bytes) (text : Result Bytes) (rest : Client zk × Instances)
      → text_eq path p ≡ false
      → lookup p rest.1 ≡ none
      → lookup p (add_child path text rest).1 ≡ none
  unfolding lookup
  add-absent p path (ok d) rest h w = rw h w
  add-absent p path (throw e) rest h w = w

  -- A child that is not listed is not read.
  read_children-absent :
      (x : Bytes) (children : List Bytes) (c : Client zk)
      → contains x children ≡ false
      → lookup (path_of service x) (read children c).1 ≡ none
  unfolding read_children
  read_children-absent x [] c h = unfold lookup in refl
  read_children-absent x (child ∷ children) c h =
      let (c', text) = get_node_data (path_of service child) c in
      add-absent (path_of service x) (path_of service child) text (read children c')
        (text_eq-append (b'/' ∷ service) child x ∙ unfold contains in ground (arith, h))
        (read_children-absent x children c' (unfold contains in ground (arith, h)))

  add-Distinct :
      (path : Bytes) (text : Result Bytes) (rest : Client zk × Instances)
      → lookup path rest.1 ≡ none
      → Distinct rest.1
      → Distinct (add_child path text rest).1
  add-Distinct path (ok d) rest h w = (h, w)
  add-Distinct path (throw e) rest h w = w

  pub read_children-Distinct :
      (children : List Bytes) (c : Client zk) → Unique children → Distinct (read children c).1
  unfolding read_children
  read_children-Distinct [] c h = tt
  read_children-Distinct (child ∷ children) c h =
      let (c', text) = get_node_data (path_of service child) c in
      add-Distinct (path_of service child) text (read children c')
        (read_children-absent child children c' h.0) (read_children-Distinct children c' h.1)
