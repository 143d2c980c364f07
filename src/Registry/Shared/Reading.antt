-- ===== src/Registry/Shared/Reading.antt =====
-- What DiscoverService of registry/zookeeper_client.cc reads of the nodes that ZooKeeper lists.
use xrpc.Base.{
  ◌≤◌, ◌≡◌, refl, ap, sym, ◌∙◌, subst, true, false, Option, some, List, [], ◌∷◌, Bytes, codes,
  Result, ok, throw, inl, inr, arith, Bool-cases, text_eq, text_eq_refl, text_eq_iff, length,
}
use xrpc.Base.Dict.{lookup}
use xrpc.Registry.Cache.{Instances, contains}
use xrpc.Registry.ZooKeeper.{Code, zok, ZooKeeper}
use xrpc.Registry.Session.{Client, M, ◌>>◌, lift, is_ok}
use xrpc.Registry.Chains.{zoo_lem, IsLive, live_then, check_then, check-lift_same}
use xrpc.Registry.Nodes.{
  check, text_of, get_node_data, add_child, read_children, matching, offers, base_name,
}
use xrpc.Registry.Steps.Children.{path_of, text_eq-append}
use xrpc.Registry.Offers.{contains-matching}
use xrpc.Registry.Shared.{ZooKeeperLaws}

module _ {zk : ZooKeeper} where
  abbrev pub after_get : Bytes → Client zk → Client zk
  after_get path c = record c { zoo = (zk.get c.zoo path 512).0 }

  -- What follows the call of the C client.
  abbrev after_call : Code × Option Bytes → M zk Bytes
  after_call (code, text) =
      check (is_ok code) (codes "Failed to get node: ") code >> lift (text_of text)

  get_node_data-call :
      (path : Bytes) (c : Client zk)
      → IsLive c
      → get_node_data path c ≡ after_call (zk.get c.zoo path 512).1 (after_get path c)
  unfolding get_node_data
  get_node_data-call path c live =
      live_then _ c live ∙ zoo_lem (λ z. zk.get z path 512) after_call c

  get_node_data-same :
      (path : Bytes) (c : Client zk) → IsLive c → (get_node_data path c).0 ≡ after_get path c
  get_node_data-same path c live =
      ap (λ r. r.0) (get_node_data-call path c live) ∙ check-lift_same _ _ _ _ (after_get path c)

  pub get_node_data-whole :
      (path text : Bytes) (c : Client zk)
      → IsLive c
      → (zk.get c.zoo path 512).1 ≡ (zok, some text)
      → get_node_data path c ≡ (after_get path c, ok text)
  get_node_data-whole path text c live e =
      get_node_data-call path c live
      ∙ ap (λ found. after_call found (after_get path c)) e
      ∙ check_then (codes "Failed to get node: ") zok (lift (ok text)) (after_get path c) refl
      ∙ unfold lift in refl

module _ {zk : ZooKeeper} (laws : ZooKeeperLaws zk) (service child text : Bytes)
    (short : length text ≤ 512) where
  abbrev IsThere : Client zk → Type 0
  IsThere c = laws.node c.zoo (path_of service child) ≡ some text

  add_first :
      (path : Bytes) (rest : Client zk × Instances)
      → lookup path (add_child path (ok text) rest).1 ≡ some text
  unfolding lookup
  add_first path rest = rw (text_eq_refl path) refl

  add_other :
      (path p : Bytes) (r : Result Bytes) (rest : Client zk × Instances)
      → text_eq p path ≡ false
      → lookup path rest.1 ≡ some text
      → lookup path (add_child p r rest).1 ≡ some text
  unfolding lookup
  add_other path p (ok d) rest h w = rw h w
  add_other path p (throw e) rest h w = w

  abbrev rest_of : List Bytes → Client zk → Client zk × Instances
  rest_of = read_children (b'/' ∷ service)

  -- One round of the loop.
  abbrev added : Bytes → List Bytes → Client zk → Instances
  added x children c =
      let (c', r) = get_node_data (path_of service x) c in
      (add_child (path_of service x) r (rest_of children c')).1

  -- A child that is listed and whose data fits is among the instances that are read.
  read_children-IsThere :
      (children : List Bytes) (c : Client zk)
      → contains child children ≡ true
      → IsLive c
      → IsThere c
      → lookup (path_of service child) (read_children (b'/' ∷ service) children c).1 ≡ some text
  unfolding read_children contains
  read_children-IsThere [] c h live w = absurd (ground (arith, h))
  read_children-IsThere (x ∷ children) c h live w = elim (Bool-cases (text_eq x child)) [
    | inl same ↦
        subst (λ y. lookup (path_of service child) (added y children c) ≡ some text)
          (sym ((text_eq_iff x child).0 same))
          (ap
              (λ r.
                lookup (path_of service child)
                  (add_child (path_of service child) r.1 (rest_of children r.0)).1)
              (get_node_data-whole (path_of service child) text c live
                (laws.get_whole c.zoo (path_of service child) 512 text w short))
            ∙ add_first (path_of service child)
                (rest_of children (after_get (path_of service child) c)))
    | inr other ↦
        let c' = (get_node_data (path_of service x) c).0 in
        let same = sym (get_node_data-same (path_of service x) c live) in
        add_other (path_of service child) (path_of service x)
          (get_node_data (path_of service x) c).1 (rest_of children c')
          (text_eq-append (b'/' ∷ service) x child ∙ other)
          (read_children-IsThere children c' (ground (arith, h, other)) (subst IsLive same live) (
            subst IsThere same
              (laws.node-get c.zoo (path_of service x) 512 (path_of service child) ∙ w)))
  ]

  -- What a live client finds for a method that the data of a listed child offers.
  pub listed-matching :
      (method : Bytes) (children : List Bytes) (c : Client zk)
      → contains child children ≡ true
      → IsLive c
      → IsThere c
      → offers method text ≡ true
      → contains
          (base_name (path_of service child))
          (matching method (read_children (b'/' ∷ service) children c).1)
        ≡ true
  listed-matching method children c h live w offered =
      contains-matching method (path_of service child) text
        (read_children (b'/' ∷ service) children c).1 (read_children-IsThere children c h live w)
        offered
