-- ===== src/Registry/Shared/First.antt =====
-- The instance that FindInstancesByMethod of registry/zookeeper_client.cc puts first.
use xrpc.Base.{◌≤◌, ◌≡◌, refl, ap, ◌∙◌, Bool, true, none, some, List, ◌∷◌, ◌++◌, Bytes, ok, length}
use xrpc.Base.Int.{ℤ}
use xrpc.Base.Decimal.{to_string}
use xrpc.Base.Dict.{lookup}
use xrpc.Server.{instance_path, instance_data}
use xrpc.Registry.Cache.{Instances, contains}
use xrpc.Registry.ZooKeeper.{zok, ZooKeeper}
use xrpc.Registry.Session.{Client}
use xrpc.Registry.Chains.{IsLive}
use xrpc.Registry.Nodes.{
  find_last_byte, register, add_child, read_children, find_instances_by_method, matching, base_name,
  offers,
}
use xrpc.Registry.Steps.Children.{path_of}
use xrpc.Registry.Offers.{offers-instance_data, base_name-instance_path}
use xrpc.Registry.Shared.{ZooKeeperLaws, register-Writes}
use xrpc.Registry.Shared.Reading.{get_node_data-whole, after_get}
use xrpc.Registry.Shared.Listing.{after_listing, find-listed}

matching-first :
    (method path text : Bytes) (more : Instances)
    → offers method text ≡ true
    → matching method ((path, text) ∷ more) ≡ base_name path ∷ matching method more
unfolding matching
matching-first method path text more h = rw h refl

module _ {zk : ZooKeeper} (laws : ZooKeeperLaws zk) where
  read_children-first :
      (service child text : Bytes) (rest : List Bytes) (d : Client zk)
      → IsLive d
      → laws.node d.zoo (path_of service child) ≡ some text
      → length text ≤ 512
      → (more : Instances) × ((read_children (b'/' ∷ service) (child ∷ rest) d).1
          ≡ (path_of service child, text) ∷ more)
  unfolding read_children
  read_children-first service child text rest d live there short =
      let path = path_of service child in
      let whole =
        get_node_data-whole path text d live (laws.get_whole d.zoo path 512 text there short) in
      (
        (read_children (b'/' ∷ service) rest (after_get path d)).1,
        ap (λ r. (add_child path r.1 (read_children (b'/' ∷ service) rest r.0)).1) whole,
      )

  -- As `register-find`, when ZooKeeper lists the server first: its address is the first one found.
  pub register-find_first :
      (service ip : Bytes) (port : ℤ) (methods : List Bytes) (method : Bytes) (ephemeral : Bool)
      (c d : Client zk) (rest : List Bytes)
      → contains method methods ≡ true
      → find_last_byte b'/' ip ≡ none
      → length (instance_data methods) ≤ 512
      → (register (instance_path service ip port) (instance_data methods) ephemeral c).1 ≡ ok tt
      → laws.node d.zoo (instance_path service ip port)
        ≡ laws.node
            (register (instance_path service ip port) (instance_data methods) ephemeral c).0.zoo
            (instance_path service ip port)
      → IsLive d
      → lookup service d.service_cache ≡ none
      → (zk.children d.zoo (b'/' ∷ service)).1 ≡ (zok, (ip ++ b':' ∷ to_string port) ∷ rest)
      → (others : List Bytes) × ((find_instances_by_method service method d).1
          ≡ ok ((ip ++ b':' ∷ to_string port) ∷ others))
  unfolding instance_path
  register-find_first service ip port methods method ephemeral c d rest offered plain short done
        sees live fresh lists =
      let child = ip ++ b':' ∷ to_string port in
      let path = path_of service child in
      let text = instance_data methods in
      let here =
        sees ∙ register-Writes laws (instance_path service ip port) text ephemeral c done in
      let after = after_listing service d in
      let (more, read) =
        read_children-first service child text rest after live
          (laws.node-children d.zoo (b'/' ∷ service) path ∙ here) short in
      (
        matching method more,
        find-listed service method d fresh (ap (λ r. r.0) lists)
            ∙ ap (λ names. ok (matching method (read_children (b'/' ∷ service) names after).1))
                (ap (λ r. r.1) lists)
            ∙ ap (λ xs. ok (matching method xs)) read
            ∙ ap ok
                (matching-first method path text more (offers-instance_data method methods offered))
            ∙ ap (λ name. ok (name ∷ matching method more))
                (base_name-instance_path service ip port plain),
      )
