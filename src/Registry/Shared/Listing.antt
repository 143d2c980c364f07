-- ===== src/Registry/Shared/Listing.antt =====
-- FindInstancesByMethod of registry/zookeeper_client.cc in one client after RegisterService of
-- core/server/xrpc_server.cc in another.
use xrpc.Base.{
  ◌≤◌, ◌≡◌, refl, ap, ◌∙◌, subst, Bool, true, none, List, ◌∷◌, ◌++◌, Bytes, codes, Result, ok,
  throw, arith, length,
}
use xrpc.Base.Int.{ℤ}
use xrpc.Base.Decimal.{to_string}
use xrpc.Base.Dict.{lookup}
use xrpc.Server.{instance_path, instance_data}
use xrpc.Registry.Cache.{Instances, contains}
use xrpc.Registry.ZooKeeper.{Code, zok, ZooKeeper}
use xrpc.Registry.Session.{Client, follow, ◌>>=◌, pure}
use xrpc.Registry.Chains.{zoo_lem, IsLive, check_then}
use xrpc.Registry.Nodes.{
  find_last_byte, register, read_children, list_service, discover_service, find_instances_by_method,
  matching,
}
use xrpc.Registry.Steps.Children.{path_of}
use xrpc.Registry.Offers.{offers-instance_data, base_name-instance_path, address-slash}
use xrpc.Registry.Shared.{ZooKeeperLaws, register-Writes}
use xrpc.Registry.Shared.Reading.{listed-matching}

module _ {zk : ZooKeeper} where
  abbrev pub listing : Bytes → Client zk → zk.State × (Code × List Bytes)
  listing service c = zk.children c.zoo (b'/' ∷ service)

  abbrev pub after_listing : Bytes → Client zk → Client zk
  after_listing service c = record c { zoo = (listing service c).0 }

  -- The instances that a list_service reads.
  abbrev pub listed : Bytes → Client zk → Instances
  listed service c =
      (read_children (b'/' ∷ service) (listing service c).1.1 (after_listing service c)).1

  list_service_lem :
      (service : Bytes) (c : Client zk)
      → (listing service c).1.0 ≡ zok
      → (list_service service c).1 ≡ ok (listed service c)
  unfolding list_service
  list_service_lem service c h =
      ap (λ r. r.1)
        (zoo_lem (λ z. zk.children z (b'/' ∷ service)) _ c
          ∙ check_then (codes "Failed to get children: ") (listing service c).1.0 _
              (after_listing service c) h)

  pub find-listed :
      (service method : Bytes) (c : Client zk)
      → lookup service c.service_cache ≡ none
      → (listing service c).1.0 ≡ zok
      → (find_instances_by_method service method c).1 ≡ ok (matching method (listed service c))
  unfolding find_instances_by_method discover_service ◌>>=◌ pure
  find-listed service method c fresh h =
      ap (λ r. (follow (λ xs. pure (matching method xs)) r).1) (missed)
      ∙ followed (list_service service c) (list_service_lem service c h)
    where
      missed : discover_service service c ≡ list_service service c
      missed = rw (fresh, discover_service) refl

      followed :
          (r : Client zk × Result Instances)
          → r.1 ≡ ok (listed service c)
          → (follow (λ xs. pure (matching method xs)) r).1 ≡ ok (matching method (listed service c))
      followed (d, ok xs) e =
          ap (λ r. elim r [ ok x ↦ ok (matching method x) | throw x ↦ throw x ]) e
      followed (d, throw x) e = absurd (ground (arith, e))

-- After the Register of a service with its methods that returned in one client, FindInstancesByMethod of
-- each of these methods in another client returns a list that holds the address of the server. The other
-- client is connected, has no instance of the service cached, sees the node of the server as the
-- first left it, and its call for the children succeeds; the ip has no slash, and the data of the
-- node has 512 bytes at most.
pub register-find :
    {zk : ZooKeeper} (laws : ZooKeeperLaws zk) (service ip : Bytes) (port : ℤ)
    (methods : List Bytes) (method : Bytes) (ephemeral : Bool) (c d : Client zk)
    → contains method methods ≡ true
    → find_last_byte b'/' ip ≡ none
    → length (instance_data methods) ≤ 512
    → (register (instance_path service ip port) (instance_data methods) ephemeral c).1 ≡ ok tt
    → laws.node d.zoo (instance_path service ip port)
      ≡ laws.node
          (register (instance_path service ip port) (instance_data methods) ephemeral c).0.zoo
          (instance_path service ip port)
    → IsLive d
    → lookup service d.service_cache ≡ none
    → (zk.children d.zoo (b'/' ∷ service)).1.0 ≡ zok
    → (found : List Bytes) × ((find_instances_by_method service method d).1 ≡ ok found)
      × (contains (ip ++ b':' ∷ to_string port) found ≡ true)
unfolding instance_path
register-find {zk} laws service ip port methods method ephemeral c d offered plain short done sees
      live fresh lists =
    let child = ip ++ b':' ∷ to_string port in
    let text = instance_data methods in
    let here = sees ∙ register-Writes laws (instance_path service ip port) text ephemeral c done in
    let names =
      laws.children_listed d.zoo (b'/' ∷ service) child text lists (address-slash ip port plain)
        here in
    (
      matching method (listed service d),
      find-listed service method d fresh lists,
      subst (λ name. contains name (matching method (listed service d)) ≡ true)
          (base_name-instance_path service ip port plain)
          (listed-matching laws service child text short method _ (after_listing service d) names
            live (laws.node-children d.zoo (b'/' ∷ service) (path_of service child) ∙ here)
            (offers-instance_data method methods offered)),
    )
