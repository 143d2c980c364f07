-- ===== src/Registry/Finding.antt =====
-- FindInstancesByMethod of registry/zookeeper_client.cc after RegisterService of core/server/xrpc_server.cc.
use xrpc.Base.{
  ◌≡◌, refl, ap, sym, ◌∙◌, subst, Bool, true, none, some, List, ◌∷◌, ◌++◌, Bytes, Result, ok,
}
use xrpc.Base.Int.{ℤ}
use xrpc.Base.Decimal.{to_string}
use xrpc.Base.Dict.{lookup, insert, lookup-insert_self}
use xrpc.Interfaces.{Registry}
use xrpc.Server.{instance_path, instance_data}
use xrpc.Registry.Cache.{service_of, put_instance, instances_of, cache_put, contains}
use xrpc.Registry.ZooKeeper.{ZooKeeper}
use xrpc.Registry.Session.{Client, ◌>>=◌, pure}
use xrpc.Registry.Nodes.{
  find_last_byte, register, discover_service, find_instances_by_method, matching,
}
use xrpc.Registry.Steps.Children.{IsName, service_of-path}
use xrpc.Registry.Discovery.{remember_lem, register-remember}
use xrpc.Registry.Offers.{offers-instance_data, contains-matching, base_name-instance_path}

ok_injective : {a b : Bytes} → ok a ≡ ok b → a ≡ b
ok_injective {a = a} h = ap (λ r. elim r [ ok x ↦ x | Result.throw e ↦ a ]) h

service_of-instance_path :
    (service ip : Bytes) (port : ℤ)
    → IsName service
    → service_of (instance_path service ip port) ≡ ok service
unfolding instance_path
service_of-instance_path service ip port h = service_of-path service (ip ++ b':' ∷ to_string port) h

module _ {zk : ZooKeeper} where
  find-hit :
      (service method : Bytes) (c : Client zk) (xs : _)
      → lookup service c.service_cache ≡ some xs
      → find_instances_by_method service method c ≡ (c, ok (matching method xs))
  unfolding find_instances_by_method discover_service ◌>>=◌ pure
  find-hit service method c xs h = rw (h, discover_service) refl

  -- Some instance by that name is found, and nothing changes.
  abbrev pub Finds : Bytes → Bytes → Bytes → Client zk → Type 0
  Finds service method name c =
      (found : List Bytes) × (find_instances_by_method service method c ≡ (c, ok found))
      × (contains name found ≡ true)

  put-Finds :
      (service ip : Bytes) (port : ℤ) (methods : List Bytes) (method : Bytes) (c : Client zk)
      → contains method methods ≡ true
      → find_last_byte b'/' ip ≡ none
      → let path = instance_path service ip port in
        Finds service method (ip ++ b':' ∷ to_string port) (record c {
          service_cache = cache_put service path (instance_data methods) c.service_cache;
        })
  unfolding cache_put put_instance
  put-Finds service ip port methods method c listed plain =
      let path = instance_path service ip port in
      let text = instance_data methods in
      let xs = insert path text (instances_of service c.service_cache) in
      (
        matching method xs,
        find-hit service method _ xs (lookup-insert_self service xs c.service_cache),
        subst (λ name. contains name (matching method xs) ≡ true)
            (base_name-instance_path service ip port plain)
            (contains-matching method path text xs
              (lookup-insert_self path text (instances_of service c.service_cache))
              (offers-instance_data method methods listed)),
      )

  -- After the Register of a service with its methods that returned, FindInstancesByMethod of each of
  -- these methods returns a list that holds the address of the server, with no call of ZooKeeper, when neither
  -- the service's name nor the ip has a slash.
  pub register-Finds :
      (service ip : Bytes) (port : ℤ) (methods : List Bytes) (method : Bytes) (ephemeral : Bool)
      (c : Client zk)
      → contains method methods ≡ true
      → IsName service
      → find_last_byte b'/' ip ≡ none
      → (register (instance_path service ip port) (instance_data methods) ephemeral c).1 ≡ ok tt
      → Finds service method
          (ip ++ b':' ∷ to_string port)
          (register (instance_path service ip port) (instance_data methods) ephemeral c).0
  register-Finds service ip port methods method ephemeral c listed name plain h =
      let path = instance_path service ip port in
      let text = instance_data methods in
      let (c', e) = register-remember path text ephemeral c h in
      let (s, placed, r) = remember_lem path text c' (sym (ap (λ r. r.1) e) ∙ h) in
      let same = ok_injective (sym placed ∙ service_of-instance_path service ip port name) in
      subst (λ r. Finds service method (ip ++ b':' ∷ to_string port) r.0) (sym (e ∙ r))
        (subst
          (λ s.
            Finds service method (ip ++ b':' ∷ to_string port)
              (record c' { service_cache = cache_put s path text c'.service_cache }))
          (sym same) (put-Finds service ip port methods method c' listed plain))

-- The class as the server and the channel see it.
abbrev pub zookeeper_client : ZooKeeper → Registry
zookeeper_client zk = record {
  State = Client zk;
  register = λ c path text ephemeral. register path text ephemeral c;
  find_instances_by_method = λ c service method. find_instances_by_method service method c;
}
