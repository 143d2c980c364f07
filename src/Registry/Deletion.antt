-- ===== src/Registry/Deletion.antt =====
-- What is left after Delete of registry/zookeeper_client.cc.
use xrpc.Base.{
  ◌≡◌, refl, ap, sym, subst, ◌∙◌, Bool, not, ◌&&◌, none, Bytes, if◌then◌else◌, Result, ok, inl, inr,
  arith, Result-cases, text_eq,
}
use xrpc.Base.Dict.{lookup, erase, lookup-erase}
use xrpc.Registry.Cache.{service_of, cache_find, cache_remove}
use xrpc.Registry.Cache.Lookup.{cache_find-keep}
use xrpc.Registry.ZooKeeper.{Code, zok, ZooKeeper}
use xrpc.Registry.Session.{Client, ◌>>=◌, ◌>>◌, lift, set_cache, set_watchers, zoo, is_ok}
use xrpc.Registry.Chains.{then_ok, zoo_lem}
use xrpc.Registry.Nodes.{check, require_started, forget, delete_node, delete}

module _ {zk : ZooKeeper} where
  forget_lem :
      (path : Bytes) (c : Client zk)
      → (forget path c).1 ≡ ok tt
      → (s : Bytes) × (service_of path ≡ ok s)
        × (forget path c ≡ (
          record c {
            service_cache = cache_remove s path c.service_cache;
            watchers = erase path c.watchers;
          },
          ok tt,
        ))
  unfolding forget ◌>>=◌ ◌>>◌ lift set_cache set_watchers
  forget_lem path c h = elim (Result-cases (service_of path)) [
    | inl (s, e) ↦ (s, e, rw e refl)
    | inr (x, e) ↦ absurd (ground (arith, h, e))
  ]

  -- The calls of ZooKeeper leave the rest of the client as it is.
  abbrev SameFields : Client zk → Client zk → Type 0
  SameFields a b = (a.service_cache ≡ b.service_cache) × (a.watchers ≡ b.watchers)

  from_equal :
      {m : Client zk × Result (Unit {0})} {c' : Client zk} (c : Client zk)
      → m ≡ (c', ok tt)
      → SameFields m.0 c
      → SameFields c' c
  from_equal c e w = subst (λ r. SameFields r.0 c) e w

  checked-SameFields :
      (call : zk.State → zk.State × Code) (test : Code → Bool) (what : Bytes) (c : Client zk)
      → SameFields ((zoo call >>= (λ code. check (test code) what code)) c).0 c
  unfolding zoo ◌>>=◌ check lift
  checked-SameFields call test what c = (refl, refl)

  delete_node-forget :
      (path : Bytes) (c : Client zk)
      → (delete_node path zok c).1 ≡ ok tt
      → (c' : Client zk) × SameFields c' c
        × (delete_node path zok c ≡ forget path c')
        × ((forget path c').1 ≡ ok tt)
  unfolding delete_node
  delete_node-forget path c h =
      let (c1, m1, e1, h1) = then_ok _ _ c tt h in
      let (c2, m2, e2, h2) = then_ok _ _ c1 tt h1 in
      let (cache1, watchers1) = from_equal c m1 (unfold check lift in (refl, refl)) in
      let (cache2, watchers2) = from_equal c1 m2 (checked-SameFields _ is_ok _ c1) in
      (c2, (cache2 ∙ cache1, watchers2 ∙ watchers1), e1 ∙ e2, h2)

  abbrev seen : Bytes → Client zk → Client zk
  seen path c = record c { zoo = (zk.exists c.zoo path).0 }

  require_started-same : (c : Client zk) → (require_started c).0 ≡ c
  unfolding require_started
  require_started-same c = refl

  delete-delete_node :
      (path : Bytes) (c : Client zk)
      → (delete path c).1 ≡ ok tt
      → delete path c ≡ delete_node path (zk.exists c.zoo path).1.0 (seen path c)
  unfolding delete
  delete-delete_node path c h =
      let (c1, m1, e1, h1) = then_ok _ _ c tt h in
      e1
      ∙ ap (zoo (λ z. zk.exists z path) >>= (λ (code, _). delete_node path code))
          (sym (ap (λ r. r.0) m1) ∙ require_started-same c)
      ∙ zoo_lem _ _ c

  -- `d` is `c` without the path: neither in the list of the service nor watched.
  abbrev pub Forgot : Bytes → Bytes → Client zk → Client zk → Type 0
  Forgot s path c d =
      ((t p : Bytes)
        → cache_find t p d.service_cache
          ≡ (if text_eq s t && text_eq p path then none else cache_find t p c.service_cache))
      × ((p : Bytes) → lookup p d.watchers ≡ (if text_eq path p then none else lookup p c.watchers))

  section-Forgot :
      (s path : Bytes) (c' c : Client zk)
      → SameFields c' c
      → Forgot s path c (record c' {
        service_cache = cache_remove s path c'.service_cache;
        watchers = erase path c'.watchers;
      })
  unfolding cache_remove
  section-Forgot s path c' c (cache, watchers) = (
    λ t p.
        ground (arith, cache, cache_find-keep s t p (λ q. not (text_eq q path)) c'.service_cache),
    λ p. ground (arith, watchers, lookup-erase path p c'.watchers),
  )

  -- After a Delete that returned and found the node, the cache has lost the entry of the path, the path has no
  -- watcher, and the entries and watchers of all other paths are as before.
  pub delete-Forgot :
      (path : Bytes) (c : Client zk)
      → (delete path c).1 ≡ ok tt
      → (zk.exists c.zoo path).1.0 ≡ zok
      → (s : Bytes) × (service_of path ≡ ok s) × Forgot s path c (delete path c).0
  delete-Forgot path c h there =
      let e =
        delete-delete_node path c h ∙ ap (λ code. delete_node path code (seen path c)) there in
      let (c', same, e', h') = delete_node-forget path (seen path c) (sym (ap (λ r. r.1) e) ∙ h) in
      let (s, placed, forgot) = forget_lem path c' h' in
      (
        s,
        placed,
        subst (λ r. Forgot s path c r.0) (sym (e ∙ e' ∙ forgot)) (section-Forgot s path c' c same),
      )
