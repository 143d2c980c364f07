-- ===== src/Registry/Discovery.antt =====
-- What Discover of registry/zookeeper_client.cc sees after Register, Discover and Delete.
use xrpc.Base.{
  ◌≡◌, refl, ap, sym, ◌∙◌, Bool, some, Bytes, ok, inl, inr, arith, Result-cases, text_eq_refl,
}
use xrpc.Registry.Cache.{service_of, cache_put, cache_find}
use xrpc.Registry.Cache.Lookup.{cache_find-put}
use xrpc.Registry.ZooKeeper.{ZooKeeper}
use xrpc.Registry.Session.{Client, follow, ◌>>=◌, lift, set_cache}
use xrpc.Registry.Chains.{then_ok}
use xrpc.Registry.Nodes.{remember, register, find_or_fetch, discover}

module _ {zk : ZooKeeper} where
  pub remember_lem :
      (path text : Bytes) (c : Client zk)
      → (remember path text c).1 ≡ ok tt
      → (s : Bytes) × (service_of path ≡ ok s)
        × (remember path text c
            ≡ (record c { service_cache = cache_put s path text c.service_cache }, ok tt))
  unfolding remember ◌>>=◌ lift set_cache
  remember_lem path text c h = elim (Result-cases (service_of path)) [
    | inl (s, e) ↦ (s, e, rw e refl)
    | inr (x, e) ↦ absurd (ground (arith, h, e))
  ]

  -- `Register` that returns ends in the section on the cache.
  pub register-remember :
      (path text : Bytes) (ephemeral : Bool) (c : Client zk)
      → (register path text ephemeral c).1 ≡ ok tt
      → (c' : Client zk) × (register path text ephemeral c ≡ remember path text c')
  unfolding register
  register-remember path text ephemeral c h =
      let (c1, _, e1, h1) = then_ok _ _ c tt h in
      let (c2, _, e2, h2) = then_ok _ _ c1 tt h1 in
      let (c3, _, e3, h3) = then_ok _ _ c2 tt h2 in (c3, e1 ∙ e2 ∙ e3)

  pub find_or_fetch-hit :
      (s path text : Bytes) (c : Client zk)
      → cache_find s path c.service_cache ≡ some text
      → find_or_fetch path s c ≡ (c, ok text)
  unfolding find_or_fetch
  find_or_fetch-hit s path text c h = rw (h, find_or_fetch) refl

  pub discover-placed :
      (s path : Bytes) (c : Client zk)
      → service_of path ≡ ok s
      → discover path c ≡ find_or_fetch path s c
  unfolding discover lift ◌>>=◌
  discover-placed s path c e = ap (λ r. follow (find_or_fetch path) (c, r)) e

  pub discover-hit :
      (s path text : Bytes) (c : Client zk)
      → service_of path ≡ ok s
      → cache_find s path c.service_cache ≡ some text
      → discover path c ≡ (c, ok text)
  discover-hit s path text c e h = discover-placed s path c e ∙ find_or_fetch-hit s path text c h

  -- What the section has put in is found, and nothing changes.
  discover-remember :
      (path text : Bytes) (c : Client zk)
      → (remember path text c).1 ≡ ok tt
      → discover path (remember path text c).0 ≡ ((remember path text c).0, ok text)
  discover-remember path text c h =
      let (s, e, r) = remember_lem path text c h in
      rw r (
        discover-hit s path text _ e (
          rw (cache_find-put s s path path text c.service_cache, text_eq_refl s, text_eq_refl path)
            refl))

  -- After a Register that returned, Discover of the path gives the registered data and
  -- changes nothing, with no call of ZooKeeper.
  pub discover-register :
      (path text : Bytes) (ephemeral : Bool) (c : Client zk)
      → (register path text ephemeral c).1 ≡ ok tt
      → discover path (register path text ephemeral c).0
        ≡ ((register path text ephemeral c).0, ok text)
  discover-register path text ephemeral c h =
      let (c', e) = register-remember path text ephemeral c h in
      rw e (discover-remember path text c' (sym (ap (λ r. r.1) e) ∙ h))
