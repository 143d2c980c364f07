-- ===== src/Registry/View/Calls.antt =====
-- What Register and Discover of registry/zookeeper_client.cc do to the view of the cache.
use xrpc.Base.{◌≡◌, refl, ap, sym, ◌∙◌, subst, Bool, none, some, Bytes, ok, inl, inr, Option-cases}
use xrpc.Registry.Cache.{ServiceCache, service_of, cache_find}
use xrpc.Registry.ZooKeeper.{ZooKeeper}
use xrpc.Registry.Session.{Client, pure, lift}
use xrpc.Registry.Chains.{then_ok, bind_ok, pure_lem, lift_lem}
use xrpc.Registry.Keeps.{
  require_connected-Keeps, ensure_parent-Keeps, bind-Keeps, zoo-Keeps, write_node-Keeps,
  get_node_data-Keeps,
}
use xrpc.Registry.Nodes.{register, discover, remember, find_or_fetch, fetch, get_node_data}
use xrpc.Registry.Discovery.{remember_lem}
use xrpc.Registry.Discovery.{find_or_fetch-hit}
use xrpc.Registry.View.{put, view, view-found, view-put, put_same, or_else}

module _ {zk : ZooKeeper} where
  -- What comes before the last section leaves the cache.
  pub register-cache :
      (path text : Bytes) (ephemeral : Bool) (c : Client zk)
      → (register path text ephemeral c).1 ≡ ok tt
      → view (register path text ephemeral c).0.service_cache ≡ put path text (view c.service_cache)
  unfolding register
  register-cache path text ephemeral c h =
      let (c1, m1, e1, h1) = then_ok _ _ c tt h in
      let (c2, m2, e2, h2) = then_ok _ _ c1 tt h1 in
      let (c3, m3, e3, h3) = then_ok _ _ c2 tt h2 in
      let (s, placed, r) = remember_lem path text c3 h3 in
      let Q = λ (cache : ServiceCache). view cache ≡ view c.service_cache in
      let k1 = subst (λ r. Q r.0.service_cache) m1 (require_connected-Keeps Q c refl) in
      let k2 = subst (λ r. Q r.0.service_cache) m2 (ensure_parent-Keeps Q path c1 k1) in
      let k3 =
        subst (λ r. Q r.0.service_cache) m3
          (bind-Keeps Q _ _ (zoo-Keeps Q _) (write_node-Keeps Q path text ephemeral) c2 k2) in
      ap (λ r. view r.0.service_cache) (e1 ∙ e2 ∙ e3 ∙ r)
      ∙ view-put s path text c3.service_cache placed
      ∙ ap (put path text) k3

  pub find_or_fetch-miss :
      (s path : Bytes) (c : Client zk)
      → cache_find s path c.service_cache ≡ none
      → find_or_fetch path s c ≡ fetch path c
  unfolding find_or_fetch
  find_or_fetch-miss s path c h = rw (h, find_or_fetch) refl

  fetch-cache :
      (path text : Bytes) (c : Client zk)
      → (fetch path c).1 ≡ ok text
      → view (fetch path c).0.service_cache ≡ put path text (view c.service_cache)
  fetch-cache path text c h =
      let (c1, got, m1, e1, h1) = bind_ok (get_node_data path) _ c text h in
      let (c2, m2, e2, h2) = then_ok (remember path got) (pure got) c1 text h1 in
      let (s, placed, r) = remember_lem path got c1 (ap (λ r. r.1) m2) in
      let Q = λ (cache : ServiceCache). view cache ≡ view c.service_cache in
      let k1 = subst (λ r. Q r.0.service_cache) m1 (get_node_data-Keeps Q path c refl) in
      ap (λ r. view r.0.service_cache) (e1 ∙ e2 ∙ pure_lem got c2)
      ∙ ap (λ r. view r.0.service_cache) (sym m2 ∙ r)
      ∙ view-put s path got c1.service_cache placed
      ∙ ap (put path got) k1
      ∙ ap (λ t. put path t (view c.service_cache))
          (ap (or_else text) (sym (ap (λ r. r.1) (pure_lem got c2)) ∙ h2))

  found-cache :
      (s path text : Bytes) (c : Client zk)
      → service_of path ≡ ok s
      → (find_or_fetch path s c).1 ≡ ok text
      → view (find_or_fetch path s c).0.service_cache ≡ put path text (view c.service_cache)
  found-cache s path text c placed h = elim (Option-cases (cache_find s path c.service_cache)) [
    | inl absent ↦
        let e = find_or_fetch-miss s path c absent in
        ap (λ r. view r.0.service_cache) e ∙ fetch-cache path text c (sym (ap (λ r. r.1) e) ∙ h)
    | inr (old, there) ↦
        let e = find_or_fetch-hit s path old c there in
        let same = ap (or_else text) (sym (ap (λ r. r.1) e) ∙ h) in
        ap (λ r. view r.0.service_cache) e
        ∙ sym (
            put_same path text (view c.service_cache)
              (view-found s path c.service_cache placed ∙ there ∙ ap some same))
  ]

  -- Discover leaves what it returns in the view.
  pub discover-cache :
      (path text : Bytes) (c : Client zk)
      → (discover path c).1 ≡ ok text
      → view (discover path c).0.service_cache ≡ put path text (view c.service_cache)
  unfolding discover
  discover-cache path text c h =
      let (c', s, m, e, h') = bind_ok (lift (service_of path)) (find_or_fetch path) c text h in
      let lifted = sym (lift_lem (service_of path) c) ∙ m in
      let placed = ap (λ r. r.1) lifted in
      ap (λ r. view r.0.service_cache) e
      ∙ found-cache s path text c' placed h'
      ∙ ap (λ d. put path text (view d.service_cache)) (sym (ap (λ r. r.0) lifted))
