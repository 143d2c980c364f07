-- ===== src/Registry/View.antt =====
-- The cache of registry/zookeeper_client.cc seen as a directory: the data under each path.
pub mod Calls
pub mod History
use mathlib.Core.Path.{fun_ext}
use xrpc.Base.{
  ◌≡◌, Bool-cases, if_true, if_false, refl, ap, sym, ◌∙◌, subst, Bool, true, false, not, ◌&&◌,
  Option, none, some, List, [], ◌∷◌, Bytes, Result, ok, throw, inl, inr, ◌⊎◌, arith, Option-cases,
  Result-cases, text_eq, text_eq_iff, text_eq_refl, if◌then◌else◌,
}
use xrpc.Registry.Cache.{ServiceCache, service_of, cache_put, cache_find}
use xrpc.Registry.Cache.Lookup.{cache_find-put}
use xrpc.Registry.ZooKeeper.{Code, zok, ZooKeeper}
use xrpc.Registry.Session.{Client, M, pure, ◌>>=◌, ◌>>◌, lift, set_cache, zoo}
use xrpc.Registry.Chains.{then_ok, bind_ok}
use xrpc.Registry.Keeps.{
  Keeps, require_connected-Keeps, ensure_parent-Keeps, bind-Keeps, zoo-Keeps, write_node-Keeps,
  get_node_data-Keeps,
}
use xrpc.Registry.Nodes.{
  register, discover, delete, remember, require_connected, ensure_parent, write_node, find_or_fetch,
  fetch, get_node_data,
}
use xrpc.Registry.Discovery.{remember_lem}
use xrpc.Registry.Deletion.{Forgot, delete-Forgot}

abbrev pub Directory : Type 0
Directory = Bytes → Option Bytes

unfoldable pub put : Bytes → Bytes → Directory → Directory
put path text d p = if text_eq path p then some text else d p

unfoldable pub remove : Bytes → Directory → Directory
remove path d p = if text_eq path p then none else d p

abbrev found_in : ServiceCache → Bytes → Result Bytes → Option Bytes
found_in cache path (ok service) = cache_find service path cache
found_in cache path (throw _) = none

-- The lists of the services put together; each path is looked up under its own service.
unfoldable pub view : ServiceCache → Directory
view cache path = found_in cache path (service_of path)

pub view-found :
    (s path : Bytes) (cache : ServiceCache)
    → service_of path ≡ ok s
    → view cache path ≡ cache_find s path cache
unfolding view
view-found s path cache h = ap (found_in cache path) h

view-nowhere :
    (x path : Bytes) (cache : ServiceCache) → service_of path ≡ throw x → view cache path ≡ none
unfolding view
view-nowhere x path cache h = ap (found_in cache path) h

abbrev pub or_else : Bytes → Result Bytes → Bytes
or_else s (ok t) = t
or_else s (throw _) = s

abbrev returns : Result Bytes → Bool
returns (ok _) = true
returns (throw _) = false

-- Two paths of different services are different.
same_service :
    (s t path p : Bytes)
    → service_of path ≡ ok s
    → service_of p ≡ ok t
    → (text_eq s t && text_eq path p) ≡ text_eq path p
same_service s t path p hs ht = elim (Bool-cases (text_eq path p)) [
  | inl same ↦
      let e = ap (or_else s) (sym hs ∙ ap service_of ((text_eq_iff path p).0 same) ∙ ht) in
      ground (arith, same, (text_eq_iff s t).1 e)
  | inr other ↦ ground (arith, other)
]

no_service :
    (s x path p : Bytes) → service_of path ≡ ok s → service_of p ≡ throw x → text_eq path p ≡ false
no_service s x path p hs hp = elim (Bool-cases (text_eq path p)) [
  | inl same ↦
      let e = ap returns (sym hs ∙ ap service_of ((text_eq_iff path p).0 same) ∙ hp) in
      absurd (ground (arith, e))
  | inr other ↦ other
]

text_eq_sym : (s t : Bytes) → text_eq s t ≡ text_eq t s
text_eq_sym s t = ground (arith, text_eq_iff s t, text_eq_iff t s)

-- A section that changes what is found at one path, under its service, changes the view there.
view-changed :
    (cache cache' : ServiceCache) (v : Option Bytes) (s path p : Bytes)
    → service_of path ≡ ok s
    → ((t : Bytes)
        → cache_find t p cache'
          ≡ (if text_eq s t && text_eq path p then v else cache_find t p cache))
    → view cache' p ≡ (if text_eq path p then v else view cache p)
view-changed cache cache' v s path p h changed = elim (Result-cases (service_of p)) [
  | inl (t, e) ↦
      view-found t p cache' e
      ∙ changed t
      ∙ ap (λ b. if b then v else cache_find t p cache) (same_service s t path p h e)
      ∙ ap (λ o. if text_eq path p then v else o) (sym (view-found t p cache e))
  | inr (x, e) ↦
      view-nowhere x p cache' e
      ∙ sym (if_false v (view cache p) (no_service s x path p h e) ∙ view-nowhere x p cache e)
]

pub view-put :
    (s path text : Bytes) (cache : ServiceCache)
    → service_of path ≡ ok s
    → view (cache_put s path text cache) ≡ put path text (view cache)
unfolding put
view-put s path text cache h = fun_ext λ p.
    view-changed cache (cache_put s path text cache) (some text) s path p h
      (λ t. cache_find-put s t path p text cache)

pub view-Forgot :
    {zk : ZooKeeper} (s path : Bytes) (c d : Client zk)
    → service_of path ≡ ok s
    → Forgot s path c d
    → view d.service_cache ≡ remove path (view c.service_cache)
unfolding remove
view-Forgot s path c d h forgot = fun_ext λ p.
    view-changed c.service_cache d.service_cache none s path p h (λ t.
      forgot.0 t p
      ∙ ap (λ b. if text_eq s t && b then none else cache_find t p c.service_cache)
          (text_eq_sym p path))

pub put_same : (path text : Bytes) (d : Directory) → d path ≡ some text → put path text d ≡ d
unfolding put
put_same path text d h = fun_ext λ p. elim (Bool-cases (text_eq path p)) [
  | inl same ↦ if_true _ _ same ∙ sym h ∙ ap d ((text_eq_iff path p).0 same)
  | inr other ↦ if_false _ _ other
]
