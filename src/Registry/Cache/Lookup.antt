-- ===== src/Registry/Cache/Lookup.antt =====
-- What a lookup sees after each section.
use xrpc.Base.{
  ◌≡◌, refl, ◌∙◌, Bool, true, not, ◌&&◌, none, some, [], ◌∷◌, Bytes, text_eq, text_eq_iff,
  if◌then◌else◌, arith, Option-cases, inl, inr,
}
use xrpc.Base.Dict.{lookup, insert, erase, lookup-insert, lookup-erase}
use xrpc.Registry.Cache.{
  Instances, ServiceCache, put_instance, instances_of, cache_put, cache_find, keep_if, is_empty,
  cache_keep,
}

pub instances_of-insert :
    (s t : Bytes) (xs : Instances) (cache : ServiceCache)
    → instances_of t (insert s xs cache) ≡ (if text_eq s t then xs else instances_of t cache)
unfolding instances_of
instances_of-insert s t xs cache = ground (arith, lookup-insert s t xs cache)

pub instances_of-erase :
    (s t : Bytes) (cache : ServiceCache)
    → instances_of t (erase s cache) ≡ (if text_eq s t then [] else instances_of t cache)
unfolding instances_of
instances_of-erase s t cache = ground (arith, lookup-erase s t cache)

-- A `Discover` of any path after a section that ends `Register` or `Discover`.
pub cache_find-put :
    (s t path other text : Bytes) (cache : ServiceCache)
    → cache_find t other (cache_put s path text cache)
      ≡ (if text_eq s t && text_eq path other then some text else cache_find t other cache)
unfolding cache_find cache_put put_instance
cache_find-put s t path other text cache = ground (
  arith,
  text_eq_iff s t,
  instances_of-insert s t (insert path text (instances_of s cache)) cache,
  lookup-insert path other text (instances_of s cache),
)

pub lookup-keep :
    (test : Bytes → Bool) (path : Bytes) (xs : Instances)
    → lookup path (keep_if test xs) ≡ (if test path then lookup path xs else none)
unfolding lookup keep_if
lookup-keep test path [] = ground arith
lookup-keep test path ((p, d) ∷ xs) = ground (arith, text_eq_iff p path, lookup-keep test path xs)

lookup_empty : (path : Bytes) (xs : Instances) → is_empty xs ≡ true → lookup path xs ≡ none
unfolding lookup
lookup_empty path [] h = refl
lookup_empty path (x ∷ xs) h = cc

-- The list of a service after a section that filters `s`.
pub instances_of-keep :
    (s t : Bytes) (test : Bytes → Bool) (cache : ServiceCache)
    → instances_of t (cache_keep s test cache)
      ≡ (if text_eq s t then keep_if test (instances_of s cache) else instances_of t cache)
unfolding cache_keep
instances_of-keep s t test cache = elim (Option-cases (lookup s cache)) [
  | inl e ↦ rw (e, cache_keep) (absent e)
  | inr (xs, e) ↦ rw (e, cache_keep) (present xs e (keep_if test xs) refl)
]
  where
    absent :
        lookup s cache ≡ none
        → instances_of t cache
          ≡ (if text_eq s t then keep_if test (instances_of s cache) else instances_of t cache)
    absent e = unfold instances_of keep_if in ground (arith, text_eq_iff s t)

    present :
        (xs : Instances)
        → lookup s cache ≡ some xs
        → (kept : Instances) → keep_if test xs ≡ kept
        → instances_of t (if is_empty kept then erase s cache else insert s kept cache)
          ≡ (if text_eq s t then keep_if test (instances_of s cache) else instances_of t cache)
    present xs e [] k =
        instances_of-erase s t cache ∙ unfold instances_of in ground (arith, text_eq_iff s t)
    present xs e (x ∷ kept) k =
        instances_of-insert s t (x ∷ kept) cache
        ∙ unfold instances_of in ground (arith, text_eq_iff s t)

-- A lookup sees the instances of the service that passed the test, and of the other services all.
pub cache_find-keep :
    (s t path : Bytes) (test : Bytes → Bool) (cache : ServiceCache)
    → cache_find t path (cache_keep s test cache)
      ≡ (if text_eq s t && not (test path) then none else cache_find t path cache)
unfolding cache_find
cache_find-keep s t path test cache = ground (
  arith,
  text_eq_iff s t,
  instances_of-keep s t test cache,
  lookup-keep test path (instances_of s cache),
)
