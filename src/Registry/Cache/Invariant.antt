-- ===== src/Registry/Cache/Invariant.antt =====
-- The cache under every interleaving of the sections that work on it.
use xrpc.Base.{
  ◌≡◌, refl, sym, Bool, none, [], ◌∷◌, Bytes, text_eq, text_eq_iff, arith, Bool-cases, inl, inr,
  All, ok,
}
use xrpc.Base.Dict.{lookup, insert, erase, lookup-insert}
use xrpc.Registry.Cache.{
  Instances, ServiceCache, service_of, put_instance, instances_of, cache_put, keep_if, cache_keep,
}
use xrpc.Registry.Cache.Lookup.{
  instances_of-insert, instances_of-erase, instances_of-keep, lookup-keep,
}

-- Every path lies under the service.
abbrev pub Placed : Bytes → Instances → Type 0
Placed s xs = All (λ e. service_of e.0 ≡ ok s) xs

-- No path occurs twice.
abbrev pub Distinct : Instances → Type 0
Distinct [] = Unit {0}
Distinct ((p, d) ∷ xs) = (lookup p xs ≡ none) × Distinct xs

pub record IsCache (cache : ServiceCache) : Type 0 where
  pub placed : (s : Bytes) → Placed s (instances_of s cache)
  pub distinct : (s : Bytes) → Distinct (instances_of s cache)

pub empty-IsCache : IsCache []
unfolding instances_of lookup
empty-IsCache = record { placed = λ s. tt; distinct = λ s. tt }

insert-Placed :
    (s p d : Bytes) (xs : Instances) → service_of p ≡ ok s → Placed s xs → Placed s (insert p d xs)
unfolding insert
insert-Placed s p d [] h w = (h, tt)
insert-Placed s p d ((q, e) ∷ xs) h w = elim (Bool-cases (text_eq q p)) [
  | inl same ↦ rw same w
  | inr other ↦ rw other (w.0, insert-Placed s p d xs h w.1)
]

insert-Distinct : (p d : Bytes) (xs : Instances) → Distinct xs → Distinct (insert p d xs)
unfolding insert
insert-Distinct p d [] w = unfold lookup in (refl, tt)
insert-Distinct p d ((q, e) ∷ xs) w = elim (Bool-cases (text_eq q p)) [
  | inl same ↦ rw same w
  | inr other ↦ rw other (
    ground (arith, text_eq_iff q p, text_eq_iff p q, lookup-insert p q d xs, w.0),
    insert-Distinct p d xs w.1,
  )
]

keep-Placed :
    (s : Bytes) (test : Bytes → Bool) (xs : Instances) → Placed s xs → Placed s (keep_if test xs)
unfolding keep_if
keep-Placed s test [] w = tt
keep-Placed s test ((p, d) ∷ xs) w = elim (Bool-cases (test p)) [
  | inl stays ↦ rw stays (w.0, keep-Placed s test xs w.1)
  | inr goes ↦ rw goes (keep-Placed s test xs w.1)
]

keep-Distinct : (test : Bytes → Bool) (xs : Instances) → Distinct xs → Distinct (keep_if test xs)
unfolding keep_if
keep-Distinct test [] w = tt
keep-Distinct test ((p, d) ∷ xs) w = elim (Bool-cases (test p)) [
  | inl stays ↦ rw stays (ground (arith, lookup-keep test p xs, w.0), keep-Distinct test xs w.1)
  | inr goes ↦ rw goes (keep-Distinct test xs w.1)
]

-- A map of a service to a fitting list may be put in.
pub insert-IsCache :
    (s : Bytes) (xs : Instances) (cache : ServiceCache)
    → Placed s xs
    → Distinct xs
    → IsCache cache
    → IsCache (insert s xs cache)
insert-IsCache s xs cache fits apart w = record {
  placed = λ t. elim (Bool-cases (text_eq s t)) [
    | inl same ↦
        rw (instances_of-insert s t xs cache, same) (rw (sym ((text_eq_iff s t).0 same)) fits)
    | inr other ↦ rw (instances_of-insert s t xs cache, other) (w.placed t)
  ];
  distinct = λ t. elim (Bool-cases (text_eq s t)) [
    | inl same ↦ rw (instances_of-insert s t xs cache, same) apart
    | inr other ↦ rw (instances_of-insert s t xs cache, other) (w.distinct t)
  ];
}

pub put-IsCache :
    (s p d : Bytes) (cache : ServiceCache)
    → service_of p ≡ ok s
    → IsCache cache
    → IsCache (cache_put s p d cache)
unfolding cache_put put_instance
put-IsCache s p d cache h w =
    insert-IsCache s _ cache (insert-Placed s p d _ h (w.placed s))
      (insert-Distinct p d _ (w.distinct s)) w

pub erase-IsCache : (s : Bytes) (cache : ServiceCache) → IsCache cache → IsCache (erase s cache)
erase-IsCache s cache w = record {
  placed = λ t. elim (Bool-cases (text_eq s t)) [
    | inl same ↦ rw (instances_of-erase s t cache, same) tt
    | inr other ↦ rw (instances_of-erase s t cache, other) (w.placed t)
  ];
  distinct = λ t. elim (Bool-cases (text_eq s t)) [
    | inl same ↦ rw (instances_of-erase s t cache, same) tt
    | inr other ↦ rw (instances_of-erase s t cache, other) (w.distinct t)
  ];
}

pub keep-IsCache :
    (s : Bytes) (test : Bytes → Bool) (cache : ServiceCache)
    → IsCache cache
    → IsCache (cache_keep s test cache)
keep-IsCache s test cache w = record {
  placed = λ t. elim (Bool-cases (text_eq s t)) [
    | inl same ↦
        rw (instances_of-keep s t test cache, same)
          (rw (sym ((text_eq_iff s t).0 same)) (keep-Placed s test _ (w.placed s)))
    | inr other ↦ rw (instances_of-keep s t test cache, other) (w.placed t)
  ];
  distinct = λ t. elim (Bool-cases (text_eq s t)) [
    | inl same ↦ rw (instances_of-keep s t test cache, same) (keep-Distinct test _ (w.distinct s))
    | inr other ↦ rw (instances_of-keep s t test cache, other) (w.distinct t)
  ];
}
