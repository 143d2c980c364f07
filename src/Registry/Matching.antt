-- ===== src/Registry/Matching.antt =====
-- Which instances the loop of FindInstancesByMethod in registry/zookeeper_client.cc takes.
use xrpc.Base.{
  ◌≡◌, refl, ap, sym, ◌∙◌, subst, ◌↔◌, ◌⊎◌, inl, inr, Bool, true, false, ◌||◌, [], ◌∷◌, ◌++◌, Bytes,
  arith, Bool-cases, append_assoc, text_eq, text_eq_iff, text_eq_refl,
}
use xrpc.Registry.Cache.{Instances, contains}
use xrpc.Registry.Nodes.{begins, has_text, methods_prefix, offers, matching, base_name}
use xrpc.Registry.Offers.{has_text-within, or_first, or_last}

-- The text stands somewhere in the other.
abbrev pub Occurs : Bytes → Bytes → Type 0
Occurs t s = (before : Bytes) × (after : Bytes) × (s ≡ before ++ (t ++ after))

-- The data names the method behind "methods=" or behind a comma, with anything after the name.
abbrev pub Offered : Bytes → Bytes → Type 0
Offered method text = Occurs (methods_prefix ++ method) text ⊎ Occurs (b',' ∷ method) text

begins-Occurs : (t s : Bytes) → begins t s ≡ true → (after : Bytes) × (s ≡ t ++ after)
begins-Occurs [] s h = (s, refl)
begins-Occurs (a ∷ t) [] h = absurd (ground (arith, h))
begins-Occurs (a ∷ t) (b ∷ s) h =
    let (after, e) = begins-Occurs t s (ground (arith, h)) in
    (after, ap (λ c. c ∷ s) (ground (arith, h)) ∙ ap (◌∷◌ a) e)

has_text-Occurs : (t s : Bytes) → has_text t s ≡ true → Occurs t s
unfolding has_text
has_text-Occurs t [] h = let (after, e) = begins-Occurs t [] h in ([], after, e)
has_text-Occurs t (c ∷ s) h = elim (Bool-cases (begins t (c ∷ s))) [
  | inl here ↦ let (after, e) = begins-Occurs t (c ∷ s) here in ([], after, e)
  | inr later ↦
      let (before, after, e) = has_text-Occurs t s (ground (arith, h, later)) in
      (c ∷ before, after, ap (◌∷◌ c) e)
]

Occurs-has_text : (t s : Bytes) → Occurs t s → has_text t s ≡ true
Occurs-has_text t s (before, after, e) =
    subst (λ s. has_text t s ≡ true) (sym e) (has_text-within t before after)

-- A comma behind the name is no other condition.
Occurs-shorter : (t s : Bytes) (c : _) → Occurs (t ++ c ∷ []) s → Occurs t s
Occurs-shorter t s c (before, after, e) =
    (before, c ∷ after, e ∙ ap (λ u. before ++ u) (append_assoc t (c ∷ []) after))

one_of : (a b c : Bool) → (a || b || c) ≡ true → (a ≡ true) ⊎ ((b ≡ true) ⊎ (c ≡ true))
one_of true b c h = inl refl
one_of false true c h = inr (inl refl)
one_of false false c h = inr (inr h)

offers-Offered : (method text : Bytes) → (offers method text ≡ true) ↔ Offered method text
unfolding offers
offers-Offered method text = (to, from)
  where
    to : offers method text ≡ true → Offered method text
    to h = elim (one_of _ _ _ h) [
      | inl a ↦ inl (has_text-Occurs (methods_prefix ++ method) text a)
      | inr (inl b) ↦ inl (
          Occurs-shorter (methods_prefix ++ method) text b','
            (has_text-Occurs (methods_prefix ++ method ++ b',' ∷ []) text b))
      | inr (inr c) ↦ inr (has_text-Occurs (b',' ∷ method) text c)
    ]

    from : Offered method text → offers method text ≡ true
    from (inl w) =
        or_first (has_text (methods_prefix ++ method) text) _ _
          (Occurs-has_text (methods_prefix ++ method) text w)
    from (inr w) =
        or_last (has_text (methods_prefix ++ method) text)
          (has_text (methods_prefix ++ method ++ b',' ∷ []) text) _
          (Occurs-has_text (b',' ∷ method) text w)

-- The list has an instance by that name whose data names the method.
abbrev pub Serves : Bytes → Bytes → Instances → Type 0
Serves method name xs =
    (before after : Instances) × (path : Bytes) × (text : Bytes) × (xs
      ≡ before ++ (path, text) ∷ after)
    × (base_name path ≡ name)
    × Offered method text

Serves-later :
    (method name : Bytes) (x : Bytes × Bytes) (xs : Instances)
    → Serves method name xs
    → Serves method name (x ∷ xs)
Serves-later method name x xs (before, after, path, text, e, named, offered) =
    (x ∷ before, after, path, text, ap (◌∷◌ x) e, named, offered)

matching-Serves :
    (method name : Bytes) (xs : Instances)
    → contains name (matching method xs) ≡ true
    → Serves method name xs
unfolding matching contains
matching-Serves method name [] h = absurd (ground (arith, h))
matching-Serves method name ((p, d) ∷ xs) h = elim (Bool-cases (offers method d)) [
  | inl offered ↦ elim (Bool-cases (text_eq (base_name p) name)) [
    | inl named ↦ (
      [],
      xs,
      p,
      d,
      refl,
      (text_eq_iff (base_name p) name).0 named,
      (offers-Offered method d).0 offered,
    )
    | inr other ↦
        Serves-later method name (p, d) xs
          (matching-Serves method name xs (ground (arith, h, offered, other)))
  ]
  | inr not_offered ↦
      Serves-later method name (p, d) xs
        (matching-Serves method name xs (ground (arith, h, not_offered)))
]

Serves-matching :
    (method path text : Bytes) (before after : Instances)
    → Offered method text
    → contains (base_name path) (matching method (before ++ (path, text) ∷ after)) ≡ true
unfolding matching contains
Serves-matching method path text [] after w =
    ground (arith, (offers-Offered method text).1 w, text_eq_refl (base_name path))
Serves-matching method path text ((p, d) ∷ before) after w =
    ground (arith, Serves-matching method path text before after w)

-- FindInstancesByMethod takes exactly the names of the instances whose data has the method behind
-- "methods=" or behind a comma, whatever follows it there.
pub matching-exact :
    (method name : Bytes) (xs : Instances)
    → (contains name (matching method xs) ≡ true) ↔ Serves method name xs
matching-exact method name xs = (matching-Serves method name xs, from)
  where
    from : Serves method name xs → contains name (matching method xs) ≡ true
    from (before, after, path, text, e, named, offered) =
        subst (λ n. contains n (matching method xs) ≡ true) named
          (subst (λ ys. contains (base_name path) (matching method ys) ≡ true) (sym e)
            (Serves-matching method path text before after offered))
