-- ===== src/Filters/Laws.antt =====
-- What the filters let through (components/filters.rs).
use netfabric_bgp_router.Prelude.{
  ℕ, ◌≤◌, ◌≡◌, ◌↔◌, ◌⊎◌, inl, inr, refl, sym, ◌∙◌, true, false, some, List, [], ◌∷◌, All, Listed,
  arith, ==_iff, leb, Bool-cases, Option-cases, subst,
}
use mathlib.Core.Option.{some-injective}
use netfabric_bgp_router.Platform.{Platform, IpAddr}
use netfabric_bgp_router.Route.{PathElement, asn, as_set, AsPath, Route}
use netfabric_bgp_router.Advertisement.{Advertisement}
use netfabric_bgp_router.Filters.{
  Filter, combined_or_filter, combined_and_filter, contains_asn, element_has, path_has,
  own_as_filter, ip_network_blacklist_filter,
}

-- The AS stands in the element: it is the AS, or one of the set.
abbrev pub Mentions : ℕ → PathElement → Type 0
Mentions n (asn m) = m ≡ n
Mentions n (as_set ms) = Listed n ms

abbrev pub PathMentions : ℕ → AsPath → Type 0
PathMentions n [] = ⊥
PathMentions n (e ∷ es) = Mentions n e ⊎ PathMentions n es

contains_asn_iff : (n : ℕ) (ms : List ℕ) → (contains_asn n ms ≡ true) ↔ Listed n ms
unfolding contains_asn
contains_asn_iff n [] = (λ h. ground arith, λ h. absurd h)
contains_asn_iff n (m ∷ ms) =
    let ih = contains_asn_iff n ms in
    (
      λ h. ground (arith, ih.0),
      λ h. elim h [ inl e ↦ ground arith | inr l ↦ ground (arith, ih.1 l) ],
    )

element_has_iff : (n : ℕ) (e : PathElement) → (element_has n e ≡ true) ↔ Mentions n e
unfolding element_has
element_has_iff n (asn m) = ==_iff m n
element_has_iff n (as_set ms) = contains_asn_iff n ms

path_has_iff : (n : ℕ) (es : AsPath) → (path_has n es ≡ true) ↔ PathMentions n es
unfolding path_has
path_has_iff n [] = (λ h. ground arith, λ h. absurd h)
path_has_iff n (e ∷ es) =
    let ih = path_has_iff n es in
    let here = element_has_iff n e in
    (
      λ h. elim (Bool-cases (element_has n e)) [
        | inl yes_here ↦ inl (here.0 yes_here)
        | inr not_here ↦ inr (ih.0 (ground arith))
      ],
      λ h. elim h [ inl m ↦ ground (arith, here.1 m) | inr l ↦ ground (arith, ih.1 l) ],
    )

module _ (p : Platform) where
  -- The filter for the own AS changes no advertisement, and stops exactly those with a path that
  -- mentions the AS, alone or in a set.
  pub own_as_filter_iff :
      (n : ℕ) (ad : Advertisement p)
      → ((own_as_filter p n ad).1 ≡ ad)
        × (((own_as_filter p n ad).0 ≡ false)
            ↔ ((path : AsPath) × (ad.path ≡ some path) × PathMentions n path))
  unfolding own_as_filter
  own_as_filter_iff n ad = elim (Option-cases ad.path) [
    | inl e ↦
        (ground arith, (λ h. absurd (ground arith), λ (path, found, m). absurd (ground arith)))
    | inr (path, e) ↦
        let both = path_has_iff n path in
        (
          ground arith,
          (
            λ h. (path, e, both.0 (ground arith)),
            λ (path', found, m).
                ground
                  (arith, both.1 (subst (PathMentions n) (some-injective _ _ (sym found ∙ e)) m)),
          ),
        )
  ]

  -- An address lies in both networks.
  abbrev pub Overlaps : p.IpNetwork → p.IpNetwork → Type 0
  Overlaps n m = (a : IpAddr) × (p.contains n a ≡ true) × (p.contains m a ≡ true)

  -- What a network with a prefix length is: it contains its own address, and of two networks the
  -- one with the shorter prefix contains the address of the other exactly if they overlap.
  pub record IsCidr : Type 0 where
    pub own_address : (n : p.IpNetwork) → p.contains n (p.network_address n) ≡ true
    pub nested :
        (n m : p.IpNetwork) (a : IpAddr)
        → p.netmask n ≤ p.netmask m
        → p.contains n a ≡ true
        → p.contains m a ≡ true
        → p.contains n (p.network_address m) ≡ true

  -- The blacklist filter changes no route, and lets through exactly those whose prefix overlaps the
  -- listed network; every route outside it is stopped.
  pub ip_network_blacklist_filter_iff :
      IsCidr
      → (network : p.IpNetwork) (route : Route p)
      → ((ip_network_blacklist_filter p network route).1 ≡ route)
        × (((ip_network_blacklist_filter p network route).0 ≡ true) ↔ Overlaps network route.prefix)
  unfolding ip_network_blacklist_filter
  ip_network_blacklist_filter_iff cidr network route =
      elim (Bool-cases (leb (p.netmask network) (p.netmask route.prefix))) [
        | inl short ↦ rw short (
          refl,
          (
            λ h. (p.network_address route.prefix, h, cidr.own_address route.prefix),
            λ (a, x, y). cidr.nested network route.prefix a (ground arith) x y,
          ),
        )
        | inr long ↦ rw long (
          refl,
          (
            λ h. (p.network_address network, cidr.own_address network, h),
            λ (a, x, y). cidr.nested route.prefix network a (ground arith) y x,
          ),
        )
      ]

module _ {A : Type 0} where
  -- The filter leaves every element as it is.
  abbrev pub IsPure : Filter A → Type 0
  IsPure f = (a : A) → (f a).1 ≡ a

  -- Some filter, or every filter, of the list passes the element.
  abbrev pub SomePasses : List (Filter A) → A → Type 0
  SomePasses [] a = ⊥
  SomePasses (f ∷ fs) a = ((f a).0 ≡ true) ⊎ SomePasses fs a

  -- Filters that change nothing combine to `or`: the element passes exactly if one of them lets it.
  pub combined_or_filter_iff :
      (fs : List (Filter A)) (a : A)
      → All IsPure fs
      → ((combined_or_filter fs a).0 ≡ true) ↔ SomePasses fs a
  unfolding combined_or_filter
  combined_or_filter_iff [] a pure = (λ h. ground arith, λ h. absurd h)
  combined_or_filter_iff (f ∷ fs) a pure =
      let ih = combined_or_filter_iff fs a pure.1 in
      elim (Bool-cases (f a).0) [
        | inl passed ↦ (λ h. inl passed, λ h. rw passed)
        | inr stopped ↦
            rw (stopped, pure.0 a)
              (λ h. inr (ih.0 h), elim [ inl passed ↦ absurd (ground arith) | inr l ↦ ih.1 l ])
      ]

  -- Filters that change nothing combine to `and`: the element passes exactly if all let it.
  pub combined_and_filter_iff :
      (fs : List (Filter A)) (a : A)
      → All IsPure fs
      → ((combined_and_filter fs a).0 ≡ true) ↔ All (λ f. (f a).0 ≡ true) fs
  unfolding combined_and_filter
  combined_and_filter_iff [] a pure = (λ h. tt, λ h. refl)
  combined_and_filter_iff (f ∷ fs) a pure =
      let ih = combined_and_filter_iff fs a pure.1 in
      elim (Bool-cases (f a).0) [
        | inl passed ↦ rw (passed, pure.0 a) (λ h. (refl, ih.0 h), λ h. ih.1 h.1)
        | inr stopped ↦ rw stopped (λ h. absurd (ground arith), λ h. absurd (ground arith))
      ]
