-- ===== src/Rib/Lookup.antt =====
-- The best route for an address that a router finds in the RIB
-- (`BgpRib::get_bestroute_for_router`, components/bgp/bgp_rib.rs).
use netfabric_bgp_router.Prelude.{
  ◌≡◌, ◌⊎◌, inl, inr, sym, ◌∙◌, ap, subst, true, false, Option, none, some, List, [], ◌∷◌, All,
  Listed, Option-cases, Bool-cases, ◌≤◌,
}
use mathlib.Core.Option.{some-injective}
use netfabric_bgp_router.Platform.{Platform, IpAddr}
use netfabric_bgp_router.PrefixTable.{PrefixTable, IsLawful, IsLongest}
use netfabric_bgp_router.RouterMask
use netfabric_bgp_router.RouterMask.{RouterMask}
use netfabric_bgp_router.Route.{Route}
use netfabric_bgp_router.BestRoute.{BestRoute, calculate}
use netfabric_bgp_router.BestRoute.Laws.{NotAbove, calculate_iff, calculate_max, calculate-none_iff}
use netfabric_bgp_router.RibEntry.{BgpRibEntry, Item, get_with_mask, routes_with_mask}
use netfabric_bgp_router.Rib.{BgpRib, get_routes_for_router, get_bestroute_for_router}
use netfabric_bgp_router.Rib.Valid.{IsValid, Sees}
use netfabric_bgp_router.Rib.Reports.{IsLastBest-Listed}

All-Listed : {A : Type 0} (P : A → Type 0) (xs : List A) (a : A) → All P xs → Listed a xs → P a
All-Listed P [] a h l = absurd l
All-Listed P (x ∷ xs) a h (inl here) = subst P here h.0
All-Listed P (x ∷ xs) a h (inr there) = All-Listed P xs a h.1 there

module _ (p : Platform) where
  routes_with_mask-prefix :
      (n : p.IpNetwork) (mask : RouterMask) (s : Route p) (items : List (Item p))
      → All (λ i. i.1.prefix ≡ n) items
      → Listed s (routes_with_mask p mask items)
      → s.prefix ≡ n
  unfolding routes_with_mask
  routes_with_mask-prefix n mask s [] h l = absurd l
  routes_with_mask-prefix n mask s ((m, r) ∷ rest) h l =
      elim (Bool-cases (RouterMask.contains m mask)) [
        | inl has ↦ elim (rw (has, routes_with_mask) at l) [
          | inl here ↦ ap (λ x. x.prefix) (sym here) ∙ h.0
          | inr there ↦ routes_with_mask-prefix n mask s rest h.1 there
        ]
        | inr lacks ↦ routes_with_mask-prefix n mask s rest h.1 (rw (lacks, routes_with_mask) at l)
      ]

module _ (p : Platform) (T : PrefixTable p (BgpRibEntry p)) (rib : BgpRib p T) (address : IpAddr)
    (id : p.Uuid) where
  -- What the answer to a lookup says of the RIB.
  abbrev pub Answers : Option (BestRoute p) → Type 0
  Answers (some b) =
      Sees p T rib id b
      × (p.contains b.prefix address ≡ true)
      × ((n : p.IpNetwork) (e : BgpRibEntry p)
          → T.exact_match rib.treebitmap n ≡ some e
          → p.contains n address ≡ true
          → p.netmask n ≤ p.netmask b.prefix)
      × ((s : Route p) → s.prefix ≡ b.prefix → Sees p T rib id s → NotAbove p b s)
  Answers none =
      ((n : p.IpNetwork) (e : BgpRibEntry p)
        → T.exact_match rib.treebitmap n ≡ some e
        → p.contains n address ≡ false)
      ⊎ ((n : p.IpNetwork) × (e : BgpRibEntry p) × IsLongest p T rib.treebitmap address n e
          × ((s : Route p) → s.prefix ≡ n → ¬ Sees p T rib id s))

  -- The routes of an entry that the router sees.
  abbrev visible : BgpRibEntry p → List (Route p)
  visible e = get_with_mask p e (RouterMask.try_get p.uuid_discrete rib.router_mask_map id)

  lookup-none :
      T.longest_match rib.treebitmap address ≡ none
      → get_bestroute_for_router p T rib address id ≡ none
  unfolding get_bestroute_for_router get_routes_for_router calculate
  lookup-none h = rw (h, get_bestroute_for_router, get_routes_for_router, calculate)

  lookup-some :
      (n : p.IpNetwork) (e : BgpRibEntry p)
      → T.longest_match rib.treebitmap address ≡ some (n, e)
      → get_bestroute_for_router p T rib address id ≡ calculate p (visible e)
  unfolding get_bestroute_for_router get_routes_for_router
  lookup-some n e h = rw (h, get_bestroute_for_router, get_routes_for_router)

  Sees-visible :
      (n : p.IpNetwork) (e : BgpRibEntry p) (s : Route p)
      → T.exact_match rib.treebitmap n ≡ some e
      → s.prefix ≡ n
      → Sees p T rib id s
      → Listed s (visible e)
  Sees-visible n e s found same (x, at, l) =
      let eq : x ≡ e =
        some-injective _ _ (sym at ∙ ap (T.exact_match rib.treebitmap) same ∙ found) in
      subst (λ y. Listed s (visible y)) eq l

  module _ (v : IsValid p T rib) (n : p.IpNetwork) (e : BgpRibEntry p)
      (long : IsLongest p T rib.treebitmap address n e) where
    visible-prefix : (s : Route p) → Listed s (visible e) → s.prefix ≡ n
    unfolding get_with_mask
    visible-prefix s l =
        routes_with_mask-prefix p n (RouterMask.try_get p.uuid_discrete rib.router_mask_map id) s
          e.routes (v.entries n e long.0).prefixes l

    Answers-calculate : Answers (calculate p (visible e))
    Answers-calculate = elim (Option-cases (calculate p (visible e))) [
      | inl nothing ↦
          let bare = (calculate-none_iff p (visible e)).0 nothing in
          subst Answers (sym nothing) (
            inr (
              n,
              e,
              long,
              λ s same sees. subst (Listed s) bare (Sees-visible n e s long.0 same sees),
            ))
      | inr (b, best) ↦
          let listed = IsLastBest-Listed p T rib b _ ((calculate_iff p b (visible e)).0 best) in
          let same = visible-prefix b listed in
          subst Answers (sym best) (
            (e, ap (T.exact_match rib.treebitmap) same ∙ long.0, listed),
            ap (λ m. p.contains m address) same ∙ long.1,
            λ m f found covers.
                subst (λ k. p.netmask m ≤ p.netmask k) (sym same) (long.2 m f found covers),
            λ s alike sees.
                All-Listed (NotAbove p b) (visible e) s (calculate_max p b (visible e) best)
                  (Sees-visible n e s long.0 (alike ∙ same) sees),
          )
    ]

  -- The best route for an address, looked up in a valid RIB by a router. If a route is returned, the
  -- router has it, its prefix contains the address, no prefix in the table that contains the
  -- address is longer, and none of the router's routes of this prefix is preferred to it. If there
  -- is none, then no prefix in the table contains the address, or the router has no route of a
  -- longest one that does, whatever it has of shorter ones.
  pub get_bestroute_for_router_lem :
      IsLawful p (BgpRibEntry p) T
      → IsValid p T rib
      → Answers (get_bestroute_for_router p T rib address id)
  get_bestroute_for_router_lem lawful v =
      elim (Option-cases (T.longest_match rib.treebitmap address)) [
        | inl absent ↦
            subst Answers (sym (lookup-none absent))
              (inl (λ n e. lawful.longest_match_none rib.treebitmap address n e absent))
        | inr ((n, e), found) ↦
            subst Answers (sym (lookup-some n e found))
              (Answers-calculate v n e (lawful.longest_match_some rib.treebitmap address n e found))
      ]
