-- ===== src/Rib/Reports.antt =====
-- The best routes that the RIB reports (components/bgp/bgp_rib.rs).
use netfabric_bgp_router.Prelude.{
  ◌≡◌, ◌≢◌, ◌↔◌, ◌⊎◌, inl, inr, refl, sym, ◌∙◌, subst, Option, none, some, List, ◌∷◌, All, Listed,
  arith, Option-cases, ok,
}
use mathlib.Core.Option.{none-ne-some, some-injective}
use netfabric_bgp_router.Prelude.Membership.{Listed-append_right}
use netfabric_bgp_router.Platform.{Platform}
use netfabric_bgp_router.PrefixTable.{PrefixTable}
use netfabric_bgp_router.Route.{Route}
use netfabric_bgp_router.BestRoute.{BestRoute}
use netfabric_bgp_router.BestRoute.Laws.{NotAbove, IsLastBest, calculate_iff, calculate_last_iff}
use netfabric_bgp_router.RibEntry
use netfabric_bgp_router.RibEntry.{BgpRibEntry}
use netfabric_bgp_router.Advertisement.{Advertisement, get_withdrawals}
use netfabric_bgp_router.Advertisement.Routes.{get_withdrawals_iff}
use netfabric_bgp_router.Rib.{BgpRib, insert_route, remove_route, new_best, lost_best}

module _ (p : Platform) where
  new_best_iff :
      (e : BgpRibEntry p) (r : Route p)
      → (new_best p e r ≡ some r) ↔ All (NotAbove p r) (RibEntry.get_all p e)
  unfolding new_best
  new_best_iff e r =
      let last = calculate_last_iff p r (RibEntry.get_all p e) in
      (λ h. last.0 (ground arith), λ h. ground (arith, last.1 h))

  new_best_cases :
      (e : BgpRibEntry p) (r : Route p) → (new_best p e r ≡ some r) ⊎ (new_best p e r ≡ none)
  unfolding new_best
  new_best_cases e r = ground arith

  lost_best-eq :
      (e : BgpRibEntry p) (r b : Route p)
      → lost_best p e r ≡ some b
      → (b ≡ r) × IsLastBest p r (RibEntry.get_all p e)
  unfolding lost_best
  lost_best-eq e r b h = (ground arith, (calculate_iff p r (RibEntry.get_all p e)).0 (ground arith))

module _ (p : Platform) (T : PrefixTable p (BgpRibEntry p)) (rib : BgpRib p T) where
  insert_absent :
      (r : Route p) (id : p.Uuid) (b : Option (BestRoute p)) (rib' : BgpRib p T)
      → insert_route p T rib r id ≡ ok (b, rib')
      → T.exact_match rib.treebitmap r.prefix ≡ none
      → b ≡ some r
  unfolding insert_route
  insert_absent r id b rib' h absent = ground arith

  insert_present :
      (r : Route p) (id : p.Uuid) (b : Option (BestRoute p)) (rib' : BgpRib p T) (e : BgpRibEntry p)
      → insert_route p T rib r id ≡ ok (b, rib')
      → T.exact_match rib.treebitmap r.prefix ≡ some e
      → b ≡ new_best p e r
  unfolding insert_route
  insert_present r id b rib' e h found = ground arith

  -- Where `insert_route` returns, it reports the given route or nothing, and the given route exactly
  -- if no route of its prefix in the RIB, of whichever router, is preferred to it.
  pub insert_route_report :
      (r : Route p) (id : p.Uuid) (b : Option (BestRoute p)) (rib' : BgpRib p T)
      → insert_route p T rib r id ≡ ok (b, rib')
      → ((b ≡ some r) ⊎ (b ≡ none))
        × ((b ≡ some r) ↔ (
            (e : BgpRibEntry p)
            → T.exact_match rib.treebitmap r.prefix ≡ some e
            → All (NotAbove p r) (RibEntry.get_all p e)))
  insert_route_report r id b rib' h = elim (Option-cases (T.exact_match rib.treebitmap r.prefix)) [
    | inl absent ↦
        let best = insert_absent r id b rib' h absent in
        (inl best, (λ _ e found. absurd (none-ne-some e (sym absent ∙ found)), λ _. best))
    | inr (e, found) ↦
        let eq = insert_present r id b rib' e h found in
        let both = new_best_iff p e r in
        (
          elim (new_best_cases p e r) [ inl x ↦ inl (eq ∙ x) | inr x ↦ inr (eq ∙ x) ],
          (
            λ best e' found'.
                subst (λ x. All (NotAbove p r) (RibEntry.get_all p x))
                  (some-injective _ _ (sym found ∙ found')) (both.0 (sym eq ∙ best)),
            λ all. eq ∙ both.1 (all e found),
          ),
        )
  ]

  remove_present :
      (r : Route p) (id : p.Uuid) (b : Option (BestRoute p)) (rib' : BgpRib p T) (e : BgpRibEntry p)
      → remove_route p T rib r id ≡ ok (b, rib')
      → T.exact_match rib.treebitmap r.prefix ≡ some e
      → b ≡ lost_best p e r
  unfolding remove_route
  remove_present r id b rib' e h found = ground arith

  remove_absent :
      (r : Route p) (id : p.Uuid) (b : Option (BestRoute p)) (rib' : BgpRib p T)
      → remove_route p T rib r id ≡ ok (b, rib')
      → T.exact_match rib.treebitmap r.prefix ≡ none
      → b ≡ none
  unfolding remove_route
  remove_absent r id b rib' h absent = ground arith

  -- Where `remove_route` reports a route, it is the given one, all four fields alike, and it was the
  -- last best of all routes of its prefix.
  pub remove_route_report :
      (r : Route p) (id : p.Uuid) (b : BestRoute p) (rib' : BgpRib p T)
      → remove_route p T rib r id ≡ ok (some b, rib')
      → (e : BgpRibEntry p) × (T.exact_match rib.treebitmap r.prefix ≡ some e)
        × (b ≡ r)
        × IsLastBest p r (RibEntry.get_all p e)
  remove_route_report r id b rib' h = elim (Option-cases (T.exact_match rib.treebitmap r.prefix)) [
    | inl absent ↦ absurd (none-ne-some b (sym (remove_absent r id (some b) rib' h absent)))
    | inr (e, found) ↦
        let (eq, best) = lost_best-eq p e r b (sym (remove_present r id (some b) rib' e h found)) in
        (e, found, eq, best)
  ]

  pub IsLastBest-Listed : (b : Route p) (rs : List (Route p)) → IsLastBest p b rs → Listed b rs
  IsLastBest-Listed b rs (before, after, e, lo, hi) =
      subst (Listed b) (sym e) (Listed-append_right b before (b ∷ after) (inl refl))

  -- A withdrawal as advertisements carry it is reported by no RIB in which each route of the prefix
  -- has a next hop: the route to withdraw has none, and the comparison takes the next hop in.
  pub withdrawal_unreported :
      (ad : Advertisement p) (r : Route p) (id : p.Uuid) (b : Option (BestRoute p))
      (rib' : BgpRib p T)
      → Listed r (get_withdrawals p ad)
      → ((e : BgpRibEntry p) (s : Route p)
          → T.exact_match rib.treebitmap r.prefix ≡ some e
          → Listed s (RibEntry.get_all p e)
          → s.next_hop ≢ "")
      → remove_route p T rib r id ≡ ok (b, rib')
      → b ≡ none
  withdrawal_unreported ad r id none rib' listed hops h = refl
  withdrawal_unreported ad r id (some b) rib' listed hops h =
      let (e, found, eq, best) = remove_route_report r id b rib' h in
      let (text, at, is) = (get_withdrawals_iff p ad r).0 listed in
      absurd (hops e r found (IsLastBest-Listed r _ best) is.2)
