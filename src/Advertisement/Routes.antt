-- ===== src/Advertisement/Routes.antt =====
-- The routes that an advertisement carries (components/advertisement.rs).
use netfabric_bgp_router.Prelude.{
  ◌≡◌, ◌↔◌, String, Option, none, some, List, [], Listed, arith, filter_map, flat_map,
}
use netfabric_bgp_router.Prelude.Membership.{Listed-filter_map_iff, Listed-flat_map_iff}
use netfabric_bgp_router.Platform.{Platform}
use netfabric_bgp_router.Route.{Route}
use netfabric_bgp_router.Advertisement.{
  Advertisement, Announcement, route_for, get_announcements, get_withdrawals, path_or_empty,
}

abbrev pub list_or_empty : {A : Type 0} → Option (List A) → List A
list_or_empty none = []
list_or_empty (some l) = l

module _ (p : Platform) (ad : Advertisement p) where
  -- The peer and the text parse, and the route is made of them, the next hop and the path.
  abbrev pub IsRouteFor : String → String → Route p → Type 0
  IsRouteFor next_hop text r =
      (p.parse_ip ad.peer ≡ some r.peer)
      × (p.from_str_truncate text ≡ some r.prefix)
      × (r.next_hop ≡ next_hop)
      × (r.as_path ≡ path_or_empty p ad)

  route_for_iff :
      (next_hop text : String) (r : Route p)
      → (route_for p ad next_hop text ≡ some r) ↔ IsRouteFor next_hop text r
  unfolding route_for
  route_for_iff next_hop text r = (λ h. ground arith, λ h. ground arith)

  withdrawals_of :
      (w : Option (List String)) (r : Route p)
      → Listed r (filter_map (route_for p ad "") (list_or_empty w))
        ↔ ((text : String) × Listed text (list_or_empty w) × IsRouteFor "" text r)
  withdrawals_of w r =
      let found = Listed-filter_map_iff (route_for p ad "") (list_or_empty w) r in
      (
        λ l. let (text, at, e) = found.0 l in (text, at, (route_for_iff "" text r).0 e),
        λ (text, at, is). found.1 (text, at, (route_for_iff "" text r).1 is),
      )

  get_withdrawals-eq :
      get_withdrawals p ad ≡ filter_map (route_for p ad "") (list_or_empty ad.withdrawals)
  unfolding get_withdrawals
  get_withdrawals-eq = ground arith

  -- The routes to withdraw are those of the listed prefixes that parse, from the advertisement's
  -- peer, with its path and no next hop.
  pub get_withdrawals_iff :
      (r : Route p)
      → Listed r (get_withdrawals p ad)
        ↔ ((text : String) × Listed text (list_or_empty ad.withdrawals) × IsRouteFor "" text r)
  get_withdrawals_iff r = rw get_withdrawals-eq (withdrawals_of ad.withdrawals r)

  routes_of_announcement : Announcement → List (Route p)
  routes_of_announcement a = filter_map (route_for p ad a.next_hop) a.prefixes

  get_announcements-eq :
      get_announcements p ad ≡ flat_map routes_of_announcement (list_or_empty ad.announcements)
  unfolding get_announcements routes_of_announcement
  get_announcements-eq = ground arith

  routes_of_announcement_iff :
      (a : Announcement) (r : Route p)
      → Listed r (routes_of_announcement a)
        ↔ ((text : String) × Listed text a.prefixes × IsRouteFor a.next_hop text r)
  unfolding routes_of_announcement
  routes_of_announcement_iff a r =
      let found = Listed-filter_map_iff (route_for p ad a.next_hop) a.prefixes r in
      (
        λ l. let (text, at, e) = found.0 l in (text, at, (route_for_iff a.next_hop text r).0 e),
        λ (text, at, is). found.1 (text, at, (route_for_iff a.next_hop text r).1 is),
      )

  -- The announced routes are those of the listed prefixes that parse, from the advertisement's
  -- peer, with its path and the next hop of the announcement.
  pub get_announcements_iff :
      (r : Route p)
      → Listed r (get_announcements p ad) ↔ (
          (a : Announcement) × (text : String) × Listed a (list_or_empty ad.announcements)
          × Listed text a.prefixes
          × IsRouteFor a.next_hop text r)
  get_announcements_iff r =
      let found = Listed-flat_map_iff routes_of_announcement (list_or_empty ad.announcements) r in
      rw get_announcements-eq (
        λ l.
            let (a, at, l') = found.0 l in
            let (text, at', is) = (routes_of_announcement_iff a r).0 l' in (a, text, at, at', is),
        λ (a, text, at, at', is).
            found.1 (a, at, (routes_of_announcement_iff a r).1 (text, at', is)),
      )
