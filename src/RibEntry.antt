-- ===== src/RibEntry.antt =====
-- components/bgp/bgp_rib_entry.rs: the routes that the RIB keeps for one prefix, each with the
-- mask of the routers that know it.
pub mod Laws
pub mod Valid
use netfabric_bgp_router.Prelude.{
  ℕ, Bool, true, false, not, ◌&&◌, List, [], ◌∷◌, map, length, retain, ite, ◌==◌, if◌then◌else◌,
}
use netfabric_bgp_router.Platform.{Platform, IpAddr-discrete}
use netfabric_bgp_router.RouterMask
use netfabric_bgp_router.RouterMask.{RouterMask, combine}
use netfabric_bgp_router.Route.{Route, Route-discrete}

module _ (p : Platform) where
  abbrev pub Item : Type 0
  Item = RouterMask × Route p

  -- `BgpRibEntry`
  pub record BgpRibEntry : Type 0 where
    pub routes : List Item

  -- `BgpRibEntry::new`
  abbrev pub new : BgpRibEntry
  new = record { routes = [] }

  -- The search of `insert` for an equal route, whose mask is joined, and the push if there is none.
  unfoldable pub insert_item : RouterMask → Route p → List Item → List Item
  insert_item router route [] = (router, route) ∷ []
  insert_item router route ((mask, other) ∷ rest) =
      ite (Route-discrete p other route) ((combine mask router, other) ∷ rest)
        ((mask, other) ∷ insert_item router route rest)

  -- `BgpRibEntry::insert`
  unfoldable pub insert : BgpRibEntry → RouterMask → Route p → BgpRibEntry
  unfolding insert_item
  insert e router route = record { routes = insert_item router route e.routes }

  -- `route.peer == other.peer && route.prefix == other.prefix`
  unfoldable pub same_origin : Route p → Route p → Bool
  same_origin route other =
      ite (IpAddr-discrete route.peer other.peer)
        (ite (p.network_discrete route.prefix other.prefix) true false) false

  -- The test of `retain` in `withdraw`.
  unfoldable pub keeps : RouterMask → Route p → Item → Bool
  unfolding same_origin
  keeps mask route e = not (mask == e.0 && same_origin route e.1)

  -- The body of `for_each` in `withdraw`.
  unfoldable pub clear_router : RouterMask → Route p → Item → Item
  unfolding same_origin RouterMask.remove
  clear_router mask route e = if same_origin route e.1 then (RouterMask.remove e.0 mask, e.1) else e

  -- `BgpRibEntry::withdraw`
  unfoldable pub withdraw : BgpRibEntry → RouterMask → Route p → BgpRibEntry
  withdraw e mask route = record {
    routes = map (clear_router mask route) (retain (keeps mask route) e.routes);
  }

  unfoldable pub routes_with_mask : RouterMask → List Item → List (Route p)
  routes_with_mask router [] = []
  routes_with_mask router ((mask, route) ∷ rest) =
      let found = routes_with_mask router rest in
      if RouterMask.contains mask router then route ∷ found else found

  -- `BgpRibEntry::get_with_mask`
  unfoldable pub get_with_mask : BgpRibEntry → RouterMask → List (Route p)
  unfolding routes_with_mask
  get_with_mask e router = routes_with_mask router e.routes

  -- `BgpRibEntry::get_all`
  abbrev pub get_all : BgpRibEntry → List (Route p)
  get_all e = map (λ i. i.1) e.routes

  -- `BgpRibEntry::len`
  abbrev pub len : BgpRibEntry → ℕ
  len e = length e.routes
