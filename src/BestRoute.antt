-- ===== src/BestRoute.antt =====
-- components/bgp/bgp_bestroute.rs: the choice of the best of a list of routes.
pub mod Laws
use netfabric_bgp_router.Prelude.{Option, none, some, List, [], ◌∷◌, Ordering}
use netfabric_bgp_router.Platform.{Platform}
use netfabric_bgp_router.Route.{Route, cmp}

module _ (p : Platform) where
  -- `BestRoute(Route)`, and its conversions from and to `Route`.
  abbrev pub BestRoute : Type 0
  BestRoute = Route p

  -- The fold of `Iterator::max`, which keeps the later of two equal elements.
  unfoldable pub max_from : Route p → List (Route p) → Route p
  max_from best [] = best
  max_from best (r ∷ rs) = max_from (elim (cmp p best r) [ Ordering.gt ↦ best | _ ↦ r ]) rs

  -- `BestRoute::calculate`
  unfoldable pub calculate : List (Route p) → Option BestRoute
  calculate [] = none
  calculate (r ∷ rs) = some (max_from r rs)
