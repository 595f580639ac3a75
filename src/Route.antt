-- ===== src/Route.antt =====
-- components/route.rs: a route and the order in which routes are preferred.
pub mod Order
use netfabric_bgp_router.Prelude.{
  ℕ, String, String-discrete, Bool, true, false, Option, none, some, List, [], ◌∷◌, length, compare,
  Ordering, ite, ℕ_discrete, if◌then◌else◌, ◌==◌,
}
use netfabric_bgp_router.Platform.{Platform, IpAddr, v4, IpAddr-discrete, ip_cmp}

-- `PathElement`
pub data PathElement : Type 0 where
  asn : ℕ → PathElement
  as_set : List ℕ → PathElement

-- `Path`
abbrev pub AsPath : Type 0
AsPath = List PathElement

-- `Ordering::reverse`
abbrev pub reverse : Ordering → Ordering
reverse Ordering.lt = Ordering.gt
reverse Ordering.eq = Ordering.eq
reverse Ordering.gt = Ordering.lt

pub PathElement-discrete : Discrete PathElement
PathElement-discrete = hlevel ℕ_discrete

module _ (p : Platform) where
  -- `Route`
  pub record Route : Type 0 where
    pub peer : IpAddr
    pub prefix : p.IpNetwork
    pub next_hop : String
    pub as_path : AsPath

  -- The derived `PartialEq`: all four fields.
  pub Route-discrete : Discrete Route
  Route-discrete = hlevel (p.network_discrete, IpAddr-discrete, String-discrete, ℕ_discrete)

  -- `Route::default` and `Route::new`
  abbrev pub default : Route
  default = record { peer = v4 0; prefix = p.default_network; next_hop = ""; as_path = [] }

  -- `Route::is_default`
  unfoldable pub is_default : Route → Bool
  is_default r = ite (Route-discrete r default) true false

  -- `PartialOrd for Route`: the shorter path first, then the higher peer address.
  unfoldable pub partial_cmp : Route → Route → Option Ordering
  partial_cmp r other =
      if length r.as_path == length other.as_path
      then ite (IpAddr-discrete r.peer other.peer) none (some (ip_cmp r.peer other.peer))
      else some (reverse (compare (length r.as_path) (length other.as_path)))

  -- `Ord for Route`: routes that `partial_cmp` does not order are equal.
  unfoldable pub cmp : Route → Route → Ordering
  unfolding partial_cmp
  cmp r other = elim (partial_cmp r other) [ some ordering ↦ ordering | none ↦ Ordering.eq ]
