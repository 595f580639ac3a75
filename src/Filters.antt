-- ===== src/Filters.antt =====
-- components/filters.rs and utils/debug_filter.rs: a filter tests an element, and may change it.
pub mod Laws
use netfabric_bgp_router.Prelude.{
  ℕ, String, String-discrete, Bool, true, false, not, ◌||◌, Option, none, some, List, [], ◌∷◌, ◌++◌,
  leb, ◌==◌, ite, if◌then◌else◌,
}
use netfabric_bgp_router.Platform.{Platform}
use netfabric_bgp_router.Route.{PathElement, asn, as_set, AsPath, Route}
use netfabric_bgp_router.Advertisement.{Advertisement}

-- `Filter::filter(&self, &mut T) -> bool`: the answer, and the element after the call.
abbrev pub Filter : Type 0 → Type 0
Filter A = A → Bool × A

module _ {A : Type 0} where
  -- `NoFilter`
  unfoldable pub no_filter : Filter A
  no_filter a = (true, a)

  -- `VecFilterAny`: elements are filtered in turn up to the first that passes.
  unfoldable pub vec_filter_any : Filter A → Filter (List A)
  vec_filter_any f [] = (false, [])
  vec_filter_any f (a ∷ as') =
      let rest = vec_filter_any f as' in
      let (passed, a') = f a in if passed then (true, a' ∷ as') else (rest.0, a' ∷ rest.1)

  -- `VecFilterAll`: up to the first that does not pass.
  unfoldable pub vec_filter_all : Filter A → Filter (List A)
  vec_filter_all f [] = (true, [])
  vec_filter_all f (a ∷ as') =
      let rest = vec_filter_all f as' in
      let (passed, a') = f a in if passed then (rest.0, a' ∷ rest.1) else (false, a' ∷ as')

  -- `CombinedOrFilter`, by the filters that were added, in turn up to the first that passes.
  unfoldable pub combined_or_filter : List (Filter A) → Filter A
  combined_or_filter [] a = (false, a)
  combined_or_filter (f ∷ fs) a =
      let rest = combined_or_filter fs (f a).1 in if (f a).0 then (true, (f a).1) else rest

  -- `CombinedAndFilter`
  unfoldable pub combined_and_filter : List (Filter A) → Filter A
  combined_and_filter [] a = (true, a)
  combined_and_filter (f ∷ fs) a =
      let rest = combined_and_filter fs (f a).1 in if (f a).0 then rest else (false, (f a).1)

  -- `add_filter` of both
  abbrev pub add_filter : List (Filter A) → Filter A → List (Filter A)
  add_filter fs f = fs ++ (f ∷ [])

-- The numbers of a path element, and whether one stands in a list.
unfoldable pub contains_asn : ℕ → List ℕ → Bool
contains_asn n [] = false
contains_asn n (m ∷ ms) = m == n || contains_asn n ms

unfoldable pub element_has : ℕ → PathElement → Bool
element_has n (asn m) = m == n
element_has n (as_set ms) = contains_asn n ms

unfoldable pub path_has : ℕ → AsPath → Bool
path_has n [] = false
path_has n (e ∷ es) = element_has n e || path_has n es

module _ (p : Platform) where
  -- `HostFilter`
  unfoldable pub host_filter : String → Filter (Advertisement p)
  host_filter host ad = (ite (String-discrete ad.host host) true false, ad)

  -- `OwnASFilter`
  unfoldable pub own_as_filter : ℕ → Filter (Advertisement p)
  unfolding path_has
  own_as_filter n ad = elim ad.path [ none ↦ (true, ad) | some path ↦ (not (path_has n path), ad) ]

  -- `IpNetworkBlacklistFilter`
  unfoldable pub ip_network_blacklist_filter : p.IpNetwork → Filter (Route p)
  ip_network_blacklist_filter network route =
      if leb (p.netmask network) (p.netmask route.prefix)
      then (p.contains network (p.network_address route.prefix), route)
      else (p.contains route.prefix (p.network_address network), route)

  -- `DebugFilter`, which also prints.
  unfoldable pub debug_filter : Filter (Advertisement p)
  debug_filter ad = (true, ad)
