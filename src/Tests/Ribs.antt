-- ===== src/Tests/Ribs.antt =====
-- RIBs on the sample platform, and runs of the RIB's operations.
use netfabric_bgp_router.Prelude.{
  ◌≡◌, ◌≢◌, sym, ◌∙◌, subst, inl, inr, Listed, ap, refl, false, none, some, [], ◌∷◌, arith, ok,
  filter_map, String-discrete,
}
use text.Mathlib.Text.{◌==◌}
use text.Mathlib.TextEquality.{eq_iff}
use netfabric_bgp_router.Platform.{v4, ip_cmp}
use netfabric_bgp_router.PrefixTable.{PrefixTable}
use netfabric_bgp_router.RouterMask
use netfabric_bgp_router.RouterMask.{RouterMaskMap, free_bit, combine}
use netfabric_bgp_router.Route.{Route, asn, cmp, partial_cmp}
use netfabric_bgp_router.BestRoute.{calculate, max_from}
use netfabric_bgp_router.RibEntry
use netfabric_bgp_router.RibEntry.{
  BgpRibEntry, insert_item, withdraw, keeps, clear_router, same_origin,
}
use netfabric_bgp_router.Advertisement.{Advertisement, update, route_for, get_withdrawals}
use netfabric_bgp_router.Rib.{
  BgpRib, new, insert_route, remove_route, new_best, lost_best, store_entry,
}
use netfabric_bgp_router.Rib.Reachable.{Reachable, start, next, inserted}
use netfabric_bgp_router.Tests.Sample.{host, sample, sample_table}

abbrev pub table : PrefixTable sample (BgpRibEntry sample)
table = sample_table (BgpRibEntry sample)

abbrev pub near : Route sample
near = record { peer = v4 1; prefix = host 7; next_hop = "0.0.0.9"; as_path = asn 2 ∷ [] }

abbrev pub far : Route sample
far = record { peer = v4 1; prefix = host 7; next_hop = "0.0.0.8"; as_path = asn 2 ∷ asn 3 ∷ [] }

abbrev pub empty_rib : BgpRib sample table
empty_rib = new sample table

abbrev pub near_entry : BgpRibEntry sample
near_entry = record { routes = (1, near) ∷ [] }

abbrev pub near_rib : BgpRib sample table
near_rib = record {
  router_mask_map = record { default_mask = 0; mask = 1; map = (5, 1) ∷ [] };
  treebitmap = (host 7, near_entry) ∷ [];
}

pub near_inserted : insert_route sample table empty_rib near 5 ≡ ok (some near, near_rib)
unfolding insert_route RouterMask.get free_bit RibEntry.insert insert_item
near_inserted = refl

pub near-Reachable : Reachable sample table near_rib
near-Reachable = next start (inserted near 5 (some near) near_inserted)

-- Router 5 withdraws the route that router 5 announced.
abbrev pub withdrawal : Advertisement sample
withdrawal = record {
  timestamp = 0;
  peer = "0.0.0.1";
  peer_asn = "2";
  id = "id";
  host = "0.0.0.1";
  msg_type = update;
  path = some (asn 2 ∷ []);
  community = none;
  origin = none;
  announcements = none;
  raw = none;
  withdrawals = some ("0.0.0.7/32" ∷ []);
}

-- Router 5 announces the near route, and a prefix that does not parse.
abbrev pub announcing : Advertisement sample
announcing = record withdrawal {
  announcements = some (record { next_hop = "0.0.0.9"; prefixes = "0.0.0.7/32" ∷ "x" ∷ [] } ∷ []);
}

abbrev pub withdrawn_route : Route sample
withdrawn_route = record near { next_hop = "" }

abbrev pub bare_rib : BgpRib sample table
bare_rib = record near_rib { treebitmap = [] }

pub hops_differ : near.next_hop ≢ ""
hops_differ e = absurd (ground (arith, eq_iff near.next_hop "", e, unequal))
  where
    unequal : (near.next_hop == "") ≡ false
    unequal = refl

routes_differ : near ≢ withdrawn_route
routes_differ e = hops_differ (ap (λ r. r.next_hop) e)

pub near_removed : remove_route sample table near_rib withdrawn_route 5 ≡ ok (none, bare_rib)
unfolding remove_route RouterMask.get free_bit lost_best calculate max_from store_entry withdraw
    keeps clear_router same_origin
near_removed = ground (arith, routes_differ)

pub withdrawn-Listed : Listed withdrawn_route (get_withdrawals sample withdrawal)
unfolding get_withdrawals route_for filter_map String-discrete
withdrawn-Listed = inl refl

pub near_hops :
    (e : BgpRibEntry sample) (s : Route sample)
    → table.exact_match near_rib.treebitmap withdrawn_route.prefix ≡ some e
    → Listed s (RibEntry.get_all sample e)
    → s.next_hop ≢ ""
near_hops e s found l = elim (subst (λ x. Listed s (RibEntry.get_all sample x)) (sym entry) l) [
  | inl here ↦ λ h. hops_differ (ap (λ r. r.next_hop) here ∙ h)
  | inr there ↦ absurd there
]
  where
    entry : near_entry ≡ e
    entry = ground arith

abbrev pub far_rib : BgpRib sample table
far_rib = record near_rib {
  treebitmap = (host 7, record { routes = (1, near) ∷ (1, far) ∷ [] }) ∷ [];
}

pub far_inserted : insert_route sample table near_rib far 5 ≡ ok (none, far_rib)
unfolding insert_route RouterMask.get free_bit new_best calculate max_from cmp partial_cmp ip_cmp
    RibEntry.insert insert_item combine
far_inserted = ground arith
