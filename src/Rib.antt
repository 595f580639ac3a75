-- ===== src/Rib.antt =====
-- components/bgp/bgp_rib.rs: the routing information base that routers share, and the interface
-- through which one router (or process) uses it.
pub mod Valid
pub mod View
pub mod Insert
pub mod Stored
pub mod Remove
pub mod Reports
pub mod Lookup
pub mod Reachable
pub mod History
pub mod Refinement
pub mod Capacity
pub mod Files
use netfabric_bgp_router.Prelude.{
  ℕ, ℕ_discrete, suc, ◌+◌, Bool, true, false, Option, none, some, List, [], ◌∷◌, ◌++◌, map, length,
  ite, if◌then◌else◌, ltb, Outcome, ok, panic, ◌>>=◌, String,
}
use netfabric_bgp_router.Platform.{Platform, IpAddr}
use netfabric_bgp_router.PrefixTable.{PrefixTable}
use netfabric_bgp_router.RouterMask
use netfabric_bgp_router.RouterMask.{RouterMask, RouterMaskMap}
use netfabric_bgp_router.Route.{Route, Route-discrete}
use netfabric_bgp_router.BestRoute.{BestRoute, calculate}
use netfabric_bgp_router.RibEntry
use netfabric_bgp_router.RibEntry.{BgpRibEntry}
use netfabric_bgp_router.Advertisement.{Advertisement, get_announcements, get_withdrawals}

module _ (p : Platform) where
  -- The report of `insert_route` for an entry that exists: the route, if it is the best of all. The
  -- list is not empty, so `unwrap` does not panic.
  unfoldable pub new_best : BgpRibEntry p → Route p → Option (BestRoute p)
  new_best entry route = elim (calculate p (RibEntry.get_all p entry ++ (route ∷ []))) [
    | none ↦ none
    | some best ↦ ite (Route-discrete p best route) (some route) none
  ]

  -- The report of `remove_route`: the best route so far, if it equals the one to withdraw.
  unfoldable pub lost_best : BgpRibEntry p → Route p → Option (BestRoute p)
  lost_best entry route = elim (calculate p (RibEntry.get_all p entry)) [
    | none ↦ none
    | some best ↦ ite (Route-discrete p best route) (some best) none
  ]

  pub entries-discrete : Discrete (List (p.IpNetwork × BgpRibEntry p))
  entries-discrete = hlevel (p.network_discrete, Route-discrete p, ℕ_discrete)

module _ (p : Platform) (T : PrefixTable p (BgpRibEntry p)) where
  -- `BgpRib`
  pub record BgpRib : Type 0 where
    pub router_mask_map : RouterMaskMap p.Uuid
    pub treebitmap : T.Table

  -- `BgpRib::new`
  abbrev pub new : BgpRib
  new = record { router_mask_map = RouterMask.new; treebitmap = T.empty }

  -- `BgpRib::get_prefix_count`
  abbrev pub get_prefix_count : BgpRib → ℕ × ℕ
  get_prefix_count rib = T.len rib.treebitmap

  -- `BgpRib::get_router_ids`
  abbrev pub get_router_ids : BgpRib → List p.Uuid
  get_router_ids rib = RouterMask.get_all_ids rib.router_mask_map

  sum_lengths : List (p.IpNetwork × BgpRibEntry p) → ℕ
  sum_lengths [] = 0
  sum_lengths ((_, entry) ∷ rest) = RibEntry.len p entry + sum_lengths rest

  -- `BgpRib::get_total_route_count`
  unfoldable pub get_total_route_count : BgpRib → ℕ
  unfolding sum_lengths
  get_total_route_count rib = sum_lengths (T.iter rib.treebitmap)

  -- The loop of `get_routes_count_with_mask`, over its three counters.
  unfoldable pub count_with_mask :
      RouterMask → List (p.IpNetwork × BgpRibEntry p) → ℕ → ℕ → ℕ → ℕ × ℕ × ℕ
  count_with_mask mask [] routes ipv4 ipv6 = (routes, ipv4, ipv6)
  count_with_mask mask ((prefix, entry) ∷ rest) routes ipv4 ipv6 =
      let entry_len = length (RibEntry.get_with_mask p entry mask) in
      count_with_mask mask rest (routes + entry_len)
        (if ltb 0 entry_len then if p.is_ipv4 prefix then ipv4 + 1 else ipv4 else ipv4)
        (if ltb 0 entry_len then if p.is_ipv6 prefix then ipv6 + 1 else ipv6 else ipv6)

  -- `BgpRib::get_routes_count_with_mask`
  unfoldable pub get_routes_count_with_mask : BgpRib → p.Uuid → ℕ × ℕ × ℕ
  get_routes_count_with_mask rib id =
      count_with_mask (RouterMask.try_get p.uuid_discrete rib.router_mask_map id)
        (T.iter rib.treebitmap) 0 0 0

  -- The loop of `BgpRib::import_from_file` over what the file holds; other texts are passed over.
  unfoldable pub import_routes :
      BgpRib → List (String × BgpRibEntry p) → (String → Option p.IpNetwork) → BgpRib
  import_routes rib [] from_str = rib
  import_routes rib ((text, entry) ∷ rest) from_str =
      import_routes
        (elim (from_str text) [
          | none ↦ rib
          | some network ↦ record rib { treebitmap = T.insert rib.treebitmap network entry }
        ])
        rest from_str

  -- What `BgpRib::export_to_file` writes.
  unfoldable pub export_routes : BgpRib → List (String × BgpRibEntry p)
  export_routes rib =
      map (λ (network, entry). (p.network_to_string network, entry)) (T.iter rib.treebitmap)

  -- `BgpRib::import_from_file`: a new RIB, whose masks know no router.
  unfoldable pub import_from_file :
      List (String × BgpRibEntry p) → (String → Option p.IpNetwork) → BgpRib
  unfolding import_routes
  import_from_file routes from_str = import_routes new routes from_str

  -- `BgpRib::register_router`
  unfoldable pub register_router : BgpRib → p.Uuid → Outcome BgpRib
  register_router rib id = do
    (_, masks) ← RouterMask.get p.uuid_discrete rib.router_mask_map id
    ok (record rib { router_mask_map = masks })

  -- `BgpRib::get_routes_for_router`
  unfoldable pub get_routes_for_router : BgpRib → IpAddr → p.Uuid → List (Route p)
  get_routes_for_router rib address router = elim (T.longest_match rib.treebitmap address) [
    | none ↦ []
    | some (_, entry) ↦
        RibEntry.get_with_mask p entry
          (RouterMask.try_get p.uuid_discrete rib.router_mask_map router)
  ]

  -- `BgpRib::get_bestroute_for_router`
  unfoldable pub get_bestroute_for_router : BgpRib → IpAddr → p.Uuid → Option (BestRoute p)
  get_bestroute_for_router rib address router =
      calculate p (get_routes_for_router rib address router)

  -- `BgpRib::insert_route`
  unfoldable pub insert_route : BgpRib → Route p → p.Uuid → Outcome (Option (BestRoute p) × BgpRib)
  insert_route rib route id = do
    (mask, masks) ← RouterMask.get p.uuid_discrete rib.router_mask_map id
    ok (elim (T.exact_match rib.treebitmap route.prefix) [
      | some entry ↦ (
        new_best p entry route,
        record {
          router_mask_map = masks;
          treebitmap = T.insert rib.treebitmap route.prefix (RibEntry.insert p entry mask route);
        },
      )
      | none ↦ (
        some route,
        record {
          router_mask_map = masks;
          treebitmap =
              T.insert rib.treebitmap route.prefix (RibEntry.insert p (RibEntry.new p) mask route);
        },
      )
    ])

  -- The table after an entry changed: an entry with no route left is removed.
  unfoldable pub store_entry : T.Table → p.IpNetwork → BgpRibEntry p → T.Table
  store_entry table prefix entry = elim entry.routes [
    | [] ↦ T.remove table prefix
    | _ ∷ _ ↦ T.insert table prefix entry
  ]

  -- `BgpRib::remove_route`
  unfoldable pub remove_route : BgpRib → Route p → p.Uuid → Outcome (Option (BestRoute p) × BgpRib)
  remove_route rib route id = do
    (mask, masks) ← RouterMask.get p.uuid_discrete rib.router_mask_map id
    ok (elim (T.exact_match rib.treebitmap route.prefix) [
      | some entry ↦ (
        lost_best p entry route,
        record {
          router_mask_map = masks;
          treebitmap =
              store_entry rib.treebitmap route.prefix (RibEntry.withdraw p entry mask route);
        },
      )
      | none ↦ (none, record rib { router_mask_map = masks })
    ])

  -- `BgpRib::clear`
  abbrev pub clear : BgpRib → BgpRib
  clear rib = new

  -- The loop of `Clone for BgpRib`.
  unfoldable pub clone_table : T.Table → List (p.IpNetwork × BgpRibEntry p) → T.Table
  clone_table table [] = table
  clone_table table ((network, entry) ∷ rest) = clone_table (T.insert table network entry) rest

  unfoldable pub clone : BgpRib → BgpRib
  clone rib = record {
    router_mask_map = rib.router_mask_map;
    treebitmap = clone_table T.empty (T.iter rib.treebitmap);
  }

  -- `PartialEq for BgpRib`: the entries in the order of iteration; the masks are not compared.
  unfoldable pub eq : BgpRib → BgpRib → Bool
  eq rib other =
      ite (entries-discrete p (T.iter rib.treebitmap) (T.iter other.treebitmap)) true false
