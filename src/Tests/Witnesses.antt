-- ===== src/Tests/Witnesses.antt =====
-- The theorems on the RIB and its parts, applied on the sample platform.
use netfabric_bgp_router.Prelude.{
  ℕ, ◌^◌, ◌≡◌, ◌≢◌, ◌↔◌, ◌⊎◌, Option, none, some, [], ◌∷◌, arith, ok, panic, Listed, All,
}
use netfabric_bgp_router.Prelude.HashMap
use netfabric_bgp_router.Prelude.Bits.{bit}
use netfabric_bgp_router.Platform.{v4}
use netfabric_bgp_router.RouterMask
use netfabric_bgp_router.RouterMask.{RouterMaskMap, u64_max}
use netfabric_bgp_router.RouterMask.MapLaws.{IsValid as IsValidMap, Granted, get_total}
use netfabric_bgp_router.RouterMask.Removal.{remove_router_total}
use netfabric_bgp_router.Route.{Route}
use netfabric_bgp_router.BestRoute.{BestRoute, calculate}
use netfabric_bgp_router.BestRoute.Laws.{NotAbove, IsLastBest, calculate_iff}
use netfabric_bgp_router.RibEntry
use netfabric_bgp_router.RibEntry.{BgpRibEntry}
use netfabric_bgp_router.RibEntry.Laws.{SameOrigin}
use netfabric_bgp_router.RibEntry.Valid.{
  IsValid as IsValidEntry, get_with_mask-insert, get_with_mask-withdraw,
}
use netfabric_bgp_router.Rib.{BgpRib, insert_route, remove_route, get_bestroute_for_router, clone}
use netfabric_bgp_router.Rib.Valid.{IsValid, Sees, NoBitLeft}
use netfabric_bgp_router.Rib.Insert.{insert_route_total}
use netfabric_bgp_router.Rib.Remove.{remove_route_total}
use netfabric_bgp_router.Rib.Reports.{insert_route_report, withdrawal_unreported}
use netfabric_bgp_router.Rib.Files.{clone-Sees}
use netfabric_bgp_router.Rib.Lookup.{Answers, get_bestroute_for_router_lem}
use netfabric_bgp_router.Rib.Reachable.{Reachable-IsValid}
use netfabric_bgp_router.Tests.Sample.{host, sample, sample-IsLawful}
use netfabric_bgp_router.Tests.Ribs.{
  table, near, far, near_entry, near_rib, far_inserted, far_rib, near-Reachable, near_removed,
  bare_rib, withdrawal, withdrawn_route, withdrawn-Listed, near_hops,
}

Reachable-IsValid_example : IsValid sample table near_rib
Reachable-IsValid_example =
    Reachable-IsValid sample table (sample-IsLawful (BgpRibEntry sample)) near_rib near-Reachable

near-IsValid : IsValid sample table near_rib
near-IsValid =
    Reachable-IsValid sample table (sample-IsLawful (BgpRibEntry sample)) near_rib near-Reachable

near_masks : IsValidMap (sample.uuid_discrete) near_rib.router_mask_map
near_masks = near-IsValid.masks

near_entry_valid : IsValidEntry sample near_entry
near_entry_valid = (near-IsValid.entries (host 7) near_entry (ground arith)).valid

insert_route_total_example :
    (NoBitLeft sample table near_rib 5
      × (insert_route sample table near_rib far 5 ≡ panic "Router mask map is full"))
    ⊎ ((¬ NoBitLeft sample table near_rib 5)
        × (k : ℕ) × (b : Option (BestRoute sample)) × (rib' : BgpRib sample table) × (insert_route
              sample table near_rib far 5
            ≡ ok (b, rib'))
        × Granted (sample.uuid_discrete) near_rib.router_mask_map 5 k rib'.router_mask_map
        × IsValid sample table rib'
        × ((j : ℕ) (s : Route sample)
            → Sees sample table rib' j s
              ↔ (Sees sample table near_rib j s ⊎ ((5 ≡ j) × (far ≡ s)))))
insert_route_total_example =
    insert_route_total sample table (sample-IsLawful (BgpRibEntry sample)) near_rib far 5
      near-IsValid

remove_route_total_example :
    (NoBitLeft sample table near_rib 5
      × (remove_route sample table near_rib withdrawn_route 5 ≡ panic "Router mask map is full"))
    ⊎ ((¬ NoBitLeft sample table near_rib 5)
        × (k : ℕ) × (b : Option (BestRoute sample)) × (rib' : BgpRib sample table) × (remove_route
              sample table near_rib withdrawn_route 5
            ≡ ok (b, rib'))
        × Granted (sample.uuid_discrete) near_rib.router_mask_map 5 k rib'.router_mask_map
        × IsValid sample table rib'
        × ((j : ℕ) (s : Route sample)
            → Sees sample table rib' j s ↔ (
                Sees sample table near_rib j s
                × ¬ ((5 ≡ j) × SameOrigin sample withdrawn_route s))))
remove_route_total_example =
    remove_route_total sample table (sample-IsLawful (BgpRibEntry sample)) near_rib withdrawn_route
      5 near-IsValid

get_total_example :
    ((HashMap.get (sample.uuid_discrete) 6 near_rib.router_mask_map.map ≡ none)
      × (near_rib.router_mask_map.mask ≡ u64_max)
      × (RouterMask.get (sample.uuid_discrete) near_rib.router_mask_map 6
          ≡ panic "Router mask map is full"))
    ⊎ ((k : ℕ) × (m' : RouterMaskMap ℕ) × (RouterMask.get
            (sample.uuid_discrete)
            near_rib.router_mask_map
            6
          ≡ ok (2 ^ k, m'))
        × Granted (sample.uuid_discrete) near_rib.router_mask_map 6 k m')
get_total_example = get_total (sample.uuid_discrete) near_rib.router_mask_map 6 near_masks

remove_router_total_example :
    ((HashMap.get (sample.uuid_discrete) 5 near_rib.router_mask_map.map ≡ none)
      × (RouterMask.remove_router (sample.uuid_discrete) near_rib.router_mask_map 5
          ≡ panic "called `Option::unwrap()` on a `None` value"))
    ⊎ ((k : ℕ) × (m' : RouterMaskMap ℕ) × (HashMap.get
            (sample.uuid_discrete)
            5
            near_rib.router_mask_map.map
          ≡ some (2 ^ k))
        × (RouterMask.remove_router (sample.uuid_discrete) near_rib.router_mask_map 5 ≡ ok m')
        × IsValidMap (sample.uuid_discrete) m'
        × (HashMap.get (sample.uuid_discrete) 5 m'.map ≡ none)
        × ((j : ℕ)
            → 5 ≢ j
            → HashMap.get (sample.uuid_discrete) j m'.map
              ≡ HashMap.get (sample.uuid_discrete) j near_rib.router_mask_map.map)
        × (bit k m'.mask ≡ 0))
remove_router_total_example =
    remove_router_total (sample.uuid_discrete) near_rib.router_mask_map 5 near_masks

calculate_iff_example :
    (calculate sample (near ∷ far ∷ []) ≡ some near) ↔ IsLastBest sample near (near ∷ far ∷ [])
calculate_iff_example = calculate_iff sample near (near ∷ far ∷ [])

get_with_mask-insert_example :
    Listed near
      (RibEntry.get_with_mask sample (RibEntry.insert sample near_entry (2 ^ 3) near) (2 ^ 3))
    ↔ (Listed near (RibEntry.get_with_mask sample near_entry (2 ^ 3))
        ⊎ ((◌≡◌ {A = ℕ} 3 3) × (near ≡ near)))
get_with_mask-insert_example =
    get_with_mask-insert sample near_entry 3 near (omega arith) near_entry_valid 3 near
      (omega arith)

get_with_mask-withdraw_example :
    Listed near
      (RibEntry.get_with_mask sample (RibEntry.withdraw sample near_entry (2 ^ 0) far) (2 ^ 0))
    ↔ (Listed near (RibEntry.get_with_mask sample near_entry (2 ^ 0))
        × ¬ ((◌≡◌ {A = ℕ} 0 0) × SameOrigin sample far near))
get_with_mask-withdraw_example =
    get_with_mask-withdraw sample near_entry 0 far (omega arith) near_entry_valid 0 near
      (omega arith)

insert_route_report_example :
    ((◌≡◌ {A = Option (BestRoute sample)} none (some far))
      ⊎ (◌≡◌ {A = Option (BestRoute sample)} none none))
    × ((◌≡◌ {A = Option (BestRoute sample)} none (some far)) ↔ (
        (e : BgpRibEntry sample)
        → table.exact_match near_rib.treebitmap far.prefix ≡ some e
        → All (NotAbove sample far) (RibEntry.get_all sample e)))
insert_route_report_example =
    insert_route_report sample table near_rib far 5 none far_rib far_inserted

withdrawal_unreported_example : ◌≡◌ {A = Option (BestRoute sample)} none none
withdrawal_unreported_example =
    withdrawal_unreported sample table near_rib withdrawal withdrawn_route 5 none bare_rib
      withdrawn-Listed near_hops near_removed

get_bestroute_for_router_lem_example :
    Answers sample table near_rib (v4 7) 5 (get_bestroute_for_router sample table near_rib (v4 7) 5)
get_bestroute_for_router_lem_example =
    get_bestroute_for_router_lem sample table near_rib (v4 7) 5
      (sample-IsLawful (BgpRibEntry sample)) near-IsValid

clone-Sees_example :
    IsValid sample table (clone sample table near_rib)
    × ((j : ℕ) (s : Route sample)
        → Sees sample table (clone sample table near_rib) j s ↔ Sees sample table near_rib j s)
clone-Sees_example =
    clone-Sees sample table (sample-IsLawful (BgpRibEntry sample)) near_rib near-IsValid
