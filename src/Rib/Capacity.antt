-- ===== src/Rib/Capacity.antt =====
-- The RIB (components/bgp/bgp_rib.rs) serves at most 64 routers, and any 64 without a panic.
use netfabric_bgp_router.Prelude.{
  ℕ, ◌≤◌, ◌≡◌, inl, inr, refl, sym, subst, ◌∙◌, Option, some, List, [], ◌∷◌, length, Listed, arith,
  ok, Outcome, All,
}
use mathlib.Core.Option.{none-ne-some}
use netfabric_bgp_router.Platform.{Platform}
use netfabric_bgp_router.PrefixTable.{PrefixTable, IsLawful}
use netfabric_bgp_router.Prelude.HashMap
use netfabric_bgp_router.RouterMask.{RouterMaskMap}
use netfabric_bgp_router.RouterMask.MapLaws.{Granted}
use netfabric_bgp_router.RouterMask.Capacity.{full_crowded}
use netfabric_bgp_router.Route.{Route}
use netfabric_bgp_router.BestRoute.{BestRoute}
use netfabric_bgp_router.RibEntry.{BgpRibEntry}
use netfabric_bgp_router.Rib.{BgpRib, new, insert_route, remove_route}
use netfabric_bgp_router.Rib.Valid.{IsValid, new-IsValidRib, NoBitLeft}
use netfabric_bgp_router.Rib.Insert.{insert_route_total}
use netfabric_bgp_router.Rib.Remove.{remove_route_total}
use netfabric_bgp_router.Rib.History.{Call, announce, withdraw, run}

module _ (p : Platform) where
  abbrev pub caller : Call p → p.Uuid
  caller (announce id r) = id
  caller (withdraw id r) = id

module _ (p : Platform) (T : PrefixTable p (BgpRibEntry p)) (lawful : IsLawful p (BgpRibEntry p) T)
    (all : List p.Uuid) (few : length all ≤ 64) where
  -- Only routers of the list have a mask.
  abbrev Within : RouterMaskMap p.Uuid → Type 0
  Within m = (a : p.Uuid) (r : ℕ) → HashMap.get p.uuid_discrete a m.map ≡ some r → Listed a all

  Granted-Within :
      (m m' : RouterMaskMap p.Uuid) (id : p.Uuid) (k : ℕ)
      → Granted p.uuid_discrete m id k m'
      → Listed id all
      → Within m
      → Within m'
  Granted-Within m m' id k g l h a r e = elim (p.uuid_discrete id a) [
    | yes same ↦ subst (λ x. Listed x all) same l
    | no ne ↦ h a r (sym (g.others a ne) ∙ e)
  ]

  -- A call of a listed router returns, and its RIB has masks for listed routers only.
  abbrev Serves : BgpRib p T → Outcome (Option (BestRoute p) × BgpRib p T) → Type 0
  Serves rib o =
      (b : Option (BestRoute p)) × (rib' : BgpRib p T) × (o ≡ ok (b, rib'))
      × IsValid p T rib'
      × Within rib'.router_mask_map

  not_full :
      {C : Type 0} (rib : BgpRib p T) (id : p.Uuid)
      → IsValid p T rib
      → Within rib.router_mask_map
      → Listed id all
      → NoBitLeft p T rib id
      → C
  not_full rib id v w l (absent, full) = absurd (
      omega
        (arith, full_crowded p.uuid_discrete rib.router_mask_map v.masks all id full absent w l))

  insert-Serves :
      (rib : BgpRib p T) (r : Route p) (id : p.Uuid)
      → IsValid p T rib
      → Within rib.router_mask_map
      → Listed id all
      → Serves rib (insert_route p T rib r id)
  insert-Serves rib r id v w l = elim (insert_route_total p T lawful rib r id v) [
    | inl (full, stuck) ↦ not_full rib id v w l full
    | inr (room, k, b, rib', e, g, v', sees) ↦
        (b, rib', e, v', Granted-Within rib.router_mask_map rib'.router_mask_map id k g l w)
  ]

  remove-Serves :
      (rib : BgpRib p T) (r : Route p) (id : p.Uuid)
      → IsValid p T rib
      → Within rib.router_mask_map
      → Listed id all
      → Serves rib (remove_route p T rib r id)
  remove-Serves rib r id v w l = elim (remove_route_total p T lawful rib r id v) [
    | inl (full, stuck) ↦ not_full rib id v w l full
    | inr (room, k, b, rib', e, g, v', sees) ↦
        (b, rib', e, v', Granted-Within rib.router_mask_map rib'.router_mask_map id k g l w)
  ]

  run_serves :
      (calls : List (Call p)) (rib : BgpRib p T)
      → IsValid p T rib
      → Within rib.router_mask_map
      → All (λ c. Listed (caller p c) all) calls
      → (rib' : BgpRib p T) × (run p T rib calls ≡ ok rib')
  unfolding run
  run_serves [] rib v w h = (rib, refl)
  run_serves (announce id r ∷ calls) rib v w h =
      let (b, mid, e, v', w') = insert-Serves rib r id v w h.0 in
      let (rib', rest) = run_serves calls mid v' w' h.1 in (rib', rw e rest)
  run_serves (withdraw id r ∷ calls) rib v w h =
      let (b, mid, e, v', w') = remove-Serves rib r id v w h.0 in
      let (rib', rest) = run_serves calls mid v' w' h.1 in (rib', rw e rest)

  -- If at most 64 routers call it, a new RIB takes any sequence of announcements and withdrawals
  -- without a panic.
  pub run-new_total :
      (calls : List (Call p))
      → All (λ c. Listed (caller p c) all) calls
      → (rib : BgpRib p T) × (run p T (new p T) calls ≡ ok rib)
  run-new_total calls h =
      run_serves calls (new p T) (new-IsValidRib p T lawful) (λ a r e. absurd (none-ne-some r e)) h
