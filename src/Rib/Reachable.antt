-- ===== src/Rib/Reachable.antt =====
-- The shared RIB (components/bgp/bgp_rib.rs) under any sequence of the operations of any routers.
use netfabric_bgp_router.Prelude.{◌≡◌, inl, inr, subst, Option, arith, ok}
use netfabric_bgp_router.Platform.{Platform}
use netfabric_bgp_router.PrefixTable.{PrefixTable, IsLawful}
use netfabric_bgp_router.RouterMask.MapLaws.{get_total}
use netfabric_bgp_router.Route.{Route}
use netfabric_bgp_router.BestRoute.{BestRoute}
use netfabric_bgp_router.RibEntry.{BgpRibEntry}
use netfabric_bgp_router.Rib.{BgpRib, new, clear, register_router, insert_route, remove_route}
use netfabric_bgp_router.Rib.Valid.{IsValid, new-IsValidRib, IsEntryOf-grow}
use netfabric_bgp_router.Rib.Insert.{insert_route_total}
use netfabric_bgp_router.Rib.Remove.{remove_route_total}

module _ (p : Platform) (T : PrefixTable p (BgpRibEntry p)) where
  -- One call that returns.
  pub data Step : BgpRib p T → BgpRib p T → Type 0 where
    registered :
        {rib rib' : BgpRib p T} (id : p.Uuid) → register_router p T rib id ≡ ok rib' → Step rib rib'
    inserted :
        {rib rib' : BgpRib p T} (r : Route p) (id : p.Uuid) (b : Option (BestRoute p))
        → insert_route p T rib r id ≡ ok (b, rib')
        → Step rib rib'
    removed :
        {rib rib' : BgpRib p T} (r : Route p) (id : p.Uuid) (b : Option (BestRoute p))
        → remove_route p T rib r id ≡ ok (b, rib')
        → Step rib rib'
    cleared : {rib : BgpRib p T} → Step rib (clear p T rib)

  -- The RIB arises from a new one by such calls.
  pub data Reachable : BgpRib p T → Type 0 where
    start : Reachable (new p T)
    next : {rib rib' : BgpRib p T} → Reachable rib → Step rib rib' → Reachable rib'

  module _ (lawful : IsLawful p (BgpRibEntry p) T) where
    register-IsValid :
        (rib rib' : BgpRib p T) (id : p.Uuid)
        → IsValid p T rib
        → register_router p T rib id ≡ ok rib'
        → IsValid p T rib'
    unfolding register_router
    register-IsValid rib rib' id v h =
        elim (get_total p.uuid_discrete rib.router_mask_map id v.masks) [
          | inl (absent, full, e) ↦ absurd (ground arith)
          | inr (k, m', e, g) ↦
              let now : BgpRib p T = record rib { router_mask_map = m' } in
              let eq : now ≡ rib' = ground arith in
              subst (IsValid p T) eq (record {
                masks = g.valid;
                entries = λ n entry found.
                    IsEntryOf-grow p rib.router_mask_map.mask m'.mask n entry
                      (λ i has. (g.in_use i).1 (inl has)) (v.entries n entry found);
              })
        ]

    pub insert-IsValidRib :
        (rib rib' : BgpRib p T) (r : Route p) (id : p.Uuid) (b : Option (BestRoute p))
        → IsValid p T rib
        → insert_route p T rib r id ≡ ok (b, rib')
        → IsValid p T rib'
    insert-IsValidRib rib rib' r id b v h = elim (insert_route_total p T lawful rib r id v) [
      | inl (full, e) ↦ absurd (ground arith)
      | inr (room, k, b', now, e, g, valid, sees) ↦
          let eq : now ≡ rib' = ground arith in subst (IsValid p T) eq valid
    ]

    pub remove-IsValidRib :
        (rib rib' : BgpRib p T) (r : Route p) (id : p.Uuid) (b : Option (BestRoute p))
        → IsValid p T rib
        → remove_route p T rib r id ≡ ok (b, rib')
        → IsValid p T rib'
    remove-IsValidRib rib rib' r id b v h = elim (remove_route_total p T lawful rib r id v) [
      | inl (full, e) ↦ absurd (ground arith)
      | inr (room, k, b', now, e, g, valid, sees) ↦
          let eq : now ≡ rib' = ground arith in subst (IsValid p T) eq valid
    ]

    Step-IsValid : {rib rib' : BgpRib p T} → IsValid p T rib → Step rib rib' → IsValid p T rib'
    Step-IsValid v (registered id h) = register-IsValid _ _ id v h
    Step-IsValid v (inserted r id b h) = insert-IsValidRib _ _ r id b v h
    Step-IsValid v (removed r id b h) = remove-IsValidRib _ _ r id b v h
    Step-IsValid v cleared = new-IsValidRib p T lawful

    -- Every RIB that arises from a new one by any sequence of returning calls of `register_router`,
    -- `insert_route`, `remove_route` and `clear` is valid: the routers have distinct single bits, and
    -- each entry in the table is of its prefix, not empty, names only registered routers, and holds
    -- each route once.
    pub Reachable-IsValid : (rib : BgpRib p T) → Reachable rib → IsValid p T rib
    Reachable-IsValid _ start = new-IsValidRib p T lawful
    Reachable-IsValid _ (next reachable step) = Step-IsValid (Reachable-IsValid _ reachable) step
