-- ===== src/Rib/Remove.antt =====
-- `BgpRib::remove_route` (components/bgp/bgp_rib.rs) takes the routes of the withdrawn peer and
-- prefix from the router, and from no other.
use netfabric_bgp_router.Prelude.{
  ℕ, ◌^◌, ◌<◌, ◌≡◌, ◌≢◌, ◌↔◌, ◌⊎◌, inl, inr, sym, ◌∙◌, ap, subst, Option, none, some, [],
  Option-cases, ok, panic,
}
use mathlib.Core.Option.{none-ne-some}
use netfabric_bgp_router.Platform.{Platform}
use netfabric_bgp_router.PrefixTable.{PrefixTable, IsLawful}
use netfabric_bgp_router.RouterMask
use netfabric_bgp_router.RouterMask.{RouterMask, RouterMaskMap}
use netfabric_bgp_router.RouterMask.MapLaws.{Granted, get_total}
use netfabric_bgp_router.RouterMask.Capacity.{Granted-room}
use netfabric_bgp_router.Route.{Route}
use netfabric_bgp_router.BestRoute.{BestRoute}
use netfabric_bgp_router.RibEntry
use netfabric_bgp_router.RibEntry.{
  BgpRibEntry, Item, get_with_mask, routes_with_mask, keeps, clear_router, same_origin,
}
use netfabric_bgp_router.RibEntry.Laws.{SameOrigin}
use netfabric_bgp_router.RibEntry.Valid.{
  IsValid as IsValidEntry, withdraw-IsValid, get_with_mask-withdraw,
}
use netfabric_bgp_router.Rib.{BgpRib, remove_route, lost_best, store_entry}
use netfabric_bgp_router.Rib.Stored.{
  exact_match-store_ne, exact_match-store_same, SeesWith-store, withdrawn-prefixes,
  withdrawn-Registered,
}
use netfabric_bgp_router.Rib.View.{known, unknown, View-of}
use netfabric_bgp_router.Rib.Valid.{
  IsEntryOf, IsEntryOf-grow, IsValid, SeesWith, SeesWith-same, SeesWith-exact, Sees,
  not-SeesWith_zero, NoBitLeft,
}

module _ (p : Platform) (T : PrefixTable p (BgpRibEntry p))
    (lawful : IsLawful p (BgpRibEntry p) T) where
  -- The table after `remove_route` of a prefix that has an entry.
  removed : T.Table → ℕ → Route p → BgpRibEntry p → T.Table
  removed t k r e = store_entry p T t r.prefix (RibEntry.withdraw p e (2 ^ k) r)

  SeesWith-removed :
      (t : T.Table) (k j : ℕ) (r s : Route p) (e : BgpRibEntry p)
      → k < 64
      → j < 64
      → T.exact_match t r.prefix ≡ some e
      → IsValidEntry p e
      → SeesWith p T (removed t k r e) (2 ^ j) s
        ↔ (SeesWith p T t (2 ^ j) s × ¬ ((j ≡ k) × SameOrigin p r s))
  unfolding removed
  SeesWith-removed t k j r s e hk hj found v = elim (p.network_discrete r.prefix s.prefix) [
    | no ne ↦
        let same =
          SeesWith-same p T t (removed t k r e) (2 ^ j) s
            (exact_match-store_ne p T lawful t r.prefix _ s.prefix ne) in
        (λ l. (same.0 l, λ both. ne both.1.1), λ l. same.1 l.0)
    | yes same ↦
        let now =
          SeesWith-store p T lawful t r.prefix (RibEntry.withdraw p e (2 ^ k) r) (2 ^ j) s same in
        let step = get_with_mask-withdraw p e k r hk v j s hj in
        let before = SeesWith-exact p T t (2 ^ j) s e (ap (T.exact_match t) (sym same) ∙ found) in
        (
          λ l. (before.1 (step.0 (now.0 l)).0, (step.0 (now.0 l)).1),
          λ l. now.1 (step.1 (before.0 l.0, l.1)),
        )
  ]

  module _ (rib : BgpRib p T) (v : IsValid p T rib) (id : p.Uuid) (r : Route p) (k : ℕ)
      (m' : RouterMaskMap p.Uuid) (g : Granted p.uuid_discrete rib.router_mask_map id k m') where
    abbrev after : T.Table → BgpRib p T
    after t = record { router_mask_map = m'; treebitmap = t }

    kept-IsEntryOf :
        (n : p.IpNetwork) (x : BgpRibEntry p)
        → T.exact_match rib.treebitmap n ≡ some x
        → IsEntryOf p m'.mask n x
    kept-IsEntryOf n x found =
        IsEntryOf-grow p rib.router_mask_map.mask m'.mask n x (λ i has. (g.in_use i).1 (inl has))
          (v.entries n x found)

    -- A withdrawal from a prefix without an entry only registers the router.
    absent-IsValid : IsValid p T (after rib.treebitmap)
    absent-IsValid = record { masks = g.valid; entries = kept-IsEntryOf }

    withdraw-IsEntryOf :
        (n : p.IpNetwork) (e : BgpRibEntry p)
        → T.exact_match rib.treebitmap n ≡ some e
        → (RibEntry.withdraw p e (2 ^ k) r).routes ≢ []
        → IsEntryOf p m'.mask n (RibEntry.withdraw p e (2 ^ k) r)
    unfolding RibEntry.withdraw
    withdraw-IsEntryOf n e found used =
        let entry = kept-IsEntryOf n e found in
        record {
          valid = withdraw-IsValid p e k r g.in_word entry.valid;
          registered = withdrawn-Registered p m'.mask k r e.routes entry.registered;
          prefixes = withdrawn-prefixes p k n r e.routes entry.prefixes;
          used = used;
        }

    removed-IsValid :
        (e : BgpRibEntry p)
        → T.exact_match rib.treebitmap r.prefix ≡ some e
        → IsValid p T (after (removed rib.treebitmap k r e))
    unfolding removed
    removed-IsValid e found = record {
      masks = g.valid;
      entries = λ n x here. elim (p.network_discrete r.prefix n) [
        | yes same ↦
            let (eq, used) =
              exact_match-store_same p T lawful rib.treebitmap r.prefix _ n x same here in
            subst (IsEntryOf p m'.mask n) eq
              (withdraw-IsEntryOf n e (ap (T.exact_match rib.treebitmap) (sym same) ∙ found) used)
        | no ne ↦
            kept-IsEntryOf n x
              (sym (exact_match-store_ne p T lawful rib.treebitmap r.prefix _ n ne) ∙ here)
      ];
    }

    -- A table that loses the routes of one origin for the router's mask alone, seen by each router.
    after-Sees :
        (t : T.Table)
        → ((i : ℕ) (s : Route p)
            → i < 64
            → SeesWith p T t (2 ^ i) s
              ↔ (SeesWith p T rib.treebitmap (2 ^ i) s × ¬ ((i ≡ k) × SameOrigin p r s)))
        → (j : p.Uuid) (s : Route p)
        → Sees p T (after t) j s ↔ (Sees p T rib j s × ¬ ((id ≡ j) × SameOrigin p r s))
    after-Sees t change j s = elim (View-of p T rib v id k m' g j) [
      | known i lt mask own before ↦
          let step = change i s lt in
          rw mask (
            λ l. ((before s).0 (step.0 l).0, λ both. (step.0 l).1 (own.1 both.0, both.1)),
            λ l. step.1 ((before s).1 l.0, λ both. l.1 (own.0 both.0, both.1)),
          )
      | unknown other zero_mask nothing ↦
          rw zero_mask (λ l. absurd (not-SeesWith_zero p T t s l), λ l. absurd (nothing s l.0))
    ]

    absent_change :
        T.exact_match rib.treebitmap r.prefix ≡ none
        → (i : ℕ) (s : Route p)
        → SeesWith p T rib.treebitmap (2 ^ i) s
          ↔ (SeesWith p T rib.treebitmap (2 ^ i) s × ¬ ((i ≡ k) × SameOrigin p r s))
    absent_change absent i s = (
      λ l. (
        l,
        λ both. none-ne-some l.0 (sym absent ∙ ap (T.exact_match rib.treebitmap) both.1.1 ∙ l.1),
      ),
      λ l. l.0,
    )

    -- The new state: who holds which mask, that it is valid, and what each router sees.
    abbrev Removes : Option (BestRoute p) → BgpRib p T → Type 0
    Removes b rib' =
        Granted p.uuid_discrete rib.router_mask_map id k rib'.router_mask_map
        × IsValid p T rib'
        × ((j : p.Uuid) (s : Route p)
            → Sees p T rib' j s ↔ (Sees p T rib j s × ¬ ((id ≡ j) × SameOrigin p r s)))

    remove_route-after :
        RouterMask.get p.uuid_discrete rib.router_mask_map id ≡ ok (2 ^ k, m')
        → (b : Option (BestRoute p)) × (rib' : BgpRib p T) × (remove_route p T rib r id
            ≡ ok (b, rib'))
          × Removes b rib'
    unfolding remove_route removed
    remove_route-after e = elim (Option-cases (T.exact_match rib.treebitmap r.prefix)) [
      | inl absent ↦ (
        none,
        after rib.treebitmap,
        rw (e, absent, remove_route),
        (g, absent-IsValid, after-Sees rib.treebitmap (λ i s lt. absent_change absent i s)),
      )
      | inr (x, found) ↦ (
        lost_best p x r,
        after (removed rib.treebitmap k r x),
        rw (e, found, remove_route, removed),
        (
          g,
          removed-IsValid x found,
          after-Sees (removed rib.treebitmap k r x) (λ i s lt.
              SeesWith-removed rib.treebitmap k i r s x g.in_word lt found
                (v.entries r.prefix x found).valid),
        ),
      )
    ]

  -- On a valid RIB `remove_route` panics if the router is new and all 64 masks are taken, and only
  -- then. Else it returns, and the router holds a mask afterwards, also if it was new: its old one,
  -- or one that was free; the other routers keep theirs. The RIB stays valid, the router sees what
  -- it saw before but for the routes of the peer and prefix of the given one, and every other router
  -- sees what it saw before.
  pub remove_route_total :
      (rib : BgpRib p T) (r : Route p) (id : p.Uuid)
      → IsValid p T rib
      → (NoBitLeft p T rib id × (remove_route p T rib r id ≡ panic "Router mask map is full"))
        ⊎ ((¬ NoBitLeft p T rib id)
            × (k : ℕ) × (b : Option (BestRoute p)) × (rib' : BgpRib p T) × (remove_route p T rib r
                  id
                ≡ ok (b, rib'))
            × Granted p.uuid_discrete rib.router_mask_map id k rib'.router_mask_map
            × IsValid p T rib'
            × ((j : p.Uuid) (s : Route p)
                → Sees p T rib' j s ↔ (Sees p T rib j s × ¬ ((id ≡ j) × SameOrigin p r s))))
  unfolding remove_route
  remove_route_total rib r id v = elim (get_total p.uuid_discrete rib.router_mask_map id v.masks) [
    | inl (absent, full, e) ↦ inl ((absent, full), rw (e, remove_route))
    | inr (k, m', e, g) ↦
        let (b, rib', done, (granted, valid, sees)) = remove_route-after rib v id r k m' g e in
        let room = Granted-room p.uuid_discrete rib.router_mask_map m' id k g in
        inr (room, k, b, rib', done, granted, valid, sees)
  ]
