-- ===== src/Rib/Insert.antt =====
-- `BgpRib::insert_route` (components/bgp/bgp_rib.rs) gives the route to the router, and to no other.
use netfabric_bgp_router.Prelude.{
  ℕ, ◌^◌, ◌<◌, ◌≡◌, ◌≢◌, ◌↔◌, ◌⊎◌, inl, inr, refl, sym, ◌∙◌, ap, subst, Option, none, some, List,
  [], ◌∷◌, All, Listed, if_pos, if_neg, arith, Option-cases, ok, panic,
}
use mathlib.Core.Option.{none-ne-some, some-injective}
use netfabric_bgp_router.Platform.{Platform}
use netfabric_bgp_router.PrefixTable.{
  PrefixTable, IsLawful, exact_match-insert_same, exact_match-insert_ne,
}
use netfabric_bgp_router.RouterMask
use netfabric_bgp_router.RouterMask.{RouterMask, RouterMaskMap, combine}
use netfabric_bgp_router.RouterMask.Laws.{Has, Has-combine_iff, Has-single_iff}
use netfabric_bgp_router.RouterMask.MapLaws.{Granted, get_total}
use netfabric_bgp_router.RouterMask.Capacity.{Granted-room}
use netfabric_bgp_router.Route.{Route, Route-discrete}
use netfabric_bgp_router.BestRoute.{BestRoute}
use netfabric_bgp_router.RibEntry
use netfabric_bgp_router.RibEntry.{BgpRibEntry, Item, insert_item, get_with_mask}
use netfabric_bgp_router.RibEntry.Valid.{
  IsValid as IsValidEntry, new-IsValid, insert-IsValid, get_with_mask-insert,
}
use netfabric_bgp_router.Rib.{BgpRib, insert_route, new_best}
use netfabric_bgp_router.Rib.View.{known, unknown, View-of}
use netfabric_bgp_router.Rib.Valid.{
  Registered, IsEntryOf, IsEntryOf-grow, IsValid, SeesWith, SeesWith-same, SeesWith-exact, Sees,
  not-SeesWith_zero, NoBitLeft,
}

module _ (p : Platform) where
  insert-Registered :
      (old new k : ℕ) (r : Route p) (items : List (Item p))
      → ((i : ℕ) → Has i new ↔ (Has i old ⊎ (i ≡ k)))
      → Registered p old items
      → Registered p new (insert_item p (2 ^ k) r items)
  unfolding insert_item
  insert-Registered old new k r [] grows h =
      (λ i has. (grows i).1 (inr ((Has-single_iff i k).0 has)), tt)
  insert-Registered old new k r ((m, o) ∷ rest) grows h = elim (Route-discrete p o r) [
    | yes same ↦ rw (if_pos _ same) (joined, lift rest h.1)
    | no other ↦
        rw (if_neg _ other)
          (λ i has. (grows i).1 (inl (h.0 i has)), insert-Registered old new k r rest grows h.1)
  ]
    where
      joined : (i : ℕ) → Has i (combine m (2 ^ k)) → Has i new
      joined i has =
          (grows i).1
            (elim ((Has-combine_iff m k i).0 has) [ inl old ↦ inl (h.0 i old) | inr e ↦ inr e ])

      lift : (items : List (Item p)) → Registered p old items → Registered p new items
      lift [] h = tt
      lift (x ∷ xs) h = (λ i has. (grows i).1 (inl (h.0 i has)), lift xs h.1)

  insert-prefixes :
      (n : p.IpNetwork) (m : RouterMask) (r : Route p) (items : List (Item p))
      → r.prefix ≡ n
      → All (λ i. i.1.prefix ≡ n) items
      → All (λ i. i.1.prefix ≡ n) (insert_item p m r items)
  unfolding insert_item
  insert-prefixes n m r [] e h = (e, tt)
  insert-prefixes n m r ((x, o) ∷ rest) e h = ground (arith, insert-prefixes n m r rest e h.1)

  insert-used :
      (m : RouterMask) (r : Route p) (items : List (Item p)) → insert_item p m r items ≢ []
  unfolding insert_item
  insert-used m r [] h = ground arith
  insert-used m r ((x, o) ∷ rest) h = ground arith

module _ (p : Platform) (T : PrefixTable p (BgpRibEntry p))
    (lawful : IsLawful p (BgpRibEntry p) T) where
  -- The entry that `insert_route` changes: the one in the table, or a new one.
  entry_at : T.Table → p.IpNetwork → BgpRibEntry p
  entry_at t n = elim (T.exact_match t n) [ none ↦ record { routes = [] } | some e ↦ e ]

  -- The table after `insert_route`.
  inserted : T.Table → ℕ → Route p → T.Table
  inserted t k r = T.insert t r.prefix (RibEntry.insert p (entry_at t r.prefix) (2 ^ k) r)

  Listed-entry_at :
      (t : T.Table) (j : ℕ) (s : Route p)
      → Listed s (get_with_mask p (entry_at t s.prefix) (2 ^ j)) ↔ SeesWith p T t (2 ^ j) s
  unfolding entry_at get_with_mask
  Listed-entry_at t j s = elim (Option-cases (T.exact_match t s.prefix)) [
    | inl e ↦ rw (e, entry_at) (λ l. absurd l, λ (x, found, l). absurd (none-ne-some x found))
    | inr (x, e) ↦
        rw (e, entry_at)
          (
            λ l. (x, refl, l),
            λ (y, found, l).
                subst (λ z. Listed s (get_with_mask p z (2 ^ j))) (sym (some-injective _ _ found))
                  l,
          )
  ]

  exact_match-inserted_same :
      (t : T.Table) (k : ℕ) (r : Route p) (n : p.IpNetwork)
      → r.prefix ≡ n
      → T.exact_match (inserted t k r) n ≡ some (RibEntry.insert p (entry_at t n) (2 ^ k) r)
  unfolding inserted
  exact_match-inserted_same t k r n e =
      exact_match-insert_same p T lawful t r.prefix n _ e
      ∙ ap (λ x. some (RibEntry.insert p (entry_at t x) (2 ^ k) r)) e

  exact_match-inserted_other :
      (t : T.Table) (k : ℕ) (r : Route p) (n : p.IpNetwork)
      → r.prefix ≢ n
      → T.exact_match (inserted t k r) n ≡ T.exact_match t n
  unfolding inserted
  exact_match-inserted_other t k r n ne = exact_match-insert_ne p T lawful t r.prefix n _ ne

  -- With a router's own mask: what was there, and the new route for the router that announced it.
  SeesWith-inserted :
      (t : T.Table) (k j : ℕ) (r s : Route p)
      → k < 64
      → j < 64
      → IsValidEntry p (entry_at t s.prefix)
      → SeesWith p T (inserted t k r) (2 ^ j) s ↔ (SeesWith p T t (2 ^ j) s ⊎ ((j ≡ k) × (r ≡ s)))
  SeesWith-inserted t k j r s hk hj v = elim (p.network_discrete r.prefix s.prefix) [
    | no ne ↦
        let same =
          SeesWith-same p T t (inserted t k r) (2 ^ j) s
            (exact_match-inserted_other t k r s.prefix ne) in
        (
          λ h. inl (same.0 h),
          elim [ inl h ↦ same.1 h | inr both ↦ absurd (ne (ap (λ x. x.prefix) both.1)) ],
        )
    | yes e ↦
        let now =
          SeesWith-exact p T (inserted t k r) (2 ^ j) s _
            (exact_match-inserted_same t k r s.prefix e) in
        let entry = get_with_mask-insert p (entry_at t s.prefix) k r hk v j s hj in
        let before = Listed-entry_at t j s in
        (
          λ h. elim (entry.0 (now.0 h)) [ inl old ↦ inl (before.0 old) | inr new ↦ inr new ],
          λ h. now.1 (entry.1 (elim h [ inl old ↦ inl (before.1 old) | inr new ↦ inr new ])),
        )
  ]

  module _ (rib : BgpRib p T) (v : IsValid p T rib) where
    entry_at-parts :
        (n : p.IpNetwork)
        → IsValidEntry p (entry_at rib.treebitmap n)
          × Registered p rib.router_mask_map.mask (entry_at rib.treebitmap n).routes
          × All (λ i. i.1.prefix ≡ n) (entry_at rib.treebitmap n).routes
    unfolding entry_at
    entry_at-parts n = elim (Option-cases (T.exact_match rib.treebitmap n)) [
      | inl e ↦ rw (e, entry_at) (new-IsValid p, tt, tt)
      | inr (x, e) ↦
          let entry = v.entries n x e in
          rw (e, entry_at) (entry.valid, entry.registered, entry.prefixes)
    ]

    module _ (id : p.Uuid) (r : Route p) (k : ℕ) (m' : RouterMaskMap p.Uuid)
        (g : Granted p.uuid_discrete rib.router_mask_map id k m') where
      abbrev after : BgpRib p T
      after = record { router_mask_map = m'; treebitmap = inserted rib.treebitmap k r }

      inserted-IsEntryOf :
          (n : p.IpNetwork)
          → r.prefix ≡ n
          → IsEntryOf p m'.mask n (RibEntry.insert p (entry_at rib.treebitmap n) (2 ^ k) r)
      unfolding RibEntry.insert
      inserted-IsEntryOf n e =
          let parts = entry_at-parts n in
          record {
            valid = insert-IsValid p (entry_at rib.treebitmap n) k r g.in_word parts.0;
            registered = insert-Registered p _ m'.mask k r _ g.in_use parts.1;
            prefixes = insert-prefixes p n (2 ^ k) r _ e parts.2;
            used = insert-used p (2 ^ k) r _;
          }

      after-IsValid : IsValid p T after
      after-IsValid = record {
        masks = g.valid;
        entries = λ n x found. elim (p.network_discrete r.prefix n) [
          | yes e ↦
              subst (IsEntryOf p m'.mask n)
                (some-injective _ _
                  (sym (exact_match-inserted_same rib.treebitmap k r n e) ∙ found))
                (inserted-IsEntryOf n e)
          | no ne ↦
              IsEntryOf-grow p rib.router_mask_map.mask m'.mask n x
                (λ i has. (g.in_use i).1 (inl has))
                (v.entries n x (sym (exact_match-inserted_other rib.treebitmap k r n ne) ∙ found))
        ];
      }

      after-Sees :
          (j : p.Uuid) (s : Route p)
          → Sees p T after j s ↔ (Sees p T rib j s ⊎ ((id ≡ j) × (r ≡ s)))
      after-Sees j s = elim (View-of p T rib v id k m' g j) [
        | known i lt mask own before ↦
            let step =
              SeesWith-inserted rib.treebitmap k i r s g.in_word lt (entry_at-parts s.prefix).0 in
            rw mask (
              λ l. elim (step.0 l) [
                | inl old ↦ inl ((before s).0 old)
                | inr new ↦ inr (own.0 new.0, new.1)
              ],
              λ l. step.1 (elim l [
                | inl old ↦ inl ((before s).1 old)
                | inr new ↦ inr (own.1 new.0, new.1)
              ]),
            )
        | unknown other zero_mask nothing ↦ rw zero_mask (
          λ l. absurd (not-SeesWith_zero p T _ s l),
          elim [ inl old ↦ absurd (nothing s old) | inr new ↦ absurd (other new.0) ],
        )
      ]

      insert_route-after :
          RouterMask.get p.uuid_discrete rib.router_mask_map id ≡ ok (2 ^ k, m')
          → (b : Option (BestRoute p)) × (insert_route p T rib r id ≡ ok (b, after))
      unfolding insert_route inserted entry_at
      insert_route-after e = elim (Option-cases (T.exact_match rib.treebitmap r.prefix)) [
        | inl absent ↦ (some r, rw (e, absent, insert_route, inserted, entry_at))
        | inr (x, found) ↦ (new_best p x r, rw (e, found, insert_route, inserted, entry_at))
      ]

  -- On a valid RIB `insert_route` panics if the router is new and all 64 masks are taken, and only
  -- then. Else it returns, and the router holds a mask afterwards: its old one, or one that was
  -- free; the other routers keep theirs. The RIB stays valid, the router sees the route and what it
  -- saw before, and every other router sees what it saw before.
  pub insert_route_total :
      (rib : BgpRib p T) (r : Route p) (id : p.Uuid)
      → IsValid p T rib
      → (NoBitLeft p T rib id × (insert_route p T rib r id ≡ panic "Router mask map is full"))
        ⊎ ((¬ NoBitLeft p T rib id)
            × (k : ℕ) × (b : Option (BestRoute p)) × (rib' : BgpRib p T) × (insert_route p T rib r
                  id
                ≡ ok (b, rib'))
            × Granted p.uuid_discrete rib.router_mask_map id k rib'.router_mask_map
            × IsValid p T rib'
            × ((j : p.Uuid) (s : Route p)
                → Sees p T rib' j s ↔ (Sees p T rib j s ⊎ ((id ≡ j) × (r ≡ s)))))
  unfolding insert_route
  insert_route_total rib r id v = elim (get_total p.uuid_discrete rib.router_mask_map id v.masks) [
    | inl (absent, full, e) ↦ inl ((absent, full), rw (e, insert_route))
    | inr (k, m', e, g) ↦
        let (b, done) = insert_route-after rib v id r k m' g e in
        inr (
          Granted-room p.uuid_discrete rib.router_mask_map m' id k g,
          k,
          b,
          after rib v id r k m' g,
          done,
          g,
          after-IsValid rib v id r k m' g,
          after-Sees rib v id r k m' g,
        )
  ]
