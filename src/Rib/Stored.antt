-- ===== src/Rib/Stored.antt =====
-- The entry that `BgpRib::remove_route` (components/bgp/bgp_rib.rs) stores, or drops if no route is
-- left in it.
use netfabric_bgp_router.Prelude.{
  ℕ, ◌^◌, ◌≡◌, ◌≢◌, ◌↔◌, ◌⊎◌, inl, inr, refl, sym, ◌∙◌, ap, subst, true, some, List, [], ◌∷◌, All,
  Listed, arith, Bool-cases, bit_and, ◌-◌,
}
use mathlib.Core.Option.{none-ne-some, some-injective}
use netfabric_bgp_router.Prelude.Bits.{bit, bit-bit_and, bit-le-one}
use netfabric_bgp_router.Platform.{Platform}
use netfabric_bgp_router.PrefixTable.{
  PrefixTable, IsLawful, exact_match-insert_same, exact_match-insert_ne, exact_match-remove_same,
  exact_match-remove_ne,
}
use netfabric_bgp_router.RouterMask.{RouterMask, u64_max}
use netfabric_bgp_router.RouterMask.Laws.{Has}
use netfabric_bgp_router.Route.{Route}
use netfabric_bgp_router.RibEntry.{
  BgpRibEntry, Item, get_with_mask, routes_with_mask, keeps, clear_router, same_origin,
}
use netfabric_bgp_router.RibEntry.Laws.{withdrawn}
use netfabric_bgp_router.Rib.{store_entry}
use netfabric_bgp_router.Rib.Valid.{Registered, SeesWith, SeesWith-exact}

module _ (p : Platform) where
  clear_router-Has :
      (k i : ℕ) (r : Route p) (e : Item p) → Has i (clear_router p (2 ^ k) r e).0 → Has i e.0
  unfolding clear_router
  clear_router-Has k i r e h = elim (Bool-cases (same_origin p r e.1)) [
    | inl same ↦ omega (arith, bit-bit_and i e.0 (u64_max - 2 ^ k), bit-le-one i e.0, cleared same)
    | inr other ↦ rw (other, clear_router) at h
  ]
    where
      cleared : same_origin p r e.1 ≡ true → bit i (bit_and e.0 (u64_max - 2 ^ k)) ≡ 1
      cleared same = rw (same, clear_router) at h

  pub withdrawn-prefixes :
      (k : ℕ) (n : p.IpNetwork) (r : Route p) (items : List (Item p))
      → All (λ i. i.1.prefix ≡ n) items
      → All (λ i. i.1.prefix ≡ n) (withdrawn p k k r r items)
  unfolding keeps clear_router
  withdrawn-prefixes k n r [] h = tt
  withdrawn-prefixes k n r (e ∷ rest) h = ground (arith, withdrawn-prefixes k n r rest h.1)

  pub withdrawn-Registered :
      (mask k : ℕ) (r : Route p) (items : List (Item p))
      → Registered p mask items
      → Registered p mask (withdrawn p k k r r items)
  unfolding keeps
  withdrawn-Registered mask k r [] h = tt
  withdrawn-Registered mask k r (e ∷ rest) h =
      let ih = withdrawn-Registered mask k r rest h.1 in
      let own : (i : ℕ) → Has i (clear_router p (2 ^ k) r e).0 → Has i mask =
        λ i has. h.0 i (clear_router-Has k i r e has) in
      elim (Bool-cases (keeps p (2 ^ k) r e)) [
        | inl kept ↦ rw kept (own, ih)
        | inr dropped ↦ rw dropped ih
      ]

module _ (p : Platform) (T : PrefixTable p (BgpRibEntry p))
    (lawful : IsLawful p (BgpRibEntry p) T) where
  module _ (t : T.Table) (n : p.IpNetwork) (e : BgpRibEntry p) where
    store_entry-nil : e.routes ≡ [] → store_entry p T t n e ≡ T.remove t n
    unfolding store_entry
    store_entry-nil h = rw (h, store_entry)

    store_entry-cons :
        {i : Item p} {rest : List (Item p)}
        → e.routes ≡ i ∷ rest
        → store_entry p T t n e ≡ T.insert t n e
    unfolding store_entry
    store_entry-cons h = ground arith

    store_entry_cases :
        ((e.routes ≡ []) × (store_entry p T t n e ≡ T.remove t n))
        ⊎ ((e.routes ≢ []) × (store_entry p T t n e ≡ T.insert t n e))
    store_entry_cases = go e.routes refl
      where
        go :
            (l : List (Item p))
            → e.routes ≡ l
            → ((e.routes ≡ []) × (store_entry p T t n e ≡ T.remove t n))
              ⊎ ((e.routes ≢ []) × (store_entry p T t n e ≡ T.insert t n e))
        go [] h = inl (h, store_entry-nil h)
        go (i ∷ rest) h = inr (λ empty. cons_not_nil (sym h ∙ empty), store_entry-cons h)
          where
            cons_not_nil : (i ∷ rest) ≡ [] → ⊥
            cons_not_nil eq = ground arith

    pub exact_match-store_ne :
        (m : p.IpNetwork) → n ≢ m → T.exact_match (store_entry p T t n e) m ≡ T.exact_match t m
    exact_match-store_ne m ne = elim store_entry_cases [
      | inl (empty, eq) ↦ rw eq (exact_match-remove_ne p T lawful t n m ne)
      | inr (used, eq) ↦ rw eq (exact_match-insert_ne p T lawful t n m e ne)
    ]

    pub exact_match-store_same :
        (m : p.IpNetwork) (x : BgpRibEntry p)
        → n ≡ m
        → T.exact_match (store_entry p T t n e) m ≡ some x
        → (e ≡ x) × (e.routes ≢ [])
    exact_match-store_same m x same found = elim store_entry_cases [
      | inl (empty, eq) ↦ absurd (
          none-ne-some x (
            sym (ap (λ u. T.exact_match u m) eq ∙ exact_match-remove_same p T lawful t n m same)
            ∙ found))
      | inr (used, eq) ↦ (
        some-injective _ _ (
            sym (ap (λ u. T.exact_match u m) eq ∙ exact_match-insert_same p T lawful t n m e same)
            ∙ found),
        used,
      )
    ]

    -- Seen through the table, an entry without routes and no entry are the same.
    pub SeesWith-store :
        (mask : RouterMask) (s : Route p)
        → n ≡ s.prefix
        → SeesWith p T (store_entry p T t n e) mask s ↔ Listed s (get_with_mask p e mask)
    unfolding routes_with_mask
    SeesWith-store mask s same = elim store_entry_cases [
      | inr (used, eq) ↦ SeesWith-exact p T _ mask s e (
          ap (λ u. T.exact_match u s.prefix) eq
          ∙ exact_match-insert_same p T lawful t n s.prefix e same)
      | inl (empty, eq) ↦ (
        λ (x, found, l). absurd ((exact_match-store_same s.prefix x same found).1 empty),
        λ l. absurd (nothing_listed empty l),
      )
    ]
      where
        nothing_listed : e.routes ≡ [] → Listed s (get_with_mask p e mask) → ⊥
        nothing_listed h l =
            subst (λ x. Listed s (routes_with_mask p mask x)) h (unfold get_with_mask in l)
