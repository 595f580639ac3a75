-- ===== src/Rib/View.antt =====
-- What registering a router in `RouterMaskMap::get` changes of what the routers see in the RIB
-- (components/bgp/bgp_rib.rs): nothing.
use netfabric_bgp_router.Prelude.{
  ℕ, ◌^◌, ◌<◌, ◌≡◌, ◌≢◌, ◌↔◌, inl, inr, refl, sym, ◌∙◌, ap, subst, some, List, [], ◌∷◌, arith,
  Option-cases,
}
use netfabric_bgp_router.Prelude.Bits.{bit}
use netfabric_bgp_router.Prelude.HashMap
use netfabric_bgp_router.Platform.{Platform}
use netfabric_bgp_router.PrefixTable.{PrefixTable}
use netfabric_bgp_router.RouterMask
use netfabric_bgp_router.RouterMask.{RouterMask, RouterMaskMap}
use netfabric_bgp_router.RouterMask.Laws.{Has}
use netfabric_bgp_router.RouterMask.MapLaws.{Granted}
use netfabric_bgp_router.Route.{Route}
use netfabric_bgp_router.RibEntry.{BgpRibEntry, Item, get_with_mask}
use netfabric_bgp_router.RibEntry.Laws.{Knows, Knows-iff}
use netfabric_bgp_router.RibEntry.Valid.{masks-Bounded}
use netfabric_bgp_router.Rib.{BgpRib}
use netfabric_bgp_router.Rib.Valid.{
  Registered, IsValid, SeesWith, Sees, not-SeesWith_zero, try_get_known, try_get_unknown,
}

Knows-Registered :
    (p : Platform) (mask k : ℕ) (s : Route p) (items : List (Item p))
    → Registered p mask items
    → Knows p k s items
    → Has k mask
Knows-Registered p mask k s [] h l = absurd l
Knows-Registered p mask k s (i ∷ rest) h (inl here) = h.0 k here.0
Knows-Registered p mask k s (i ∷ rest) h (inr l) = Knows-Registered p mask k s rest h.1 l

module _ (p : Platform) (T : PrefixTable p (BgpRibEntry p)) where
  -- The router's mask now, and that its part of the table is what it saw before.
  pub data View (rib : BgpRib p T) (m' : RouterMaskMap p.Uuid) (id : p.Uuid) (k : ℕ) (j : p.Uuid)
      : Type 0 where
    known :
        (i : ℕ)
        → i < 64
        → RouterMask.try_get p.uuid_discrete m' j ≡ 2 ^ i
        → ((i ≡ k) ↔ (id ≡ j))
        → ((s : Route p) → SeesWith p T rib.treebitmap (2 ^ i) s ↔ Sees p T rib j s)
        → View rib m' id k j
    unknown :
        id ≢ j
        → RouterMask.try_get p.uuid_discrete m' j ≡ 0
        → ((s : Route p) → ¬ Sees p T rib j s)
        → View rib m' id k j

  module _ (rib : BgpRib p T) (v : IsValid p T rib) (id : p.Uuid) (k : ℕ)
      (m' : RouterMaskMap p.Uuid) (g : Granted p.uuid_discrete rib.router_mask_map id k m') where
    -- Nothing in the table belongs to a bit that was free.
    not-SeesWith_free :
        bit k rib.router_mask_map.mask ≡ 0 → (s : Route p) → ¬ SeesWith p T rib.treebitmap (2 ^ k) s
    unfolding get_with_mask
    not-SeesWith_free free s (e, found, l) =
        let entry = v.entries s.prefix e found in
        let knows =
          (Knows-iff p k s e.routes g.in_word (masks-Bounded p e.routes entry.valid.masks)).0 l in
        let has = Knows-Registered p _ k s e.routes entry.registered knows in omega (arith, has)

    same-Sees :
        (j : p.Uuid) (mask : RouterMask)
        → RouterMask.try_get p.uuid_discrete rib.router_mask_map j ≡ mask
        → (s : Route p) → SeesWith p T rib.treebitmap mask s ↔ Sees p T rib j s
    same-Sees j mask e s = (
      λ l. subst (λ x. SeesWith p T rib.treebitmap x s) (sym e) l,
      λ l. subst (λ x. SeesWith p T rib.treebitmap x s) e l,
    )

    own_view : (s : Route p) → SeesWith p T rib.treebitmap (2 ^ k) s ↔ Sees p T rib id s
    own_view s = elim g.origin [
      | inl old ↦ same-Sees id (2 ^ k) (try_get_known p T _ id _ old) s
      | inr new ↦
          let zero_mask = try_get_unknown p T _ id v.masks new.0 in
          (
            λ l. absurd (not-SeesWith_free new.1 s l),
            λ l. absurd (not-SeesWith_zero p T _ s ((same-Sees id 0 zero_mask s).1 l)),
          )
    ]

    -- Each router sees what it saw, under the mask that the new map has for it.
    pub View-of : (j : p.Uuid) → View rib m' id k j
    View-of j = elim (p.uuid_discrete id j) [
      | yes same ↦
          known k g.in_word
            (try_get_known p T m' j _
              (subst (λ x. HashMap.get p.uuid_discrete x m'.map ≡ some (2 ^ k)) same g.held))
            (λ _. same, λ _. refl)
            (λ s.
              subst (λ x. SeesWith p T rib.treebitmap (2 ^ k) s ↔ Sees p T rib x s) same
                (own_view s))
      | no other ↦ elim (Option-cases (HashMap.get p.uuid_discrete j rib.router_mask_map.map)) [
        | inl e ↦ unknown other (try_get_unknown p T m' j g.valid (g.others j other ∙ e)) (λ s l.
            not-SeesWith_zero p T _ s ((same-Sees j 0 (try_get_unknown p T _ j v.masks e) s).1 l))
        | inr (mask, e) ↦
            let (i, lt, eq, has) = v.masks.single j mask e in
            let held : HashMap.get p.uuid_discrete j m'.map ≡ some (2 ^ i) =
              g.others j other ∙ e ∙ ap some eq in
            known i lt (try_get_known p T m' j _ held)
              (
                λ same. g.valid.distinct id j (2 ^ k) g.held (held ∙ ap (λ x. some (2 ^ x)) same),
                λ same. absurd (other same),
              )
              (λ s. same-Sees j (2 ^ i) (try_get_known p T _ j mask e ∙ eq) s)
      ]
    ]
