-- ===== src/Rib/Valid.antt =====
-- The invariant of the RIB (components/bgp/bgp_rib.rs), and the view of it that a router has.
use netfabric_bgp_router.Prelude.{
  ℕ, ◌≡◌, ◌≢◌, ◌↔◌, refl, sym, ◌∙◌, subst, none, some, List, [], ◌∷◌, All, Listed,
}
use mathlib.Core.Option.{none-ne-some, some-injective}
use netfabric_bgp_router.Prelude.HashMap
use netfabric_bgp_router.Platform.{Platform}
use netfabric_bgp_router.PrefixTable.{PrefixTable, IsLawful}
use netfabric_bgp_router.RouterMask
use netfabric_bgp_router.RouterMask.{RouterMask, RouterMaskMap, u64_max}
use netfabric_bgp_router.RouterMask.Laws.{Has}
use netfabric_bgp_router.RouterMask.MapLaws.{IsValid as IsValidMap, new-IsValid}
use netfabric_bgp_router.Route.{Route}
use netfabric_bgp_router.RibEntry.{BgpRibEntry, Item, routes_with_mask, get_with_mask}
use netfabric_bgp_router.RibEntry.Valid.{IsValid as IsValidEntry}
use netfabric_bgp_router.Rib.{BgpRib, new}

module _ (p : Platform) where
  -- Each router of each item is registered.
  abbrev pub Registered : RouterMask → List (Item p) → Type 0
  Registered mask = All (λ i. (k : ℕ) → Has k i.0 → Has k mask)

  -- What holds of the entry of a prefix.
  pub record IsEntryOf (mask : RouterMask) (n : p.IpNetwork) (e : BgpRibEntry p) : Type 0 where
    pub valid : IsValidEntry p e
    pub registered : Registered mask e.routes
    pub prefixes : All (λ i. i.1.prefix ≡ n) e.routes
    pub used : e.routes ≢ []

  pub Registered-grow :
      (fewer more : RouterMask) (items : List (Item p))
      → ((k : ℕ) → Has k fewer → Has k more)
      → Registered fewer items
      → Registered more items
  Registered-grow fewer more [] grows h = tt
  Registered-grow fewer more (i ∷ rest) grows h =
      (λ k has. grows k (h.0 k has), Registered-grow fewer more rest grows h.1)

  pub IsEntryOf-grow :
      (fewer more : RouterMask) (n : p.IpNetwork) (e : BgpRibEntry p)
      → ((k : ℕ) → Has k fewer → Has k more)
      → IsEntryOf fewer n e
      → IsEntryOf more n e
  IsEntryOf-grow fewer more n e grows h = record {
    valid = h.valid;
    registered = Registered-grow fewer more e.routes grows h.registered;
    prefixes = h.prefixes;
    used = h.used;
  }

module _ (p : Platform) (T : PrefixTable p (BgpRibEntry p)) where
  pub record IsValid (rib : BgpRib p T) : Type 0 where
    pub masks : IsValidMap p.uuid_discrete rib.router_mask_map
    pub entries :
        (n : p.IpNetwork) (e : BgpRibEntry p)
        → T.exact_match rib.treebitmap n ≡ some e
        → IsEntryOf p rib.router_mask_map.mask n e

  -- The router has no mask, and all 64 masks are taken.
  abbrev pub NoBitLeft : BgpRib p T → p.Uuid → Type 0
  NoBitLeft rib id =
      (HashMap.get p.uuid_discrete id rib.router_mask_map.map ≡ none)
      × (rib.router_mask_map.mask ≡ u64_max)

  pub new-IsValidRib : IsLawful p (BgpRibEntry p) T → IsValid (new p T)
  new-IsValidRib lawful = record {
    masks = new-IsValid p.uuid_discrete;
    entries = λ n e h. absurd (none-ne-some e (sym (lawful.exact_match-empty n) ∙ h));
  }

  -- The table has the route, in the entry of its prefix, for the routers of the mask.
  abbrev pub SeesWith : T.Table → RouterMask → Route p → Type 0
  SeesWith t mask s =
      (e : BgpRibEntry p) × (T.exact_match t s.prefix ≡ some e) × Listed s (get_with_mask p e mask)

  -- The router has the route in the RIB.
  abbrev pub Sees : BgpRib p T → p.Uuid → Route p → Type 0
  Sees rib id = SeesWith rib.treebitmap (RouterMask.try_get p.uuid_discrete rib.router_mask_map id)

  pub routes_with_mask-zero : (items : List (Item p)) → routes_with_mask p 0 items ≡ []
  unfolding routes_with_mask RouterMask.contains
  routes_with_mask-zero [] = refl
  routes_with_mask-zero (i ∷ rest) = routes_with_mask-zero rest

  -- The empty mask of an unknown router finds nothing.
  pub not-SeesWith_zero : (t : T.Table) (s : Route p) → ¬ SeesWith t 0 s
  unfolding get_with_mask
  not-SeesWith_zero t s (e, found, l) = subst (Listed s) (routes_with_mask-zero e.routes) l

  pub SeesWith-exact :
      (t : T.Table) (mask : RouterMask) (s : Route p) (e : BgpRibEntry p)
      → T.exact_match t s.prefix ≡ some e
      → SeesWith t mask s ↔ Listed s (get_with_mask p e mask)
  SeesWith-exact t mask s e h = (
    λ (x, found, l).
        subst (λ z. Listed s (get_with_mask p z mask)) (some-injective _ _ (sym found ∙ h)) l,
    λ l. (e, h, l),
  )

  pub SeesWith-same :
      (t u : T.Table) (mask : RouterMask) (s : Route p)
      → T.exact_match u s.prefix ≡ T.exact_match t s.prefix
      → SeesWith u mask s ↔ SeesWith t mask s
  SeesWith-same t u mask s h =
      (λ (x, found, l). (x, sym h ∙ found, l), λ (x, found, l). (x, h ∙ found, l))

  module _ (m : RouterMaskMap p.Uuid) (id : p.Uuid) where
    pub try_get_known :
        (r : RouterMask)
        → HashMap.get p.uuid_discrete id m.map ≡ some r
        → RouterMask.try_get p.uuid_discrete m id ≡ r
    unfolding RouterMask.try_get
    try_get_known r h = rw (h, RouterMask.try_get)

    pub try_get_unknown :
        IsValidMap p.uuid_discrete m
        → HashMap.get p.uuid_discrete id m.map ≡ none
        → RouterMask.try_get p.uuid_discrete m id ≡ 0
    unfolding RouterMask.try_get
    try_get_unknown v h = rw (h, RouterMask.try_get) v.default_empty
