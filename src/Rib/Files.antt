-- ===== src/Rib/Files.antt =====
-- Copies of a RIB (components/bgp/bgp_rib.rs): by `clone`, and through a file.
use netfabric_bgp_router.Prelude.{
  ◌≡◌, ◌↔◌, ◌⊎◌, inl, inr, refl, sym, ◌∙◌, ap, subst, true, Option, some, List, [], ◌∷◌, map,
  Listed, String, arith, Option-cases,
}
use mathlib.Core.Option.{none-ne-some}
use netfabric_bgp_router.Platform.{Platform, IpAddr}
use netfabric_bgp_router.PrefixTable.{
  PrefixTable, IsLawful, exact_match-insert_same, exact_match-insert_ne,
}
use netfabric_bgp_router.RouterMask
use netfabric_bgp_router.Route.{Route}
use netfabric_bgp_router.RibEntry.{BgpRibEntry, get_with_mask}
use netfabric_bgp_router.Rib.{
  BgpRib, new, clone, clone_table, export_routes, import_routes, import_from_file,
  get_routes_for_router, eq, entries-discrete,
}
use netfabric_bgp_router.Rib.Valid.{IsValid, Sees, SeesWith-same, routes_with_mask-zero}

module _ (p : Platform) (T : PrefixTable p (BgpRibEntry p))
    (lawful : IsLawful p (BgpRibEntry p) T) where
  -- Entering a list of entries leaves at a prefix the value that the list has for it, or what was
  -- there if the list does not name the prefix.
  clone_table-exact_match :
      (es : List (p.IpNetwork × BgpRibEntry p)) (t : T.Table) (n : p.IpNetwork)
      (v : Option (BgpRibEntry p))
      → ((a : BgpRibEntry p) → Listed (n, a) es → v ≡ some a)
      → (T.exact_match t n ≡ v) ⊎ ((a : BgpRibEntry p) × Listed (n, a) es)
      → T.exact_match (clone_table p T t es) n ≡ v
  unfolding clone_table
  clone_table-exact_match [] t n v all (inl e) = e
  clone_table-exact_match [] t n v all (inr (a, l)) = absurd l
  clone_table-exact_match ((m, b) ∷ es) t n v all h = elim (p.network_discrete m n) [
    | yes e ↦
        let here : Listed (n, b) ((m, b) ∷ es) = inl (ap (λ x. (x, b)) e) in
        clone_table-exact_match es (T.insert t m b) n v (λ a l. all a (inr l))
          (inl (exact_match-insert_same p T lawful t m n b e ∙ sym (all b here)))
    | no ne ↦
        clone_table-exact_match es (T.insert t m b) n v (λ a l. all a (inr l))
          (elim h [
            | inl e ↦ inl (exact_match-insert_ne p T lawful t m n b ne ∙ e)
            | inr (a, inl same) ↦ absurd (ne (ap (λ x. x.0) same))
            | inr (a, inr l) ↦ inr (a, l)
          ])
  ]

  copied_table :
      (t : T.Table) (n : p.IpNetwork)
      → T.exact_match (clone_table p T T.empty (T.iter t)) n ≡ T.exact_match t n
  copied_table t n =
      clone_table-exact_match (T.iter t) T.empty n (T.exact_match t n)
        (λ a l. (lawful.iter_iff t n a).0 l)
        (elim (Option-cases (T.exact_match t n)) [
          | inl e ↦ inl (lawful.exact_match-empty n ∙ sym e)
          | inr (a, e) ↦ inr (a, (lawful.iter_iff t n a).1 e)
        ])

  -- A clone has the entries of the RIB at all prefixes, and its masks.
  pub clone_lem :
      (rib : BgpRib p T)
      → ((n : p.IpNetwork)
          → T.exact_match (clone p T rib).treebitmap n ≡ T.exact_match rib.treebitmap n)
        × ((clone p T rib).router_mask_map ≡ rib.router_mask_map)
  unfolding clone
  clone_lem rib = (λ n. copied_table rib.treebitmap n, refl)

  -- The clone of a valid RIB is valid, and every router sees in it exactly what it sees in the RIB.
  pub clone-Sees :
      (rib : BgpRib p T)
      → IsValid p T rib
      → IsValid p T (clone p T rib)
        × ((j : p.Uuid) (s : Route p) → Sees p T (clone p T rib) j s ↔ Sees p T rib j s)
  unfolding clone
  clone-Sees rib v = (
    record {
      masks = v.masks;
      entries = λ n e found. v.entries n e (sym (copied_table rib.treebitmap n) ∙ found);
    },
    λ j s.
        SeesWith-same p T rib.treebitmap (clone_table p T T.empty (T.iter rib.treebitmap))
          (RouterMask.try_get p.uuid_discrete rib.router_mask_map j) s
          (copied_table rib.treebitmap s.prefix),
  )

  import_routes-clone_table :
      (from_str : String → Option p.IpNetwork)
      → ((n : p.IpNetwork) → from_str (p.network_to_string n) ≡ some n)
      → (es : List (p.IpNetwork × BgpRibEntry p)) (rib : BgpRib p T)
      → import_routes p T rib
          (map (λ (network, entry). (p.network_to_string network, entry)) es)
          from_str
        ≡ record rib { treebitmap = clone_table p T rib.treebitmap es }
  unfolding import_routes clone_table
  import_routes-clone_table from_str back [] rib = refl
  import_routes-clone_table from_str back ((n, e) ∷ es) rib =
      rw (back n, import_routes)
        (import_routes-clone_table from_str back es
          (record rib { treebitmap = T.insert rib.treebitmap n e }))

  unmasked :
      (t : T.Table) (address : IpAddr) (id : p.Uuid)
      → get_routes_for_router p T
          (record { router_mask_map = RouterMask.new; treebitmap = t })
          address
          id
        ≡ []
  unfolding get_routes_for_router RouterMask.try_get get_with_mask
  unmasked t address id = elim (Option-cases (T.longest_match t address)) [
    | inl e ↦ rw (e, get_routes_for_router)
    | inr ((n, entry), e) ↦ rw (e, get_routes_for_router) (routes_with_mask-zero p T entry.routes)
  ]

  -- Reading back what `export_to_file` wrote gives every prefix its entry again, if networks are
  -- read back as they are printed, and entries as they are. The masks of the routers are not in the
  -- file: whatever was written, no router has a route in the RIB that was read.
  pub import_export :
      (from_str : String → Option p.IpNetwork)
      → ((n : p.IpNetwork) → from_str (p.network_to_string n) ≡ some n)
      → (rib : BgpRib p T)
      → ((n : p.IpNetwork)
          → T.exact_match (import_from_file p T (export_routes p T rib) from_str).treebitmap n
            ≡ T.exact_match rib.treebitmap n)
        × ((address : IpAddr) (id : p.Uuid)
            → get_routes_for_router p T
                (import_from_file p T (export_routes p T rib) from_str)
                address
                id
              ≡ [])
  unfolding import_from_file export_routes
  import_export from_str back rib =
      let same = import_routes-clone_table from_str back (T.iter rib.treebitmap) (new p T) in
      (
        λ n. rw same (copied_table rib.treebitmap n),
        λ address id.
            rw same (unmasked (clone_table p T T.empty (T.iter rib.treebitmap)) address id),
      )

  same_iter :
      (t u : T.Table) (n : p.IpNetwork)
      → T.iter t ≡ T.iter u
      → T.exact_match t n ≡ T.exact_match u n
  same_iter t u n e = elim (Option-cases (T.exact_match t n)) [
    | inr (a, found) ↦
        found
        ∙ sym
            ((lawful.iter_iff u n a).0 (subst (Listed (n, a)) e ((lawful.iter_iff t n a).1 found)))
    | inl absent ↦ elim (Option-cases (T.exact_match u n)) [
      | inl absent' ↦ absent ∙ sym absent'
      | inr (a, found) ↦ absurd (
          none-ne-some a (
            sym absent
            ∙ (lawful.iter_iff t n a).0
                (subst (Listed (n, a)) (sym e) ((lawful.iter_iff u n a).1 found))))
    ]
  ]

  -- RIBs that are equal by `==` have the same entry at every prefix.
  pub eq-exact_match :
      (rib other : BgpRib p T)
      → eq p T rib other ≡ true
      → (n : p.IpNetwork) → T.exact_match rib.treebitmap n ≡ T.exact_match other.treebitmap n
  unfolding eq
  eq-exact_match rib other h n =
      elim (entries-discrete p (T.iter rib.treebitmap) (T.iter other.treebitmap)) [
        | yes e ↦ same_iter rib.treebitmap other.treebitmap n e
        | no ne ↦ absurd (ground arith)
      ]
