-- ===== src/Network/Vertices.antt =====
-- The routers that `from_topology` (modules/network.rs) makes for the vertices.
use netfabric_bgp_router.Prelude.{
  ℕ, suc, ◌≡◌, ◌≢◌, refl, sym, subst, ap, ◌∙◌, true, false, none, some, List, [], ◌∷◌, ◌++◌, length,
  set, get_elem?-append_last, arith, ok, inl, inr,
}
use mathlib.Core.Option.{none-ne-some}
use netfabric_bgp_router.Prelude.HashMap
use netfabric_bgp_router.Platform.{Platform}
use netfabric_bgp_router.PrefixTable.{PrefixTable}
use netfabric_bgp_router.RouterMask
use netfabric_bgp_router.RouterMask.MapLaws.{get_total, new-IsValid}
use netfabric_bgp_router.RibEntry.{BgpRibEntry}
use netfabric_bgp_router.Rib
use netfabric_bgp_router.Rib.{BgpRib, register_router}
use netfabric_bgp_router.RibInterface
use netfabric_bgp_router.RibInterface.{BgpRibInterface, Ribs, rib_at}
use netfabric_bgp_router.Session.{BgpSession, ProcessConfig}
use netfabric_bgp_router.Process
use netfabric_bgp_router.Process.{BgpProcess}
use netfabric_bgp_router.Router
use netfabric_bgp_router.Router.{Router, add_bgp_process}
use netfabric_bgp_router.Topology.{NetworkTopologyVertex, any_vertex}
use netfabric_bgp_router.Topology.Laws.{Distinct}
use netfabric_bgp_router.Network.{Routers, insert_router}
use netfabric_bgp_router.Network.Build.{Supply, create_routers}

module _ (p : Platform) (T : PrefixTable p (BgpRibEntry p)) where
  -- A router with one process that has these sessions, in this order.
  pub record HasSessions (r : Router p T) (id : p.Uuid) (sessions : List (BgpSession p))
      : Type 0 where
    pub named : r.id ≡ id
    pub process : BgpProcess p T
    pub only : r.bgp_processes ≡ process ∷ []
    pub linked : process.sessions ≡ sessions

  -- The map has such a router under the identifier.
  abbrev pub Runs : Routers p T → p.Uuid → List (BgpSession p) → Type 0
  Runs routers id sessions =
      (r : Router p T) × (HashMap.get p.uuid_discrete id routers ≡ some r)
      × HasSessions r id sessions

  registered : (id : p.Uuid) → (rib : BgpRib p T) × (register_router p T (Rib.new p T) id ≡ ok rib)
  unfolding register_router
  registered id = elim (get_total p.uuid_discrete RouterMask.new id (new-IsValid p.uuid_discrete)) [
    | inl (absent, full, e) ↦ absurd (omega (arith, full))
    | inr (k, m, e, g) ↦ (record { router_mask_map = m; treebitmap = T.empty }, rw e refl)
  ]

  interface_made :
      (ribs : Ribs p T) (id : p.Uuid)
      → (i : BgpRibInterface p T) × (ribs' : Ribs p T) × (RibInterface.new p T
            (ribs ++ (Rib.new p T ∷ []))
            (length ribs)
            id
          ≡ ok (i, ribs'))
  unfolding RibInterface.new
  interface_made ribs id =
      let found = get_elem?-append_last ribs (Rib.new p T) in
      let (rib, e) = registered id in
      let i : BgpRibInterface p T = record {
        client_id = id;
        rib = length ribs;
        announced = [];
        withdrawn = [];
      } in
      (i, set (ribs ++ (Rib.new p T ∷ [])) (length ribs) rib, ground (arith, found, e))

  process_made :
      (process_id client_id : p.Uuid) (ribs : Ribs p T) (config : ProcessConfig)
      → (b : BgpProcess p T) × (ribs' : Ribs p T) × (Process.from_config p T process_id client_id
            ribs config
          ≡ ok (b, ribs'))
        × (b.sessions ≡ [])
  unfolding Process.from_config Process.create
  process_made process_id client_id ribs config =
      let (i, ribs', e) = interface_made ribs client_id in
      (record (Process.new p T process_id i) { config = config }, ribs', rw e refl, refl)

  -- What the loop enters for a vertex.
  vertex_router : p.Uuid → NetworkTopologyVertex → BgpProcess p T → Router p T
  vertex_router id vertex process =
      add_bgp_process p T (Router.set_options p T (Router.new p T id) vertex.router_options) process

  router_inserted :
      (routers : Routers p T) (id : p.Uuid) (vertex : NetworkTopologyVertex)
      (process : BgpProcess p T)
      → HashMap.get p.uuid_discrete id routers ≡ none
      → process.sessions ≡ []
      → (r : Router p T) × (insert_router p T routers (vertex_router id vertex process)
          ≡ ok (HashMap.insert p.uuid_discrete id r routers))
        × HasSessions r id []
  unfolding insert_router vertex_router add_bgp_process
  router_inserted routers id vertex process absent bare =
      let named = Process.set_router_id p T (Process.set_router_id p T process id) id in
      let r : Router p T = record {
        id = id;
        options = vertex.router_options;
        bgp_processes = named ∷ [];
      } in
      (r, ground arith, record { named = refl; process = named; only = refl; linked = bare })

  -- No vertex of the list has a router yet.
  abbrev Unused : Routers p T → List (p.Uuid × NetworkTopologyVertex) → Type 0
  Unused routers vs =
      (id : p.Uuid)
      → any_vertex p.uuid_discrete id vs ≡ true
      → HashMap.get p.uuid_discrete id routers ≡ none

  repeated :
      (id j : p.Uuid) (vs : List (p.Uuid × NetworkTopologyVertex))
      → any_vertex p.uuid_discrete id vs ≡ false
      → any_vertex p.uuid_discrete j vs ≡ true
      → id ≢ j
  repeated id j vs no_more again e =
      differ (sym (subst (λ x. any_vertex p.uuid_discrete x vs ≡ true) (sym e) again) ∙ no_more)
    where
      differ : true ≢ false
      differ h = cc

  -- The loop over distinct vertices that have no router yet does not panic: each gets a router with
  -- one process without a session, the routers that are there stay, and no other is made.
  pub create_routers_total :
      (supply : Supply p) (k : ℕ) (vs : List (p.Uuid × NetworkTopologyVertex))
      (routers : Routers p T) (ribs : Ribs p T)
      → Distinct p.uuid_discrete vs
      → Unused routers vs
      → (routers' : Routers p T) × (ribs' : Ribs p T) × (create_routers p T supply k vs routers ribs
          ≡ ok (routers', ribs'))
        × ((id : p.Uuid) → any_vertex p.uuid_discrete id vs ≡ true → Runs routers' id [])
        × ((id : p.Uuid) (ss : List (BgpSession p)) → Runs routers id ss → Runs routers' id ss)
        × ((id : p.Uuid)
            → any_vertex p.uuid_discrete id vs ≡ false
            → HashMap.get p.uuid_discrete id routers ≡ none
            → HashMap.get p.uuid_discrete id routers' ≡ none)
  unfolding create_routers any_vertex vertex_router
  create_routers_total supply k [] routers ribs d u =
      (routers, ribs, refl, λ id h. absurd (ground arith), λ id ss h. h, λ id h bare. bare)
  create_routers_total supply k ((id, vertex) ∷ vs) routers ribs d u =
      let (process, ribs1, made, bare) =
        process_made (supply.process_id k) (supply.client_id k) ribs vertex.process_config in
      let absent = u id (ground arith) in
      let (r, entered, has) = router_inserted routers id vertex process absent bare in
      let routers1 = HashMap.insert p.uuid_discrete id r routers in
      let here : Runs routers1 id [] =
        (r, HashMap.get-insert_self p.uuid_discrete id r routers, has) in
      let other =
        λ (j : p.Uuid) (ne : id ≢ j). HashMap.get-insert_ne p.uuid_discrete id j r routers ne in
      let unused : Unused routers1 vs = λ j h. elim (p.uuid_discrete id j) [
        | yes e ↦ absurd (repeated id j vs d.0 h e)
        | no ne ↦ other j ne ∙ u j (ground arith)
      ] in
      let (routers', ribs', rest, each, kept, others) =
        create_routers_total supply (suc k) vs routers1 ribs1 d.1 unused in
      (
        routers',
        ribs',
        rw (made, entered) rest,
        λ j h. elim (p.uuid_discrete id j) [
          | yes e ↦ subst (λ x. Runs routers' x []) e (kept id [] here)
          | no ne ↦ each j (ground arith)
        ],
        λ j ss (old, at, has_old). elim (p.uuid_discrete id j) [
          | yes e ↦ absurd (
              none-ne-some old
                (sym absent ∙ (ap (λ x. HashMap.get p.uuid_discrete x routers) e ∙ at)))
          | no ne ↦ kept j ss (old, other j ne ∙ at, has_old)
        ],
        λ j no_more bare. elim (p.uuid_discrete id j) [
          | yes e ↦ absurd (ground (arith, e))
          | no ne ↦ others j (ground (arith, ne)) (other j ne ∙ bare)
        ],
      )
