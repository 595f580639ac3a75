-- ===== src/Network/FromTopology.antt =====
-- The network that `from_topology` (modules/network.rs) builds: a router for each vertex, with a
-- session for each end of an edge, joined to the session at the other end.
use netfabric_bgp_router.Prelude.{
  ℕ, suc, ◌+◌, ◌≡◌, ◌≢◌, refl, sym, ap, ◌∙◌, subst, true, false, none, List, [], ◌∷◌, ◌++◌, All,
  length, arith, ok,
}
use mathlib.Core.List.{append_assoc, append-nil}
use netfabric_bgp_router.Prelude.HashMap
use netfabric_bgp_router.Platform.{Platform}
use netfabric_bgp_router.PrefixTable.{PrefixTable}
use netfabric_bgp_router.RibEntry.{BgpRibEntry}
use netfabric_bgp_router.Channel.{Store}
use netfabric_bgp_router.MessageBus.{MessageBus}
use netfabric_bgp_router.RibInterface.{Ribs}
use netfabric_bgp_router.Topology.{NetworkTopologyEdge, any_vertex}
use netfabric_bgp_router.Topology.Laws.{IsValid, Joins}
use netfabric_bgp_router.Topology.Routers.{NetworkTopology}
use netfabric_bgp_router.Network
use netfabric_bgp_router.Network.{NetworkManager, Routers, done, new_bgp_session_pair}
use netfabric_bgp_router.Network.Build.{Supply, create_sessions, from_topology}
use netfabric_bgp_router.Network.Links.{with_taken}
use netfabric_bgp_router.Session.{BgpSession}
use netfabric_bgp_router.Network.Expected.{
  first_end, second_end, sessions_of, with_links, linked_by, length-linked_by, pair_made,
}
use netfabric_bgp_router.Network.Vertices.{Runs, create_routers_total}
use netfabric_bgp_router.Network.Edges.{given, sessions_added, IsFresh, Vacant, Vacant-suc}

module _ (p : Platform) (T : PrefixTable p (BgpRibEntry p)) (supply : Supply p) where
  -- An edge between two different routers.
  abbrev Linkable : Routers p T → p.Uuid × p.Uuid × NetworkTopologyEdge → Type 0
  Linkable routers e =
      (e.0 ≢ e.1)
      × ((ss : List (BgpSession p)) × Runs p T routers e.0 ss)
      × ((ss : List (BgpSession p)) × Runs p T routers e.1 ss)

  Linkable-kept :
      (routers routers' : Routers p T) (grow : p.Uuid → List (BgpSession p))
      → ((id : p.Uuid) (ss : List (BgpSession p))
          → Runs p T routers id ss
          → Runs p T routers' id (ss ++ grow id))
      → (es : List (p.Uuid × p.Uuid × NetworkTopologyEdge)) → All (Linkable routers) es
      → All (Linkable routers') es
  Linkable-kept routers routers' grow kept [] h = tt
  Linkable-kept routers routers' grow kept ((a, b, edge) ∷ es) (l, rest) =
      let (differ, (na, at_a), (nb, at_b)) = l in
      (
        (differ, (na ++ grow a, kept a na at_a), (nb ++ grow b, kept b nb at_b)),
        Linkable-kept routers routers' grow kept es rest,
      )

  create_sessions_total :
      (fresh : IsFresh p supply) (k : ℕ) (es : List (p.Uuid × p.Uuid × NetworkTopologyEdge))
      (routers : Routers p T) (bus : MessageBus p) (store : Store p)
      → Vacant p supply bus k
      → All (Linkable routers) es
      → (routers' : Routers p T) × (bus' : MessageBus p) × (create_sessions p T supply k es routers
            bus store
          ≡ ok (done routers', bus', with_links p supply store es))
        × ((id : p.Uuid) (ss : List (BgpSession p))
            → Runs p T routers id ss
            → Runs p T routers' id (ss ++ sessions_of p supply id k (length store) es))
        × ((id : p.Uuid)
            → HashMap.get p.uuid_discrete id routers ≡ none
            → HashMap.get p.uuid_discrete id routers' ≡ none)
  unfolding create_sessions sessions_of with_links
  create_sessions_total fresh k [] routers bus store v l = (
    routers,
    bus,
    refl,
    λ id ss h. subst (Runs p T routers id) (sym (append-nil ss)) h,
    λ id bare. bare,
  )
  create_sessions_total fresh k ((a, b, edge) ∷ es) routers bus store v
        ((differ, (na, at_a), (nb, at_b)), l) =
      let (free1, free2) = v k (omega arith) in
      let (n, m, made) = pair_made p supply k edge bus store fresh free1 free2 in
      let bus1 =
        with_taken p (with_taken p bus n (supply.link k).channel1) m (supply.link k).channel2 in
      let s1 = first_end p supply k (length store) (length store + 1) edge in
      let s2 = second_end p supply k (length store) (length store + 1) edge in
      let (routers1, added, grown, none_new) =
        sessions_added p T supply routers a b s1 s2 na nb at_a at_b differ in
      let linkable =
        Linkable-kept routers routers1 (λ id. given p T supply id a b s1 s2) grown es l in
      let (routers', bus', rest, all, none_left) =
        create_sessions_total fresh (suc k) es routers1 bus1 (linked_by p supply store edge)
          (Vacant-suc p supply bus k n m fresh v) linkable in
      (
        routers',
        bus',
        ground (arith, made, added, rest),
        λ id ss h.
            subst (Runs p T routers' id)
              (append_assoc ss (given p T supply id a b s1 s2) _
                ∙ ap
                    (λ x.
                      ss ++ (given p T supply id a b s1 s2 ++ sessions_of p supply id (suc k) x es))
                    (length-linked_by p supply store edge))
              (all id _ (grown id ss h)),
        λ id bare. none_left id (none_new id bare),
      )

  -- No edge joins a vertex to itself.
  abbrev pub NoLoops : List (p.Uuid × p.Uuid × NetworkTopologyEdge) → Type 0
  NoLoops = All (λ e. e.0 ≢ e.1)

  edges-Linkable :
      (t : NetworkTopology p) (routers : Routers p T)
      → ((id : p.Uuid) → any_vertex p.uuid_discrete id t.vertices ≡ true → Runs p T routers id [])
      → (es : List (p.Uuid × p.Uuid × NetworkTopologyEdge))
      → All (Joins p.uuid_discrete t.vertices) es
      → NoLoops es
      → All (Linkable routers) es
  edges-Linkable t routers each [] j n = tt
  edges-Linkable t routers each ((a, b, edge) ∷ es) ((ja, jb), js) (ne, ns) =
      ((ne, ([], each a ja), ([], each b jb)), edges-Linkable t routers each es js ns)

  -- For a valid topology without loops, if the identifiers of the channels are new, `from_topology`
  -- neither panics nor fails. Every vertex gets a router with one process, whose sessions are those
  -- of the edges that the vertex is an end of, in their order: each has the configuration of its
  -- end and the identifiers drawn for it, sends on one of the two channels of its edge and receives
  -- on the other, where the session at the other end of the edge receives and sends. Nothing else
  -- gets a router. The store gains these two channels for each edge, empty and of the capacity of
  -- its link. No state machine runs yet.
  pub from_topology_total :
      (t : NetworkTopology p) (ribs : Ribs p T) (bus : MessageBus p) (store : Store p)
      → IsValid p.uuid_discrete t
      → NoLoops t.edges
      → IsFresh p supply
      → Vacant p supply bus 0
      → (network : NetworkManager p T) × (bus' : MessageBus p) × (ribs' : Ribs p T) × (from_topology
            p T supply t ribs bus store
          ≡ ok ((done network, bus', with_links p supply store t.edges), ribs'))
        × ((id : p.Uuid)
            → any_vertex p.uuid_discrete id t.vertices ≡ true
            → Runs p T network.routers id (sessions_of p supply id 0 (length store) t.edges))
        × ((id : p.Uuid)
            → any_vertex p.uuid_discrete id t.vertices ≡ false
            → HashMap.get p.uuid_discrete id network.routers ≡ none)
        × (network.router_sm ≡ [])
  unfolding from_topology Network.new
  from_topology_total t ribs bus store valid no_loops fresh vacant =
      let (manager, ribs0) = Network.new p T ribs in
      let (routers, ribs1, made, each, kept, others) =
        create_routers_total p T supply 0 t.vertices [] ribs0 valid.distinct (λ id h. refl) in
      let linkable = edges-Linkable t routers each t.edges valid.joined no_loops in
      let (routers', bus', linked, all, none_left) =
        create_sessions_total fresh 0 t.edges routers bus store vacant linkable in
      (
        record manager { routers = routers' },
        bus',
        ribs1,
        ground (arith, made, linked),
        λ id h. all id [] (each id h),
        λ id h. none_left id (others id h refl),
        refl,
      )
