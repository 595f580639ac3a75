-- ===== src/Network/Build.antt =====
-- `NetworkManager::from_topology` (modules/network.rs): a router for each vertex, and a pair of
-- sessions for each edge.
use netfabric_bgp_router.Prelude.{ℕ, suc, Option, none, some, List, [], ◌∷◌, Outcome, ok, ◌>>=◌}
use netfabric_bgp_router.Prelude.HashMap
use netfabric_bgp_router.Platform.{Platform}
use netfabric_bgp_router.PrefixTable.{PrefixTable}
use netfabric_bgp_router.RibEntry.{BgpRibEntry}
use netfabric_bgp_router.Channel.{Store}
use netfabric_bgp_router.MessageBus.{MessageBus}
use netfabric_bgp_router.Session.{BgpSession}
use netfabric_bgp_router.RibInterface.{Ribs}
use netfabric_bgp_router.Process
use netfabric_bgp_router.Process.{BgpProcess}
use netfabric_bgp_router.Router
use netfabric_bgp_router.Router.{Router, process_error, add_bgp_process}
use netfabric_bgp_router.Topology.{NetworkTopologyVertex, NetworkTopologyEdge}
use netfabric_bgp_router.Topology.Routers.{NetworkTopology}
use netfabric_bgp_router.Network
use netfabric_bgp_router.Network.{
  NetworkManager, NetworkResult, done, failed, router_error, Fresh, Routers, insert_router,
  get_router_pair_mut, new_bgp_session_pair,
}

module _ (p : Platform) where
  -- The identifiers that the calls for the `k`-th vertex and the `k`-th edge draw, and whether the
  -- bus can be locked in them.
  pub record Supply : Type 0 where
    pub process_id : ℕ → p.Uuid
    pub client_id : ℕ → p.Uuid
    pub link : ℕ → Fresh p
    pub session1 : ℕ → p.Uuid
    pub session2 : ℕ → p.Uuid

module _ (p : Platform) (T : PrefixTable p (BgpRibEntry p)) (supply : Supply p) where
  -- The loop over the vertices.
  unfoldable pub create_routers :
      ℕ
      → List (p.Uuid × NetworkTopologyVertex)
      → Routers p T
      → Ribs p T
      → Outcome (Routers p T × Ribs p T)
  create_routers k [] routers ribs = ok (routers, ribs)
  create_routers k ((id, vertex) ∷ rest) routers ribs = do
    (process, ribs') ←
        (Process.from_config p T (supply.process_id k) (supply.client_id k) ribs
          vertex.process_config)
    let router = Router.set_options p T (Router.new p T id) vertex.router_options
    routers' ← insert_router p T routers (add_bgp_process p T router process)
    create_routers (suc k) rest routers' ribs'

  -- A session for the first process of a router.
  unfoldable pub add_to_first : Router p T → BgpSession p → Option (Router p T)
  add_to_first r s = elim r.bgp_processes [
    | [] ↦ none
    | process ∷ others ↦
        some (record r { bgp_processes = Process.add_session p T process s ∷ others })
  ]

  -- The sessions of an edge for the first processes of its two routers.
  unfoldable pub add_sessions :
      Routers p T
      → p.Uuid
      → p.Uuid
      → BgpSession p
      → BgpSession p
      → Outcome (NetworkResult p (Routers p T))
  add_sessions routers id1 id2 s1 s2 = do
    pair ← get_router_pair_mut p T routers id1 id2
    ok (elim pair [
      | failed e ↦ failed e
      | done (r1, r2) ↦ elim (add_to_first r1 s1) [
        | none ↦
            failed (router_error (process_error "Router has more or less than one BGP process"))
        | some r1' ↦ elim (add_to_first r2 s2) [
          | none ↦
              failed (router_error (process_error "Router has more or less than one BGP process"))
          | some r2' ↦ done (
              HashMap.insert p.uuid_discrete id2 r2'
                (HashMap.insert p.uuid_discrete id1 r1' routers))
        ]
      ]
    ])

  -- The loop over the edges, which ends with the first error.
  unfoldable pub create_sessions :
      ℕ
      → List (p.Uuid × p.Uuid × NetworkTopologyEdge)
      → Routers p T
      → MessageBus p
      → Store p
      → Outcome (NetworkResult p (Routers p T) × MessageBus p × Store p)
  create_sessions k [] routers bus store = ok (done routers, bus, store)
  create_sessions k ((id1, id2, edge) ∷ rest) routers bus store =
      let (pair, bus', store') =
        new_bgp_session_pair p (supply.link k) (supply.session1 k) (supply.session2 k) bus store
          edge.session_configs.0 edge.session_configs.1 edge.link_buffer_size in
      elim pair [
        | failed e ↦ ok (failed e, bus', store')
        | done (s1, s2) ↦ do
          added ← add_sessions routers id1 id2 s1 s2
          elim added [
            | failed e ↦ ok (failed e, bus', store')
            | done routers' ↦ create_sessions (suc k) rest routers' bus' store'
          ]
      ]

  -- `NetworkManager::from_topology`, over the bus of the thread manager.
  unfoldable pub from_topology :
      NetworkTopology p
      → Ribs p T
      → MessageBus p
      → Store p
      → Outcome ((NetworkResult p (NetworkManager p T) × MessageBus p × Store p) × Ribs p T)
  from_topology t ribs bus store = do
    let (network, ribs1) = Network.new p T ribs
    (routers, ribs2) ← create_routers 0 t.vertices network.routers ribs1
    (result, bus', store') ← create_sessions 0 t.edges routers bus store
    ok (
      (
        elim result [
          | failed e ↦ failed e
          | done routers' ↦ done (record network { routers = routers' })
        ],
        bus',
        store',
      ),
      ribs2,
    )

  -- `NetworkManager::new_router_with_bgp_process`, with the new identifier as an argument.
  unfoldable pub new_router_with_bgp_process :
      p.Uuid → Routers p T → BgpProcess p T → Outcome (p.Uuid × Routers p T)
  new_router_with_bgp_process id routers process = do
    routers' ←
        (insert_router p T routers
          (add_bgp_process p T (Router.new p T id) (Process.set_router_id p T process id)))
    ok (id, routers')
