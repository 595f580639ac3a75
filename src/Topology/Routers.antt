-- ===== src/Topology/Routers.antt =====
-- `NetworkTopology` (utils/topology.rs): a topology of routers and the links between them.
use netfabric_bgp_router.Prelude.{ℕ}
use netfabric_bgp_router.Platform.{Platform}
use netfabric_bgp_router.Session.{SessionConfig, ProcessConfig, default_process}
use netfabric_bgp_router.Router.{RouterOptions, no_options}
use netfabric_bgp_router.Topology as Graph
use netfabric_bgp_router.Topology.{
  Topology, NetworkTopologyVertex, NetworkTopologyEdge, add_vertex, add_edge,
}

-- The derived default of a vertex.
abbrev pub default_vertex : NetworkTopologyVertex
default_vertex = record { router_options = no_options; process_config = default_process }

module _ (p : Platform) where
  -- `NetworkTopology`, and `NetworkTopology::new`
  abbrev pub NetworkTopology : Type 0
  NetworkTopology = Topology p.Uuid NetworkTopologyVertex NetworkTopologyEdge

  abbrev pub new : NetworkTopology
  new = Graph.new

  -- `NetworkTopology::add_router`, with the new identifier as an argument.
  unfoldable pub add_router :
      p.Uuid → NetworkTopology → RouterOptions → ProcessConfig → p.Uuid × NetworkTopology
  add_router id t router_options process_config = (
    id,
    add_vertex p.uuid_discrete t id
        (record { router_options = router_options; process_config = process_config }),
  )

  -- `NetworkTopology::add_connection`
  unfoldable pub add_connection :
      NetworkTopology → p.Uuid → p.Uuid → SessionConfig × SessionConfig → ℕ → NetworkTopology
  add_connection t id1 id2 session_configs link_buffer_size =
      add_edge p.uuid_discrete default_vertex t (
        id1,
        id2,
        record { session_configs = session_configs; link_buffer_size = link_buffer_size },
      )
