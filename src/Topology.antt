-- ===== src/Topology.antt =====
-- utils/topology.rs: graphs with values on vertices and edges, and the topology of a network.
pub mod Laws
pub mod Routers
use netfabric_bgp_router.Prelude.{
  ℕ, Bool, true, false, ◌||◌, List, [], ◌∷◌, ◌++◌, ite, if◌then◌else◌,
}
use netfabric_bgp_router.Platform.{Platform}
use netfabric_bgp_router.Session.{SessionConfig, ProcessConfig}
use netfabric_bgp_router.Router.{RouterOptions}

-- `Topology`
pub record Topology (K V E : Type 0) : Type 0 where
  pub vertices : List (K × V)
  pub edges : List (K × K × E)

module _ {K V : Type 0} (dec : Discrete K) where
  -- `vertices.iter().any(...)`
  unfoldable pub any_vertex : K → List (K × V) → Bool
  any_vertex k [] = false
  any_vertex k ((j, v) ∷ rest) = ite (dec j k) true false || any_vertex k rest

  -- The search of `add_vertex` for the position of the vertex, and the push if there is none.
  unfoldable pub put_vertex : K → V → List (K × V) → List (K × V)
  put_vertex k v [] = (k, v) ∷ []
  put_vertex k v ((j, w) ∷ rest) = ite (dec j k) ((j, v) ∷ rest) ((j, w) ∷ put_vertex k v rest)

module _ {K V E : Type 0} where
  -- `Topology::new`
  abbrev pub new : Topology K V E
  new = record { vertices = []; edges = [] }

module _ {K V E : Type 0} (dec : Discrete K) where
  -- `Topology::contains_vertex`
  unfoldable pub contains_vertex : Topology K V E → K → Bool
  unfolding any_vertex
  contains_vertex t k = any_vertex dec k t.vertices

  -- `Topology::add_vertex`
  unfoldable pub add_vertex : Topology K V E → K → V → Topology K V E
  add_vertex t k v = record t { vertices = put_vertex dec k v t.vertices }

module _ {K V E : Type 0} (dec : Discrete K) (default_vertex : V) where
  -- The test in `add_edge` before an endpoint is added.
  unfoldable pub ensure_vertex : Topology K V E → K → Topology K V E
  unfolding add_vertex
  ensure_vertex t k = if any_vertex dec k t.vertices then t else add_vertex dec t k default_vertex

  -- `Topology::add_edge`
  unfoldable pub add_edge : Topology K V E → K × K × E → Topology K V E
  add_edge t (a, b, e) =
      let t' = ensure_vertex (ensure_vertex t a) b in
      record t' { edges = t'.edges ++ ((a, b, e) ∷ []) }

  -- The loop of `Topology::from_edges`.
  unfoldable pub add_edges : Topology K V E → List (K × K × E) → Topology K V E
  add_edges t [] = t
  add_edges t (e ∷ rest) = add_edges (add_edge t e) rest

  -- `Topology::from_edges`
  unfoldable pub from_edges : List (K × K × E) → Topology K V E
  unfolding add_edges
  from_edges edges = add_edges new edges

-- `NetworkTopologyVertex`
pub record NetworkTopologyVertex : Type 0 where
  pub router_options : RouterOptions
  pub process_config : ProcessConfig

-- `NetworkTopologyEdge`
pub record NetworkTopologyEdge : Type 0 where
  pub session_configs : SessionConfig × SessionConfig
  pub link_buffer_size : ℕ
