-- ===== src/Tests/Networks.antt =====
-- The theorems on the network of a topology and on its start, applied on the sample platform.
use netfabric_bgp_router.Prelude.{
  ℕ, ◌+◌, ◌*◌, ◌≡◌, refl, true, false, none, some, All, [], ◌∷◌, ok, arith, ℕ_discrete,
}
use netfabric_bgp_router.Prelude.HashMap
use netfabric_bgp_router.Channel.{Store, running}
use netfabric_bgp_router.MessageBus.{MessageBus}
use netfabric_bgp_router.MessageBus as Bus
use netfabric_bgp_router.Network.{NetworkManager, done}
use netfabric_bgp_router.Network.Commands.{Holds}
use netfabric_bgp_router.Network.Machines.{Spawning, start, stop}
use netfabric_bgp_router.Network.Start.{IsFreshSpawning, Has, start_total}
use netfabric_bgp_router.Router
use netfabric_bgp_router.ThreadManager.{ThreadManager}
use netfabric_bgp_router.ThreadManager as Threads
use netfabric_bgp_router.Network.Build.{Supply, from_topology}
use netfabric_bgp_router.Network.Edges.{IsFresh}
use netfabric_bgp_router.Network.FromTopology.{NoLoops, from_topology_total}
use netfabric_bgp_router.Network.Expected.{sessions_of, with_links}
use netfabric_bgp_router.Network.Vertices.{Runs}
use netfabric_bgp_router.RibInterface.{Ribs}
use netfabric_bgp_router.Session.{default_session}
use netfabric_bgp_router.Topology.{
  NetworkTopologyEdge, any_vertex, put_vertex, ensure_vertex, add_edge, add_edges, from_edges,
}
use netfabric_bgp_router.Topology.Laws.{from_edges-IsValid}
use netfabric_bgp_router.Topology.Routers.{NetworkTopology, default_vertex}
use netfabric_bgp_router.Tests.Sample.{sample}
use netfabric_bgp_router.Tests.Ribs.{table}

abbrev cable : NetworkTopologyEdge
cable = record { session_configs = (default_session, default_session); link_buffer_size = 10 }

abbrev triangle : NetworkTopology sample
triangle =
    from_edges (sample.uuid_discrete) default_vertex
      ((1, 2, cable) ∷ (2, 3, cable) ∷ (3, 1, cable) ∷ [])

-- The channels of the `k`-th link are `2 k` and `2 k + 1`.
abbrev supply : Supply sample
supply = record {
  process_id = λ k. k;
  client_id = λ k. k;
  link = λ k. record {
    locked1 = true;
    locked2 = true;
    channel1 = 2 * k;
    channel2 = 2 * k + 1;
    end1 = 0;
    end2 = 0;
  };
  session1 = λ k. k;
  session2 = λ k. k;
}

supply-IsFresh : IsFresh sample supply
supply-IsFresh = record {
  lock1 = λ j. refl;
  lock2 = λ j. refl;
  differ = λ j e. omega (arith, e);
  apart1 = λ i j h. ((λ e. omega (arith, h, e)), (λ e. omega (arith, h, e)));
  apart2 = λ i j h. ((λ e. omega (arith, h, e)), (λ e. omega (arith, h, e)));
}

abbrev bus : MessageBus sample
bus = Bus.new sample

triangle-NoLoops : NoLoops sample table supply triangle.edges
unfolding from_edges add_edges add_edge ensure_vertex any_vertex put_vertex ℕ_discrete
triangle-NoLoops =
    ((λ e. omega (arith, e)), ((λ e. omega (arith, e)), ((λ e. omega (arith, e)), tt)))

from_topology_total_example :
    (network : NetworkManager sample table) × (bus' : MessageBus sample) × (ribs' : Ribs sample
      table)
    × (from_topology sample table supply triangle [] bus []
        ≡ ok ((done network, bus', with_links sample supply [] triangle.edges), ribs'))
    × ((id : ℕ)
        → any_vertex (sample.uuid_discrete) id triangle.vertices ≡ true
        → Runs sample table network.routers id (sessions_of sample supply id 0 0 triangle.edges))
    × ((id : ℕ)
        → any_vertex (sample.uuid_discrete) id triangle.vertices ≡ false
        → HashMap.get (sample.uuid_discrete) id network.routers ≡ none)
    × (network.router_sm ≡ [])
from_topology_total_example =
    from_topology_total sample table supply triangle [] bus []
      (from_edges-IsValid (sample.uuid_discrete) default_vertex
        ((1, 2, cable) ∷ (2, 3, cable) ∷ (3, 1, cable) ∷ []))
      triangle-NoLoops supply-IsFresh (λ j h. ((refl, refl), (refl, refl)))

-- Two routers, whose machines run on the channels 0 and 1.
abbrev manager : NetworkManager sample table
manager = record {
  rib = 0;
  routers = (1, Router.new sample table 1) ∷ (2, Router.new sample table 2) ∷ [];
  router_sm = [];
}

abbrev threads : ThreadManager sample ℕ
threads = Threads.new sample

abbrev spawning : Spawning sample table ℕ
spawning = record {
  locked = λ k. true;
  channel_id = λ k. k;
  thread_id = λ k. k;
  spawn = λ r rx. record { is_finished = false; ending = ok rx };
}

spawning-IsFresh : IsFreshSpawning sample table spawning
spawning-IsFresh = record { locks = λ j. refl; apart = λ i j h e. omega (arith, h, e) }

start_total_example :
    (n' : NetworkManager sample table) × (tm' : ThreadManager sample ℕ) × (store' : Store sample)
    × (start sample table spawning manager threads [] ≡ some (done tt, n', tm', store'))
    × (n'.routers ≡ [])
    × All (Holds sample store' (running ∷ [])) n'.router_sm
    × ((id : ℕ)
        → Has sample table spawning manager.routers id
        → Has sample table spawning n'.router_sm id × (stop sample table n' store' ≡ none))
start_total_example =
    start_total sample table spawning manager threads [] spawning-IsFresh (λ j h. (refl, refl)) refl
