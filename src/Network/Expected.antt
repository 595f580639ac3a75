-- ===== src/Network/Expected.antt =====
-- The sessions and the channels that the edges of a topology are expected to give, and the pair of
-- sessions that `from_topology` (modules/network.rs) makes for one edge.
use netfabric_bgp_router.Prelude.{
  ℕ, suc, ◌+◌, ◌≡◌, ap, ◌∙◌, true, List, [], ◌∷◌, ◌++◌, length, length-append, arith,
}
use netfabric_bgp_router.Platform.{Platform}
use netfabric_bgp_router.Channel.{Store, Channel, sync_channel}
use netfabric_bgp_router.Interface
use netfabric_bgp_router.Interface.{set_in_channel, set_out_channel}
use netfabric_bgp_router.MessageBus.{MessageBus}
use netfabric_bgp_router.Session.{BgpSession, from_config, set_interface}
use netfabric_bgp_router.Topology.{NetworkTopologyEdge}
use netfabric_bgp_router.Network.{done, new_bgp_session_pair}
use netfabric_bgp_router.Network.Build.{Supply}
use netfabric_bgp_router.Network.Edges.{at_end, IsFresh}
use netfabric_bgp_router.Network.Links.{IsFree, with_taken, sessions_done}

module _ (p : Platform) (supply : Supply p) where
  -- The session of the `k`-th edge at its first end, which sends on channel `n` and receives on
  -- channel `m`.
  abbrev pub first_end : ℕ → ℕ → ℕ → NetworkTopologyEdge → BgpSession p
  first_end k n m edge =
      let config = edge.session_configs.0 in
      set_interface p (from_config p (supply.session1 k) config) (
        set_in_channel p
          (set_out_channel p (Interface.new p (supply.link k).end1 config.interface_ip) n) m)

  -- The session at the second end, for which the channels are the other way round.
  abbrev pub second_end : ℕ → ℕ → ℕ → NetworkTopologyEdge → BgpSession p
  second_end k n m edge =
      let config = edge.session_configs.1 in
      set_interface p (from_config p (supply.session2 k) config) (
        set_out_channel p
          (set_in_channel p (Interface.new p (supply.link k).end2 config.interface_ip) n) m)

  -- The sessions of a vertex, in the order of the edges, which are numbered from `k`. Each edge takes
  -- two channels, numbered from `n`.
  unfoldable pub sessions_of :
      p.Uuid → ℕ → ℕ → List (p.Uuid × p.Uuid × NetworkTopologyEdge) → List (BgpSession p)
  sessions_of id k n [] = []
  sessions_of id k n ((a, b, edge) ∷ rest) =
      (at_end p id a (first_end k n (n + 1) edge) ++ at_end p id b (second_end k n (n + 1) edge))
      ++ sessions_of id (suc k) (n + 2) rest

  -- The store with two idle channels for each edge, of the capacity of its link.
  unfoldable pub with_links : Store p → List (p.Uuid × p.Uuid × NetworkTopologyEdge) → Store p
  with_links store [] = store
  with_links store ((a, b, edge) ∷ rest) =
      with_links (sync_channel p (sync_channel p store edge.link_buffer_size) edge.link_buffer_size)
        rest

  -- The store after the first edge.
  abbrev pub linked_by : Store p → NetworkTopologyEdge → Store p
  linked_by store edge =
      sync_channel p (sync_channel p store edge.link_buffer_size) edge.link_buffer_size

  pub length-linked_by :
      (store : Store p) (edge : NetworkTopologyEdge)
      → length (linked_by store edge) ≡ length store + 2
  length-linked_by store edge =
      let idle : Channel p = record {
        bound = edge.link_buffer_size;
        queue = [];
        receiver_alive = true;
      } in
      omega
        (arith, length-append store (idle ∷ []), length-append (store ++ (idle ∷ [])) (idle ∷ []))

  pub pair_made :
      (k : ℕ) (edge : NetworkTopologyEdge) (bus : MessageBus p) (store : Store p)
      → IsFresh p supply
      → IsFree p bus (supply.link k).channel1
      → IsFree p bus (supply.link k).channel2
      → (n : ℕ) × (m : ℕ) × (new_bgp_session_pair p
            (supply.link k)
            (supply.session1 k)
            (supply.session2 k)
            bus
            store
            edge.session_configs.0
            edge.session_configs.1
            edge.link_buffer_size
          ≡ (
            done (
              first_end k (length store) (length store + 1) edge,
              second_end k (length store) (length store + 1) edge,
            ),
            with_taken p (with_taken p bus n (supply.link k).channel1) m (supply.link k).channel2,
            linked_by store edge,
          ))
  pair_made k edge bus store fresh free1 free2 =
      let bound = edge.link_buffer_size in
      let back = length (sync_channel p store bound) in
      let bus' =
        with_taken p (with_taken p bus (length store) (supply.link k).channel1) back
          (supply.link k).channel2 in
      let idle : Channel p = record { bound = bound; queue = []; receiver_alive = true } in
      let next : back ≡ length store + 1 = omega (arith, length-append store (idle ∷ [])) in
      let made =
        sessions_done p (supply.link k) bus store bound (fresh.lock1 k) (fresh.lock2 k)
          (fresh.differ k) free1 free2 (supply.session1 k) (supply.session2 k)
          edge.session_configs.0 edge.session_configs.1 in
      (
        length store,
        back,
        made
            ∙ ap
                (λ (x : ℕ). (
                  done (first_end k (length store) x edge, second_end k (length store) x edge),
                  bus',
                  linked_by store edge,
                ))
                next,
      )
