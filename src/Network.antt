-- ===== src/Network.antt =====
-- modules/network.rs: the routers of a network, and the links between their sessions.
pub mod Build
pub mod Machines
pub mod Links
pub mod Vertices
pub mod Edges
pub mod Expected
pub mod FromTopology
pub mod Commands
pub mod Start
use netfabric_bgp_router.Prelude.{
  ℕ, Bool, true, false, String, none, some, List, [], ◌∷◌, ◌++◌, length, map, ◌||◌, ite, Outcome,
  ok, panic, if◌then◌else◌,
}
use netfabric_bgp_router.Prelude.HashMap
use netfabric_bgp_router.Platform.{Platform, IpAddr}
use netfabric_bgp_router.PrefixTable.{PrefixTable}
use netfabric_bgp_router.RibEntry.{BgpRibEntry}
use netfabric_bgp_router.Channel.{Store}
use netfabric_bgp_router.MessageBus.{MessageBus}
use netfabric_bgp_router.ThreadManager.{
  ThreadManagerError, success, failure, get_message_bus_channel_pair_with_id,
}
use netfabric_bgp_router.Interface
use netfabric_bgp_router.Interface.{Interface, set_in_channel, set_out_channel}
use netfabric_bgp_router.Session
use netfabric_bgp_router.Session.{BgpSession, SessionConfig, set_interface}
use netfabric_bgp_router.Rib
use netfabric_bgp_router.RibInterface.{Ribs}
use netfabric_bgp_router.Process
use netfabric_bgp_router.Router
use netfabric_bgp_router.Router.{Router, RouterError}
use netfabric_bgp_router.StateMachine.Machine.{StateMachine, StateMachineError}

module _ (p : Platform) where
  -- `NetworkManagerError`, as far as the modelled functions return it.
  pub data NetworkManagerError : Type 0 where
    router_not_found : p.Uuid → NetworkManagerError
    router_error : RouterError → NetworkManagerError
    state_machine_error : StateMachineError p → NetworkManagerError
    connection_error : String → NetworkManagerError
    thread_manager_error : ThreadManagerError p → NetworkManagerError

  pub data NetworkResult (A : Type 0) : Type 0 where
    done : A → NetworkResult A
    failed : NetworkManagerError → NetworkResult A

  -- What a call meets: whether the bus can be locked for each of two channels, and the new
  -- identifiers of the two channels and of the two ends of the link.
  pub record Fresh : Type 0 where
    pub locked1 : Bool
    pub locked2 : Bool
    pub channel1 : p.Uuid
    pub channel2 : p.Uuid
    pub end1 : p.Uuid
    pub end2 : p.Uuid

  -- `NetworkManager::new_interface_pair`: two interfaces joined by a channel each way.
  unfoldable pub new_interface_pair :
      Fresh
      → MessageBus p
      → Store p
      → IpAddr
      → IpAddr
      → ℕ
      → NetworkResult (Interface p × Interface p) × MessageBus p × Store p
  new_interface_pair fresh bus store ip1 ip2 link_buffer_size =
      let interface1 = Interface.new p fresh.end1 ip1 in
      let interface2 = Interface.new p fresh.end2 ip2 in
      let (first, bus1, store1) =
        get_message_bus_channel_pair_with_id p fresh.locked1 bus store link_buffer_size
          fresh.channel1 in
      let (second, bus2, store2) =
        get_message_bus_channel_pair_with_id p fresh.locked2 bus1 store1 link_buffer_size
          fresh.channel2 in
      elim first [
        | failure e ↦ (failed (thread_manager_error e), bus1, store1)
        | success (tx1, rx1) ↦ elim second [
          | failure e ↦ (failed (thread_manager_error e), bus2, store2)
          | success (tx2, rx2) ↦ (
            done (
              set_in_channel p (set_out_channel p interface1 tx1) rx2,
              set_out_channel p (set_in_channel p interface2 rx1) tx2,
            ),
            bus2,
            store2,
          )
        ]
      ]

  -- `NetworkManager::connect_interface_pair`: one channel, from the first to the second.
  unfoldable pub connect_interface_pair :
      Fresh
      → MessageBus p
      → Store p
      → Interface p
      → Interface p
      → ℕ
      → NetworkResult (Interface p × Interface p) × MessageBus p × Store p
  connect_interface_pair fresh bus store i1 i2 link_buffer_size =
      let (result, bus', store') =
        get_message_bus_channel_pair_with_id p fresh.locked1 bus store link_buffer_size
          fresh.channel1 in
      elim result [
        | failure e ↦ (failed (thread_manager_error e), bus', store')
        | success (tx, rx) ↦ (done (set_out_channel p i1 tx, set_in_channel p i2 rx), bus', store')
      ]

  -- `NetworkManager::new_bgp_session_pair`, with the identifiers of the two sessions.
  unfoldable pub new_bgp_session_pair :
      Fresh
      → p.Uuid
      → p.Uuid
      → MessageBus p
      → Store p
      → SessionConfig
      → SessionConfig
      → ℕ
      → NetworkResult (BgpSession p × BgpSession p) × MessageBus p × Store p
  new_bgp_session_pair fresh id1 id2 bus store config1 config2 link_buffer_size =
      let (result, bus', store') =
        new_interface_pair fresh bus store config1.interface_ip config2.interface_ip
          link_buffer_size in
      elim result [
        | failed e ↦ (failed e, bus', store')
        | done (i1, i2) ↦ (
          done (
            set_interface p (Session.from_config p id1 config1) i1,
            set_interface p (Session.from_config p id2 config2) i2,
          ),
          bus',
          store',
        )
      ]

  -- `session.get_interface().is_some()`
  abbrev pub has_interface : BgpSession p → Bool
  has_interface s = elim s.interface [ none ↦ false | some _ ↦ true ]

  -- `NetworkManager::connect_bgp_session_pair`: on an error the sessions stay as they are.
  unfoldable pub connect_bgp_session_pair :
      Fresh
      → MessageBus p
      → Store p
      → BgpSession p
      → BgpSession p
      → ℕ
      → NetworkResult (BgpSession p × BgpSession p) × MessageBus p × Store p
  connect_bgp_session_pair fresh bus store s1 s2 link_buffer_size =
      let (result, bus', store') =
        new_interface_pair fresh bus store s1.config.interface_ip s2.config.interface_ip
          link_buffer_size in
      if has_interface s1 || has_interface s2
      then (failed (connection_error "BGP session already connected"), bus, store)
      else elim result [
        | failed e ↦ (failed e, bus', store')
        | done (i1, i2) ↦ (done (set_interface p s1 i1, set_interface p s2 i2), bus', store')
      ]

module _ (p : Platform) (T : PrefixTable p (BgpRibEntry p)) where
  -- The routers of `NetworkManager`; its RIB is not handed to them.
  abbrev pub Routers : Type 0
  Routers = List (p.Uuid × Router p T)

  -- `NetworkManager`, which borrows its thread manager. The state machines appear when it starts.
  pub record NetworkManager : Type 0 where
    pub rib : ℕ
    pub routers : Routers
    pub router_sm : List (p.Uuid × StateMachine p)

  -- `NetworkManager::new`, with a new RIB.
  unfoldable pub new : Ribs p T → NetworkManager × Ribs p T
  new ribs =
      (record { rib = length ribs; routers = []; router_sm = [] }, ribs ++ (Rib.new p T ∷ []))

  -- `NetworkManager::insert_router`
  unfoldable pub insert_router : Routers → Router p T → Outcome Routers
  insert_router routers router =
      if HashMap.contains_key p.uuid_discrete router.id routers
      then panic "Router already exists"
      else ok (
          HashMap.insert p.uuid_discrete router.id
            (record router {
              bgp_processes = map (λ b. Process.set_router_id p T b router.id) router.bgp_processes;
            })
            routers)

  -- `NetworkManager::create_router`
  unfoldable pub create_router : Routers → p.Uuid → Outcome Routers
  create_router routers id = insert_router routers (Router.new p T id)

  -- `NetworkManager::get_router_pair_mut`: `get_disjoint_mut` panics on two equal keys.
  unfoldable pub get_router_pair_mut :
      Routers → p.Uuid → p.Uuid → Outcome (NetworkResult p (Router p T × Router p T))
  get_router_pair_mut routers id1 id2 = elim (HashMap.get p.uuid_discrete id1 routers) [
    | none ↦ ok (failed (router_not_found id1))
    | some r1 ↦ elim (HashMap.get p.uuid_discrete id2 routers) [
      | none ↦ ok (failed (router_not_found id2))
      | some r2 ↦ ite (p.uuid_discrete id1 id2) (panic "duplicate keys found") (ok (done (r1, r2)))
    ]
  ]
