-- ===== src/Network/Machines.antt =====
-- `NetworkManager::start` and `stop` (modules/network.rs): the routers as state machines.
use netfabric_bgp_router.Prelude.{ℕ, suc, Bool, Option, none, some, List, [], ◌∷◌}
use netfabric_bgp_router.Prelude.HashMap
use netfabric_bgp_router.Platform.{Platform}
use netfabric_bgp_router.PrefixTable.{PrefixTable}
use netfabric_bgp_router.RibEntry.{BgpRibEntry}
use netfabric_bgp_router.Channel.{Store}
use netfabric_bgp_router.ThreadManager.{ThreadManager, JoinHandle}
use netfabric_bgp_router.Router.{Router}
use netfabric_bgp_router.StateMachine.Machine as Machine
use netfabric_bgp_router.StateMachine.Machine.{StateMachine, MachineResult}
use netfabric_bgp_router.Network.{
  NetworkManager, NetworkResult, done, failed, state_machine_error, Routers,
}

module _ (p : Platform) where
  -- One command for each machine in turn, up to the first error. There is no result while a
  -- machine's channel is full, since the call waits.
  unfoldable pub command_each :
      (StateMachine p → Store p → Option (MachineResult p Unit × Store p))
      → List (p.Uuid × StateMachine p)
      → Store p
      → Option (NetworkResult p Unit × Store p)
  command_each command [] store = some (done tt, store)
  command_each command ((id, m) ∷ rest) store = elim (command m store) [
    | none ↦ none
    | some (result, store') ↦ elim result [
      | Machine.failed e ↦ some (failed (state_machine_error e), store')
      | Machine.done _ ↦ command_each command rest store'
    ]
  ]

module _ (p : Platform) (T : PrefixTable p (BgpRibEntry p)) where
  -- What the making of the `k`-th machine meets: whether the bus can be locked, the new identifiers
  -- of its channel and thread, and the thread that runs a router on a receiver.
  pub record Spawning (A : Type 0) : Type 0 where
    pub locked : ℕ → Bool
    pub channel_id : ℕ → p.Uuid
    pub thread_id : ℕ → p.Uuid
    pub spawn : Router p T → ℕ → JoinHandle p A

  module _ {A : Type 0} where
    -- The first loop of `start`: the drained routers become machines, up to the first error.
    unfoldable pub make_machines :
        Spawning A
        → ℕ
        → Routers p T
        → List (p.Uuid × StateMachine p)
        → ThreadManager p A
        → Store p
        → NetworkResult p Unit × List (p.Uuid × StateMachine p) × ThreadManager p A × Store p
    make_machines s k [] machines tm store = (done tt, machines, tm, store)
    make_machines s k ((id, router) ∷ rest) machines tm store =
        let (made, tm', store') =
          Machine.new p (s.locked k) (s.channel_id k) (s.thread_id k) (s.spawn router) tm store in
        elim made [
          | Machine.failed e ↦ (failed (state_machine_error e), machines, tm', store')
          | Machine.done m ↦
              make_machines s (suc k) rest (HashMap.insert p.uuid_discrete id m machines) tm' store'
        ]

    -- `NetworkManager::start`: no router is left in the manager, even if a machine could not be made.
    unfoldable pub start :
        Spawning A
        → NetworkManager p T
        → ThreadManager p A
        → Store p
        → Option (NetworkResult p Unit × NetworkManager p T × ThreadManager p A × Store p)
    start s n tm store =
        let (made, machines, tm', store') = make_machines s 0 n.routers n.router_sm tm store in
        let n' = record n { routers = []; router_sm = machines } in
        elim made [
          | failed e ↦ some (failed e, n', tm', store')
          | done _ ↦ elim (command_each p (Machine.start p) machines store') [
            | none ↦ none
            | some (result, store'') ↦ some (result, n', tm', store'')
          ]
        ]

  -- `NetworkManager::stop`
  unfoldable pub stop : NetworkManager p T → Store p → Option (NetworkResult p Unit × Store p)
  stop n store = command_each p (Machine.stop p) n.router_sm store
