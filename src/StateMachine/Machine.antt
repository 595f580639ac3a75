-- ===== src/StateMachine/Machine.antt =====
-- `StateMachine` (utils/state_machine.rs): the sender of commands and the thread that runs the loop.
use netfabric_bgp_router.Prelude.{ℕ, Bool, false, String, Option, none, some, if◌then◌else◌}
use netfabric_bgp_router.Platform.{Platform}
use netfabric_bgp_router.Channel.{
  Store, InternalState, running, paused, stopped, internal_state, blocking_send, queued,
  disconnected, waiting,
}
use netfabric_bgp_router.MessageBus as Bus
use netfabric_bgp_router.MessageBus.{
  MessageBusError, create_channel_with_uuid, publish, subscribe, send_error,
}
use netfabric_bgp_router.ThreadManager as Threads
use netfabric_bgp_router.ThreadManager.{
  ThreadManager, ThreadManagerError, JoinHandle, lock_error, start_thread, is_thread_running,
  join_thread,
}

module _ (p : Platform) where
  -- `StateMachineError`
  pub data StateMachineError : Type 0 where
    thread_manager_error : ThreadManagerError p → StateMachineError
    message_bus_error : MessageBusError p → StateMachineError
    state_machine_error : String → StateMachineError
    no_result : StateMachineError

  -- A value or a `StateMachineError`.
  pub data MachineResult (A : Type 0) : Type 0 where
    done : A → MachineResult A
    failed : StateMachineError → MachineResult A

  -- `StateMachine`
  pub record StateMachine : Type 0 where
    pub command_sender : ℕ
    pub runner_thread_id : p.Uuid

  -- `StateMachine::new`: a channel for one command, whose receiver goes to the thread. `spawn` is the
  -- thread that runs `runner` on a receiver, and `locked` says whether the bus can be locked.
  unfoldable pub new :
      {A : Type 0}
      → Bool
      → p.Uuid
      → p.Uuid
      → (ℕ → JoinHandle p A)
      → ThreadManager p A
      → Store p
      → MachineResult StateMachine × ThreadManager p A × Store p
  new locked channel_id thread_id spawn tm store =
      let (created, bus, store') = create_channel_with_uuid p tm.message_bus store 1 channel_id in
      let sender = publish p bus channel_id in
      let (receiver, bus') = subscribe p bus channel_id in
      if locked
      then elim created [
        | Bus.failed e ↦ (failed (message_bus_error e), record tm { message_bus = bus }, store')
        | Bus.done _ ↦ elim sender [
          | Bus.failed e ↦ (failed (message_bus_error e), record tm { message_bus = bus }, store')
          | Bus.done tx ↦ elim receiver [
            | Bus.failed e ↦
                (failed (message_bus_error e), record tm { message_bus = bus' }, store')
            | Bus.done rx ↦
                let (id, tm') =
                  start_thread p (record tm { message_bus = bus' }) thread_id (spawn rx) in
                elim id [
                  | Threads.failure e ↦ (failed (thread_manager_error e), tm', store')
                  | Threads.success id ↦
                      (done (record { command_sender = tx; runner_thread_id = id }), tm', store')
                ]
          ]
        ]
      ]
      else (failed (thread_manager_error lock_error), tm, store)

  -- `StateMachine::send_command`. There is no result while the channel is full: the call waits.
  unfoldable pub send_command :
      StateMachine → Store p → InternalState → Option (MachineResult Unit × Store p)
  send_command m store command =
      elim (blocking_send p store m.command_sender (internal_state command)) [
        | queued store' ↦ some (done tt, store')
        | disconnected ↦ some (failed (message_bus_error send_error), store)
        | waiting ↦ none
      ]

  -- `StateMachine::start`, `pause`, `resume` and `stop`
  unfoldable pub start : StateMachine → Store p → Option (MachineResult Unit × Store p)
  start m store = send_command m store running

  unfoldable pub pause : StateMachine → Store p → Option (MachineResult Unit × Store p)
  pause m store = send_command m store paused

  unfoldable pub resume : StateMachine → Store p → Option (MachineResult Unit × Store p)
  resume m store = send_command m store running

  unfoldable pub stop : StateMachine → Store p → Option (MachineResult Unit × Store p)
  stop m store = send_command m store stopped

  -- `StateMachine::get_state`, which is `get_runner_thread_id`.
  abbrev pub get_state : StateMachine → p.Uuid
  get_state m = m.runner_thread_id

  module _ {A : Type 0} where
    -- `StateMachine::get_runner_active`
    unfoldable pub get_runner_active : StateMachine → ThreadManager p A → Bool
    get_runner_active m tm = elim (is_thread_running p tm m.runner_thread_id) [
      | Threads.success b ↦ b
      | Threads.failure _ ↦ false
    ]

    -- `StateMachine::get_final_state_cloned`: `as_state` and `as_type` are the two downcasts.
    unfoldable pub get_final_state_cloned :
        {S B : Type 0}
        → (p.Uuid → String)
        → (p.Uuid → String)
        → (A → Option S)
        → (S → Option B)
        → StateMachine
        → ThreadManager p A
        → Option B × ThreadManager p A
    get_final_state_cloned not_found join_failed as_state as_type m tm =
        let (joined, tm') = join_thread p not_found join_failed as_state tm m.runner_thread_id in
        (elim joined [ Threads.success s ↦ as_type s | Threads.failure _ ↦ none ], tm')
