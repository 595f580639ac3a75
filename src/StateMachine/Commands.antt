-- ===== src/StateMachine/Commands.antt =====
-- A new state machine (utils/state_machine.rs) and the way of its commands to the thread.
use netfabric_bgp_router.Prelude.{
  ℕ, ◌≡◌, ap, ◌∙◌, true, false, none, some, List, [], ◌∷◌, ◌++◌, map, length, get_elem?-append_last,
  set-append_last, arith,
}
use netfabric_bgp_router.Prelude.HashMap
use netfabric_bgp_router.Platform.{Platform}
use netfabric_bgp_router.Channel.{
  Store, Channel, InternalState, internal_state, blocking_send, try_recv, drop_receiver,
  sync_channel,
}
use netfabric_bgp_router.MessageBus.{send_error, subscribe}
use netfabric_bgp_router.MessageBus.Ends.{with_channel, create_done, publish_new, subscribe_new}
use netfabric_bgp_router.ThreadManager.{ThreadManager, JoinHandle, start_thread}
use netfabric_bgp_router.StateMachine.Machine.{
  StateMachine, message_bus_error, done, failed, new, send_command,
}

module _ (p : Platform) (store : Store p) where
  abbrev command_channel : List InternalState → Channel p
  command_channel cs = record { bound = 1; queue = map internal_state cs; receiver_alive = true }

  abbrev closed : Channel p
  closed = record { bound = 1; queue = []; receiver_alive = false }

  -- The store with a channel for commands that holds some, and with one whose receiver is gone.
  abbrev pub with_commands : List InternalState → Store p
  with_commands cs = store ++ (command_channel cs ∷ [])

  abbrev pub abandoned : Store p
  abandoned = drop_receiver p (with_commands []) (length store)

  module _ (id : p.Uuid) where
    abbrev pub machine : StateMachine p
    machine = record { command_sender = length store; runner_thread_id = id }

    send_idle :
        (c : InternalState)
        → send_command p machine (with_commands []) c ≡ some (done tt, with_commands (c ∷ []))
    unfolding send_command blocking_send
    send_idle c = ground (
      arith,
      get_elem?-append_last store (command_channel []),
      set-append_last store (command_channel []) (command_channel (c ∷ [])),
    )

    send_busy : (c d : InternalState) → send_command p machine (with_commands (c ∷ [])) d ≡ none
    unfolding send_command blocking_send
    send_busy c d = ground (arith, get_elem?-append_last store (command_channel (c ∷ [])))

    send_abandoned :
        (d : InternalState)
        → send_command p machine abandoned d
          ≡ some (failed (message_bus_error send_error), abandoned)
    unfolding send_command blocking_send drop_receiver
    send_abandoned d = ground (
      arith,
      get_elem?-append_last store (command_channel []),
      set-append_last store (command_channel []) closed,
      get_elem?-append_last store closed,
    )

  recv_command :
      (c : InternalState)
      → try_recv p (with_commands (c ∷ [])) (length store)
        ≡ some (internal_state c, with_commands [])
  unfolding try_recv
  recv_command c = ground (
    arith,
    get_elem?-append_last store (command_channel (c ∷ [])),
    set-append_last store (command_channel (c ∷ [])) (command_channel []),
  )

module _ (p : Platform) {A : Type 0} (channel_id thread_id : p.Uuid) (spawn : ℕ → JoinHandle p A)
    (tm : ThreadManager p A) (store : Store p) where
  -- The manager once the machine is made.
  abbrev pub with_machine : ThreadManager p A
  with_machine =
      let bus = (subscribe p (with_channel p tm.message_bus store 1 channel_id) channel_id).1 in
      record {
        thread_handles =
            HashMap.insert p.uuid_discrete thread_id (spawn (length store)) tm.thread_handles;
        message_bus = bus;
      }

  pub new_done :
      HashMap.get p.uuid_discrete channel_id tm.message_bus.senders ≡ none
      → HashMap.get p.uuid_discrete channel_id tm.message_bus.receivers ≡ none
      → new p true channel_id thread_id spawn tm store
        ≡ (done (machine p store thread_id), with_machine, sync_channel p store 1)
  unfolding new start_thread
  new_done s r = ground (
    arith,
    create_done p tm.message_bus store 1 channel_id s r,
    publish_new p tm.message_bus store 1 channel_id,
    subscribe_new p tm.message_bus store 1 channel_id,
  )

  -- A state machine that is made under a new identifier has one thread, which gets the receiver of a
  -- new channel. A command that is sent to the idle machine is the next that the thread receives.
  -- Until it has received it, another command waits. If the thread has dropped the receiver, as it
  -- does when it ends, a command fails.
  pub new-send_command :
      HashMap.get p.uuid_discrete channel_id tm.message_bus.senders ≡ none
      → HashMap.get p.uuid_discrete channel_id tm.message_bus.receivers ≡ none
      → (c d : InternalState)
      → let made = new p true channel_id thread_id spawn tm store in
        let m = machine p store thread_id in
        let busy = with_commands p store (c ∷ []) in
        (made.0 ≡ done m)
        × (HashMap.get p.uuid_discrete thread_id made.1.thread_handles
            ≡ some (spawn (length store)))
        × (send_command p m made.2 c ≡ some (done tt, busy))
        × (send_command p m busy d ≡ none)
        × (try_recv p busy (length store) ≡ some (internal_state c, made.2))
        × (send_command p m (drop_receiver p made.2 (length store)) d
            ≡ some (failed (message_bus_error send_error), drop_receiver p made.2 (length store)))
  new-send_command s r c d =
      let made = new_done s r in
      let found =
        HashMap.get-insert_self p.uuid_discrete thread_id (spawn (length store))
          tm.thread_handles in
      (
        ap (λ x. x.0) made,
        ap (λ x. HashMap.get p.uuid_discrete thread_id x.1.thread_handles) made ∙ found,
        rw made (send_idle p store thread_id c),
        send_busy p store thread_id c d,
        rw made (recv_command p store c),
        rw made (send_abandoned p store thread_id d),
      )
