-- ===== src/ThreadManager.antt =====
-- utils/thread_manager.rs: the handles of the threads that were started, and the pair of ends of a
-- channel that the thread manager gets from its message bus. Threads run outside the model: a handle
-- holds how its thread ends.
use netfabric_bgp_router.Prelude.{
  ℕ, Bool, false, not, String, Option, none, some, List, [], ◌∷◌, Outcome, ok, panic, if◌then◌else◌,
}
use netfabric_bgp_router.Prelude.HashMap
use netfabric_bgp_router.Platform.{Platform}
use netfabric_bgp_router.Channel.{Store}
use netfabric_bgp_router.MessageBus.{
  MessageBus, new as new_bus, done, failed, contains_channel, create_channel_with_uuid, subscribe,
  publish,
}

module _ (p : Platform) where
  -- `ThreadManagerError`. The text of a bus error is its print.
  pub data ThreadManagerError : Type 0 where
    thread_error : String → ThreadManagerError
    send_error lock_error message_bus_error : ThreadManagerError

  -- `ThreadResult`
  pub data ThreadResult (A : Type 0) : Type 0 where
    success : A → ThreadResult A
    failure : ThreadManagerError → ThreadResult A

  -- The handle of a thread: whether it is finished by now, and the value that it returns in the end
  -- as a `Box<dyn Any>`, or its panic.
  pub record JoinHandle (A : Type 0) : Type 0 where
    pub is_finished : Bool
    pub ending : Outcome A

  -- `ThreadManager`, with `A` for `Box<dyn Any>`.
  pub record ThreadManager (A : Type 0) : Type 0 where
    pub thread_handles : List (p.Uuid × JoinHandle A)
    pub message_bus : MessageBus p

  module _ {A : Type 0} where
    -- `ThreadManager::new`
    abbrev pub new : ThreadManager A
    new = record { thread_handles = []; message_bus = new_bus p }

    -- `ThreadManager::start_thread`, with the new identifier and the handle of the spawned thread.
    unfoldable pub start_thread :
        ThreadManager A → p.Uuid → JoinHandle A → ThreadResult p.Uuid × ThreadManager A
    start_thread tm id handle = (
      success id,
      record tm { thread_handles = HashMap.insert p.uuid_discrete id handle tm.thread_handles },
    )

    -- `ThreadManager::is_thread_running`
    unfoldable pub is_thread_running : ThreadManager A → p.Uuid → ThreadResult Bool
    is_thread_running tm id = elim (HashMap.get p.uuid_discrete id tm.thread_handles) [
      | none ↦ success false
      | some handle ↦ success (not handle.is_finished)
    ]

    -- `ThreadManager::join_thread`, which waits for the end of the thread; `downcast` is that of `Any`
    -- and `not_found` and `join_failed` are the texts of the errors with the identifier.
    unfoldable pub join_thread :
        {B : Type 0}
        → (p.Uuid → String)
        → (p.Uuid → String)
        → (A → Option B)
        → ThreadManager A
        → p.Uuid
        → ThreadResult B × ThreadManager A
    join_thread not_found join_failed downcast tm id =
        elim (HashMap.get p.uuid_discrete id tm.thread_handles) [
          | none ↦ (failure (thread_error (not_found id)), tm)
          | some handle ↦ (
            elim handle.ending [
              | panic _ ↦ failure (thread_error (join_failed id))
              | ok a ↦ elim (downcast a) [
                | none ↦ failure (thread_error "Failed to downcast thread result")
                | some b ↦ success b
              ]
            ],
            record tm { thread_handles = HashMap.remove p.uuid_discrete id tm.thread_handles },
          )
        ]

    -- The loop of `join_all` over the drained handles.
    unfoldable pub join_each : List (p.Uuid × JoinHandle A) → Outcome {0} Unit
    join_each [] = ok tt
    join_each ((id, handle) ∷ rest) =
        let others = join_each rest in
        elim handle.ending [
          | panic _ ↦ panic "called `Result::unwrap()` on an `Err` value"
          | ok _ ↦ others
        ]

    -- `ThreadManager::join_all`: every thread is waited for, and the panic of one is passed on.
    unfoldable pub join_all : ThreadManager A → Outcome {0} Unit × ThreadManager A
    join_all tm = (join_each tm.thread_handles, record tm { thread_handles = [] })

  -- The two ends that `subscribe` and `publish` return in turn: the sender and the receiver.
  unfoldable pub both_ends : MessageBus p → p.Uuid → ThreadResult (ℕ × ℕ) × MessageBus p
  both_ends bus id =
      let (received, bus') = subscribe p bus id in
      elim received [
        | failed _ ↦ (failure message_bus_error, bus')
        | done rx ↦ elim (publish p bus' id) [
          | failed _ ↦ (failure message_bus_error, bus')
          | done tx ↦ (success (tx, rx), bus')
        ]
      ]

  -- `ThreadManager::get_message_bus_channel_pair_with_id`; `locked` says whether the lock of the bus
  -- is taken, which fails if a thread panicked with it.
  unfoldable pub get_message_bus_channel_pair_with_id :
      Bool → MessageBus p → Store p → ℕ → p.Uuid → ThreadResult (ℕ × ℕ) × MessageBus p × Store p
  get_message_bus_channel_pair_with_id locked bus store capacity id =
      let existing = both_ends bus id in
      let (created, bus', store') = create_channel_with_uuid p bus store capacity id in
      let fresh = both_ends bus' id in
      if locked
      then (if contains_channel p bus id then (existing.0, existing.1, store) else elim created [
        | failed _ ↦ (failure message_bus_error, bus', store')
        | done _ ↦ (fresh.0, fresh.1, store')
      ])
      else (failure lock_error, bus, store)
