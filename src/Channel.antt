-- ===== src/Channel.antt =====
-- The bounded channels of `std::sync::mpsc`, as utils/message_bus.rs uses them. Both ends refer to
-- one channel, so channels live in a store and an end is an index into it.
use netfabric_bgp_router.Prelude.{
  ℕ, Bool, true, false, Option, none, some, List, [], ◌∷◌, ◌++◌, length, get_elem?, set, ltb,
  if◌then◌else◌,
}
use netfabric_bgp_router.Platform.{Platform}
use netfabric_bgp_router.Advertisement.{Advertisement, RisLiveData, RisLiveMessage}

-- `InternalState` of utils/state_machine.rs, which is also a message.
pub data InternalState : Type 0 where
  initialized running paused stopped : InternalState

module _ (p : Platform) where
  -- `Box<dyn Message>`: the types that implement `Message`.
  pub data Message : Type 0 where
    advertisement : Advertisement p → Message
    internal_state : InternalState → Message
    ris_live_data : RisLiveData p → Message
    ris_live_message : RisLiveMessage p → Message

  -- `message.cast::<Advertisement>()`
  abbrev pub cast_advertisement : Message → Option (Advertisement p)
  cast_advertisement (advertisement ad) = some ad
  cast_advertisement _ = none

  -- `message.cast::<InternalState>()`
  abbrev pub cast_internal_state : Message → Option InternalState
  cast_internal_state (internal_state s) = some s
  cast_internal_state _ = none

  pub record Channel : Type 0 where
    pub bound : ℕ
    pub queue : List Message
    pub receiver_alive : Bool

  abbrev pub Store : Type 0
  Store = List Channel

  -- `sync_channel(bound)`: the store with the new channel, whose index is the old length.
  abbrev pub sync_channel : Store → ℕ → Store
  sync_channel store bound =
      store ++ (record { bound = bound; queue = []; receiver_alive = true } ∷ [])

  -- `SyncSender::try_send`: it fails if the receiver is gone or the queue is full.
  unfoldable pub try_send : Store → ℕ → Message → Option Store
  try_send store ref message = elim (get_elem? store ref) [
    | none ↦ none
    | some c ↦
        if c.receiver_alive
        then (if ltb (length c.queue) c.bound
            then some (set store ref (record c { queue = c.queue ++ (message ∷ []) }))
            else none)
        else none
  ]

  -- What `SyncSender::send` comes to: the message is queued, the receiver is gone, or the sender
  -- waits for room.
  pub data Sending : Type 0 where
    queued : Store → Sending
    disconnected waiting : Sending

  -- `SyncSender::send`
  unfoldable pub blocking_send : Store → ℕ → Message → Sending
  blocking_send store ref message = elim (get_elem? store ref) [
    | none ↦ disconnected
    | some c ↦
        if c.receiver_alive
        then (if ltb (length c.queue) c.bound
            then queued (set store ref (record c { queue = c.queue ++ (message ∷ []) }))
            else waiting)
        else disconnected
  ]

  -- The messages that wait in a channel.
  abbrev pub queue_of : Store → ℕ → List Message
  queue_of store ref = elim (get_elem? store ref) [ none ↦ [] | some c ↦ c.queue ]

  abbrev pub set_queue : Store → ℕ → List Message → Store
  set_queue store ref queue = elim (get_elem? store ref) [
    | none ↦ store
    | some c ↦ set store ref (record c { queue = queue })
  ]

  -- `Receiver::try_recv`: the oldest message.
  unfoldable pub try_recv : Store → ℕ → Option (Message × Store)
  try_recv store ref = elim (queue_of store ref) [
    | [] ↦ none
    | message ∷ rest ↦ some (message, set_queue store ref rest)
  ]

  -- Dropping the receiver of a channel: sends fail from then on.
  unfoldable pub drop_receiver : Store → ℕ → Store
  drop_receiver store ref = elim (get_elem? store ref) [
    | none ↦ store
    | some c ↦ set store ref (record c { queue = []; receiver_alive = false })
  ]
