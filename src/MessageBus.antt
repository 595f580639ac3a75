-- ===== src/MessageBus.antt =====
-- utils/message_bus.rs: the bus that hands out the two ends of named channels.
pub mod Ends
pub mod Retry
pub mod Shutdown
use netfabric_bgp_router.Prelude.{
  ℕ, zero, suc, Bool, ◌||◌, Option, none, some, List, [], ◌∷◌, length, if◌then◌else◌, leb,
}
use netfabric_bgp_router.Prelude.HashMap
use netfabric_bgp_router.Platform.{Platform}
use netfabric_bgp_router.Channel.{Store, Message, sync_channel, try_recv, drop_receiver}

module _ (p : Platform) where
  -- `MessageBusError`
  pub data MessageBusError : Type 0 where
    channel_exists channel_not_found : p.Uuid → MessageBusError
    thread_manager_error send_error recv_error : MessageBusError

  -- A call that changes the bus and the store, and returns a value or an error.
  pub data BusResult (A : Type 0) : Type 0 where
    done : A → BusResult A
    failed : MessageBusError → BusResult A

  -- `MessageBus`: the senders and the receivers that nobody has subscribed to, as channel indices.
  pub record MessageBus : Type 0 where
    pub senders : List (p.Uuid × ℕ)
    pub receivers : List (p.Uuid × ℕ)

  -- `MessageBus::new`
  abbrev pub new : MessageBus
  new = record { senders = []; receivers = [] }

  -- `MessageBus::channel_exists`
  abbrev pub contains_channel : MessageBus → p.Uuid → Bool
  contains_channel bus id = HashMap.contains_key p.uuid_discrete id bus.senders

  -- `MessageBus::create_channel_with_uuid`; `create_channel` is the call with a new identifier.
  unfoldable pub create_channel_with_uuid :
      MessageBus → Store p → ℕ → p.Uuid → BusResult p.Uuid × MessageBus × Store p
  create_channel_with_uuid bus store bound id =
      if HashMap.contains_key p.uuid_discrete id bus.senders
        || HashMap.contains_key p.uuid_discrete id bus.receivers
      then (failed (channel_exists id), bus, store)
      else (
        done id,
        record {
          senders = HashMap.insert p.uuid_discrete id (length store) bus.senders;
          receivers = HashMap.insert p.uuid_discrete id (length store) bus.receivers;
        },
        sync_channel p store bound,
      )

  -- `MessageBus::subscribe`: the receiver leaves the bus.
  unfoldable pub subscribe : MessageBus → p.Uuid → BusResult ℕ × MessageBus
  subscribe bus id = elim (HashMap.get p.uuid_discrete id bus.receivers) [
    | none ↦ (failed (channel_not_found id), bus)
    | some ref ↦
        (done ref, record bus { receivers = HashMap.remove p.uuid_discrete id bus.receivers })
  ]

  -- `MessageBus::publish`
  unfoldable pub publish : MessageBus → p.Uuid → BusResult ℕ
  publish bus id = elim (HashMap.get p.uuid_discrete id bus.senders) [
    | none ↦ failed (channel_not_found id)
    | some ref ↦ done ref
  ]

  -- `MessageBus::stop`: a receiver that is still on the bus is dropped.
  unfoldable pub stop : MessageBus → Store p → p.Uuid → MessageBus × Store p
  stop bus store id = (
    record {
      senders = HashMap.remove p.uuid_discrete id bus.senders;
      receivers = HashMap.remove p.uuid_discrete id bus.receivers;
    },
    elim (HashMap.get p.uuid_discrete id bus.receivers) [
      | none ↦ store
      | some ref ↦ drop_receiver p store ref
    ],
  )

  -- The loop of `MessageBus::stop_all` over the identifiers collected before.
  unfoldable pub stop_each : MessageBus → Store p → List p.Uuid → MessageBus × Store p
  stop_each bus store [] = (bus, store)
  stop_each bus store (id ∷ ids) = stop_each (stop bus store id).0 (stop bus store id).1 ids

  -- `MessageBus::stop_all`
  unfoldable pub stop_all : MessageBus → Store p → MessageBus × Store p
  stop_all bus store = stop_each bus store (HashMap.keys bus.senders)

  -- `receive_with_retry`: `at k` is the store at the (k + 1)-th attempt, so that other threads may
  -- send while this one sleeps. It returns the message and the store after it, or nothing for the
  -- error of the last attempt; with too little fuel there is no result.
  unfoldable pub receive_with_retry :
      (ℕ → Store p) → ℕ → ℕ → ℕ → ℕ → Option (Option (Message p × Store p))
  receive_with_retry at zero max_retries retries ref = none
  receive_with_retry at (suc fuel) max_retries retries ref =
      let again = receive_with_retry at fuel max_retries (suc retries) ref in
      elim (try_recv p (at retries) ref) [
        | some received ↦ some (some received)
        | none ↦ if leb max_retries retries then some none else again
      ]
