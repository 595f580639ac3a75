-- ===== src/MessageBus/Ends.antt =====
-- The two ends of a channel that the bus (utils/message_bus.rs) hands out.
use netfabric_bgp_router.Prelude.{ℕ, ◌≡◌, none, length, arith, refl}
use netfabric_bgp_router.Prelude.HashMap
use netfabric_bgp_router.Platform.{Platform}
use netfabric_bgp_router.Channel.{Store, sync_channel}
use netfabric_bgp_router.MessageBus.{
  MessageBus, done, failed, channel_not_found, create_channel_with_uuid, subscribe, publish,
}

module _ (p : Platform) (bus : MessageBus p) (store : Store p) (bound : ℕ) (id : p.Uuid) where
  -- The bus with one more channel.
  abbrev pub with_channel : MessageBus p
  with_channel = record {
    senders = HashMap.insert p.uuid_discrete id (length store) bus.senders;
    receivers = HashMap.insert p.uuid_discrete id (length store) bus.receivers;
  }

  pub publish_new : publish p with_channel id ≡ done (length store)
  unfolding publish
  publish_new = rw (HashMap.get-insert_self p.uuid_discrete id (length store) bus.senders, publish)

  pub subscribe_new : subscribe p with_channel id ≡ (
    done (length store),
    record with_channel { receivers = HashMap.remove p.uuid_discrete id with_channel.receivers },
  )
  unfolding subscribe
  subscribe_new =
      rw (HashMap.get-insert_self p.uuid_discrete id (length store) bus.receivers, subscribe)

  create_new :
      HashMap.get p.uuid_discrete id bus.senders ≡ none
      → HashMap.get p.uuid_discrete id bus.receivers ≡ none
      → (create_channel_with_uuid p bus store bound id).1 ≡ with_channel
  unfolding create_channel_with_uuid
  create_new s r = ground arith

  pub create_done :
      HashMap.get p.uuid_discrete id bus.senders ≡ none
      → HashMap.get p.uuid_discrete id bus.receivers ≡ none
      → create_channel_with_uuid p bus store bound id
        ≡ (done id, with_channel, sync_channel p store bound)
  unfolding create_channel_with_uuid
  create_done s r = ground arith

  subscribe_gone :
      subscribe p
        (record with_channel {
          receivers = HashMap.remove p.uuid_discrete id with_channel.receivers;
        })
        id
      ≡ (
        failed (channel_not_found id),
        record with_channel {
          receivers = HashMap.remove p.uuid_discrete id with_channel.receivers;
        },
      )
  unfolding subscribe
  subscribe_gone = ground (arith, HashMap.get-remove p.uuid_discrete id id with_channel.receivers)

  -- A channel that is created under a new identifier is the next of the store. The sender and the
  -- first subscriber get this one channel, and a second subscriber gets an error.
  pub create-ends :
      HashMap.get p.uuid_discrete id bus.senders ≡ none
      → HashMap.get p.uuid_discrete id bus.receivers ≡ none
      → let created = (create_channel_with_uuid p bus store bound id).1 in
        (publish p created id ≡ done (length store))
        × ((subscribe p created id).0 ≡ done (length store))
        × ((subscribe p (subscribe p created id).1 id).0 ≡ failed (channel_not_found id))
  create-ends s r =
      rw (create_new s r) (publish_new, rw subscribe_new refl, rw (subscribe_new, subscribe_gone))
