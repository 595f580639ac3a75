-- ===== src/Network/Links.antt =====
-- The links that `new_interface_pair` and `new_bgp_session_pair` make (modules/network.rs).
use netfabric_bgp_router.Prelude.{
  ℕ, ◌≡◌, ◌≢◌, refl, ap, ◌∙◌, true, Bool, take, ◌<◌, none, List, [], ◌∷◌, length, length-append,
  get_elem?-append_last, get_elem?-append_left, arith, if_neg,
}
use netfabric_bgp_router.Prelude.HashMap
use netfabric_bgp_router.Platform.{Platform, IpAddr}
use netfabric_bgp_router.Channel.{Store, Channel, sync_channel}
use netfabric_bgp_router.Filters.{no_filter}
use netfabric_bgp_router.Session.Delivery.{receive-send_across}
use netfabric_bgp_router.Advertisement.{Advertisement}
use netfabric_bgp_router.Interface.Send.{IsOpen}
use netfabric_bgp_router.MessageBus.{MessageBus, publish}
use netfabric_bgp_router.MessageBus.Ends.{with_channel, create_done, subscribe_new}
use netfabric_bgp_router.ThreadManager.{
  success as paired, both_ends, get_message_bus_channel_pair_with_id,
}
use netfabric_bgp_router.Interface
use netfabric_bgp_router.Interface.{
  Interface, incoming_capacity, outgoing_capacity, accepted, set_in_channel, set_out_channel,
}
use netfabric_bgp_router.Session.{
  BgpSession, SessionConfig, success, set_interface, from_config, send, receive,
}
use netfabric_bgp_router.Network.{Fresh, done, new_interface_pair, new_bgp_session_pair}

module _ (p : Platform) where
  -- No channel of the bus has the identifier.
  abbrev pub IsFree : MessageBus p → p.Uuid → Type 0
  IsFree bus id =
      (HashMap.get p.uuid_discrete id bus.senders ≡ none)
      × (HashMap.get p.uuid_discrete id bus.receivers ≡ none)

  -- The bus once both ends of a new channel were taken: a sender stays there.
  abbrev pub with_taken : MessageBus p → ℕ → p.Uuid → MessageBus p
  with_taken bus n id = record {
    senders = HashMap.insert p.uuid_discrete id n bus.senders;
    receivers =
        HashMap.remove p.uuid_discrete id (HashMap.insert p.uuid_discrete id n bus.receivers);
  }

  both_ends_new :
      (bus : MessageBus p) (store : Store p) (capacity : ℕ) (id : p.Uuid)
      → both_ends p (with_channel p bus store capacity id) id
        ≡ (paired (length store, length store), with_taken bus (length store) id)
  unfolding both_ends publish
  both_ends_new bus store capacity id = ground (
    arith,
    subscribe_new p bus store capacity id,
    HashMap.get-insert_self p.uuid_discrete id (length store) bus.senders,
  )

  pair_done :
      (bus : MessageBus p) (store : Store p) (capacity : ℕ) (id : p.Uuid)
      → IsFree bus id
      → get_message_bus_channel_pair_with_id p true bus store capacity id ≡ (
        paired (length store, length store),
        with_taken bus (length store) id,
        sync_channel p store capacity,
      )
  unfolding get_message_bus_channel_pair_with_id
  pair_done bus store capacity id (s, r) =
      ground
        (arith, s, create_done p bus store capacity id s r, both_ends_new bus store capacity id)

  pub IsFree-with_taken :
      (bus : MessageBus p) (n : ℕ) (id other : p.Uuid)
      → id ≢ other
      → IsFree bus other
      → IsFree (with_taken bus n id) other
  IsFree-with_taken bus n id other ne (s, r) = (
    HashMap.get-insert_ne p.uuid_discrete id other n bus.senders ne ∙ s,
    HashMap.get-remove p.uuid_discrete id other (HashMap.insert p.uuid_discrete id n bus.receivers)
        ∙ (if_neg (p.uuid_discrete id other) ne _ _
            ∙ (HashMap.get-insert_ne p.uuid_discrete id other n bus.receivers ne ∙ r)),
  )

  accepted-no_filter : (ads : List (Advertisement p)) → accepted p no_filter ads ≡ ads
  unfolding no_filter
  accepted-no_filter [] = refl
  accepted-no_filter (ad ∷ ads) = ap (λ l. ad ∷ l) (accepted-no_filter ads)

  -- An open and idle channel.
  abbrev idle_channel : ℕ → Channel p
  idle_channel bound = record { bound = bound; queue = []; receiver_alive = true }

  module _ (f : Fresh p) (bus : MessageBus p) (store : Store p) (bound : ℕ)
      (lock1 : f.locked1 ≡ true) (lock2 : f.locked2 ≡ true) (differ : f.channel1 ≢ f.channel2)
      (free1 : IsFree bus f.channel1) (free2 : IsFree bus f.channel2) where
    -- The indices of the two channels.
    abbrev pub there : ℕ
    there = length store

    abbrev pub back : ℕ
    back = length (sync_channel p store bound)

    abbrev pub linked : Store p
    linked = sync_channel p (sync_channel p store bound) bound

    abbrev end1 : IpAddr → Interface p
    end1 ip = set_in_channel p (set_out_channel p (Interface.new p f.end1 ip) there) back

    abbrev end2 : IpAddr → Interface p
    end2 ip = set_out_channel p (set_in_channel p (Interface.new p f.end2 ip) there) back

    interfaces_done :
        (ip1 ip2 : IpAddr)
        → new_interface_pair p f bus store ip1 ip2 bound ≡ (
          done (end1 ip1, end2 ip2),
          with_taken (with_taken bus there f.channel1) back f.channel2,
          linked,
        )
    unfolding new_interface_pair
    interfaces_done ip1 ip2 =
        let first = pair_done bus store bound f.channel1 free1 in
        let still = IsFree-with_taken bus there f.channel1 f.channel2 differ free2 in
        let second =
          pair_done (with_taken bus there f.channel1) (sync_channel p store bound) bound f.channel2
            still in
        ground (arith, first, second)

    IsOpen-there : IsOpen p linked there (idle_channel bound)
    IsOpen-there =
        let one = idle_channel bound ∷ [] in
        let within : there < back = omega (arith, length-append store one) in
        (
          get_elem?-append_left (sync_channel p store bound) one there within
              ∙ get_elem?-append_last store (idle_channel bound),
          refl,
        )

    IsOpen-back : IsOpen p linked back (idle_channel bound)
    IsOpen-back = (get_elem?-append_last (sync_channel p store bound) (idle_channel bound), refl)

    module _ (id1 id2 : p.Uuid) (config1 config2 : SessionConfig) where
      abbrev pub session1 : BgpSession p
      session1 = set_interface p (from_config p id1 config1) (end1 config1.interface_ip)

      abbrev pub session2 : BgpSession p
      session2 = set_interface p (from_config p id2 config2) (end2 config2.interface_ip)

      pub sessions_done : new_bgp_session_pair p f id1 id2 bus store config1 config2 bound ≡ (
        done (session1, session2),
        with_taken (with_taken bus there f.channel1) back f.channel2,
        linked,
      )
      unfolding new_bgp_session_pair
      sessions_done = ground (arith, interfaces_done config1.interface_ip config2.interface_ip)

      module _ (ads : List (Advertisement p)) (locked : ℕ → Bool)
          (unlocked : (ref : ℕ) → locked ref ≡ true) where
        abbrev arrived : List (Advertisement p)
        arrived = take incoming_capacity (take bound (take outgoing_capacity ads))

        no_filters :
            take incoming_capacity (
              accepted p no_filter (take bound (accepted p no_filter (take outgoing_capacity ads))))
            ≡ arrived
        no_filters = ap (take incoming_capacity) (
            accepted-no_filter (take bound (accepted p no_filter (take outgoing_capacity ads)))
            ∙ ap (take bound) (accepted-no_filter (take outgoing_capacity ads)))

        forth : (receive p session2 (send p session1 linked ads).2 locked).0 ≡ success arrived
        unfolding Interface.new
        forth =
            receive-send_across p (end1 config1.interface_ip) ads linked there refl
              (end2 config2.interface_ip) (idle_channel bound) locked refl (unlocked there)
              IsOpen-there refl refl refl session1 session2 refl refl
            ∙ ap success no_filters

        forth_back : (receive p session1 (send p session2 linked ads).2 locked).0 ≡ success arrived
        unfolding Interface.new
        forth_back =
            receive-send_across p (end2 config2.interface_ip) ads linked back refl
              (end1 config1.interface_ip) (idle_channel bound) locked refl (unlocked back)
              IsOpen-back refl refl refl session2 session1 refl refl
            ∙ ap success no_filters

        -- A pair of sessions that is made over two new channels, with both locks of the bus taken, has
        -- the given configurations and is connected in both directions: what one sends first, the
        -- other receives in order, as far as the outgoing buffer, the link's buffer and the incoming
        -- buffer have room, if the lock of the channel is taken in time.
        pub new_bgp_session_pair_lem :
            let made = new_bgp_session_pair p f id1 id2 bus store config1 config2 bound in
            (s1 : BgpSession p) × (s2 : BgpSession p) × (made.0 ≡ done (s1, s2))
            × (s1.config ≡ config1)
            × (s2.config ≡ config2)
            × ((receive p s2 (send p s1 made.2 ads).2 locked).0 ≡ success arrived)
            × ((receive p s1 (send p s2 made.2 ads).2 locked).0 ≡ success arrived)
        new_bgp_session_pair_lem =
            let at = λ (x : BgpSession p) (y : BgpSession p) (st : Store p).
              (receive p y (send p x st ads).2 locked).0 in
            let stored = ap (λ x. x.2) sessions_done in
            (
              session1,
              session2,
              ap (λ x. x.0) sessions_done,
              refl,
              refl,
              ap (at session1 session2) stored ∙ forth,
              ap (at session2 session1) stored ∙ forth_back,
            )
