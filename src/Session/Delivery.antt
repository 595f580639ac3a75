-- ===== src/Session/Delivery.antt =====
-- What one session (components/bgp/bgp_session.rs) receives of what another sent: their interfaces
-- share a channel.
use netfabric_bgp_router.Prelude.{
  ℕ, ◌≡◌, refl, ◌∙◌, Bool, true, none, some, List, [], ◌∷◌, take, get_elem?, arith, ◌-◌,
}
use netfabric_bgp_router.Platform.{Platform}
use netfabric_bgp_router.Advertisement.{Advertisement}
use netfabric_bgp_router.Filters.{Filter}
use netfabric_bgp_router.Channel.{Channel, Store, queue_of}
use netfabric_bgp_router.Interface.{
  Interface, Buffer, push, accepted, receive_loop, push_outgoing_advertisements,
  get_incoming_advertisements,
}
use netfabric_bgp_router.Interface
use netfabric_bgp_router.Interface.Bounds.{receive_open}
use netfabric_bgp_router.Interface.Receive.{messages, receive_loop-items}
use netfabric_bgp_router.Interface.Send.{IsOpen, filled, send-channel}
use netfabric_bgp_router.Interface.Push.{push_all-items}
use netfabric_bgp_router.Session.{BgpSession, success, set_interface, send, receive}

module _ (p : Platform) where
  -- A channel of advertisements makes no error.
  receive_loop-fine :
      (f : Filter (Advertisement p)) (ads : List (Advertisement p)) (b : Buffer (Advertisement p))
      → (receive_loop p f (messages p ads) b).0 ≡ none
  unfolding receive_loop
  receive_loop-fine f [] b = refl
  receive_loop-fine f (ad ∷ ads) b =
      ground (arith, receive_loop-fine f ads b, receive_loop-fine f ads (push b (f ad).1))

  queue_of_found :
      (store : Store p) (ref : ℕ) (c : Channel p)
      → get_elem? store ref ≡ some c
      → queue_of p store ref ≡ c.queue
  queue_of_found store ref c e = ground arith

  minus_zero : (n : ℕ) → n - 0 ≡ n
  minus_zero n = omega arith

  module _ (i : Interface p) (ads : List (Advertisement p)) (store : Store p) (ref : ℕ)
      (out : i.out_channel ≡ some ref) where
    pub queued : Interface p
    queued = (push_outgoing_advertisements p i ads).1

    pub sent : Interface p × Store p
    sent = Interface.send p queued store

    queued_out : queued.out_channel ≡ some ref
    unfolding queued push_outgoing_advertisements
    queued_out = ground arith

    queued_filter : queued.out_filter ≡ i.out_filter
    unfolding queued push_outgoing_advertisements
    queued_filter = ground arith

    pub sent_in : sent.0.in_channel ≡ i.in_channel
    unfolding sent queued push_outgoing_advertisements Interface.send
    sent_in = ground arith

    pub sent_filter : sent.0.in_filter ≡ i.in_filter
    unfolding sent queued push_outgoing_advertisements Interface.send
    sent_filter = ground arith

    pub sent_incoming : sent.0.incoming ≡ i.incoming
    unfolding sent queued push_outgoing_advertisements Interface.send
    sent_incoming = ground arith

    module _ (j : Interface p) (c : Channel p) (locked : ℕ → Bool) (into : j.in_channel ≡ some ref)
        (open_lock : locked ref ≡ true) (o : IsOpen p store ref c) (idle : c.queue ≡ [])
        (no_outgoing : i.outgoing.items ≡ []) (no_incoming : j.incoming.items ≡ []) where
      -- What the output filter and the channel let through, and what the session reads of it.
      abbrev pub through : List (Advertisement p)
      through = take c.bound (accepted p i.out_filter (take i.outgoing.capacity ads))

      queued_items : queued.outgoing.items ≡ take i.outgoing.capacity ads
      unfolding queued
      queued_items = ground (arith, push_all-items p i ads ref out)

      sent_channel :
          get_elem? sent.1 ref
          ≡ some (filled p c (accepted p queued.out_filter queued.outgoing.items))
      unfolding sent
      sent_channel = (send-channel p queued store ref c queued_out o).0

      queue_sent : queue_of p sent.1 ref ≡ messages p through
      queue_sent =
          queue_of_found sent.1 ref _ sent_channel
          ∙ rw (queued_filter, queued_items, idle, minus_zero c.bound)

      read_items :
          (receive_loop p j.in_filter (queue_of p sent.1 ref) j.incoming).1.items
          ≡ take j.incoming.capacity (accepted p j.in_filter through)
      read_items = rw (
        queue_sent,
        receive_loop-items p j.in_filter through j.incoming,
        no_incoming,
        minus_zero j.incoming.capacity,
      )

      received :
          (Interface.receive p j sent.1 locked).0 ≡ none
          × ((Interface.receive p j sent.1 locked).1.incoming.items
              ≡ take j.incoming.capacity (accepted p j.in_filter through))
      received =
          let opened = receive_open p j sent.1 locked ref into open_lock in
          (
            rw (opened, queue_sent, receive_loop-fine j.in_filter through j.incoming),
            rw (opened, read_items),
          )

      module _ (s t : BgpSession p) (joined : s.interface ≡ some i)
          (far : t.interface ≡ some j) where
        pub session_sent : (send p s store ads).1 ≡ set_interface p s sent.0
        unfolding send sent queued
        session_sent = ground arith

        store_sent : (send p s store ads).2 ≡ sent.1
        unfolding send sent queued
        store_sent = ground arith

        session_received :
            (receive p t sent.1 locked).0
            ≡ success (take j.incoming.capacity (accepted p j.in_filter through))
        unfolding receive get_incoming_advertisements
        session_received = ground (arith, received)

        -- A session whose interface reads the channel that the interface of another writes, where the
        -- channel is open and idle, the buffers are empty and the lock is taken in time: after `send`
        -- of some advertisements by the one, `receive` of the other succeeds with those that the
        -- outgoing buffer has room for, the output filter passes, the channel has room for, the input
        -- filter passes and the incoming buffer has room for, in order.
        pub receive-send_across :
            (receive p t (send p s store ads).2 locked).0
            ≡ success (take j.incoming.capacity (accepted p j.in_filter through))
        receive-send_across = rw store_sent session_received
