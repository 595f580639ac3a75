-- ===== src/Session/Loopback.antt =====
-- A session (components/bgp/bgp_session.rs) over an interface that is joined to itself.
use netfabric_bgp_router.Prelude.{ℕ, ◌≡◌, refl, ap, ◌∙◌, Bool, true, some, List, [], take}
use netfabric_bgp_router.Platform.{Platform}
use netfabric_bgp_router.Advertisement.{Advertisement}
use netfabric_bgp_router.Channel.{Channel, Store}
use netfabric_bgp_router.Interface.{Interface, accepted}
use netfabric_bgp_router.Interface.Send.{IsOpen}
use netfabric_bgp_router.Session.Delivery.{
  sent, sent_in, sent_incoming, sent_filter, session_sent, receive-send_across,
}
use netfabric_bgp_router.Session.{BgpSession, success, set_interface, send, receive}

module _ (p : Platform) where
  module _ (i : Interface p) (ads : List (Advertisement p)) (store : Store p) (ref : ℕ)
      (out : i.out_channel ≡ some ref) where
    module _ (c : Channel p) (locked : ℕ → Bool) (into : i.in_channel ≡ some ref)
        (open_lock : locked ref ≡ true) (o : IsOpen p store ref c) (idle : c.queue ≡ [])
        (no_outgoing : i.outgoing.items ≡ []) (no_incoming : i.incoming.items ≡ []) where
      -- What the output filter and the channel let through, and what the session reads of it.
      abbrev through : List (Advertisement p)
      through = take c.bound (accepted p i.out_filter (take i.outgoing.capacity ads))

      module _ (s : BgpSession p) (joined : s.interface ≡ some i) where
        -- A session over an interface whose two ends are one open channel, where the channel and
        -- both buffers are empty and the lock of the channel is taken in time: after `send` of some
        -- advertisements, `receive` succeeds with those that the outgoing buffer has room for, the
        -- output filter passes, the channel has room for, the input filter passes and the incoming
        -- buffer has room for, each filter applied once and the order kept.
        pub receive-send :
            (receive p (send p s store ads).1 (send p s store ads).2 locked).0
            ≡ success (take i.incoming.capacity (accepted p i.in_filter through))
        receive-send =
            let j = (sent p i ads store ref out).0 in
            let inner = sent_in p i ads store ref out in
            let same = sent_incoming p i ads store ref out in
            let same_filter = sent_filter p i ads store ref out in
            let t = set_interface p s j in
            let emptied = ap (λ b. b.items) same ∙ no_incoming in
            let across =
              receive-send_across p i ads store ref out j c locked (inner ∙ into) open_lock o idle
                no_outgoing emptied s t joined refl in
            let after =
              session_sent p i ads store ref out j c locked (inner ∙ into) open_lock o idle
                no_outgoing emptied s t joined refl in
            ap (λ x. (receive p x (send p s store ads).2 locked).0) after
            ∙ (across
                ∙ ap (λ b. success (take b.capacity (accepted p j.in_filter through))) same
                ∙ ap (λ f. success (take i.incoming.capacity (accepted p f through))) same_filter)
