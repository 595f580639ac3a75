-- ===== src/Interface/Bounds.antt =====
-- The buffers of an interface (components/interface.rs) never hold more than their capacity.
use netfabric_bgp_router.Prelude.{
  ℕ, ◌-◌, ◌≤◌, ◌<◌, ◌≡◌, Bool, true, false, none, some, List, [], ◌∷◌, length, take, length-append,
  arith, length-take, Bool-cases, Option-cases, inl, inr,
}
use netfabric_bgp_router.Platform.{Platform, IpAddr}
use netfabric_bgp_router.Advertisement.{Advertisement}
use netfabric_bgp_router.Filters.{Filter}
use netfabric_bgp_router.Channel.{
  Store, Message, advertisement, internal_state, ris_live_data, ris_live_message, queue_of,
  set_queue,
}
use netfabric_bgp_router.Interface.{
  Interface, Buffer, mutex_error, push, new, receive_loop, receive, send,
  push_outgoing_advertisement, push_outgoing_advertisements,
}

module _ (p : Platform) where
  abbrev pub Fits : Buffer (Advertisement p) → Type 0
  Fits b = length b.items ≤ b.capacity

  pub record IsBounded (i : Interface p) : Type 0 where
    pub incoming_fits : Fits i.incoming
    pub outgoing_fits : Fits i.outgoing

  pub new-IsBounded : (id : p.Uuid) (address : IpAddr) → IsBounded (new p id address)
  unfolding new
  new-IsBounded id address = omega arith

  push-Fits :
      (b : Buffer (Advertisement p)) (ad : Advertisement p)
      → length b.items < b.capacity
      → Fits (push b ad)
  push-Fits b ad h = omega (arith, length-append b.items (ad ∷ []))

  receive_loop-Fits :
      (f : Filter (Advertisement p)) (ms : List (Message p)) (b : Buffer (Advertisement p))
      → Fits b
      → Fits (receive_loop p f ms b).1
  unfolding receive_loop
  receive_loop-Fits f [] b h = h
  receive_loop-Fits f (advertisement ad ∷ ms) b h = ground (
    arith,
    receive_loop-Fits f ms b,
    receive_loop-Fits f ms (push b (f ad).1),
    push-Fits b (f ad).1,
  )
  receive_loop-Fits f (internal_state _ ∷ ms) b h = h
  receive_loop-Fits f (ris_live_data _ ∷ ms) b h = h
  receive_loop-Fits f (ris_live_message _ ∷ ms) b h = h

  IsBounded-incoming :
      (i : Interface p) (b : Buffer (Advertisement p))
      → IsBounded i
      → Fits b
      → IsBounded (record i { incoming = b })
  IsBounded-incoming i b h fits = record { incoming_fits = fits; outgoing_fits = h.outgoing_fits }

  receive-none :
      (i : Interface p) (store : Store p) (locked : ℕ → Bool)
      → i.in_channel ≡ none
      → receive p i store locked ≡ (none, i, store)
  unfolding receive
  receive-none i store locked e = ground arith

  receive_unlocked :
      (i : Interface p) (store : Store p) (locked : ℕ → Bool) (ref : ℕ)
      → i.in_channel ≡ some ref
      → locked ref ≡ false
      → receive p i store locked ≡ (some mutex_error, i, store)
  unfolding receive
  receive_unlocked i store locked ref e l = ground arith

  pub receive_open :
      (i : Interface p) (store : Store p) (locked : ℕ → Bool) (ref : ℕ)
      → i.in_channel ≡ some ref
      → locked ref ≡ true
      → let r = receive_loop p i.in_filter (queue_of p store ref) i.incoming in
        receive p i store locked ≡ (r.0, record i { incoming = r.1 }, set_queue p store ref r.2)
  unfolding receive
  receive_open i store locked ref e l = ground arith

  -- `receive` keeps both buffers within their capacity, whatever the channels hold and whichever
  -- locks are taken in time.
  pub receive-IsBounded :
      (i : Interface p) (store : Store p) (locked : ℕ → Bool)
      → IsBounded i
      → IsBounded (receive p i store locked).1
  receive-IsBounded i store locked h = elim (Option-cases i.in_channel) [
    | inl e ↦ rw (receive-none i store locked e) h
    | inr (ref, e) ↦ elim (Bool-cases (locked ref)) [
      | inl l ↦ rw (receive_open i store locked ref e l) (
          IsBounded-incoming i _ h
            (receive_loop-Fits i.in_filter (queue_of p store ref) i.incoming h.incoming_fits))
      | inr l ↦ rw (receive_unlocked i store locked ref e l) h
    ]
  ]

  pub send-IsBounded :
      (i : Interface p) (store : Store p) → IsBounded i → IsBounded (send p i store).0
  unfolding send
  send-IsBounded i store h = ground arith

  pub push-IsBounded :
      (i : Interface p) (ad : Advertisement p)
      → IsBounded i
      → IsBounded (push_outgoing_advertisement p i ad).1
  unfolding push_outgoing_advertisement
  push-IsBounded i ad h = ground (arith, push-Fits i.outgoing ad)

  -- `push_outgoing_advertisements` keeps both buffers within their capacity.
  pub push_all-IsBounded :
      (i : Interface p) (ads : List (Advertisement p))
      → IsBounded i
      → IsBounded (push_outgoing_advertisements p i ads).1
  unfolding push_outgoing_advertisements
  push_all-IsBounded i ads h = ground (
    arith,
    length-append i.outgoing.items ads,
    length-append i.outgoing.items (take (i.outgoing.capacity - length i.outgoing.items) ads),
    length-take (i.outgoing.capacity - length i.outgoing.items) ads,
  )
