-- ===== src/Interface/Send.antt =====
-- What `Interface::send` and `push_outgoing_advertisements` (components/interface.rs) put where.
use netfabric_bgp_router.Prelude.{
  ℕ, suc, ◌-◌, ◌≤◌, ◌<◌, ◌≡◌, true, false, none, some, List, [], ◌∷◌, ◌++◌, length, take,
  length-append, arith, ◌⊎◌, Bool-cases, inl, inr, get_elem?, set, get_elem?-set_self, get_elem?-lt,
}
use mathlib.Core.List.{append_assoc, append-nil}
use netfabric_bgp_router.Platform.{Platform}
use netfabric_bgp_router.Advertisement.{Advertisement}
use netfabric_bgp_router.Filters.{Filter}
use netfabric_bgp_router.Channel.{Channel, Store, Message, advertisement, try_send}
use netfabric_bgp_router.Interface.{Interface, send_loop, send, accepted}
use netfabric_bgp_router.Interface.Receive.{messages, take_nil}

module _ (p : Platform) where
  -- The channel at the index, with its receiver alive.
  abbrev pub IsOpen : Store p → ℕ → Channel p → Type 0
  IsOpen store ref c = (get_elem? store ref ≡ some c) × (c.receiver_alive ≡ true)

  abbrev enqueue : Channel p → Message p → Channel p
  enqueue c m = record c { queue = c.queue ++ (m ∷ []) }

  try_send_room :
      (store : Store p) (ref : ℕ) (c : Channel p) (m : Message p)
      → IsOpen store ref c
      → length c.queue < c.bound
      → try_send p store ref m ≡ some (set store ref (enqueue c m))
  unfolding try_send
  try_send_room store ref c m (e, a) h = ground arith

  try_send_full :
      (store : Store p) (ref : ℕ) (c : Channel p) (m : Message p)
      → IsOpen store ref c
      → c.bound ≤ length c.queue
      → try_send p store ref m ≡ none
  unfolding try_send
  try_send_full store ref c m (e, a) h = ground arith

  -- The channel once the advertisements have been sent as far as it has room.
  abbrev pub filled : Channel p → List (Advertisement p) → Channel p
  filled c ads = record c { queue = c.queue ++ messages p (take (c.bound - length c.queue) ads) }

  room_suc :
      (c : Channel p) (m : Message p)
      → length c.queue < c.bound
      → c.bound - length c.queue ≡ suc (c.bound - length (enqueue c m).queue)
  room_suc c m h = omega (arith, length-append c.queue (m ∷ []))

  filled-enqueue :
      (c : Channel p) (ad : Advertisement p) (ads : List (Advertisement p))
      → length c.queue < c.bound
      → filled (enqueue c (advertisement ad)) ads ≡ filled c (ad ∷ ads)
  filled-enqueue c ad ads h = rw (
    room_suc c (advertisement ad) h,
    append_assoc c.queue (advertisement ad ∷ [])
        (messages p (take (c.bound - length (enqueue c (advertisement ad)).queue) ads)),
  )

  no_room : (c : Channel p) → c.bound ≤ length c.queue → c.bound - length c.queue ≡ 0
  no_room c h = omega arith

  filled_full :
      (c : Channel p) (ads : List (Advertisement p)) → c.bound ≤ length c.queue → filled c ads ≡ c
  filled_full c ads h = rw (no_room c h, append-nil c.queue)

  lt_or_le : (a b : ℕ) → (a < b) ⊎ (b ≤ a)
  lt_or_le a b = ground arith

  IsOpen-enqueue :
      (store : Store p) (ref : ℕ) (c : Channel p) (m : Message p)
      → IsOpen store ref c
      → IsOpen (set store ref (enqueue c m)) ref (enqueue c m)
  IsOpen-enqueue store ref c m (e, a) =
      (get_elem?-set_self store ref (enqueue c m) (get_elem?-lt store ref e), a)

  send_loop-skipped :
      (f : Filter (Advertisement p)) (store : Store p) (ref : ℕ) (ad : Advertisement p)
      (rest : List (Advertisement p))
      → (f ad).0 ≡ false
      → send_loop p f store ref (ad ∷ rest) ≡ send_loop p f store ref rest
  unfolding send_loop
  send_loop-skipped f store ref ad rest e = ground arith

  send_loop-sent :
      (f : Filter (Advertisement p)) (store store' : Store p) (ref : ℕ) (ad : Advertisement p)
      (rest : List (Advertisement p))
      → (f ad).0 ≡ true
      → try_send p store ref (advertisement (f ad).1) ≡ some store'
      → send_loop p f store ref (ad ∷ rest) ≡ send_loop p f store' ref rest
  unfolding send_loop
  send_loop-sent f store store' ref ad rest e t = ground arith

  send_loop-refused :
      (f : Filter (Advertisement p)) (store : Store p) (ref : ℕ) (ad : Advertisement p)
      (rest : List (Advertisement p))
      → (f ad).0 ≡ true
      → try_send p store ref (advertisement (f ad).1) ≡ none
      → send_loop p f store ref (ad ∷ rest) ≡ store
  unfolding send_loop
  send_loop-refused f store ref ad rest e t = ground arith

  send_loop-channel :
      (f : Filter (Advertisement p)) (store : Store p) (ref : ℕ) (c : Channel p)
      (ads : List (Advertisement p))
      → IsOpen store ref c
      → get_elem? (send_loop p f store ref ads) ref ≡ some (filled c (accepted p f ads))
  unfolding send_loop
  send_loop-channel f store ref c [] (e, a) =
      rw (e, take_nil p {A = Advertisement p} (c.bound - length c.queue), append-nil c.queue)
  send_loop-channel f store ref c (ad ∷ rest) o = elim (Bool-cases (f ad).0) [
    | inr e ↦
        rw (send_loop-skipped f store ref ad rest e, e, send_loop-channel f store ref c rest o)
    | inl e ↦
        let m = advertisement (f ad).1 in
        elim (lt_or_le (length c.queue) c.bound) [
          | inl h ↦ rw (
            send_loop-sent f store _ ref ad rest e (try_send_room store ref c m o h),
            send_loop-channel f (set store ref (enqueue c m)) ref (enqueue c m) rest
                (IsOpen-enqueue store ref c m o),
            e,
            filled-enqueue c (f ad).1 (accepted p f rest) h,
          )
          | inr h ↦ rw (
            send_loop-refused f store ref ad rest e (try_send_full store ref c m o h),
            o.0,
            filled_full c (accepted p f (ad ∷ rest)) h,
          )
        ]
  ]

  send-store :
      (i : Interface p) (store : Store p) (ref : ℕ)
      → i.out_channel ≡ some ref
      → (send p i store).1 ≡ send_loop p i.out_filter store ref i.outgoing.items
  unfolding send send_loop
  send-store i store ref e = ground arith

  send-emptied :
      (i : Interface p) (store : Store p) (ref : ℕ)
      → i.out_channel ≡ some ref
      → (send p i store).0.outgoing.items ≡ []
  unfolding send
  send-emptied i store ref e = ground arith

  -- `send` on an interface whose output channel is open appends to that channel those of the
  -- outgoing advertisements that the filter lets through, in order, as far as the channel has room.
  -- The outgoing buffer is empty afterwards, so what did not fit is gone.
  pub send-channel :
      (i : Interface p) (store : Store p) (ref : ℕ) (c : Channel p)
      → i.out_channel ≡ some ref
      → IsOpen store ref c
      → (get_elem? (send p i store).1 ref
          ≡ some (filled c (accepted p i.out_filter i.outgoing.items)))
        × ((send p i store).0.outgoing.items ≡ [])
  send-channel i store ref c e o = (
    rw (send-store i store ref e, send_loop-channel i.out_filter store ref c i.outgoing.items o),
    send-emptied i store ref e,
  )
