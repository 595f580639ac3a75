-- ===== src/Interface.antt =====
-- components/interface.rs: one end of a link, with its filters and its two buffers.
pub mod Bounds
pub mod Send
pub mod Receive
pub mod Conserve
pub mod Push
use netfabric_bgp_router.Prelude.{
  ℕ, ◌+◌, ◌-◌, Bool, true, false, String, Option, none, some, List, [], ◌∷◌, ◌++◌, length, take,
  drop, ltb, ◌==◌, if◌then◌else◌, filter_map,
}
use netfabric_bgp_router.Platform.{Platform, IpAddr}
use netfabric_bgp_router.Advertisement.{Advertisement}
use netfabric_bgp_router.Filters.{Filter, no_filter}
use netfabric_bgp_router.Channel.{
  Store, Message, advertisement, cast_advertisement, queue_of, set_queue, try_send,
}

-- `INCOMING_ADVERTISEMENTS_CAPACITY` and `OUTGOING_ADVERTISEMENTS_CAPACITY`
abbrev pub incoming_capacity : ℕ
incoming_capacity = 1000

abbrev pub outgoing_capacity : ℕ
outgoing_capacity = 1000

-- `InterfaceError`. The text of a `MutexError` only prints the lock's error.
pub data InterfaceError : Type 0 where
  outgoing_buffer_capacity_exceeded : InterfaceError
  incoming_buffer_capacity_exceeded : InterfaceError
  parser_error : String → InterfaceError
  mutex_error : InterfaceError

-- A `Vec` whose capacity the code reads. `Vec::with_capacity n` has capacity `n`.
pub record Buffer (A : Type 0) : Type 0 where
  pub items : List A
  pub capacity : ℕ

abbrev pub with_capacity : {A : Type 0} → ℕ → Buffer A
with_capacity n = record { items = []; capacity = n }

abbrev pub push : {A : Type 0} → Buffer A → A → Buffer A
push b a = record b { items = b.items ++ (a ∷ []) }

module _ (p : Platform) where
  -- `Interface`. A channel's end is its index in the store.
  pub record Interface : Type 0 where
    pub id : p.Uuid
    pub ip_address : IpAddr
    pub in_channel : Option ℕ
    pub out_channel : Option ℕ
    pub in_filter : Filter (Advertisement p)
    pub out_filter : Filter (Advertisement p)
    pub incoming : Buffer (Advertisement p)
    pub outgoing : Buffer (Advertisement p)
    pub buffer_size_incoming : ℕ
    pub buffer_size_outgoing : ℕ

  -- `Interface::new`, with the new identifier as an argument.
  unfoldable pub new : p.Uuid → IpAddr → Interface
  new id address = record {
    id = id;
    ip_address = address;
    in_channel = none;
    out_channel = none;
    in_filter = no_filter;
    out_filter = no_filter;
    incoming = with_capacity incoming_capacity;
    outgoing = with_capacity outgoing_capacity;
    buffer_size_incoming = incoming_capacity;
    buffer_size_outgoing = outgoing_capacity;
  }

  -- `set_in_channel`, `set_out_channel`, `set_in_filter`, `set_out_filter`, `set_ip_address`
  abbrev pub set_in_channel : Interface → ℕ → Interface
  set_in_channel i ref = record i { in_channel = some ref }

  abbrev pub set_out_channel : Interface → ℕ → Interface
  set_out_channel i ref = record i { out_channel = some ref }

  abbrev pub set_in_filter : Interface → Filter (Advertisement p) → Interface
  set_in_filter i f = record i { in_filter = f }

  abbrev pub set_out_filter : Interface → Filter (Advertisement p) → Interface
  set_out_filter i f = record i { out_filter = f }

  abbrev pub set_ip_address : Interface → IpAddr → Interface
  set_ip_address i address = record i { ip_address = address }

  -- `Interface::set_buffer_size`
  abbrev pub set_buffer_size : Interface → ℕ → ℕ → Interface
  set_buffer_size i incoming outgoing = record i {
    buffer_size_incoming = incoming;
    buffer_size_outgoing = outgoing;
  }

  -- `Interface::new_loopback`, over the channel pair that the bus returned.
  unfoldable pub new_loopback : p.Uuid → IpAddr → ℕ → ℕ → ℕ → Interface
  unfolding new
  new_loopback id address queue_buffer_size tx rx =
      set_buffer_size (set_out_channel (set_in_channel (new id address) rx) tx) queue_buffer_size
        queue_buffer_size

  -- `Interface::force_resize`
  unfoldable pub force_resize : Interface → Interface
  force_resize i = record i {
    incoming = with_capacity i.buffer_size_incoming;
    outgoing = with_capacity i.buffer_size_outgoing;
  }

  -- The loop of `Interface::receive` over the messages in the channel: the error if there is one,
  -- the buffer, and the messages left in the channel. A message has left the channel before it is
  -- known whether the buffer has room.
  unfoldable pub receive_loop :
      Filter (Advertisement p)
      → List (Message p)
      → Buffer (Advertisement p)
      → Option InterfaceError × Buffer (Advertisement p) × List (Message p)
  receive_loop f [] buffer = (none, buffer, [])
  receive_loop f (message ∷ rest) buffer = elim (cast_advertisement p message) [
    | none ↦ (some (parser_error "Received message is not an advertisement!"), buffer, rest)
    | some ad ↦
        let stored = receive_loop f rest (push buffer (f ad).1) in
        let skipped = receive_loop f rest buffer in
        if (f ad).0
        then (if ltb (length buffer.items) buffer.capacity then stored else (none, buffer, rest))
        else skipped
  ]

  -- `Interface::receive`; `locked` says for each channel whether its lock is taken in time.
  unfoldable pub receive :
      Interface → Store p → (ℕ → Bool) → Option InterfaceError × Interface × Store p
  receive i store locked = elim i.in_channel [
    | none ↦ (none, i, store)
    | some ref ↦
        if locked ref
        then (let (error, buffer, rest) =
              receive_loop i.in_filter (queue_of p store ref) i.incoming in
            (error, record i { incoming = buffer }, set_queue p store ref rest))
        else (some mutex_error, i, store)
  ]

  -- The loop of `Interface::send`: it ends at the first message that the channel does not take.
  unfoldable pub send_loop :
      Filter (Advertisement p) → Store p → ℕ → List (Advertisement p) → Store p
  send_loop f store ref [] = store
  send_loop f store ref (ad ∷ rest) =
      let skipped = send_loop f store ref rest in
      elim (f ad).0 [
        | true ↦ elim (try_send p store ref (advertisement (f ad).1)) [
          | none ↦ store
          | some store' ↦ send_loop f store' ref rest
        ]
        | false ↦ skipped
      ]

  -- `Interface::send`
  unfoldable pub send : Interface → Store p → Interface × Store p
  send i store = elim i.outgoing.items [
    | [] ↦ (i, store)
    | ad ∷ rest ↦ elim i.out_channel [
      | none ↦ (i, store)
      | some ref ↦ (
        record i { outgoing = with_capacity i.buffer_size_outgoing },
        send_loop i.out_filter store ref (ad ∷ rest),
      )
    ]
  ]

  -- `Interface::get_incoming_advertisements`
  unfoldable pub get_incoming_advertisements : Interface → List (Advertisement p) × Interface
  get_incoming_advertisements i =
      (i.incoming.items, record i { incoming = with_capacity i.buffer_size_incoming })

  -- `Interface::push_outgoing_advertisement`
  unfoldable pub push_outgoing_advertisement :
      Interface → Advertisement p → Option InterfaceError × Interface
  push_outgoing_advertisement i ad = elim i.out_channel [
    | none ↦ (none, i)
    | some _ ↦
        if ltb (length i.outgoing.items) i.outgoing.capacity
        then (none, record i { outgoing = push i.outgoing ad })
        else (some outgoing_buffer_capacity_exceeded, i)
  ]

  -- `Interface::push_outgoing_advertisements`
  unfoldable pub push_outgoing_advertisements :
      Interface → List (Advertisement p) → Option InterfaceError × Interface
  push_outgoing_advertisements i ads = if length ads == 0 then (none, i) else elim i.out_channel [
    | none ↦ (none, i)
    | some _ ↦
        let capacity_left = i.outgoing.capacity - length i.outgoing.items in
        if ltb capacity_left (length ads)
        then (
          some outgoing_buffer_capacity_exceeded,
          record i {
            outgoing = record (i.outgoing) { items = i.outgoing.items ++ take capacity_left ads };
          },
        )
        else (none, record i { outgoing = record (i.outgoing) { items = i.outgoing.items ++ ads } })
  ]

  -- The advertisements that a filter lets through, as it leaves them.
  abbrev pub accepted : Filter (Advertisement p) → List (Advertisement p) → List (Advertisement p)
  accepted f [] = []
  accepted f (ad ∷ rest) =
      let others = accepted f rest in if (f ad).0 then (f ad).1 ∷ others else others
