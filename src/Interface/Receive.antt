-- ===== src/Interface/Receive.antt =====
-- What `Interface::receive` (components/interface.rs) stores.
use netfabric_bgp_router.Prelude.{
  ℕ, suc, ◌-◌, ◌≤◌, ◌<◌, ◌≡◌, refl, Bool, true, false, none, some, List, [], ◌∷◌, ◌++◌, map, length,
  take, length-append, arith, ◌⊎◌, zero, Bool-cases, inl, inr,
}
use mathlib.Core.List.{append_assoc, append-nil}
use netfabric_bgp_router.Platform.{Platform}
use netfabric_bgp_router.Advertisement.{Advertisement}
use netfabric_bgp_router.Filters.{Filter}
use netfabric_bgp_router.Channel.{Store, Message, advertisement, queue_of}
use netfabric_bgp_router.Interface.{Interface, Buffer, push, receive_loop, receive, accepted}
use netfabric_bgp_router.Interface.Bounds.{receive_open}

module _ (p : Platform) where
  abbrev pub messages : List (Advertisement p) → List (Message p)
  messages = map (advertisement)

  -- The room that a buffer has left.
  abbrev pub room : Buffer (Advertisement p) → ℕ
  room b = b.capacity - length b.items

  pub take_nil : {A : Type 0} (n : ℕ) → take {A = A} n [] ≡ []
  take_nil zero = refl
  take_nil (suc n) = refl

  room-push :
      (b : Buffer (Advertisement p)) (ad : Advertisement p)
      → length b.items < b.capacity
      → room b ≡ suc (room (push b ad))
  room-push b ad h = omega (arith, length-append b.items (ad ∷ []))

  room_zero : (b : Buffer (Advertisement p)) → b.capacity ≤ length b.items → room b ≡ 0
  room_zero b h = omega arith

  pub lt_or_le : (a b : ℕ) → (a < b) ⊎ (b ≤ a)
  lt_or_le a b = ground arith

  -- An accepted advertisement is stored if there is room, and ends the loop if there is none.
  pub receive_loop_stored :
      (f : Filter (Advertisement p)) (ad : Advertisement p) (ms : List (Message p))
      (b : Buffer (Advertisement p))
      → (f ad).0 ≡ true
      → length b.items < b.capacity
      → receive_loop p f (advertisement ad ∷ ms) b ≡ receive_loop p f ms (push b (f ad).1)
  unfolding receive_loop
  receive_loop_stored f ad ms b e h = ground arith

  pub receive_loop_full :
      (f : Filter (Advertisement p)) (ad : Advertisement p) (ms : List (Message p))
      (b : Buffer (Advertisement p))
      → (f ad).0 ≡ true
      → b.capacity ≤ length b.items
      → receive_loop p f (advertisement ad ∷ ms) b ≡ (none, b, ms)
  unfolding receive_loop
  receive_loop_full f ad ms b e h = ground arith

  pub receive_loop_skipped :
      (f : Filter (Advertisement p)) (ad : Advertisement p) (ms : List (Message p))
      (b : Buffer (Advertisement p))
      → (f ad).0 ≡ false
      → receive_loop p f (advertisement ad ∷ ms) b ≡ receive_loop p f ms b
  unfolding receive_loop
  receive_loop_skipped f ad ms b e = ground arith

  -- Reading a channel of advertisements stores the accepted ones, in order, as far as there is room.
  pub receive_loop-items :
      (f : Filter (Advertisement p)) (ads : List (Advertisement p)) (b : Buffer (Advertisement p))
      → (receive_loop p f (messages ads) b).1.items ≡ b.items ++ take (room b) (accepted p f ads)
  unfolding receive_loop
  receive_loop-items f [] b = rw (take_nil {A = Advertisement p} (room b), append-nil b.items)
  receive_loop-items f (ad ∷ ads) b = elim (Bool-cases (f ad).0) [
    | inl e ↦ elim (lt_or_le (length b.items) b.capacity) [
      | inl h ↦ rw (
        receive_loop_stored f ad (messages ads) b e h,
        receive_loop-items f ads (push b (f ad).1),
        room-push b (f ad).1 h,
        e,
        append_assoc b.items ((f ad).1 ∷ []) (take (room (push b (f ad).1)) (accepted p f ads)),
      )
      | inr h ↦ rw (receive_loop_full f ad (messages ads) b e h, room_zero b h, append-nil b.items)
    ]
    | inr e ↦ rw (receive_loop_skipped f ad (messages ads) b e, e, receive_loop-items f ads b)
  ]

  -- `receive` on an interface whose input channel holds the advertisements `ads` appends to the
  -- incoming buffer those that the filter lets through, in order, as far as there is room.
  pub receive-stored :
      (i : Interface p) (store : Store p) (locked : ℕ → Bool) (ref : ℕ)
      (ads : List (Advertisement p))
      → i.in_channel ≡ some ref
      → locked ref ≡ true
      → queue_of p store ref ≡ messages ads
      → (receive p i store locked).1.incoming.items
        ≡ i.incoming.items ++ take (room i.incoming) (accepted p i.in_filter ads)
  receive-stored i store locked ref ads e l q =
      rw (receive_open p i store locked ref e l, q, receive_loop-items i.in_filter ads i.incoming)
