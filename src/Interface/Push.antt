-- ===== src/Interface/Push.antt =====
-- What `push_outgoing_advertisements` (components/interface.rs) queues, and when it fails.
use netfabric_bgp_router.Prelude.{
  ℕ, zero, suc, ◌≤◌, ◌≡◌, refl, ap, none, some, List, [], ◌∷◌, ◌++◌, length, take, arith, ltb,
  if◌then◌else◌,
}
use mathlib.Core.List.{append-nil}
use netfabric_bgp_router.Platform.{Platform}
use netfabric_bgp_router.Advertisement.{Advertisement}
use netfabric_bgp_router.Interface.{
  Interface, outgoing_buffer_capacity_exceeded, push_outgoing_advertisements,
}
use netfabric_bgp_router.Interface.Receive.{room}

take_all : {A : Type 0} (n : ℕ) (xs : List A) → length xs ≤ n → take n xs ≡ xs
take_all zero [] h = refl
take_all zero (x ∷ xs) h = ground arith
take_all (suc n) [] h = refl
take_all (suc n) (x ∷ xs) h = ap (◌∷◌ x) (take_all n xs (omega arith))

module _ (p : Platform) where
  -- On an interface with an output channel, `push_outgoing_advertisements` appends the
  -- advertisements to the outgoing buffer as far as there is room, and reports an error exactly
  -- when some of them did not fit.
  pub push_all-items :
      (i : Interface p) (ads : List (Advertisement p)) (ref : ℕ)
      → i.out_channel ≡ some ref
      → ((push_outgoing_advertisements p i ads).1.outgoing.items
          ≡ i.outgoing.items ++ take (room p i.outgoing) ads)
        × ((push_outgoing_advertisements p i ads).0 ≡ (
            if ltb (room p i.outgoing) (length ads)
            then some outgoing_buffer_capacity_exceeded
            else none))
  unfolding push_outgoing_advertisements
  push_all-items i [] ref e =
      ground
        (arith, take_all {A = Advertisement p} (room p i.outgoing) [], append-nil i.outgoing.items)
  push_all-items i (ad ∷ ads) ref e = ground (arith, take_all (room p i.outgoing) (ad ∷ ads))
