-- ===== src/RouterMask/Removal.antt =====
-- `RouterMaskMap::remove` (utils/router_mask.rs) gives the router's bit back.
use netfabric_bgp_router.Prelude.{
  ℕ, ◌^◌, ◌<◌, ◌≡◌, ◌≢◌, ap, sym, ◌∙◌, some, none, bit_xor, arith, ℕ_discrete, ok, panic, ◌⊎◌, inl,
  inr, Option-cases,
}
use netfabric_bgp_router.Prelude.HashMap
use mathlib.Core.Option.{some-injective}
use netfabric_bgp_router.Prelude.Bits.{
  bit, bit-le-one, bit-bit_xor, bit_pow_self, bit_pow_ne, bit_xor-lt, pow-lt-pow,
}
use netfabric_bgp_router.RouterMask.{RouterMask, RouterMaskMap, remove_router}
use netfabric_bgp_router.RouterMask.Laws.{Has}
use netfabric_bgp_router.RouterMask.MapLaws.{IsValid, pow_injective}

module _ {K : Type 0} (dec : Discrete K) (m : RouterMaskMap K) (id : K) where
  abbrev without_router : RouterMask → RouterMaskMap K
  without_router r = record m { mask = bit_xor m.mask r; map = HashMap.remove dec id m.map }

  get_remaining :
      (j : K) (s : RouterMask)
      → HashMap.get dec j (HashMap.remove dec id m.map) ≡ some s
      → (id ≢ j) × (HashMap.get dec j m.map ≡ some s)
  get_remaining j s h = elim (dec id j) [
    | yes e ↦ absurd (ground (arith, HashMap.get-remove dec id j m.map))
    | no ne ↦ (ne, ground (arith, HashMap.get-remove dec id j m.map))
  ]

  module _ (k : ℕ) (v : IsValid dec m) (held : HashMap.get dec id m.map ≡ some (2 ^ k)) where
    remaining_single :
        (j : K) (s : RouterMask)
        → HashMap.get dec j (HashMap.remove dec id m.map) ≡ some s
        → (i : ℕ) × (i < 64) × (s ≡ 2 ^ i) × Has i (bit_xor m.mask (2 ^ k))
    remaining_single j s h =
        let (ne, old) = get_remaining j s h in
        let (i, lt, eq, has) = v.single j s old in
        let other : i ≢ k =
          λ e. ne (v.distinct id j (2 ^ k) held (old ∙ ap some (eq ∙ ap (λ t. 2 ^ t) e))) in
        (i, lt, eq, omega (arith, bit-bit_xor i m.mask (2 ^ k), bit_pow_ne i k other))

    remaining_covered :
        (i : ℕ)
        → i < 64
        → Has k m.mask
        → Has i (bit_xor m.mask (2 ^ k))
        → (j : K) × (HashMap.get dec j (HashMap.remove dec id m.map) ≡ some (2 ^ i))
    remaining_covered i hi mine has = elim (ℕ_discrete i k) [
      | yes e ↦ absurd (
          omega (
            arith,
            bit-bit_xor i m.mask (2 ^ k),
            ap (λ t. bit t m.mask) e,
            ap (λ t. bit t (2 ^ k)) e,
            bit_pow_self k,
          ))
      | no ne ↦
          let (j, found) =
            v.covered i hi (
              omega
                (arith, bit-bit_xor i m.mask (2 ^ k), bit_pow_ne i k ne, bit-le-one i m.mask)) in
          let other : id ≢ j = λ e. ne (
            sym (
              pow_injective k i
                (some-injective _ _ (sym held ∙ ap (λ x. HashMap.get dec x m.map) e ∙ found)))) in
          (j, ground (arith, HashMap.get-remove dec id j m.map))
    ]

    without_router-IsValid : k < 64 → Has k m.mask → IsValid dec (without_router (2 ^ k))
    without_router-IsValid lt mine = record {
      default_empty = v.default_empty;
      bounded = bit_xor-lt 64 m.mask (2 ^ k) v.bounded (pow-lt-pow k 64 lt);
      single = remaining_single;
      distinct = λ i j r hi hj. v.distinct i j r (get_remaining i r hi).1 (get_remaining j r hj).1;
      covered = λ i hi has. remaining_covered i hi mine has;
    }

module _ {K : Type 0} (dec : Discrete K) where
  -- On a valid map `remove` panics exactly on a router without a mask. Otherwise the map stays
  -- valid, no longer knows the router, keeps every other router's mask, and has the bit free again.
  pub remove_router_total :
      (m : RouterMaskMap K) (id : K)
      → IsValid dec m
      → ((HashMap.get dec id m.map ≡ none)
          × (remove_router dec m id ≡ panic "called `Option::unwrap()` on a `None` value"))
        ⊎ ((k : ℕ) × (m' : RouterMaskMap K) × (HashMap.get dec id m.map ≡ some (2 ^ k))
            × (remove_router dec m id ≡ ok m')
            × IsValid dec m'
            × (HashMap.get dec id m'.map ≡ none)
            × ((j : K) → id ≢ j → HashMap.get dec j m'.map ≡ HashMap.get dec j m.map)
            × (bit k m'.mask ≡ 0))
  unfolding remove_router
  remove_router_total m id v = elim (Option-cases (HashMap.get dec id m.map)) [
    | inl e ↦ inl (e, rw (e, remove_router))
    | inr (r, e) ↦
        let (k, lt, eq, has) = v.single id r e in
        let held : HashMap.get dec id m.map ≡ some (2 ^ k) = e ∙ ap some eq in
        inr (
          k,
          without_router dec m id (2 ^ k),
          held,
          rw (held, remove_router),
          without_router-IsValid dec m id k v held lt has,
          ground (arith, HashMap.get-remove dec id id m.map),
          λ j ne. ground (arith, HashMap.get-remove dec id j m.map),
          omega (arith, bit-bit_xor k m.mask (2 ^ k), bit_pow_self k),
        )
  ]
