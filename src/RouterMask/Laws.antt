-- ===== src/RouterMask/Laws.antt =====
-- What the operations on masks do to each of the 64 bits (utils/router_mask.rs).
use netfabric_bgp_router.Prelude.{
  ℕ, ◌-◌, ◌^◌, ◌≤◌, ◌<◌, ◌≡◌, ◌≢◌, ◌↔◌, ◌⊎◌, inl, inr, ap, true, min, max, bit_and, arith,
  ℕ_discrete,
}
use netfabric_bgp_router.Prelude.Bits.{
  bit, bit-le-one, bit-bit_and, bit-bit_or, bit_complement, eq_of_bits, bit_pow_self, bit_pow_ne,
  bit_zero, bit_and-lt, bit_or-lt, pow-lt-pow,
}
use netfabric_bgp_router.RouterMask.{RouterMask, u64_max, contains, remove, combine}

-- The router with bit `k` is in the mask.
abbrev pub Has : ℕ → RouterMask → Type 0
Has k m = bit k m ≡ 1

-- A mask as `RouterMaskMap::get` hands out: bit `k` and no other.
abbrev pub IsU64 : RouterMask → Type 0
IsU64 m = m < 2 ^ 64

bit_and_eq_of_bits :
    (m other : RouterMask)
    → IsU64 m
    → IsU64 other
    → ((k : ℕ) → k < 64 → bit k other ≤ bit k m)
    → bit_and m other ≡ other
bit_and_eq_of_bits m other hm ho h =
    eq_of_bits 64 _ _ (bit_and-lt 64 m other hm) ho
      (λ k hk. omega (arith, bit-bit_and k m other, h k hk))

-- `contains` holds exactly when `other` names some router and each router of `other` is in the mask.
pub contains_iff :
    (m other : RouterMask)
    → IsU64 m
    → IsU64 other
    → (contains m other ≡ true) ↔ ((other ≢ 0) × ((k : ℕ) → k < 64 → bit k other ≤ bit k m))
unfolding contains
contains_iff m other hm ho = (forth, back)
  where
    forth : contains m other ≡ true → (other ≢ 0) × ((k : ℕ) → k < 64 → bit k other ≤ bit k m)
    forth h =
        let e : bit_and m other ≡ other = ground arith in
        (ground arith, λ k hk. omega (arith, bit-bit_and k m other, ap (bit k) e))

    back : (other ≢ 0) × ((k : ℕ) → k < 64 → bit k other ≤ bit k m) → contains m other ≡ true
    back h = ground (arith, bit_and_eq_of_bits m other hm ho h.1, h.0)

-- `remove` takes out exactly the routers of `other`.
pub bit-remove :
    (m other : RouterMask) (k : ℕ)
    → IsU64 other
    → k < 64
    → bit k (remove m other) ≡ min (bit k m) (1 - bit k other)
unfolding remove
bit-remove m other k ho hk =
    omega (arith, bit-bit_and k m (u64_max - other), bit_complement 64 k other ho hk)

pub bit-combine :
    (m other : RouterMask) (k : ℕ) → bit k (combine m other) ≡ max (bit k m) (bit k other)
unfolding combine
bit-combine m other k = bit-bit_or k m other

pub remove-lt : (m other : RouterMask) → IsU64 m → IsU64 (remove m other)
unfolding remove
remove-lt m other h = bit_and-lt 64 m (u64_max - other) h

pub combine-lt : (m other : RouterMask) → IsU64 m → IsU64 other → IsU64 (combine m other)
unfolding combine
combine-lt m other h k = bit_or-lt 64 m other h k

pub pow_ne_zero : (k : ℕ) → 2 ^ k ≢ 0
pow_ne_zero k = λ e. omega (arith, bit_pow_self k, ap (bit k) e, bit_zero k)

-- A bit is at most what it is in a mask that has it.
single-le : (m : RouterMask) (k j : ℕ) → Has k m → bit j (2 ^ k) ≤ bit j m
single-le m k j h = elim (ℕ_discrete j k) [
  | yes e ↦ rw e (omega (arith, bit-le-one k (2 ^ k)))
  | no ne ↦ omega (arith, bit_pow_ne j k ne)
]

-- The mask of a single router is contained exactly in the masks that have its bit.
pub contains_single_iff :
    (m : RouterMask) (k : ℕ) → IsU64 m → k < 64 → (contains m (2 ^ k) ≡ true) ↔ Has k m
contains_single_iff m k hm hk =
    let both = contains_iff m (2 ^ k) hm (pow-lt-pow k 64 hk) in
    (
      λ h. omega (arith, bit_pow_self k, bit-le-one k m, (both.0 h).1 k hk),
      λ h. both.1 (pow_ne_zero k, λ j hj. single-le m k j h),
    )

pub Has-single_iff : (j k : ℕ) → Has j (2 ^ k) ↔ (j ≡ k)
Has-single_iff j k = (
  λ h. elim (ℕ_discrete j k) [ yes e ↦ e | no ne ↦ absurd (omega (arith, bit_pow_ne j k ne)) ],
  λ e. omega (arith, ap (λ t. bit t (2 ^ k)) e, bit_pow_self k),
)

-- The routers left after one was removed.
pub Has-remove_iff : (m k j : ℕ) → k < 64 → j < 64 → Has j (remove m (2 ^ k)) ↔ (Has j m × (j ≢ k))
Has-remove_iff m k j hk hj = (forth, back)
  where
    e : bit j (remove m (2 ^ k)) ≡ min (bit j m) (1 - bit j (2 ^ k))
    e = bit-remove m (2 ^ k) j (pow-lt-pow k 64 hk) hj

    forth : Has j (remove m (2 ^ k)) → Has j m × (j ≢ k)
    forth h = (
      omega (arith, e, bit-le-one j m),
      λ same. omega (arith, e, ap (λ t. bit t (2 ^ k)) same, bit_pow_self k),
    )

    back : Has j m × (j ≢ k) → Has j (remove m (2 ^ k))
    back h = omega (arith, e, h.0, bit_pow_ne j k h.1)

pub Has-combine_iff : (m k j : ℕ) → Has j (combine m (2 ^ k)) ↔ (Has j m ⊎ (j ≡ k))
Has-combine_iff m k j = (forth, back)
  where
    forth : Has j (combine m (2 ^ k)) → Has j m ⊎ (j ≡ k)
    forth h = elim (ℕ_discrete j k) [
      | yes e ↦ inr e
      | no ne ↦ inl (omega (arith, bit-combine m (2 ^ k) j, bit_pow_ne j k ne))
    ]

    back : Has j m ⊎ (j ≡ k) → Has j (combine m (2 ^ k))
    back (inl h) = omega (arith, bit-combine m (2 ^ k) j, bit-le-one j (2 ^ k))
    back (inr e) =
        omega (
          arith,
          bit-combine m (2 ^ k) j,
          ap (λ t. bit t (2 ^ k)) e,
          bit_pow_self k,
          bit-le-one j m,
        )
