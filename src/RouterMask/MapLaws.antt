-- ===== src/RouterMask/MapLaws.antt =====
-- `RouterMaskMap` (utils/router_mask.rs): each router has a bit of its own, and `mask` is the set
-- of the bits in use.
use netfabric_bgp_router.Prelude.{
  ℕ, zero, suc, ◌+◌, ◌^◌, ◌≤◌, ◌<◌, ◌≡◌, ◌≢◌, ◌⊎◌, refl, ap, subst, ◌↔◌, none, some, bit_and,
  bit_or, arith, ◌==◌, Bool-cases, Option-cases, inl, inr, ℕ_discrete, ok, panic, sym, ◌∙◌,
}
use netfabric_bgp_router.Prelude.HashMap
use netfabric_bgp_router.Prelude.Bits.{
  bit, bit-le-one, bit-bit_and, bit-bit_or, bit_complement, eq_of_bits, bit_pow_self, bit_pow_ne,
  bit_zero, bit_and-lt, bit_or-lt, pow-lt-pow,
}
use netfabric_bgp_router.RouterMask
use netfabric_bgp_router.RouterMask.{
  RouterMask, RouterMaskMap, u64_max, new, try_get, get, free_bit, remove_router,
}
use netfabric_bgp_router.RouterMask.Laws.{Has, IsU64, Has-combine_iff}

bit_and_single_eq_zero : (m k : ℕ) → IsU64 m → bit k m ≡ 0 → bit_and m (2 ^ k) ≡ 0
bit_and_single_eq_zero m k hm h = eq_of_bits 64 _ 0 (bit_and-lt 64 m (2 ^ k) hm) (omega arith) digit
  where
    digit : (j : ℕ) → j < 64 → bit j (bit_and m (2 ^ k)) ≡ bit j 0
    digit j hj = elim (ℕ_discrete j k) [
      | yes e ↦ rw e (omega (arith, bit-bit_and k m (2 ^ k), bit_zero k))
      | no ne ↦ omega (arith, bit-bit_and j m (2 ^ k), bit_pow_ne j k ne, bit_zero j)
    ]

bit_eq_zero : (m k : ℕ) → bit_and m (2 ^ k) ≡ 0 → bit k m ≡ 0
bit_eq_zero m k h =
    omega (arith, bit-bit_and k m (2 ^ k), ap (bit k) h, bit_zero k, bit_pow_self k, bit-le-one k m)

-- The loop finds a bit that is 0 in the mask, if there is one among those it tries.
free_bit-some :
    (left b m : ℕ) {r : RouterMask}
    → free_bit left b m ≡ some r
    → (k : ℕ) × (k < b + left) × (r ≡ 2 ^ k) × (bit k m ≡ 0)
unfolding free_bit
free_bit-some zero b m h = cc
free_bit-some (suc left) b m {r} h = elim (Bool-cases (bit_and m (2 ^ b) == 0)) [
  | inl e ↦ (b, omega arith, ground arith, bit_eq_zero m b (ground arith))
  | inr e ↦
      let (k, lt, eq, free) = free_bit-some left (b + 1) m {r = r} (ground arith) in
      (k, omega (arith, lt), eq, free)
]

free_bit-none :
    (left b m k : ℕ) → IsU64 m → free_bit left b m ≡ none → b ≤ k → k < b + left → bit k m ≡ 1
unfolding free_bit
free_bit-none zero b m k hm h lo hi = absurd (omega arith)
free_bit-none (suc left) b m k hm h lo hi = elim (ℕ_discrete (bit k m) 0) [
  | no ne ↦ omega (arith, bit-le-one k m)
  | yes z ↦ elim (ℕ_discrete k b) [
    | yes e ↦ ground (arith, bit_and_single_eq_zero m k hm z)
    | no ne ↦ free_bit-none left (b + 1) m k hm (ground arith) (omega arith) (omega arith)
  ]
]

full_of_bits : (m : ℕ) → IsU64 m → ((k : ℕ) → k < 64 → bit k m ≡ 1) → m ≡ u64_max
full_of_bits m hm h =
    eq_of_bits 64 m u64_max hm (omega arith)
      (λ k hk. omega (arith, h k hk, bit_complement 64 k 0 (omega arith) hk, bit_zero k))

-- A map that is not full has a bit to give: `RouterMaskMap is corrupted` is never reached.
pub free_bit-total :
    (m : RouterMask)
    → IsU64 m
    → m ≢ u64_max
    → (k : ℕ) × (free_bit 64 0 m ≡ some (2 ^ k)) × (k < 64) × (bit k m ≡ 0)
free_bit-total m hm ne = elim (Option-cases (free_bit 64 0 m)) [
  | inl e ↦
      absurd
        (ne (full_of_bits m hm (λ k hk. free_bit-none 64 0 m k hm e (omega arith) (omega arith))))
  | inr (r, e) ↦
      let (k, lt, eq, free) = free_bit-some 64 0 m e in (k, e ∙ ap some eq, omega arith, free)
]

pub pow_injective : (k j : ℕ) → 2 ^ k ≡ 2 ^ j → k ≡ j
pow_injective k j e = elim (ℕ_discrete k j) [
  | yes same ↦ same
  | no ne ↦ absurd (omega (arith, bit_pow_ne k j ne, bit_pow_self k, ap (bit k) e))
]

module _ {K : Type 0} (dec : Discrete K) where
  pub record IsValid (m : RouterMaskMap K) : Type 0 where
    pub default_empty : m.default_mask ≡ 0
    pub bounded : IsU64 m.mask
    pub single :
        (id : K) (r : RouterMask)
        → HashMap.get dec id m.map ≡ some r
        → (k : ℕ) × (k < 64) × (r ≡ 2 ^ k) × Has k m.mask
    pub distinct :
        (i j : K) (r : RouterMask)
        → HashMap.get dec i m.map ≡ some r
        → HashMap.get dec j m.map ≡ some r
        → i ≡ j
    pub covered :
        (k : ℕ) → k < 64 → Has k m.mask → (id : K) × (HashMap.get dec id m.map ≡ some (2 ^ k))

  pub new-IsValid : IsValid new
  new-IsValid = record {
    default_empty = refl;
    bounded = omega arith;
    single = λ id r h. absurd (none≢some h);
    distinct = λ i j r h. absurd (none≢some h);
    covered = λ k hk h. absurd (omega (arith, bit_zero k));
  }
    where
      none≢some : {r : RouterMask} → none ≡ some r → ⊥
      none≢some h = cc

  -- The map after a router got a bit.
  abbrev with_router : RouterMaskMap K → K → RouterMask → RouterMaskMap K
  with_router m id r = record m { mask = bit_or m.mask r; map = HashMap.insert dec id r m.map }

  get_inserted :
      (m : RouterMaskMap K) (id j : K) (r s : RouterMask)
      → HashMap.get dec j (HashMap.insert dec id r m.map) ≡ some s
      → ((id ≡ j) × (r ≡ s)) ⊎ ((id ≢ j) × (HashMap.get dec j m.map ≡ some s))
  get_inserted m id j r s h = elim (dec id j) [
    | yes e ↦ inl (e, ground (arith, HashMap.get-insert dec id j r m.map))
    | no ne ↦ inr (ne, sym (HashMap.get-insert_ne dec id j r m.map ne) ∙ h)
  ]

  module _ (m : RouterMaskMap K) (id : K) (k : ℕ) where
    with_router_single :
        IsValid m
        → k < 64
        → (j : K) (r : RouterMask)
        → HashMap.get dec j (HashMap.insert dec id (2 ^ k) m.map) ≡ some r
        → (i : ℕ) × (i < 64) × (r ≡ 2 ^ i) × Has i (bit_or m.mask (2 ^ k))
    with_router_single v hk j r h = elim (get_inserted m id j (2 ^ k) r h) [
      | inl (_, e) ↦ (
        k,
        hk,
        sym e,
        omega (arith, bit-bit_or k m.mask (2 ^ k), bit_pow_self k, bit-le-one k m.mask),
      )
      | inr (_, e) ↦
          let (i, lt, eq, has) = v.single j r e in
          (i, lt, eq, omega (arith, bit-bit_or i m.mask (2 ^ k), bit-le-one i (2 ^ k)))
    ]

    -- A router that had a mask before has not got the free bit.
    old_ne_new :
        IsValid m
        → bit k m.mask ≡ 0
        → (j : K) (r : RouterMask) → HashMap.get dec j m.map ≡ some r
        → 2 ^ k ≢ r
    old_ne_new v free j r h = λ e.
        let (i, lt, eq, has) = v.single j r h in
        let same : k ≡ i = pow_injective k i (e ∙ eq) in omega (arith, ap (λ t. bit t m.mask) same)

    with_router_distinct :
        IsValid m
        → bit k m.mask ≡ 0
        → (i j : K) (r : RouterMask)
        → HashMap.get dec i (HashMap.insert dec id (2 ^ k) m.map) ≡ some r
        → HashMap.get dec j (HashMap.insert dec id (2 ^ k) m.map) ≡ some r
        → i ≡ j
    with_router_distinct v free i j r hi hj = elim (get_inserted m id i (2 ^ k) r hi) [
      | inl (ei, ri) ↦ elim (get_inserted m id j (2 ^ k) r hj) [
        | inl (ej, rj) ↦ sym ei ∙ ej
        | inr (nj, gj) ↦ absurd (old_ne_new v free j r gj ri)
      ]
      | inr (ni, gi) ↦ elim (get_inserted m id j (2 ^ k) r hj) [
        | inl (ej, rj) ↦ absurd (old_ne_new v free i r gi rj)
        | inr (nj, gj) ↦ v.distinct i j r gi gj
      ]
    ]

    with_router_covered :
        IsValid m
        → HashMap.get dec id m.map ≡ none
        → (i : ℕ) → i < 64
        → Has i (bit_or m.mask (2 ^ k))
        → (j : K) × (HashMap.get dec j (HashMap.insert dec id (2 ^ k) m.map) ≡ some (2 ^ i))
    with_router_covered v absent i hi has = elim (ℕ_discrete i k) [
      | yes e ↦ (id, rw e (HashMap.get-insert_self dec id (2 ^ k) m.map))
      | no ne ↦
          let old : Has i m.mask = omega (arith, bit-bit_or i m.mask (2 ^ k), bit_pow_ne i k ne) in
          let (j, found) = v.covered i hi old in
          let other : id ≢ j =
            λ e. some≢none (sym found ∙ ap (λ x. HashMap.get dec x m.map) (sym e) ∙ absent) in
          (j, HashMap.get-insert_ne dec id j (2 ^ k) m.map other ∙ found)
    ]
      where
        some≢none : {r : RouterMask} → some r ≡ none → ⊥
        some≢none h = cc

    with_router-IsValid :
        IsValid m
        → HashMap.get dec id m.map ≡ none
        → k < 64
        → bit k m.mask ≡ 0
        → IsValid (with_router m id (2 ^ k))
    with_router-IsValid v absent hk free = record {
      default_empty = v.default_empty;
      bounded = bit_or-lt 64 m.mask (2 ^ k) v.bounded (pow-lt-pow k 64 hk);
      single = with_router_single v hk;
      distinct = with_router_distinct v free;
      covered = with_router_covered v absent;
    }

  -- What `get` does where it returns: the map is valid and finds the router under the returned
  -- mask, other routers keep what they had, bits in use stay in use, and the mask is the one that
  -- the router had, or a single bit that was free.
  pub record Granted (m : RouterMaskMap K) (id : K) (k : ℕ) (m' : RouterMaskMap K) : Type 0 where
    pub in_word : k < 64
    pub valid : IsValid m'
    pub held : HashMap.get dec id m'.map ≡ some (2 ^ k)
    pub others : (j : K) → id ≢ j → HashMap.get dec j m'.map ≡ HashMap.get dec j m.map
    pub in_use : (i : ℕ) → Has i m'.mask ↔ (Has i m.mask ⊎ (i ≡ k))
    pub origin :
        (HashMap.get dec id m.map ≡ some (2 ^ k))
        ⊎ ((HashMap.get dec id m.map ≡ none) × (bit k m.mask ≡ 0))

  Granted-known :
      (m : RouterMaskMap K) (id : K) (k : ℕ)
      → IsValid m
      → HashMap.get dec id m.map ≡ some (2 ^ k)
      → k < 64
      → Has k m.mask
      → Granted m id k m
  Granted-known m id k v e lt has = record {
    in_word = lt;
    valid = v;
    held = e;
    others = λ j ne. refl;
    in_use =
        λ i. (λ h. inl h, elim [ inl h ↦ h | inr same ↦ subst (λ t. Has t m.mask) (sym same) has ]);
    origin = inl e;
  }

  Granted-new :
      (m : RouterMaskMap K) (id : K) (k : ℕ)
      → IsValid m
      → HashMap.get dec id m.map ≡ none
      → k < 64
      → bit k m.mask ≡ 0
      → Granted m id k (with_router m id (2 ^ k))
  unfolding RouterMask.combine
  Granted-new m id k v e lt free = record {
    in_word = lt;
    valid = with_router-IsValid m id k v e lt free;
    held = HashMap.get-insert_self dec id (2 ^ k) m.map;
    others = λ j ne. HashMap.get-insert_ne dec id j (2 ^ k) m.map ne;
    in_use = λ i. Has-combine_iff m.mask k i;
    origin = inr (e, free);
  }

  -- On a valid map `get` panics exactly where a new router meets a map with all 64 bits in use, and
  -- else returns the router's bit as `Granted` says: the map stays valid and finds the router under
  -- it, the other routers keep theirs, and the bit is the router's old one or one that was free.
  pub get_total :
      (m : RouterMaskMap K) (id : K)
      → IsValid m
      → ((HashMap.get dec id m.map ≡ none)
          × (m.mask ≡ u64_max)
          × (get dec m id ≡ panic "Router mask map is full"))
        ⊎ ((k : ℕ) × (m' : RouterMaskMap K) × (get dec m id ≡ ok (2 ^ k, m')) × Granted m id k m')
  unfolding get
  get_total m id v = elim (Option-cases (HashMap.get dec id m.map)) [
    | inr (r, e) ↦
        let (k, lt, eq, has) = v.single id r e in
        let held : HashMap.get dec id m.map ≡ some (2 ^ k) = e ∙ ap some eq in
        inr (k, m, rw (held, get), Granted-known m id k v held lt has)
    | inl e ↦ elim (ℕ_discrete m.mask u64_max) [
      | yes full ↦ inl (e, full, ground arith)
      | no room ↦
          let (k, found, lt, free) = free_bit-total m.mask v.bounded room in
          inr (k, with_router m id (2 ^ k), ground arith, Granted-new m id k v e lt free)
    ]
  ]
