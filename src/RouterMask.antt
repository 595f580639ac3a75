-- ===== src/RouterMask.antt =====
-- utils/router_mask.rs: `RouterMask`, a set of at most 64 routers as the bits of a `u64`, and
-- `RouterMaskMap`, which hands out one bit to each router.
pub mod Laws
pub mod MapLaws
pub mod Removal
pub mod Capacity
use netfabric_bgp_router.Prelude.{
  ℕ, zero, suc, ◌+◌, ◌-◌, ◌^◌, String, Bool, true, false, Option, none, some, List, [], ◌∷◌,
  bit_and, bit_or, bit_xor, ◌==◌, if◌then◌else◌, length, Outcome, ok, panic,
}
use netfabric_bgp_router.Prelude.HashMap
use netfabric_bgp_router.Prelude.Bits.{bit}

-- `RouterMask(u64)`.
abbrev pub RouterMask : Type 0
RouterMask = ℕ

abbrev pub u64_max : ℕ
u64_max = 2 ^ 64 - 1

-- `RouterMask::default`
abbrev pub default : RouterMask
default = 0

-- The ones among the `w` lowest binary digits.
count_ones : ℕ → ℕ → ℕ
count_ones zero m = 0
count_ones (suc w) m = count_ones w m + bit w m

-- `RouterMask::len`
unfoldable pub mask_len : RouterMask → ℕ
unfolding count_ones bit
mask_len m = count_ones 64 m

-- `RouterMask::all`
abbrev pub all : RouterMask
all = u64_max

-- `RouterMask::contains`
unfoldable pub contains : RouterMask → RouterMask → Bool
contains m other = if other == 0 then false else bit_and m other == other

-- `RouterMask::remove`, with `!x` on 64 bits.
unfoldable pub remove : RouterMask → RouterMask → RouterMask
remove m other = bit_and m (u64_max - other)

-- `RouterMask::combine` and `combine_with`
unfoldable pub combine : RouterMask → RouterMask → RouterMask
combine m other = bit_or m other

-- `RouterMaskMap`
pub record RouterMaskMap (K : Type 0) : Type 0 where
  pub default_mask : RouterMask
  pub mask : RouterMask
  pub map : List (K × RouterMask)

module _ {K : Type 0} where
  -- `RouterMaskMap::new`
  abbrev pub new : RouterMaskMap K
  new = record { default_mask = default; mask = default; map = [] }

  -- `RouterMaskMap::get_all`
  abbrev pub get_all : RouterMaskMap K → RouterMask
  get_all m = m.mask

  -- `RouterMaskMap::len`
  abbrev pub map_len : RouterMaskMap K → ℕ
  map_len m = length m.map

  -- `RouterMaskMap::get_all_ids`, in the map's order of iteration
  abbrev pub get_all_ids : RouterMaskMap K → List K
  get_all_ids m = HashMap.keys m.map

-- The loop of `RouterMaskMap::get` over the bits that are left, from `bit` on.
unfoldable pub free_bit : ℕ → ℕ → RouterMask → Option ℕ
free_bit zero b m = none
free_bit (suc left) b m =
    let rest = free_bit left (b + 1) m in if bit_and m (2 ^ b) == 0 then some (2 ^ b) else rest

module _ {K : Type 0} (dec : Discrete K) where
  -- `RouterMaskMap::try_get`
  unfoldable pub try_get : RouterMaskMap K → K → RouterMask
  try_get m id = elim (HashMap.get dec id m.map) [ none ↦ m.default_mask | some r ↦ r ]

  -- `RouterMaskMap::get`: the mask of the router, which is given a free bit if it has none.
  unfoldable pub get : RouterMaskMap K → K → Outcome (RouterMask × RouterMaskMap K)
  get m id = elim (HashMap.get dec id m.map) [
    | some r ↦ ok (r, m)
    | none ↦
        if m.mask == u64_max then panic "Router mask map is full" else elim (free_bit 64 0 m.mask) [
          | none ↦ panic "RouterMaskMap is corrupted"
          | some router_bit ↦ ok (
            router_bit,
            record m {
              mask = bit_or m.mask router_bit;
              map = HashMap.insert dec id router_bit m.map;
            },
          )
        ]
  ]

  -- `RouterMaskMap::remove`: it panics on a router that has no mask.
  unfoldable pub remove_router : RouterMaskMap K → K → Outcome (RouterMaskMap K)
  remove_router m id = elim (HashMap.get dec id m.map) [
    | none ↦ panic "called `Option::unwrap()` on a `None` value"
    | some r ↦ ok (record m { mask = bit_xor m.mask r; map = HashMap.remove dec id m.map })
  ]
