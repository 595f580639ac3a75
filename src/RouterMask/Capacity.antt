-- ===== src/RouterMask/Capacity.antt =====
-- When the map of masks (utils/router_mask.rs) is full.
use netfabric_bgp_router.Prelude.{
  ℕ, zero, suc, ◌^◌, ◌≤◌, ◌<◌, ◌≡◌, inl, inr, refl, sym, ap, subst, ◌∙◌, none, some, List, [], ◌∷◌,
  length, Listed, arith,
}
use mathlib.Core.Option.{none-ne-some, some-injective}
use netfabric_bgp_router.Prelude.Bits.{bit_complement, bit_zero, pow-lt-pow}
use netfabric_bgp_router.Prelude.Distinct.{IsDistinct, IsDistinct-length}
use netfabric_bgp_router.Prelude.HashMap
use netfabric_bgp_router.RouterMask.{RouterMaskMap, u64_max}
use netfabric_bgp_router.RouterMask.Laws.{Has}
use netfabric_bgp_router.RouterMask.MapLaws.{IsValid, Granted}

Has-u64_max : (k : ℕ) → k < 64 → Has k u64_max
Has-u64_max k h = omega (arith, bit_complement 64 k 0 (omega arith) h, bit_zero k)

module _ {K : Type 0} (dec : Discrete K) (m : RouterMaskMap K) (v : IsValid dec m) where
  -- Routers that hold the first `n` bits.
  record Holders (n : ℕ) : Type 0 where
    ids : List K
    count : length ids ≡ n
    distinct : IsDistinct ids
    held : (a : K) → Listed a ids → (k : ℕ) × (k < n) × (HashMap.get dec a m.map ≡ some (2 ^ k))

  holders : (n : ℕ) → n ≤ 64 → m.mask ≡ u64_max → Holders n
  holders zero h full = record { ids = []; count = refl; distinct = tt; held = λ a l. absurd l }
  holders (suc n) h full =
      let fewer = holders n (omega arith) full in
      let (id, e) =
        v.covered n (omega arith) (subst (Has n) (sym full) (Has-u64_max n (omega arith))) in
      record {
        ids = id ∷ fewer.ids;
        count = ap suc fewer.count;
        distinct = (
          λ y l same.
              let (k, lt, at) = fewer.held y l in
              let both : 2 ^ n ≡ 2 ^ k =
                some-injective _ _ (sym e ∙ ap (λ x. HashMap.get dec x m.map) same ∙ at) in
              absurd (omega (arith, pow-lt-pow k n lt, both)),
          fewer.distinct,
        );
        held = λ a. elim [
          | inl here ↦ (n, omega arith, sym (ap (λ x. HashMap.get dec x m.map) here) ∙ e)
          | inr there ↦ let (k, lt, at) = fewer.held a there in (k, omega arith, at)
        ];
      }

  -- If the map is full and a router has no mask, then there are more than 64 routers.
  pub full_crowded :
      (all : List K) (id : K)
      → m.mask ≡ u64_max
      → HashMap.get dec id m.map ≡ none
      → ((a : K) (r : ℕ) → HashMap.get dec a m.map ≡ some r → Listed a all)
      → Listed id all
      → 64 < length all
  full_crowded all id full absent within here =
      let h = holders 64 (omega arith) full in
      let apart = λ (y : K) (l : Listed y h.ids) (same : id ≡ y).
        none-ne-some (2 ^ (h.held y l).0)
          (sym absent ∙ ap (λ x. HashMap.get dec x m.map) same ∙ (h.held y l).2) in
      let inside =
        IsDistinct-length dec (id ∷ h.ids) all (apart, h.distinct)
          (λ a. elim [
            | inl e ↦ subst (λ x. Listed x all) e here
            | inr l ↦ within a (2 ^ (h.held a l).0) (h.held a l).2
          ]) in
      omega (arith, inside, h.count)

-- A bit is granted only to a router that has one already, or where one is free.
pub Granted-room :
    {K : Type 0} (dec : Discrete K) (m m' : RouterMaskMap K) (id : K) (k : ℕ)
    → Granted dec m id k m'
    → ¬ ((HashMap.get dec id m.map ≡ none) × (m.mask ≡ u64_max))
Granted-room dec m m' id k g (absent, full) = elim g.origin [
  | inl old ↦ none-ne-some (2 ^ k) (sym absent ∙ old)
  | inr new ↦
      let taken : Has k m.mask = subst (Has k) (sym full) (Has-u64_max k g.in_word) in
      absurd (omega (arith, taken, new.1))
]
