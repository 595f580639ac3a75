-- ===== src/RibEntry/Valid.antt =====
-- The invariant of a RIB entry (components/bgp/bgp_rib_entry.rs), and what each router sees of it.
use netfabric_bgp_router.Prelude.{
  ℕ, ◌^◌, ◌<◌, ◌≡◌, ◌≢◌, ◌↔◌, ◌⊎◌, inl, inr, sym, ◌∙◌, ap, subst, List, [], ◌∷◌, Listed, if_pos,
  if_neg, arith, ℕ_discrete, All,
}
use netfabric_bgp_router.Prelude.Bits.{
  bit, bit-le-one, bit_pow_self, bit_pow_ne, bit_zero, pow-lt-pow, eq_of_bits,
}
use netfabric_bgp_router.Platform.{Platform}
use netfabric_bgp_router.RouterMask
use netfabric_bgp_router.RouterMask.{RouterMask, combine}
use netfabric_bgp_router.RouterMask.Laws.{
  IsU64, bit-remove, remove-lt, combine-lt, bit-combine, pow_ne_zero,
}
use netfabric_bgp_router.Route.{Route, Route-discrete}
use netfabric_bgp_router.RibEntry.{
  Item, BgpRibEntry, insert_item, insert, keeps, clear_router, withdraw, get_with_mask,
}
use netfabric_bgp_router.RibEntry.Laws.{
  SameOrigin, Bounded, Knows-iff, withdrawn, withdrawn-Knows, insert-Knows,
}

module _ (p : Platform) where
  -- The route stands in no item.
  abbrev pub Absent : Route p → List (Item p) → Type 0
  Absent r = All (λ e. e.1 ≢ r)

  -- A 64-bit mask with some router in it.
  abbrev pub IsMask : RouterMask → Type 0
  IsMask m = IsU64 m × (m ≢ 0)

  abbrev pub Distinct : List (Item p) → Type 0
  Distinct [] = Unit
  Distinct (e ∷ rest) = Absent e.1 rest × Distinct rest

  -- Every item has a router, and no route stands in two items.
  pub record IsValid (e : BgpRibEntry p) : Type 0 where
    pub masks : All (λ i. IsMask i.0) e.routes
    pub distinct : Distinct e.routes

  pub masks-Bounded : (items : List (Item p)) → All (λ i. IsMask i.0) items → Bounded p items
  masks-Bounded [] h = tt
  masks-Bounded (e ∷ rest) h = (h.0.0, masks-Bounded rest h.1)

  combine-IsMask : (m k : ℕ) → k < 64 → IsMask m → IsMask (combine m (2 ^ k))
  combine-IsMask m k hk h = (
    combine-lt m (2 ^ k) h.0 (pow-lt-pow k 64 hk),
    λ e. omega (arith, ap (bit k) e, bit_zero k, bit-combine m (2 ^ k) k, bit_pow_self k),
  )

  other_digits :
      (m k j : ℕ) → k < 64 → j < 64 → RouterMask.remove m (2 ^ k) ≡ 0 → j ≢ k → bit j m ≡ 0
  other_digits m k j hk hj e ne = omega (
    arith,
    bit-remove m (2 ^ k) j (pow-lt-pow k 64 hk) hj,
    bit_pow_ne j k ne,
    ap (bit j) e,
    bit_zero j,
    bit-le-one j m,
  )

  -- A mask that is not the router's own keeps some router.
  remove-IsMask : (m k : ℕ) → k < 64 → 2 ^ k ≢ m → IsMask m → IsMask (RouterMask.remove m (2 ^ k))
  remove-IsMask m k hk ne h = (remove-lt m (2 ^ k) h.0, some_left)
    where
      same_digit :
          RouterMask.remove m (2 ^ k) ≡ 0
          → (j : ℕ) → j < 64
          → (b : ℕ) → bit k m ≡ bit k b
          → (j ≢ k → bit j b ≡ 0)
          → bit j m ≡ bit j b
      same_digit e j hj b at_k off_k = elim (ℕ_discrete j k) [
        | yes same ↦ subst (λ t. bit t m ≡ bit t b) (sym same) at_k
        | no other ↦ omega (arith, other_digits m k j hk hj e other, off_k other)
      ]

      some_left : RouterMask.remove m (2 ^ k) ≢ 0
      some_left e = elim (ℕ_discrete (bit k m) 1) [
        | yes one ↦ ne (
            eq_of_bits 64 (2 ^ k) m (pow-lt-pow k 64 hk) h.0 (λ j hj.
              sym (same_digit e j hj (2 ^ k) (one ∙ sym (bit_pow_self k)) (bit_pow_ne j k))))
        | no none ↦ h.1 (
            eq_of_bits 64 m 0 h.0 (omega arith) (λ j hj.
              same_digit e j hj 0 (omega (arith, bit-le-one k m, bit_zero k)) (λ _. bit_zero j)))
      ]

  module _ (k : ℕ) (r : Route p) (hk : k < 64) where
    insert-masks :
        (items : List (Item p))
        → All (λ i. IsMask i.0) items
        → All (λ i. IsMask i.0) (insert_item p (2 ^ k) r items)
    unfolding insert_item
    insert-masks [] h = ((pow-lt-pow k 64 hk, pow_ne_zero k), tt)
    insert-masks ((m, o) ∷ rest) h = elim (Route-discrete p o r) [
      | yes same ↦ rw (if_pos _ same) (combine-IsMask m k hk h.0, h.1)
      | no other ↦ rw (if_neg _ other) (h.0, insert-masks rest h.1)
    ]

    insert-Absent :
        (s : Route p) (items : List (Item p))
        → r ≢ s
        → Absent s items
        → Absent s (insert_item p (2 ^ k) r items)
    unfolding insert_item
    insert-Absent s [] ne h = (ne, tt)
    insert-Absent s ((m, o) ∷ rest) ne h = elim (Route-discrete p o r) [
      | yes same ↦ rw (if_pos _ same) (h.0, h.1)
      | no other ↦ rw (if_neg _ other) (h.0, insert-Absent s rest ne h.1)
    ]

    insert-Distinct :
        (items : List (Item p)) → Distinct items → Distinct (insert_item p (2 ^ k) r items)
    unfolding insert_item
    insert-Distinct [] h = (tt, tt)
    insert-Distinct ((m, o) ∷ rest) h = elim (Route-discrete p o r) [
      | yes same ↦ rw (if_pos _ same) (h.0, h.1)
      | no other ↦
          rw (if_neg _ other)
            (insert-Absent o rest (λ e. other (sym e)) h.0, insert-Distinct rest h.1)
    ]

    withdrawn-Absent :
        (s : Route p) (items : List (Item p))
        → Absent s items
        → Absent s (withdrawn p k k r r items)
    unfolding keeps clear_router
    withdrawn-Absent s [] h = tt
    withdrawn-Absent s (e ∷ rest) h = ground (arith, withdrawn-Absent s rest h.1)

    withdrawn-Distinct :
        (items : List (Item p)) → Distinct items → Distinct (withdrawn p k k r r items)
    unfolding keeps clear_router
    withdrawn-Distinct [] h = tt
    withdrawn-Distinct (e ∷ rest) h =
        ground (arith, withdrawn-Distinct rest h.1, withdrawn-Absent e.1 rest h.0)

    withdrawn-masks :
        (items : List (Item p))
        → All (λ i. IsMask i.0) items
        → All (λ i. IsMask i.0) (withdrawn p k k r r items)
    unfolding keeps clear_router
    withdrawn-masks [] h = tt
    withdrawn-masks (e ∷ rest) h = ground (arith, withdrawn-masks rest h.1, remove-IsMask e.0 k hk)

  pub new-IsValid : IsValid (record { routes = [] })
  new-IsValid = record { masks = tt; distinct = tt }

  module _ (e : BgpRibEntry p) (k : ℕ) (r : Route p) (hk : k < 64) (v : IsValid e) where
    -- Inserting a route for router `k` below 64 into a valid entry gives a valid entry: each mask is
    -- non-empty and within 64 bits, and no route stands in two items.
    pub insert-IsValid : IsValid (insert p e (2 ^ k) r)
    unfolding insert
    insert-IsValid = record {
      masks = insert-masks k r hk e.routes v.masks;
      distinct = insert-Distinct k r hk e.routes v.distinct;
    }

    -- Withdrawing a route of router `k` below 64 from a valid entry gives a valid entry, so that no
    -- item with an empty mask is left behind.
    pub withdraw-IsValid : IsValid (withdraw p e (2 ^ k) r)
    unfolding withdraw
    withdraw-IsValid = record {
      masks = withdrawn-masks k r hk e.routes v.masks;
      distinct = withdrawn-Distinct k r hk e.routes v.distinct;
    }

    module _ (j : ℕ) (s : Route p) (hj : j < 64) where
      -- After router `k` announced `r` to a valid entry, each router sees exactly what it saw before,
      -- and `k` sees `r` too (all bits below 64).
      pub get_with_mask-insert :
          Listed s (get_with_mask p (insert p e (2 ^ k) r) (2 ^ j))
          ↔ (Listed s (get_with_mask p e (2 ^ j)) ⊎ ((j ≡ k) × (r ≡ s)))
      unfolding insert get_with_mask
      get_with_mask-insert =
          let after =
            Knows-iff p j s _ hj (masks-Bounded _ (insert-masks k r hk e.routes v.masks)) in
          let before = Knows-iff p j s e.routes hj (masks-Bounded _ v.masks) in
          let step = insert-Knows p k j r s e.routes in
          (
            λ l. elim (step.0 (after.0 l)) [ inl old ↦ inl (before.1 old) | inr new ↦ inr new ],
            λ l. after.1 (step.1 (elim l [ inl old ↦ inl (before.0 old) | inr new ↦ inr new ])),
          )

      -- After router `k` withdrew `r` from a valid entry, each router sees exactly what it saw before,
      -- but `k` sees no route of the peer and prefix of `r` (all bits below 64).
      pub get_with_mask-withdraw :
          Listed s (get_with_mask p (withdraw p e (2 ^ k) r) (2 ^ j))
          ↔ (Listed s (get_with_mask p e (2 ^ j)) × ¬ ((j ≡ k) × SameOrigin p r s))
      unfolding withdraw get_with_mask
      get_with_mask-withdraw =
          let after =
            Knows-iff p j s _ hj (masks-Bounded _ (withdrawn-masks k r hk e.routes v.masks)) in
          let before = Knows-iff p j s e.routes hj (masks-Bounded _ v.masks) in
          let step = withdrawn-Knows p k j r s e.routes hk hj in
          (
            λ l. (before.1 (step.0 (after.0 l)).0, (step.0 (after.0 l)).1),
            λ l. after.1 (step.1 (before.0 l.0, l.1)),
          )
