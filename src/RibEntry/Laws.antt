-- ===== src/RibEntry/Laws.antt =====
-- Which router knows which route, after `insert` and `withdraw` of a router's own mask
-- (components/bgp/bgp_rib_entry.rs).
use netfabric_bgp_router.Prelude.{
  ℕ, ◌^◌, ◌<◌, ◌≡◌, ◌≢◌, ◌↔◌, ◌⊎◌, inl, inr, sym, ◌∙◌, ap, subst, true, false, List, [], ◌∷◌, map,
  retain, Listed, if_pos, if_neg, if◌then◌else◌, arith, ℕ_discrete, All, Bool-cases,
}
use mathlib.Core.Bool.{false≢true}
use netfabric_bgp_router.Platform.{Platform}
use netfabric_bgp_router.RouterMask
use netfabric_bgp_router.RouterMask.{RouterMask, combine}
use netfabric_bgp_router.RouterMask.Laws.{
  Has, IsU64, contains_single_iff, Has-remove_iff, Has-combine_iff, Has-single_iff,
}
use netfabric_bgp_router.Route.{Route, Route-discrete}
use netfabric_bgp_router.RibEntry.{
  Item, insert_item, same_origin, keeps, clear_router, routes_with_mask,
}

module _ (p : Platform) where
  abbrev pub SameOrigin : Route p → Route p → Type 0
  SameOrigin r s = (r.peer ≡ s.peer) × (r.prefix ≡ s.prefix)

  -- All masks are 64-bit words.
  abbrev pub Bounded : List (Item p) → Type 0
  Bounded = All (λ e. IsU64 e.0)

  -- The router with bit `k` knows the route.
  abbrev pub Knows : ℕ → Route p → List (Item p) → Type 0
  Knows k r [] = ⊥
  Knows k r (e ∷ rest) = (Has k e.0 × (e.1 ≡ r)) ⊎ Knows k r rest

  pub same_origin_iff : (r s : Route p) → (same_origin p r s ≡ true) ↔ SameOrigin r s
  unfolding same_origin
  same_origin_iff r s = (λ h. ground arith, λ h. ground arith)

  pub Knows-iff :
      (k : ℕ) (r : Route p) (items : List (Item p))
      → k < 64
      → Bounded items
      → Listed r (routes_with_mask p (2 ^ k) items) ↔ Knows k r items
  unfolding routes_with_mask
  Knows-iff k r [] hk b = (λ h. h, λ h. h)
  Knows-iff k r ((m, s) ∷ rest) hk b =
      let single = contains_single_iff m k b.0 hk in
      let ih = Knows-iff k r rest hk b.1 in
      elim (Bool-cases (RouterMask.contains m (2 ^ k))) [
        | inl held ↦ rw held (
          elim [ inl e ↦ inl (single.0 held, e) | inr l ↦ inr (ih.0 l) ],
          elim [ inl e ↦ inl e.1 | inr l ↦ inr (ih.1 l) ],
        )
        | inr not_held ↦ rw not_held (
          λ l. inr (ih.0 l),
          elim [ inl e ↦ absurd (ground (arith, single.1 e.0)) | inr l ↦ ih.1 l ],
        )
      ]

  module _ (k j : ℕ) (r s : Route p) where
    insert_forth :
        (items : List (Item p))
        → Knows j s (insert_item p (2 ^ k) r items)
        → Knows j s items ⊎ ((j ≡ k) × (r ≡ s))
    unfolding insert_item
    insert_forth [] (inl (h, e)) = inr ((Has-single_iff j k).0 h, e)
    insert_forth [] (inr l) = absurd l
    insert_forth ((m, o) ∷ rest) h = elim (Route-discrete p o r) [
      | yes same ↦
          let joined : Knows j s ((combine m (2 ^ k), o) ∷ rest) = rw (if_pos _ same) at h in
          elim joined [
            | inl (has, e) ↦ elim ((Has-combine_iff m k j).0 has) [
              | inl old ↦ inl (inl (old, e))
              | inr mine ↦ inr (mine, sym same ∙ e)
            ]
            | inr l ↦ inl (inr l)
          ]
      | no other ↦
          let kept : Knows j s ((m, o) ∷ insert_item p (2 ^ k) r rest) = rw (if_neg _ other) at h in
          elim kept [
            | inl l ↦ inl (inl l)
            | inr l ↦ elim (insert_forth rest l) [ inl old ↦ inl (inr old) | inr new ↦ inr new ]
          ]
    ]

    insert_back :
        (items : List (Item p))
        → Knows j s items ⊎ ((j ≡ k) × (r ≡ s))
        → Knows j s (insert_item p (2 ^ k) r items)
    unfolding insert_item
    insert_back [] (inl l) = absurd l
    insert_back [] (inr (e, f)) = inl ((Has-single_iff j k).1 e, f)
    insert_back ((m, o) ∷ rest) h = elim (Route-discrete p o r) [
      | yes same ↦ rw (if_pos _ same) (elim h [
        | inl (inl (has, e)) ↦ inl ((Has-combine_iff m k j).1 (inl has), e)
        | inl (inr l) ↦ inr l
        | inr (e, f) ↦ inl ((Has-combine_iff m k j).1 (inr e), same ∙ f)
      ])
      | no other ↦ rw (if_neg _ other) (elim h [
        | inl (inl l) ↦ inl l
        | inl (inr l) ↦ inr (insert_back rest (inl l))
        | inr new ↦ inr (insert_back rest (inr new))
      ])
    ]

    -- What `withdraw` makes of one item.
    withdraw_item : Item p → List (Item p) → List (Item p)
    withdraw_item e rest = if keeps p (2 ^ k) r e then clear_router p (2 ^ k) r e ∷ rest else rest

    abbrev pub withdrawn : List (Item p) → List (Item p)
    withdrawn items = map (clear_router p (2 ^ k) r) (retain (keeps p (2 ^ k) r) items)

    withdrawn-cons :
        (e : Item p) (rest : List (Item p))
        → withdrawn (e ∷ rest) ≡ withdraw_item e (withdrawn rest)
    unfolding withdraw_item
    withdrawn-cons e rest = ground arith

    withdraw_item-kept :
        (m : ℕ) (o : Route p) (rest : List (Item p))
        → same_origin p r o ≡ false
        → withdraw_item (m, o) rest ≡ (m, o) ∷ rest
    unfolding withdraw_item keeps clear_router
    withdraw_item-kept m o rest h = ground arith

    withdraw_item-dropped :
        (m : ℕ) (o : Route p) (rest : List (Item p))
        → same_origin p r o ≡ true
        → 2 ^ k ≡ m
        → withdraw_item (m, o) rest ≡ rest
    unfolding withdraw_item keeps clear_router
    withdraw_item-dropped m o rest h e = ground arith

    withdraw_item-cleared :
        (m : ℕ) (o : Route p) (rest : List (Item p))
        → same_origin p r o ≡ true
        → 2 ^ k ≢ m
        → withdraw_item (m, o) rest ≡ (RouterMask.remove m (2 ^ k), o) ∷ rest
    unfolding withdraw_item keeps clear_router
    withdraw_item-cleared m o rest h ne = ground arith

    -- What the withdrawal leaves of one item's knowledge.
    abbrev Left : ℕ → Route p → Type 0
    Left m o = Has j m × (o ≡ s) × ¬ ((j ≡ k) × SameOrigin r s)

    not-Left : (m : ℕ) (o : Route p) → SameOrigin r o → j ≡ k → ¬ Left m o
    not-Left m o so e = λ l. l.2 (e, (so.0 ∙ ap (λ x. x.peer) l.1, so.1 ∙ ap (λ x. x.prefix) l.1))

    -- An item of another origin stays; one of the withdrawn origin loses the router.
    withdraw_item-Knows :
        (m : ℕ) (o : Route p) (rest : List (Item p))
        → k < 64
        → j < 64
        → Knows j s (withdraw_item (m, o) rest) ↔ (Left m o ⊎ Knows j s rest)
    withdraw_item-Knows m o rest hk hj = elim (Bool-cases (same_origin p r o)) [
      | inr other ↦ rw (withdraw_item-kept m o rest other) (
        elim [
          | inl (has, e) ↦ inl (
            has,
            e,
            λ both.
                false≢true
                  (sym other ∙ (same_origin_iff r o).1 (subst (SameOrigin r) (sym e) both.1)),
          )
          | inr l ↦ inr l
        ],
        elim [ inl l ↦ inl (l.0, l.1) | inr l ↦ inr l ],
      )
      | inl same ↦
          let so = (same_origin_iff r o).0 same in
          elim (ℕ_discrete (2 ^ k) m) [
            | yes e ↦ rw (withdraw_item-dropped m o rest same e) (
              λ l. inr l,
              elim [
                | inl l ↦
                    absurd (not-Left m o so ((Has-single_iff j k).0 (subst (Has j) (sym e) l.0)) l)
                | inr l ↦ l
              ],
            )
            | no ne ↦ rw (withdraw_item-cleared m o rest same ne) (
              elim [
                | inl (has, e) ↦
                    let both = (Has-remove_iff m k j hk hj).0 has in
                    inl (both.0, e, λ x. both.1 x.0)
                | inr l ↦ inr l
              ],
              elim [
                | inl l ↦ inl ((Has-remove_iff m k j hk hj).1 (l.0, λ x. not-Left m o so x l), l.1)
                | inr l ↦ inr l
              ],
            )
          ]
    ]

    pub withdrawn-Knows :
        (items : List (Item p))
        → k < 64
        → j < 64
        → Knows j s (withdrawn items) ↔ (Knows j s items × ¬ ((j ≡ k) × SameOrigin r s))
    withdrawn-Knows [] hk hj = (λ l. absurd l, λ l. l.0)
    withdrawn-Knows ((m, o) ∷ rest) hk hj =
        let item = withdraw_item-Knows m o (withdrawn rest) hk hj in
        let ih = withdrawn-Knows rest hk hj in
        rw (withdrawn-cons (m, o) rest) (
          λ l. elim (item.0 l) [
            | inl left ↦ (inl (left.0, left.1), left.2)
            | inr more ↦ (inr (ih.0 more).0, (ih.0 more).1)
          ],
          λ l. item.1 (elim l.0 [
            | inl here ↦ inl (here.0, here.1, l.1)
            | inr more ↦ inr (ih.1 (more, l.1))
          ]),
        )

    pub insert-Knows :
        (items : List (Item p))
        → Knows j s (insert_item p (2 ^ k) r items) ↔ (Knows j s items ⊎ ((j ≡ k) × (r ≡ s)))
    insert-Knows items = (insert_forth items, insert_back items)
