-- ===== src/BestRoute/Laws.antt =====
-- What `BestRoute::calculate` (components/bgp/bgp_bestroute.rs) chooses.
use netfabric_bgp_router.Prelude.{
  ◌≡◌, ◌≢◌, ◌↔◌, refl, sym, ◌∙◌, ap, subst, none, some, List, [], ◌∷◌, ◌++◌, Ordering, All, arith,
  All-append, ◌⊎◌, inl, inr,
}
use mathlib.Core.Option.{none-ne-some, some-injective}
use netfabric_bgp_router.Platform.{Platform}
use netfabric_bgp_router.Route.{Route, cmp}
use netfabric_bgp_router.Route.Order.{
  Preferred, cmp-gt_iff, Preferred-cases, Preferred-asym, not-Preferred_trans,
}
use netfabric_bgp_router.BestRoute.{max_from, calculate}

module _ (p : Platform) where
  -- `r` is not preferred to `s`: its path is not shorter, nor as long with a higher peer.
  abbrev pub NotAbove : Route p → Route p → Type 0
  NotAbove s r = ¬ Preferred p r s

  -- `r` stands in the list, nothing before it is preferred to it, and it is preferred to all after.
  abbrev pub IsLastBest : Route p → List (Route p) → Type 0
  IsLastBest b rs =
      (before : List (Route p)) × (after : List (Route p)) × (rs ≡ before ++ (b ∷ after))
      × All (NotAbove b) before
      × All (Preferred p b) after

  NotAbove-refl : (r : Route p) → NotAbove r r
  NotAbove-refl r h = Preferred-asym p r r h h

  max_from_keep :
      (best r : Route p) (rs : List (Route p))
      → Preferred p best r
      → max_from p best (r ∷ rs) ≡ max_from p best rs
  unfolding max_from
  max_from_keep best r rs h = rw ((cmp-gt_iff p best r).1 h)

  max_from_replace :
      (best r : Route p) (rs : List (Route p))
      → NotAbove r best
      → max_from p best (r ∷ rs) ≡ max_from p r rs
  unfolding max_from
  max_from_replace best r rs h =
      let not_gt : cmp p best r ≢ Ordering.gt = λ e. h ((cmp-gt_iff p best r).0 e) in ground arith

  -- The fold keeps the best so far, if it is preferred to all that follow, or ends in the last best
  -- of those that follow.
  abbrev Ends : Route p → List (Route p) → Route p → Type 0
  Ends best rs m = ((m ≡ best) × All (Preferred p best) rs) ⊎ (IsLastBest m rs × NotAbove m best)

  Ends-keep :
      (best r m : Route p) (rs : List (Route p))
      → Preferred p best r
      → Ends best rs m
      → Ends best (r ∷ rs) m
  Ends-keep best r m rs h (inl (e, below)) = inl (e, (h, below))
  Ends-keep best r m rs h (inr ((before, after, e, lo, hi), up)) =
      let r_below : NotAbove best r = Preferred-asym p best r h in
      inr
        ((r ∷ before, after, ap (◌∷◌ r) e, (not-Preferred_trans p r best m r_below up, lo), hi), up)

  Ends-replace :
      (best r m : Route p) (rs : List (Route p))
      → NotAbove r best
      → Ends r rs m
      → Ends best (r ∷ rs) m
  Ends-replace best r m rs h (inl (e, below)) =
      inr (
        subst (λ x. IsLastBest x (r ∷ rs) × NotAbove x best) (sym e) (([], rs, refl, tt, below), h))
  Ends-replace best r m rs h (inr ((before, after, e, lo, hi), up)) =
      inr ((r ∷ before, after, ap (◌∷◌ r) e, (up, lo), hi), not-Preferred_trans p best r m h up)

  max_from-Ends : (best : Route p) (rs : List (Route p)) → Ends best rs (max_from p best rs)
  unfolding max_from
  max_from-Ends best [] = inl (refl, tt)
  max_from-Ends best (r ∷ rs) = elim (Preferred-cases p best r) [
    | inl h ↦ rw (max_from_keep best r rs h) (Ends-keep best r _ rs h (max_from-Ends best rs))
    | inr h ↦ rw (max_from_replace best r rs h) (Ends-replace best r _ rs h (max_from-Ends r rs))
  ]

  max_from-IsLastBest : (r : Route p) (rs : List (Route p)) → IsLastBest (max_from p r rs) (r ∷ rs)
  max_from-IsLastBest r rs = elim (max_from-Ends r rs) [
    | inl (e, below) ↦ ([], rs, ap (λ x. x ∷ rs) (sym e), tt, rw e below)
    | inr ((before, after, e, lo, hi), up) ↦ (r ∷ before, after, ap (◌∷◌ r) e, (up, lo), hi)
  ]

  max_from_below :
      (b : Route p) (rs : List (Route p)) → All (Preferred p b) rs → max_from p b rs ≡ b
  unfolding max_from
  max_from_below b [] h = refl
  max_from_below b (r ∷ rs) h = rw ((cmp-gt_iff p b r).1 h.0) (max_from_below b rs h.1)

  max_from_middle :
      (x b : Route p) (before after : List (Route p))
      → NotAbove b x
      → All (NotAbove b) before
      → All (Preferred p b) after
      → max_from p x (before ++ (b ∷ after)) ≡ b
  max_from_middle x b [] after up lo hi = max_from_replace x b after up ∙ max_from_below b after hi
  max_from_middle x b (r ∷ before) after up lo hi = elim (Preferred-cases p x r) [
    | inl h ↦ max_from_keep x r _ h ∙ max_from_middle x b before after up lo.1 hi
    | inr h ↦ max_from_replace x r _ h ∙ max_from_middle r b before after lo.0 lo.1 hi
  ]

  IsLastBest-calculate :
      (b : Route p) (rs : List (Route p)) → IsLastBest b rs → calculate p rs ≡ some b
  unfolding calculate
  IsLastBest-calculate b rs ([], after, e, lo, hi) =
      ap (calculate p) e ∙ ap some (max_from_below b after hi)
  IsLastBest-calculate b rs (x ∷ before, after, e, lo, hi) =
      ap (calculate p) e ∙ ap some (max_from_middle x b before after lo.0 lo.1 hi)

  calculate-IsLastBest :
      (b : Route p) (rs : List (Route p)) → calculate p rs ≡ some b → IsLastBest b rs
  unfolding calculate
  calculate-IsLastBest b [] h = absurd (none-ne-some _ h)
  calculate-IsLastBest b (r ∷ rs) h =
      subst (λ x. IsLastBest x (r ∷ rs)) (some-injective _ _ h) (max_from-IsLastBest r rs)

  -- `calculate` returns a route exactly if that route stands in the list, is preferred to every
  -- route after it, and no route before it is preferred to it. A route is preferred to another if
  -- its path is shorter, or as long and its peer's address higher; of equal routes, the last wins.
  pub calculate_iff :
      (b : Route p) (rs : List (Route p)) → (calculate p rs ≡ some b) ↔ IsLastBest b rs
  calculate_iff b rs = (calculate-IsLastBest b rs, IsLastBest-calculate b rs)

  All-above_mono :
      (b : Route p) (rs : List (Route p)) → All (Preferred p b) rs → All (NotAbove b) rs
  All-above_mono b [] h = tt
  All-above_mono b (r ∷ rs) h = (Preferred-asym p b r h.0, All-above_mono b rs h.1)

  -- No route of the list is preferred to the one that `calculate` returns.
  pub calculate_max :
      (b : Route p) (rs : List (Route p)) → calculate p rs ≡ some b → All (NotAbove b) rs
  calculate_max b rs h =
      let (before, after, e, lo, hi) = calculate-IsLastBest b rs h in
      subst (All (NotAbove b)) (sym e)
        (All-append (NotAbove b) before (b ∷ after) lo (NotAbove-refl b, All-above_mono b after hi))

  -- A route at the end of the list wins exactly if no other is preferred to it.
  pub calculate_last_iff :
      (r : Route p) (rs : List (Route p))
      → (calculate p (rs ++ (r ∷ [])) ≡ some r) ↔ All (NotAbove r) rs
  calculate_last_iff r rs = (
    λ h. All_prefix rs (calculate_max r (rs ++ (r ∷ [])) h),
    λ h. IsLastBest-calculate r (rs ++ (r ∷ [])) (rs, [], refl, h, tt),
  )
    where
      All_prefix : (xs : List (Route p)) → All (NotAbove r) (xs ++ (r ∷ [])) → All (NotAbove r) xs
      All_prefix [] h = tt
      All_prefix (x ∷ xs) h = (h.0, All_prefix xs h.1)

  pub calculate-none_iff : (rs : List (Route p)) → (calculate p rs ≡ none) ↔ (rs ≡ [])
  unfolding calculate
  calculate-none_iff [] = (λ h. refl, λ h. refl)
  calculate-none_iff (r ∷ rs) = (λ h. ground arith, λ h. ground arith)
