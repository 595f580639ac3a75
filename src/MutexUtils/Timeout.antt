-- ===== src/MutexUtils/Timeout.antt =====
-- How long `try_lock_with_timeout` (utils/mutex_utils.rs) tries, and what it returns.
use netfabric_bgp_router.Prelude.{
  ℕ, zero, suc, ◌+◌, ◌≤◌, ◌<◌, ◌≡◌, ◌⊎◌, inl, inr, ap, ◌∙◌, Bool, true, false, Option, none, some,
  ltb, arith, Bool-cases,
}
use netfabric_bgp_router.MutexUtils.{try_lock_loop, try_lock_with_timeout}

module _ (elapsed : ℕ → ℕ) (is_free : ℕ → Bool) (timeout : ℕ) where
  -- The rounds from `k` up to `n`, without `n`, are in time and find the lock taken.
  abbrev pub Taken : ℕ → ℕ → Type 0
  Taken k n = (j : ℕ) → k ≤ j → j < n → (elapsed j < timeout) × (is_free j ≡ false)

  -- The result of the rounds from `k` on: the guard of the first round that finds the lock free, or an
  -- error at the first test after the timeout.
  abbrev pub Answers : ℕ → Option ℕ → Type 0
  Answers k (some n) = (k ≤ n) × (elapsed n < timeout) × (is_free n ≡ true) × Taken k n
  Answers k none = (n : ℕ) × (k ≤ n) × (timeout ≤ elapsed n) × Taken k n

  Taken-suc : (k n : ℕ) → elapsed k < timeout → is_free k ≡ false → Taken (suc k) n → Taken k n
  Taken-suc k n early busy t j lo hi = elim at_or_above [
    | inl same ↦ (omega (arith, ap elapsed same, early), ap is_free same ∙ busy)
    | inr above ↦ t j above hi
  ]
    where
      at_or_above : (j ≡ k) ⊎ (suc k ≤ j)
      at_or_above = ground arith

  Answers-suc :
      (k : ℕ) (r : Option ℕ)
      → elapsed k < timeout
      → is_free k ≡ false
      → Answers (suc k) r
      → Answers k r
  Answers-suc k (some n) early busy (lo, soon, free, t) =
      (omega arith, soon, free, Taken-suc k n early busy t)
  Answers-suc k none early busy (n, lo, late, t) =
      (n, omega arith, late, Taken-suc k n early busy t)

  module _ (sleeps : (k : ℕ) → elapsed k + 10 ≤ elapsed (suc k)) where
    loop_total :
        (fuel k : ℕ)
        → 0 < fuel
        → timeout < elapsed k + fuel
        → (r : Option ℕ) × (try_lock_loop elapsed is_free timeout fuel k ≡ some r) × Answers k r
    unfolding try_lock_loop
    loop_total zero k pos h = absurd (omega arith)
    loop_total (suc fuel) k pos h = elim (Bool-cases (ltb (elapsed k) timeout)) [
      | inr late ↦
          (none, ground arith, (k, omega arith, ground arith, λ j lo hi. absurd (omega arith)))
      | inl early ↦ elim (Bool-cases (is_free k)) [
        | inl free ↦ (
          some k,
          ground arith,
          (omega arith, ground arith, free, λ j lo hi. absurd (omega arith)),
        )
        | inr busy ↦
            let (r, e, answers) =
              loop_total fuel (suc k) (ground arith) (omega (arith, sleeps k, h)) in
            (r, rw (early, busy) e, Answers-suc k r (ground arith) busy answers)
      ]
    ]

    -- If each sleep takes the ten milliseconds that it should, `try_lock_with_timeout` returns: the guard
    -- of the first round that finds the lock free, or an error if every round before the timeout found
    -- it taken.
    pub try_lock_with_timeout_total :
        (r : Option ℕ) × (try_lock_with_timeout elapsed is_free timeout ≡ some r) × Answers 0 r
    unfolding try_lock_with_timeout
    try_lock_with_timeout_total = loop_total (suc timeout) 0 (omega arith) (omega arith)
