-- ===== src/MessageBus/Retry.antt =====
-- How often `receive_with_retry` (utils/message_bus.rs) tries, and what it returns.
use netfabric_bgp_router.Prelude.{
  ℕ, zero, suc, ◌-◌, ◌≤◌, ◌<◌, ◌≡◌, ◌⊎◌, inl, inr, Option, none, some, arith, Option-cases,
  Bool-cases, leb, ap, ◌∙◌, true,
}
use netfabric_bgp_router.Platform.{Platform}
use netfabric_bgp_router.Channel.{Store, Message, try_recv}
use netfabric_bgp_router.MessageBus.{receive_with_retry}

module _ (p : Platform) (at : ℕ → Store p) (max_retries ref : ℕ) where
  -- The attempts from `k` up to `n`, without `n`, find the channel empty.
  abbrev pub Silent : ℕ → ℕ → Type 0
  Silent k n = (i : ℕ) → k ≤ i → i < n → try_recv p (at i) ref ≡ none

  -- The result of the attempts from `k` on: the first message, or an error after all attempts.
  abbrev pub Answers : ℕ → Option (Message p × Store p) → Type 0
  Answers k (some r) =
      (n : ℕ) × (k ≤ n) × (n ≤ max_retries) × (try_recv p (at n) ref ≡ some r) × Silent k n
  Answers k none = Silent k (suc max_retries)

  Silent-suc : (k n : ℕ) → try_recv p (at k) ref ≡ none → Silent (suc k) n → Silent k n
  Silent-suc k n e s i h lt = elim (at_or_above) [
    | inl same ↦ ap (λ j. try_recv p (at j) ref) same ∙ e
    | inr above ↦ s i above lt
  ]
    where
      at_or_above : (i ≡ k) ⊎ (suc k ≤ i)
      at_or_above = ground arith

  Answers-suc :
      (k : ℕ) (r : Option (Message p × Store p))
      → try_recv p (at k) ref ≡ none
      → Answers (suc k) r
      → Answers k r
  Answers-suc k none e s = Silent-suc k (suc max_retries) e s
  Answers-suc k (some r) e (n, lo, hi, found, s) = (n, omega arith, hi, found, Silent-suc k n e s)

  retry_from :
      (fuel k : ℕ)
      → k ≤ max_retries
      → max_retries - k < fuel
      → (r : Option (Message p × Store p)) × (receive_with_retry p at fuel max_retries k ref
          ≡ some r)
        × Answers k r
  unfolding receive_with_retry
  retry_from zero k h lt = absurd (omega arith)
  retry_from (suc fuel) k h lt = elim (Option-cases (try_recv p (at k) ref)) [
    | inr (r, e) ↦ (
      some r,
      rw (e, receive_with_retry),
      (k, omega arith, h, e, λ i lo hi. absurd (omega arith)),
    )
    | inl e ↦ elim (Bool-cases (leb max_retries k)) [
      | inl last ↦ (
        none,
        rw (e, receive_with_retry, last),
        λ i lo hi. ap (λ j. try_recv p (at j) ref) (only i lo hi last) ∙ e,
      )
      | inr more ↦
          let (r, eq, answers) = retry_from fuel (suc k) (ground arith) (ground arith) in
          (r, rw (e, receive_with_retry, more) eq, Answers-suc k r e answers)
    ]
  ]
    where
      only : (i : ℕ) → k ≤ i → i < suc max_retries → leb max_retries k ≡ true → i ≡ k
      only i lo hi last = ground arith

  -- With fuel for `max_retries + 1` attempts `receive_with_retry` returns, whatever other threads do
  -- between them: the message of the first attempt that finds one, or an error if all of these
  -- attempts find the channel empty.
  pub receive_with_retry_total :
      (r : Option (Message p × Store p)) × (receive_with_retry p at
          (suc max_retries)
          max_retries
          0
          ref
        ≡ some r)
      × Answers 0 r
  receive_with_retry_total = retry_from (suc max_retries) 0 (omega arith) (omega arith)
