-- ===== src/StateMachine/Laws.antt =====
-- The loop of a state machine (utils/state_machine.rs), round by round, and that a stop command
-- ends it.
use netfabric_bgp_router.Prelude.{
  ℕ, zero, suc, ◌+◌, ◌<◌, ◌≡◌, ◌≢◌, ◌⊎◌, inl, inr, refl, ◌∙◌, Option, none, some, arith,
}
use netfabric_bgp_router.Platform.{Platform}
use netfabric_bgp_router.Channel.{Message, InternalState, initialized, stopped, internal_state}
use netfabric_bgp_router.StateMachine.{State, command, act, round, runner_loop, runner}

module _ (p : Platform) {S : Type 0} (methods : State S) where
  stopped_or : (i : InternalState) → (i ≡ stopped) ⊎ (i ≢ stopped)
  stopped_or i = ground arith

  pub runner_loop-stopped :
      (at : ℕ → Option (Message p)) (fuel k : ℕ) (s : S)
      → runner_loop p methods at fuel k stopped s ≡ some s
  unfolding runner_loop
  runner_loop-stopped at zero k s = refl
  runner_loop-stopped at (suc fuel) k s = refl

  pub runner_loop-zero :
      (at : ℕ → Option (Message p)) (k : ℕ) (i : InternalState) (s : S)
      → i ≢ stopped
      → runner_loop p methods at zero k i s ≡ none
  unfolding runner_loop
  runner_loop-zero at k i s ne = ground arith

  pub runner_loop-suc :
      (at : ℕ → Option (Message p)) (fuel k : ℕ) (i : InternalState) (s : S)
      → i ≢ stopped
      → runner_loop p methods at (suc fuel) k i s
        ≡ runner_loop p methods at fuel
            (suc k)
            (round p methods (at k) i s).0
            (round p methods (at k) i s).1
  unfolding runner_loop
  runner_loop-suc at fuel k i s ne = ground arith

  stop_command :
      (at : ℕ → Option (Message p)) (k : ℕ) (i : InternalState) (s : S)
      → at k ≡ some (internal_state stopped)
      → round p methods (at k) i s ≡ (stopped, methods.cleanup s)
  unfolding command act
  stop_command at k i s e = rw e

  runner_loop_total :
      (at : ℕ → Option (Message p)) (n fuel k : ℕ) (i : InternalState) (s : S)
      → at (k + n) ≡ some (internal_state stopped)
      → n < fuel
      → (r : S) × (runner_loop p methods at fuel k i s ≡ some r)
  runner_loop_total at n zero k i s h lt = absurd (omega arith)
  runner_loop_total at n (suc fuel) k i s h lt = elim (stopped_or i) [
    | inl e ↦ (s, rw (e, runner_loop-stopped at (suc fuel) k s))
    | inr ne ↦ elim (first_or_later n) [
      | inl z ↦
          let now : at k ≡ some (internal_state stopped) = (λ j. at (same z j)) ∙ h in
          (
            methods.cleanup s,
            rw (
              runner_loop-suc at fuel k i s ne,
              stop_command at k i s now,
              runner_loop-stopped at fuel (suc k) (methods.cleanup s),
            ),
          )
      | inr (m, e) ↦
          let (r, eq) =
            runner_loop_total at m fuel (suc k) _ _ ((λ j. at (shifted m e j)) ∙ h) (omega arith) in
          (r, runner_loop-suc at fuel k i s ne ∙ eq)
    ]
  ]
    where
      first_or_later : (j : ℕ) → (j ≡ 0) ⊎ ((m : ℕ) × (j ≡ suc m))
      first_or_later zero = inl refl
      first_or_later (suc m) = inr (m, refl)

      same : n ≡ 0 → k ≡ k + n
      same e = omega arith

      shifted : (m : ℕ) → n ≡ suc m → suc k + m ≡ k + n
      shifted m e = omega arith

  -- Whatever the state does, a `Stopped` command that arrives in round `n` ends the loop within
  -- `n + 1` rounds.
  pub runner_total :
      (at : ℕ → Option (Message p)) (n fuel : ℕ) (s : S)
      → at n ≡ some (internal_state stopped)
      → n < fuel
      → (r : S) × (runner p methods at fuel s ≡ some r)
  unfolding runner
  runner_total at n fuel s h lt =
      runner_loop_total at n fuel 0 initialized s ((λ j. at (zero_plus j)) ∙ h) lt
    where
      zero_plus : 0 + n ≡ n
      zero_plus = omega arith
