-- ===== src/StateMachine/Endings.antt =====
-- The loop of a state machine's thread (utils/state_machine.rs) ends exactly where a life of the
-- machine does.
use netfabric_bgp_router.Prelude.{
  ℕ, zero, suc, ◌+◌, ◌-◌, ◌<◌, ◌≡◌, ◌≢◌, ◌↔◌, ◌⊎◌, inl, inr, refl, sym, subst, ap, ◌∙◌, Option,
  some, arith,
}
use mathlib.Core.Option.{some-injective, none-ne-some}
use netfabric_bgp_router.Platform.{Platform}
use netfabric_bgp_router.Channel.{Message, InternalState, initialized, running, paused, stopped}
use netfabric_bgp_router.StateMachine.{
  State, StateTransition, continue, stop, transition, command, act, round, runner_loop, runner,
}
use netfabric_bgp_router.StateMachine.Life.{
  Obeys, command-Obeys, Obeys-command, Alive, born, idles, works, moves, Ends, told, leaves,
}
use netfabric_bgp_router.StateMachine.Laws.{runner_loop-stopped, runner_loop-zero, runner_loop-suc}

module _ (p : Platform) {S : Type 0} (methods : State S) (at : ℕ → Option (Message p))
    (start : S) where
  loop : ℕ → ℕ → InternalState → S → Option S
  loop = runner_loop p methods at

  Alive-ne-stopped :
      {k : ℕ} {i : InternalState} {s : S} → Alive p methods at start k i s → i ≢ stopped
  Alive-ne-stopped born e = ground arith
  Alive-ne-stopped (idles a j o h) e = ground arith
  Alive-ne-stopped (works a o t w) e = ground arith
  Alive-ne-stopped (moves a o next t w) e = ground arith

  -- What a round makes of the state, from the message and the answer of `work`.
  round-Obeys :
      (m : Option (Message p)) (i j : InternalState) (s : S)
      → Obeys p m i j
      → round p methods m i s ≡ act p methods j s
  round-Obeys m i j s o = ap (λ x. act p methods x s) (command-Obeys p methods m i j o)

  act-idle :
      (j : InternalState) (s : S) → (j ≡ initialized) ⊎ (j ≡ paused) → act p methods j s ≡ (j, s)
  unfolding act
  act-idle j s (inl e) = rw e refl
  act-idle j s (inr e) = rw e refl

  act-continue : (s t : S) → methods.work s ≡ (continue, t) → act p methods running s ≡ (running, t)
  unfolding act
  act-continue s t e = rw (e, act) (ap (λ x. (running, x.1)) e)

  act-stop : (s t : S) → methods.work s ≡ (stop, t) → act p methods running s ≡ (stopped, t)
  unfolding act
  act-stop s t e = rw (e, act) (ap (λ x. (stopped, x.1)) e)

  act-transition :
      (s next t : S)
      → methods.work s ≡ (transition next, t)
      → act p methods running s ≡ (running, next)
  unfolding act
  act-transition s next t e = rw (e, act) refl

  act-cleanup : (s : S) → act p methods stopped s ≡ (stopped, methods.cleanup s)
  unfolding act
  act-cleanup s = refl

  loop-round :
      (fuel k : ℕ) (i j j' : InternalState) (s t : S)
      → i ≢ stopped
      → Obeys p (at k) i j
      → act p methods j s ≡ (j', t)
      → loop (suc fuel) k i s ≡ loop fuel (suc k) j' t
  unfolding loop
  loop-round fuel k i j j' s t live o e =
      runner_loop-suc p methods at fuel k i s live
      ∙ ap (λ x. runner_loop p methods at fuel (suc k) x.0 x.1) (round-Obeys (at k) i j s o ∙ e)

  -- The loop reaches every state in which the machine is alive.
  Alive-loop :
      {k : ℕ} {i : InternalState} {s : S}
      → Alive p methods at start k i s
      → (fuel : ℕ) → loop (k + fuel) zero initialized start ≡ loop fuel k i s
  Alive-loop born fuel = ap (λ x. loop x zero initialized start) (omega arith)
  Alive-loop (idles {k} {i} {s} a j o h) fuel =
      ap (λ x. loop x zero initialized start) (omega arith)
      ∙ Alive-loop a (suc fuel)
      ∙ loop-round fuel k i j j s s (Alive-ne-stopped a) o (act-idle j s h)
  Alive-loop (works {k} {i} {s} a o t w) fuel =
      ap (λ x. loop x zero initialized start) (omega arith)
      ∙ Alive-loop a (suc fuel)
      ∙ loop-round fuel k i running running s t (Alive-ne-stopped a) o (act-continue s t w)
  Alive-loop (moves {k} {i} {s} a o next t w) fuel =
      ap (λ x. loop x zero initialized start) (omega arith)
      ∙ Alive-loop a (suc fuel)
      ∙ loop-round fuel k i running running s next (Alive-ne-stopped a) o
          (act-transition s next t w)

  loop-ended :
      (fuel k : ℕ) (i j : InternalState) (s r : S)
      → Alive p methods at start k i s
      → Obeys p (at k) i j
      → act p methods j s ≡ (stopped, r)
      → k < fuel
      → loop fuel zero initialized start ≡ some r
  unfolding loop
  loop-ended fuel k i j s r a o e lt =
      let rest = fuel - suc k in
      ap (λ x. loop x zero initialized start) (omega arith)
      ∙ Alive-loop a (suc rest)
      ∙ loop-round rest k i j stopped s r (Alive-ne-stopped a) o e
      ∙ runner_loop-stopped p methods at rest (suc k) r

  Ends-loop :
      (fuel k : ℕ) (r : S)
      → Ends p methods at start k r
      → k < fuel
      → loop fuel zero initialized start ≡ some r
  Ends-loop fuel k r (told {i} {s} a o e) lt =
      loop-ended fuel k i stopped s r a o (act-cleanup s ∙ ap (λ x. (stopped, x)) e) lt
  Ends-loop fuel k r (leaves {i} {s} a o w) lt =
      loop-ended fuel k i running s r a o (act-stop s r w) lt

  -- What the life of a machine comes to in a round.
  data Turns (k : ℕ) (s : S) (o : InternalState × S) : Type 0 where
    goes_on :
        (j : InternalState) (t : S)
        → o ≡ (j, t)
        → Alive p methods at start (suc k) j t
        → Turns k s o
    ends_here : (r : S) → o ≡ (stopped, r) → Ends p methods at start k r → Turns k s o

  Turns-work :
      (k : ℕ) (i : InternalState) (s : S)
      → Alive p methods at start k i s
      → Obeys p (at k) i running
      → (x : StateTransition S) (t : S) → methods.work s ≡ (x, t)
      → Turns k s (act p methods running s)
  Turns-work k i s a o continue t w = goes_on running t (act-continue s t w) (works a o t w)
  Turns-work k i s a o stop t w = ends_here t (act-stop s t w) (leaves a o w)
  Turns-work k i s a o (transition next) t w =
      goes_on running next (act-transition s next t w) (moves a o next t w)

  Turns-act :
      (k : ℕ) (i : InternalState) (s : S)
      → Alive p methods at start k i s
      → (j : InternalState) → Obeys p (at k) i j
      → Turns k s (act p methods j s)
  Turns-act k i s a initialized o =
      goes_on initialized s (act-idle initialized s (inl refl)) (idles a initialized o (inl refl))
  Turns-act k i s a paused o =
      goes_on paused s (act-idle paused s (inr refl)) (idles a paused o (inr refl))
  Turns-act k i s a running o = Turns-work k i s a o (methods.work s).0 (methods.work s).1 refl
  Turns-act k i s a stopped o = ends_here (methods.cleanup s) (act-cleanup s) (told a o refl)

  loop-Ends :
      (fuel k : ℕ) (i : InternalState) (s r : S)
      → Alive p methods at start k i s
      → loop fuel k i s ≡ some r
      → (n : ℕ) × (n < k + fuel) × Ends p methods at start n r
  unfolding loop
  loop-Ends zero k i s r a h =
      absurd (none-ne-some r (sym (runner_loop-zero p methods at k i s (Alive-ne-stopped a)) ∙ h))
  loop-Ends (suc fuel) k i s r a h =
      let j = command p methods (at k) i in
      let o = Obeys-command p methods (at k) i in
      let live = Alive-ne-stopped a in
      elim (Turns-act k i s a j o) [
        | goes_on j' t e a' ↦
            let (n, lt, ended) =
              loop-Ends fuel (suc k) j' t r a' (sym (loop-round fuel k i j j' s t live o e) ∙ h) in
            (n, omega arith, ended)
        | ends_here r' e ended ↦
            let found : loop (suc fuel) k i s ≡ some r' =
              loop-round fuel k i j stopped s r' live o e
              ∙ runner_loop-stopped p methods at fuel (suc k) r' in
            (
              k,
              omega arith,
              subst (Ends p methods at start k) (some-injective _ _ (sym found ∙ h)) ended,
            )
      ]

  -- With fuel for so many rounds the loop returns a state exactly if the machine ends with it in
  -- one of them: either a message stops it, and the state is the cleaned-up one, or `work` answers
  -- `Stop`, and the state is what `work` left, on which `cleanup` is not called.
  pub runner-Ends_iff :
      (fuel : ℕ) (r : S)
      → (runner p methods at fuel start ≡ some r)
        ↔ ((k : ℕ) × (k < fuel) × Ends p methods at start k r)
  unfolding runner loop
  runner-Ends_iff fuel r = (
    λ h.
        let (n, lt, ended) = loop-Ends fuel zero initialized start r born h in
        (n, omega arith, ended),
    λ (k, lt, ended). Ends-loop fuel k r ended lt,
  )
