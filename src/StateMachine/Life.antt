-- ===== src/StateMachine/Life.antt =====
-- The life of a state machine (utils/state_machine.rs) as a relation, round by round.
use netfabric_bgp_router.Prelude.{ℕ, zero, suc, ◌≡◌, ◌⊎◌, refl, sym, Option, none, some}
use netfabric_bgp_router.Platform.{Platform}
use netfabric_bgp_router.Channel.{
  Message, InternalState, initialized, running, paused, stopped, advertisement, internal_state,
  ris_live_data, ris_live_message,
}
use netfabric_bgp_router.StateMachine.{State, continue, stop, transition, command}

module _ (p : Platform) where
  -- The internal state after a message: none changes nothing, a command is taken over, and any
  -- other message stops the machine.
  abbrev pub Obeys : Option (Message p) → InternalState → InternalState → Type 0
  Obeys none i j = j ≡ i
  Obeys (some (internal_state c)) i j = j ≡ c
  Obeys (some (advertisement _)) i j = j ≡ stopped
  Obeys (some (ris_live_data _)) i j = j ≡ stopped
  Obeys (some (ris_live_message _)) i j = j ≡ stopped

  module _ {S : Type 0} (methods : State S) where
    pub command-Obeys :
        (m : Option (Message p)) (i j : InternalState) → Obeys m i j → command p methods m i ≡ j
    unfolding command
    command-Obeys none i j h = sym h
    command-Obeys (some (internal_state c)) i j h = sym h
    command-Obeys (some (advertisement _)) i j h = sym h
    command-Obeys (some (ris_live_data _)) i j h = sym h
    command-Obeys (some (ris_live_message _)) i j h = sym h

    pub Obeys-command :
        (m : Option (Message p)) (i : InternalState) → Obeys m i (command p methods m i)
    unfolding command
    Obeys-command none i = refl
    Obeys-command (some (internal_state c)) i = refl
    Obeys-command (some (advertisement _)) i = refl
    Obeys-command (some (ris_live_data _)) i = refl
    Obeys-command (some (ris_live_message _)) i = refl

    module _ (at : ℕ → Option (Message p)) (start : S) where
      -- The internal state and the state before round `k` of a machine that has not ended; `at k` is
      -- the message that it receives in this round.
      pub data Alive : ℕ → InternalState → S → Type 0 where
        born : Alive zero initialized start
        idles :
            {k : ℕ} {i : InternalState} {s : S}
            → Alive k i s
            → (j : InternalState) → Obeys (at k) i j
            → (j ≡ initialized) ⊎ (j ≡ paused)
            → Alive (suc k) j s
        works :
            {k : ℕ} {i : InternalState} {s : S}
            → Alive k i s
            → Obeys (at k) i running
            → (t : S) → methods.work s ≡ (continue, t)
            → Alive (suc k) running t
        moves :
            {k : ℕ} {i : InternalState} {s : S}
            → Alive k i s
            → Obeys (at k) i running
            → (next t : S) → methods.work s ≡ (transition next, t)
            → Alive (suc k) running next

      -- The machine ends in round `k` with the state: it is told to and cleans up, or its own work
      -- answers `Stop`, and nothing is cleaned up.
      pub data Ends (k : ℕ) (r : S) : Type 0 where
        told :
            {i : InternalState} {s : S}
            → Alive k i s
            → Obeys (at k) i stopped
            → methods.cleanup s ≡ r
            → Ends k r
        leaves :
            {i : InternalState} {s : S}
            → Alive k i s
            → Obeys (at k) i running
            → methods.work s ≡ (stop, r)
            → Ends k r
