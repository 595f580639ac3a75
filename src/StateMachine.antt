-- ===== src/StateMachine.antt =====
-- utils/state_machine.rs: the loop that a state machine's thread runs, over the commands that it
-- receives.
pub mod Laws
pub mod Life
pub mod Endings
pub mod Machine
pub mod Commands
use netfabric_bgp_router.Prelude.{ℕ, zero, suc, Option, none, some}
use netfabric_bgp_router.Platform.{Platform}
use netfabric_bgp_router.Channel.{
  Message, InternalState, initialized, running, paused, stopped, cast_internal_state,
}

-- `StateTransition`, where `S` stands for `Box<dyn State>`.
pub data StateTransition (S : Type 0) : Type 0 where
  continue stop : StateTransition S
  transition : S → StateTransition S

-- The trait `State`: `work` also changes the state, and `cleanup` only does that.
pub record State (S : Type 0) : Type 0 where
  pub work : S → StateTransition S × S
  pub cleanup : S → S

module _ (p : Platform) {S : Type 0} (methods : State S) where
  -- The internal state after one `try_recv`: a message that is no command stops the machine.
  unfoldable pub command : Option (Message p) → InternalState → InternalState
  command none i = i
  command (some message) i = elim (cast_internal_state p message) [ some c ↦ c | none ↦ stopped ]

  -- The `match` of the loop on the internal state. Sleeping changes nothing.
  unfoldable pub act : InternalState → S → InternalState × S
  act running s = elim (methods.work s).0 [
    | continue ↦ (running, (methods.work s).1)
    | stop ↦ (stopped, (methods.work s).1)
    | transition next ↦ (running, next)
  ]
  act initialized s = (initialized, s)
  act paused s = (paused, s)
  act stopped s = (stopped, methods.cleanup s)

  -- One turn of the loop.
  abbrev pub round : Option (Message p) → InternalState → S → InternalState × S
  round received i s = act (command received i) s

  -- The loop of `StateMachine::runner`; `at k` is what `try_recv` returns in round `k`. It returns
  -- nothing if it is still running when the fuel is spent.
  unfoldable pub runner_loop : (ℕ → Option (Message p)) → ℕ → ℕ → InternalState → S → Option S
  runner_loop at zero k i s = elim i [ stopped ↦ some s | _ ↦ none ]
  runner_loop at (suc fuel) k i s =
      let rest = runner_loop at fuel (suc k) (round (at k) i s).0 (round (at k) i s).1 in
      elim i [ stopped ↦ some s | _ ↦ rest ]

  -- `StateMachine::runner`
  unfoldable pub runner : (ℕ → Option (Message p)) → ℕ → S → Option S
  unfolding runner_loop
  runner at fuel s = runner_loop at fuel 0 initialized s
