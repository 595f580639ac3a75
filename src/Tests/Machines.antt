-- ===== src/Tests/Machines.antt =====
-- The theorems on state machines and topologies, applied to small ones.
use netfabric_bgp_router.Prelude.{
  ℕ, zero, suc, ◌<◌, ◌≡◌, ◌↔◌, refl, Option, none, some, List, [], ◌∷◌, ℕ_discrete, arith,
}
use netfabric_bgp_router.Channel.{Message, internal_state, running, stopped}
use netfabric_bgp_router.StateMachine.{
  State, StateTransition, continue, stop, runner, runner_loop, command, act,
}
use netfabric_bgp_router.StateMachine.Laws.{runner_total}
use netfabric_bgp_router.StateMachine.Life.{Ends}
use netfabric_bgp_router.StateMachine.Endings.{runner-Ends_iff}
use netfabric_bgp_router.Topology.{from_edges}
use netfabric_bgp_router.Topology.Laws.{IsValid, from_edges-IsValid}
use netfabric_bgp_router.Tests.Sample.{sample}

-- A counter that counts down and then stops; its cleanup sets it to 99.
abbrev count : ℕ → StateTransition ℕ × ℕ
count zero = (stop, zero)
count (suc n) = (continue, n)

abbrev counter : State ℕ
counter = record { work = count; cleanup = λ n. 99 }

-- The machine is started in the first round, and gets a stop command in the third.
abbrev started : ℕ → Option (Message sample)
started zero = some (internal_state running)
started (suc zero) = none
started (suc (suc n)) = some (internal_state stopped)

one_stops : runner sample counter started 3 1 ≡ some 0
unfolding runner runner_loop command act
one_stops = refl

runner_total_example : (r : ℕ) × (runner sample counter started 3 7 ≡ some r)
runner_total_example = runner_total sample counter started 2 3 7 refl (omega arith)

runner-Ends_iff_example :
    (runner sample counter started 3 1 ≡ some 0)
    ↔ ((k : ℕ) × (k < 3) × Ends sample counter started 1 k 0)
runner-Ends_iff_example = runner-Ends_iff sample counter started 1 3 0

abbrev no_label : ℕ
no_label = 0

abbrev triangle : List (ℕ × ℕ × ℕ)
triangle = (1, 2, 10) ∷ (2, 3, 10) ∷ (3, 1, 10) ∷ []

from_edges-IsValid_example : IsValid ℕ_discrete (from_edges ℕ_discrete no_label triangle)
from_edges-IsValid_example = from_edges-IsValid ℕ_discrete no_label triangle
