-- ===== src/Tests/Threads.antt =====
-- The theorems on state machines, locks and links, applied on the sample platform.
use netfabric_bgp_router.Prelude.{
  ℕ, ◌*◌, ◌≡◌, refl, Bool, true, Option, none, some, List, [], ◌∷◌, take, arith, ok, ltb,
}
use netfabric_bgp_router.Prelude.HashMap
use netfabric_bgp_router.Advertisement.{Advertisement}
use netfabric_bgp_router.Channel.{Store, running, stopped, internal_state, try_recv, drop_receiver}
use netfabric_bgp_router.Interface.{incoming_capacity, outgoing_capacity}
use netfabric_bgp_router.MessageBus.{MessageBus, send_error}
use netfabric_bgp_router.MessageBus as Bus
use netfabric_bgp_router.MutexUtils.{try_lock_with_timeout}
use netfabric_bgp_router.MutexUtils.Timeout.{Answers, try_lock_with_timeout_total}
use netfabric_bgp_router.Session.{BgpSession, default_session, send, receive}
use netfabric_bgp_router.Session as Session
use netfabric_bgp_router.Network as Network
use netfabric_bgp_router.Network.{Fresh, new_bgp_session_pair}
use netfabric_bgp_router.Network.Links.{new_bgp_session_pair_lem}
use netfabric_bgp_router.StateMachine.Commands.{machine, with_commands, new-send_command}
use netfabric_bgp_router.StateMachine.Machine as Machine
use netfabric_bgp_router.StateMachine.Machine.{message_bus_error, send_command}
use netfabric_bgp_router.ThreadManager as Threads
use netfabric_bgp_router.ThreadManager.{ThreadManager, JoinHandle}
use netfabric_bgp_router.Tests.Sample.{sample}
use netfabric_bgp_router.Tests.Ribs.{announcing, withdrawal}

-- Threads that return numbers, and a thread that is finished with 7.
abbrev manager : ThreadManager sample ℕ
manager = Threads.new sample

abbrev seven : JoinHandle sample ℕ
seven = record { is_finished = true; ending = ok 7 }

abbrev channels : Store sample
channels = []

abbrev spawn : ℕ → JoinHandle sample ℕ
spawn rx = seven

new-send_command_example :
    let made = Machine.new sample true 4 5 spawn manager channels in
    let m = machine sample channels 5 in
    let busy = with_commands sample channels (running ∷ []) in
    (made.0 ≡ Machine.done m)
    × (HashMap.get (sample.uuid_discrete) 5 made.1.thread_handles ≡ some seven)
    × (send_command sample m made.2 running ≡ some (Machine.done tt, busy))
    × (send_command sample m busy stopped ≡ none)
    × (try_recv sample busy 0 ≡ some (internal_state running, made.2))
    × (send_command sample m (drop_receiver sample made.2 0) stopped
        ≡ some (Machine.failed (message_bus_error send_error), drop_receiver sample made.2 0))
new-send_command_example =
    new-send_command sample 4 5 spawn manager channels refl refl running stopped

-- Each round takes twelve milliseconds, and the lock is free from the third on.
abbrev clock : ℕ → ℕ
clock k = 12 * k

abbrev from_third : ℕ → Bool
from_third k = ltb 1 k

try_lock_with_timeout_total_example :
    (r : Option ℕ) × (try_lock_with_timeout clock from_third 50 ≡ some r)
    × Answers clock from_third 50 0 r
try_lock_with_timeout_total_example =
    try_lock_with_timeout_total clock from_third 50 (λ k. omega arith)

abbrev fresh : Fresh sample
fresh = record {
  locked1 = true;
  locked2 = true;
  channel1 = 11;
  channel2 = 12;
  end1 = 13;
  end2 = 14;
}

abbrev no_bus : MessageBus sample
no_bus = Bus.new sample

abbrev ads : List (Advertisement sample)
ads = announcing ∷ withdrawal ∷ []

new_bgp_session_pair_lem_example :
    let made =
      new_bgp_session_pair sample fresh 15 16 no_bus channels default_session default_session 2 in
    let arrived = take incoming_capacity (take 2 (take outgoing_capacity ads)) in
    (s1 : BgpSession sample) × (s2 : BgpSession sample) × (made.0 ≡ Network.done (s1, s2))
    × (s1.config ≡ default_session)
    × (s2.config ≡ default_session)
    × ((receive sample s2 (send sample s1 made.2 ads).2 (λ ref. true)).0 ≡ Session.success arrived)
    × ((receive sample s1 (send sample s2 made.2 ads).2 (λ ref. true)).0 ≡ Session.success arrived)
new_bgp_session_pair_lem_example =
    new_bgp_session_pair_lem sample fresh no_bus channels 2 refl refl (λ e. omega (arith, e))
      (refl, refl) (refl, refl) 15 16 default_session default_session ads (λ ref. true)
      (λ ref. refl)
