-- ===== src/MutexUtils.antt =====
-- utils/mutex_utils.rs: a lock that is tried until a timeout.
pub mod Timeout
use netfabric_bgp_router.Prelude.{ℕ, zero, suc, Bool, Option, none, some, ltb, if◌then◌else◌}

-- The loop of `try_lock_with_timeout` from round `k` on, in milliseconds: `elapsed k` is the time since
-- the start at the test of round `k`, and `is_free k` says whether `try_lock` succeeds in it. The
-- result is the round whose guard is returned, or nothing for `WouldBlock`; with too little fuel
-- there is no result.
unfoldable pub try_lock_loop : (ℕ → ℕ) → (ℕ → Bool) → ℕ → ℕ → ℕ → Option (Option ℕ)
try_lock_loop elapsed is_free timeout zero k = none
try_lock_loop elapsed is_free timeout (suc fuel) k =
    let later = try_lock_loop elapsed is_free timeout fuel (suc k) in
    if ltb (elapsed k) timeout then (if is_free k then some (some k) else later) else some none

-- `TryLockWithTimeout::try_lock_with_timeout`, with fuel for a round in each millisecond and a last
-- one.
unfoldable pub try_lock_with_timeout : (ℕ → ℕ) → (ℕ → Bool) → ℕ → Option (Option ℕ)
try_lock_with_timeout elapsed is_free timeout =
    try_lock_loop elapsed is_free timeout (suc timeout) 0
