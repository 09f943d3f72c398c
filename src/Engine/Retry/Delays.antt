-- ===== src/Engine/Retry/Delays.antt =====
-- How the delays of the retries grow.
use influence_platform.Prelude.{ℕ, suc, ◌+◌, ◌*◌, ◌^◌, ◌≤◌, ◌<◌, ◌≡◌, min, arith}
use influence_platform.Engine.Retry.{get_retry_delay, base_retry_delay_ms, max_retry_delay_ms}

mul_le : (b r m : ℕ) → r ≤ m → b * r ≤ b * m
mul_le b r m le = grind arith

doubled : (a : ℕ) → 2 ^ suc a ≡ 2 * 2 ^ a
doubled a = omega arith

mul-bounds :
    (b r : ℕ)
    → r ≤ 9007199254740992
    → (b * (4 * 9007199254740992) ≤ b * (4 * 9007199254740992 + 2 * r))
      × (b * (4 * 9007199254740992 + 2 * r) ≤ b * (6 * 9007199254740992))
mul-bounds b r le =
    (omega (arith, mul_le b r 9007199254740992 le), omega (arith, mul_le b r 9007199254740992 le))

-- A later retry never waits less than an earlier one, however the two delays were jittered; no delay is
-- longer than the maximum.
pub get_retry_delay_grows :
    (attempt r s : ℕ)
    → r ≤ 9007199254740992
    → s ≤ 9007199254740992
    → (get_retry_delay attempt r ≤ get_retry_delay (suc attempt) s)
      × (get_retry_delay (suc attempt) s ≤ max_retry_delay_ms)
unfolding get_retry_delay
get_retry_delay_grows attempt r s r_le s_le =
    let (low, high) = mul-bounds (2 ^ attempt * base_retry_delay_ms) r r_le in
    let (low', high') = mul-bounds (2 ^ suc attempt * base_retry_delay_ms) s s_le in
    (omega (arith, high, low', doubled attempt), omega arith)

-- The jitter stays within a fifth of the delay that doubles with each attempt.
get_retry_delay_jitter :
    (attempt r : ℕ)
    → r ≤ 9007199254740992
    → (min (4 * (2 ^ attempt * base_retry_delay_ms)) (5 * max_retry_delay_ms)
        < 5 * (get_retry_delay attempt r + 1))
      × (5 * get_retry_delay attempt r ≤ 6 * (2 ^ attempt * base_retry_delay_ms))
unfolding get_retry_delay
get_retry_delay_jitter attempt r le =
    let (low, high) = mul-bounds (2 ^ attempt * base_retry_delay_ms) r le in
    (omega (arith, low), omega (arith, high))
