-- ===== src/Engine/Retry/Tests.antt =====
-- The theorems on retries at work.
use influence_platform.Prelude.{◌≤◌, arith}
use influence_platform.Engine.Retry.{get_retry_delay, max_retry_delay_ms}
use influence_platform.Engine.Retry.Delays.{get_retry_delay_grows}

get_retry_delay_grows_example :
    (get_retry_delay 1 9000000000000000 ≤ get_retry_delay 2 5)
    × (get_retry_delay 2 5 ≤ max_retry_delay_ms)
get_retry_delay_grows_example =
    get_retry_delay_grows 1 9000000000000000 5 (omega arith) (omega arith)
