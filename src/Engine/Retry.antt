-- ===== src/Engine/Retry.antt =====
-- When a failed publication is tried again: `classifyError`, `getRetryDelay` and `getRequeueProfile` of
-- distribution-engine/src/publisher/PublishingWorker.js. `Math.random()` is `r / 2 ^ 53`, and a delay is
-- in whole milliseconds, rounded down.
pub mod Delays
mod Tests
use influence_platform.Prelude.{
  ℕ, ◌+◌, ◌*◌, ◌/◌, ◌^◌, min, Bool, true, false, ◌||◌, List, [], ◌∷◌, Option, none, some,
  if◌then◌else◌, any, ◌==◌,
}
use influence_platform.Js.Text.{Text, codes, ◌===◌, to_lower_case, includes, starts_with}

abbrev pub max_retries : ℕ
max_retries = 3

abbrev pub base_retry_delay_ms : ℕ
base_retry_delay_ms = 30000

abbrev pub max_retry_delay_ms : ℕ
max_retry_delay_ms = 900000

abbrev pub permanent_errors : List Text
permanent_errors =
    codes "Account Suspended"
    ∷ codes "Content Policy Violation"
    ∷ codes "Account Disabled"
    ∷ codes "Login Required"
    ∷ codes "Invalid Credentials"
    ∷ []

abbrev pub retryable_errors : List Text
retryable_errors =
    codes "TimeoutError"
    ∷ codes "Navigation timeout"
    ∷ codes "net::ERR_"
    ∷ codes "ECONNREFUSED"
    ∷ codes "ECONNRESET"
    ∷ codes "ETIMEDOUT"
    ∷ codes "socket hang up"
    ∷ codes "Action Blocked"
    ∷ codes "Try Again Later"
    ∷ codes "Temporary Block"
    ∷ []

pub data ErrorClass : Type 0 where
  permanent retryable unknown : ErrorClass

abbrev pub mentions : Text → List Text → Bool
mentions message patterns = any (λ p. includes message (to_lower_case p)) patterns

unfoldable pub classify_error : Text → ErrorClass
classify_error message =
    let lowered = to_lower_case message in
    if mentions lowered permanent_errors
    then permanent
    else if mentions lowered retryable_errors
    then retryable
    else unknown

abbrev pub class_text : ErrorClass → Text
class_text permanent = codes "permanent"
class_text retryable = codes "retryable"
class_text unknown = codes "unknown"

-- `2 ^ attempt * base * (1 + 0.2 * (2 * random - 1))`, at most the maximum.
unfoldable pub get_retry_delay : ℕ → ℕ → ℕ
get_retry_delay attempt r =
    let delay = 2 ^ attempt * base_retry_delay_ms in
    min (delay * (4 * 9007199254740992 + 2 * r) / (5 * 9007199254740992)) max_retry_delay_ms

unfoldable pub get_requeue_profile : Text → ℕ → ℕ → ℕ × Text
get_requeue_profile reason retry_count r =
    if reason === codes "daily_limit_exceeded" || reason === codes "safety_daily_limit"
    then (7200000, codes "REQUEUE_DAILY_LIMIT")
    else if starts_with reason (codes "safety_cooldown_")
        || starts_with reason (codes "min_interval_wait_")
    then (60000, codes "REQUEUE_COOLDOWN")
    else (get_retry_delay retry_count r, codes "REQUEUE_RETRY_BACKOFF")

-- The delay of `requeueWithDelay`: `customDelayMs || profile.delayMs`.
unfoldable pub requeue_delay : Text → Option ℕ → ℕ → ℕ
requeue_delay reason none r = (get_requeue_profile reason 0 r).0
requeue_delay reason (some custom) r =
    if custom == 0 then (get_requeue_profile reason 0 r).0 else custom
