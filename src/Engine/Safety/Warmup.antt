-- ===== src/Engine/Safety/Warmup.antt =====
-- distribution-engine/src/managers/WarmupManager.js: how often an account may post. The age is in days,
-- with 0 for an account that is younger; the products of the code with a health of 0 to 100 are exact
-- where they are whole.
pub mod Bounds
use influence_platform.Prelude.{
  ℕ, ◌+◌, ◌-◌, ◌*◌, ◌/◌, min, max, Bool, true, false, ◌||◌, Option, none, some, if◌then◌else◌, leb,
  ltb,
}
use influence_platform.Js.Text.{Text, codes, ◌===◌}
use influence_platform.Engine.Safety.Limits.{is_stopped}
use influence_platform.Engine.Safety.Cooldowns.{ceil_div}

unfoldable pub status_cap : Text → ℕ
status_cap status =
    if status === codes "warming"
    then 3
    else if status === codes "active"
    then 8
    else if status === codes "inactive"
    then 0
    else 5

unfoldable pub age_limit : ℕ → ℕ
age_limit age = if leb age 3 then 1 else if leb age 7 then 2 else if leb age 14 then 3 else 5

unfoldable pub calculate_daily_limit : ℕ → ℕ → Text → ℕ
calculate_daily_limit age health status =
    let base = min (age_limit age) (status_cap status) in
    let final = base * max 10 health / 100 in
    if is_stopped status then 0 else if ltb 0 final then final else 1

pub record HealthVerdict : Type 0 where
  pub allowed : Bool
  pub reduced : Bool
  pub action : Option Text
  pub max_posts : Option ℕ

abbrev refusal : Text → HealthVerdict
refusal action = record { allowed = false; reduced = false; action = some action; max_posts = none }

abbrev limited : ℕ → HealthVerdict
limited posts = record { allowed = true; reduced = true; action = none; max_posts = some posts }

-- The account's status, health and daily count of posts, if there is one. Reasons are left out.
unfoldable pub check_health_for_publishing : Option (Text × ℕ × ℕ) → HealthVerdict
check_health_for_publishing none = record {
  allowed = false;
  reduced = false;
  action = none;
  max_posts = none;
}
check_health_for_publishing (some (status, health, daily)) =
    if status === codes "banned"
    then refusal (codes "disable_account")
    else if status === codes "shadowbanned"
    then refusal (codes "reduce_activity")
    else if status === codes "resting"
    then refusal (codes "wait_for_recovery")
    else if ltb health 20
    then refusal (codes "emergency_stop")
    else if ltb health 40
    then limited (ceil_div daily 4)
    else if ltb health 60
    then limited (ceil_div daily 2)
    else record { allowed = true; reduced = false; action = none; max_posts = none }

abbrev pub minute : ℕ
minute = 60000

-- Whether 90 minutes have passed since the last activity, else the minutes to wait. Where the activity
-- is in the future, the wait grows by as much.
unfoldable pub check_min_interval : ℕ → Option ℕ → Bool × ℕ
check_min_interval now none = (true, 0)
check_min_interval now (some last) =
    if ltb now (last + 90 * minute)
    then (false, ceil_div (last + 90 * minute - now) minute)
    else (true, 0)
