-- ===== src/Engine/Safety/Warmup/Bounds.antt =====
-- What the warm-up bounds, and how long a post has to wait.
use influence_platform.Prelude.{ℕ, ◌+◌, ◌-◌, ◌*◌, ◌≤◌, ◌≡◌, true, not, some, leb, arith}
use influence_platform.Js.Text.{Text}
use influence_platform.Engine.Safety.Limits.{is_stopped}
use influence_platform.Engine.Safety.Warmup.{
  status_cap, age_limit, calculate_daily_limit, check_min_interval, minute,
}

-- With a health of 100 at most, the value of `calculateDailyLimit` is five at most, and it is 0 if and
-- only if the status is banned, shadowbanned or resting.
pub calculate_daily_limit_bounds :
    (age health : ℕ) (status : Text)
    → health ≤ 100
    → (calculate_daily_limit age health status ≤ 5)
      × (leb 1 (calculate_daily_limit age health status) ≡ not (is_stopped status))
unfolding calculate_daily_limit age_limit status_cap
calculate_daily_limit_bounds age health status le = ground (arith, le)

-- An older account with a better health may post at least as often.
calculate_daily_limit_mono :
    (age later health better : ℕ) (status : Text)
    → age ≤ later
    → health ≤ better
    → calculate_daily_limit age health status ≤ calculate_daily_limit later better status
unfolding calculate_daily_limit age_limit status_cap
calculate_daily_limit_mono age later health better status older le = ground (arith, older, le)

-- The wait is right: after it a post is allowed, a minute less is too short, and there is none if and
-- only if a post is allowed now.
pub check_min_interval_wait :
    (now last : ℕ)
    → ((check_min_interval (now + (check_min_interval now (some last)).1 * minute) (some last)).0
        ≡ true)
      × ((check_min_interval
            (now + ((check_min_interval now (some last)).1 - 1) * minute)
            (some last)).0
          ≡ leb (check_min_interval now (some last)).1 0)
      × ((check_min_interval now (some last)).0 ≡ leb (check_min_interval now (some last)).1 0)
unfolding check_min_interval
check_min_interval_wait now last = ground arith
