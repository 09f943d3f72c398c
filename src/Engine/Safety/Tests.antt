-- ===== src/Engine/Safety/Tests.antt =====
-- The theorems on the limits, the cooldowns, the guard and the warm-up at work.
use influence_platform.Prelude.{
  ◌+◌, ◌-◌, ◌*◌, ◌≤◌, ◌<◌, ◌≡◌, ◌↔◌, refl, arith, true, false, not, [], none, some, leb,
}
use influence_platform.Js.Text.{Text, codes, ◌===◌}
use influence_platform.Engine.Safety.Limits.{
  Account, lookup, effective_limit, is_stopped, record_action, check_daily_limit,
  get_health_multiplier,
}
use influence_platform.Engine.Safety.Cooldowns.{
  CooldownKey, both_written, none_written, check_cooldown, set_cooldown, effective_cooldown,
  get_health_cooldown_multiplier, health_or_full,
}
use influence_platform.Engine.Safety.Cooldowns.Active.{check_cooldown-set_cooldown}
use influence_platform.Engine.Safety.Guard.{
  AccountState, ActionTarget, key_of, pre_action_validation, post_action_processing,
}
use influence_platform.Engine.Safety.Guard.Allows.{
  is_allowed, is_halted, is_free, pre_action_validation_iff,
  pre_action_validation-post_action_processing,
}
use influence_platform.Engine.Safety.Warmup.{calculate_daily_limit, check_min_interval, minute}
use influence_platform.Engine.Safety.Warmup.Bounds.{
  calculate_daily_limit_bounds, check_min_interval_wait,
}

abbrev healthy : Account
healthy = record { status = codes "active"; health_score = some 75 }

abbrev post : Text
post = codes "post"

abbrev like : Text
like = codes "like"

abbrev like_of_user : CooldownKey
like_of_user = record { action_type = like; target_type = codes "user"; target_id = codes "7" }

check_cooldown-set_cooldown_example :
    (check_cooldown 400000 none
      (set_cooldown both_written 0 (some 75) none like_of_user [])
      like_of_user).allowed
    ≡ leb (0 + effective_cooldown (some 75) like) 400000
check_cooldown-set_cooldown_example =
    check_cooldown-set_cooldown 0 400000 (some 75) none like_of_user []

abbrev fresh : AccountState
fresh = record { account = some healthy; counts = []; cooldowns = []; alerts = 0 }

abbrev user_seven : ActionTarget
user_seven = record { type = none; id = some (codes "7") }

pre_action_validation_iff_example :
    (is_allowed (pre_action_validation 0 fresh like (some user_seven)) ≡ true) ↔ (
      (is_halted (codes "active") ≡ false)
      × (lookup like [] 0 < effective_limit (some 75) like)
      × (is_free 0 fresh (key_of like (some user_seven)) ≡ true))
pre_action_validation_iff_example =
    pre_action_validation_iff 0 fresh healthy like (some user_seven) refl

pre_action_validation-post_action_processing_example :
    0 + effective_cooldown (some 75) like ≤ 450000
unfolding key_of pre_action_validation post_action_processing check_cooldown set_cooldown
    effective_cooldown get_health_cooldown_multiplier health_or_full record_action check_daily_limit
    effective_limit get_health_multiplier lookup ◌===◌
pre_action_validation-post_action_processing_example =
    pre_action_validation-post_action_processing 0 450000
      (record { counted = true; cooldown = both_written }) fresh like user_seven like_of_user refl
      refl refl

-- A cooldown that could not be written leaves the action allowed at once.
unwritten_allows :
    is_allowed (
      pre_action_validation 0
        (post_action_processing
          (record { counted = true; cooldown = none_written })
          0
          like
          (some user_seven)
          true
          fresh)
        like
        (some user_seven))
    ≡ true
unfolding key_of pre_action_validation post_action_processing check_cooldown set_cooldown
    record_action check_daily_limit effective_limit get_health_multiplier lookup ◌===◌
unwritten_allows = refl

calculate_daily_limit_bounds_example :
    (calculate_daily_limit 20 75 (codes "active") ≤ 5)
    × (leb 1 (calculate_daily_limit 20 75 (codes "active")) ≡ not (is_stopped (codes "active")))
calculate_daily_limit_bounds_example =
    calculate_daily_limit_bounds 20 75 (codes "active") (omega arith)

check_min_interval_wait_example :
    ((check_min_interval (1000 + (check_min_interval 1000 (some 0)).1 * minute) (some 0)).0 ≡ true)
    × ((check_min_interval (1000 + ((check_min_interval 1000 (some 0)).1 - 1) * minute) (some 0)).0
        ≡ leb (check_min_interval 1000 (some 0)).1 0)
    × ((check_min_interval 1000 (some 0)).0 ≡ leb (check_min_interval 1000 (some 0)).1 0)
check_min_interval_wait_example = check_min_interval_wait 1000 0
