-- ===== src/Engine/Safety/Guard/Allows.antt =====
-- When the guard allows an action.
use influence_platform.Prelude.{
  ℕ, ◌+◌, ◌<◌, ◌≤◌, ◌≡◌, ◌↔◌, Bool, true, false, ◌||◌, Option, none, some, arith,
}
use influence_platform.Js.Text.{Text, codes, ◌===◌}
use influence_platform.Engine.Safety.Limits.{Account, effective_limit, lookup, check_daily_limit}
use influence_platform.Engine.Safety.Cooldowns.{
  CooldownKey, both_written, check_cooldown, effective_cooldown,
}
use influence_platform.Engine.Safety.Cooldowns.Active.{check_cooldown-set_cooldown}
use influence_platform.Engine.Safety.Guard.{
  AccountState, ActionTarget, Written, Verdict, allowed, blocked, key_of, check_target,
  pre_action_validation, post_action_processing, emergency_stop, trigger_cooldown, resume_account,
  with_status, with_cooldown, health_of,
}

abbrev pub is_allowed : Verdict → Bool
is_allowed allowed = true
is_allowed (blocked t r w) = false

-- A status under which the account rests.
abbrev pub is_halted : Text → Bool
is_halted s =
    s === codes "banned"
    || s === codes "suspended"
    || s === codes "cooldown"
    || s === codes "resting"
    || s === codes "shadowbanned"

-- No cooldown is active for the action and its target, if it has one.
abbrev pub is_free : ℕ → AccountState → Option CooldownKey → Bool
is_free now s none = true
is_free now s (some key) = (check_cooldown now (health_of s.account) s.cooldowns key).allowed

-- For an account that is there, the guard allows an action if and only if its status is none that
-- halts it, its count of the day is below the limit for its health, and no cooldown of the action on the
-- target is active.
pub pre_action_validation_iff :
    (now : ℕ) (s : AccountState) (a : Account) (action : Text) (target : Option ActionTarget)
    → s.account ≡ some a
    → (is_allowed (pre_action_validation now s action target) ≡ true) ↔ (
        (is_halted a.status ≡ false)
        × (lookup action s.counts 0 < effective_limit a.health_score action)
        × (is_free now s (key_of action target) ≡ true))
unfolding pre_action_validation check_target check_daily_limit
pre_action_validation_iff now s a action target there = ground (arith, there)

-- An account that is stopped or cools down is allowed no action; resuming it gives the limits and the
-- cooldowns the word again.
pre_action_validation-stopped :
    (now : ℕ) (s : AccountState) (a : Account) (action : Text) (target : Option ActionTarget)
    → s.account ≡ some a
    → (is_allowed (pre_action_validation now (emergency_stop s) action target) ≡ false)
      × (is_allowed (pre_action_validation now (trigger_cooldown s) action target) ≡ false)
      × ((is_allowed (pre_action_validation now (resume_account (emergency_stop s)) action target)
            ≡ true)
          ↔ ((lookup action s.counts 0 < effective_limit a.health_score action)
              × (is_free now s (key_of action target) ≡ true)))
unfolding pre_action_validation emergency_stop trigger_cooldown resume_account with_status
    check_target check_daily_limit ◌===◌
pre_action_validation-stopped now s a action target there = ground (arith, there)

-- After a successful action on a target whose cooldown is written, whether the action was counted or not,
-- the same action on it is allowed at a later time only if its
-- cooldown, which the account's health lengthens, is over by then.
pub pre_action_validation-post_action_processing :
    (now later : ℕ) (written : Written) (s : AccountState) (action : Text) (target : ActionTarget)
    (key : CooldownKey)
    → written.cooldown ≡ both_written
    → key_of action (some target) ≡ some key
    → is_allowed (
        pre_action_validation later
          (post_action_processing written now action (some target) true s)
          action
          (some target))
      ≡ true
    → now + effective_cooldown (health_of s.account) key.action_type ≤ later
unfolding pre_action_validation post_action_processing check_target with_cooldown
pre_action_validation-post_action_processing now later written s action target key whole keyed ok =
    ground (
      arith,
      whole,
      keyed,
      ok,
      check_cooldown-set_cooldown now later (health_of s.account) (health_of s.account) key
          s.cooldowns,
    )
