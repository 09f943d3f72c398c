-- ===== src/Engine/Safety/Guard.antt =====
-- distribution-engine/src/middleware/safetyGuard.js: the checks before an action and the records after
-- it. The state is what the database has for one account, on one day.
pub mod Allows
use influence_platform.Prelude.{
  ℕ, suc, Bool, true, false, ◌&&◌, ◌||◌, not, List, [], ◌∷◌, Option, none, some, if◌then◌else◌,
  or_else,
}
use influence_platform.Js.Text.{Text, codes, ◌===◌, truthy, truthy?}
use influence_platform.Engine.Safety.Limits.{Account, check_daily_limit, record_action}
use influence_platform.Engine.Safety.Cooldowns.{
  CooldownKey, Cooldowns, Writes, check_cooldown, set_cooldown,
}

pub record AccountState : Type 0 where
  pub account : Option Account
  pub counts : List (Text × ℕ)
  pub cooldowns : Cooldowns
  pub alerts : ℕ

pub data BlockType : Type 0 where
  permanent cooldown daily_limit : BlockType

pub data Verdict : Type 0 where
  allowed : Verdict
  blocked : BlockType → Option Text → Option ℕ → Verdict

-- `target` may be missing, and so may its type and its id.
pub record ActionTarget : Type 0 where
  pub type : Option Text
  pub id : Option Text

-- `target && target.id`, with the type `user` by default.
unfoldable pub key_of : Text → Option ActionTarget → Option CooldownKey
key_of action none = none
key_of action (some t) =
    if truthy? t.id
    then some (record {
      action_type = action;
      target_type = if truthy? t.type then or_else t.type [] else codes "user";
      target_id = or_else t.id [];
    })
    else none

abbrev health_of : Option Account → Option ℕ
health_of none = none
health_of (some a) = a.health_score

-- The status of the account; `undefined` is no text that is compared.
abbrev pub status_is : Text → Option Account → Bool
status_is expected none = false
status_is expected (some a) = a.status === expected

unfoldable check_target : ℕ → AccountState → Option CooldownKey → Verdict
check_target now s none = allowed
check_target now s (some key) =
    let c = check_cooldown now (health_of s.account) s.cooldowns key in
    if c.allowed then allowed else blocked cooldown c.reason c.wait_time

unfoldable pub pre_action_validation : ℕ → AccountState → Text → Option ActionTarget → Verdict
unfolding check_target
pre_action_validation now s action target =
    let limit = check_daily_limit s.account s.counts action in
    if status_is (codes "banned") s.account || status_is (codes "suspended") s.account
    then blocked permanent (some (codes "Account is banned or suspended")) none
    else if status_is (codes "cooldown") s.account || status_is (codes "resting") s.account
    then blocked cooldown (some (codes "Account is in cooldown/resting mode")) none
    else if status_is (codes "shadowbanned") s.account
    then blocked cooldown (some (codes "Account is shadowbanned")) none
    else if not limit.allowed
    then blocked daily_limit limit.reason none
    else check_target now s (key_of action target)

unfoldable with_cooldown : Writes → ℕ → Bool → Option CooldownKey → AccountState → AccountState
with_cooldown writes now success none s = s
with_cooldown writes now success (some key) s =
    if success
    then record s { cooldowns = set_cooldown writes now (health_of s.account) none key s.cooldowns }
    else s

-- What goes through of the record of the action and of its cooldown.
pub record Written : Type 0 where
  pub counted : Bool
  pub cooldown : Writes

unfoldable pub post_action_processing :
    Written → ℕ → Text → Option ActionTarget → Bool → AccountState → AccountState
unfolding with_cooldown
post_action_processing written now action target success s =
    with_cooldown written.cooldown now success (key_of action target)
      (record s { counts = record_action written.counted action s.counts })

unfoldable with_status : Text → Option Account → Option Account
with_status status none = none
with_status status (some a) = some (record a { status = status })

unfoldable pub emergency_stop : AccountState → AccountState
unfolding with_status
emergency_stop s = record s { account = with_status (codes "resting") s.account }

-- With an alert.
unfoldable pub trigger_cooldown : AccountState → AccountState
unfolding with_status
trigger_cooldown s = record s {
  account = with_status (codes "cooldown") s.account;
  alerts = suc s.alerts;
}

unfoldable pub resume_account : AccountState → AccountState
unfolding with_status
resume_account s = record s { account = with_status (codes "active") s.account }
