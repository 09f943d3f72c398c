-- ===== src/Engine/Safety/Limits.antt =====
-- distribution-engine/src/core/actionLimits.js: the daily limits of the actions, for one account and one
-- day. The multipliers are hundredths, so that a limit is `base * multiplier / 100`, rounded down; for
-- the base limits of the code this is what its floating-point product gives.
pub mod Bounds
use influence_platform.Prelude.{
  ℕ, suc, ◌*◌, ◌/◌, ◌≤◌, Bool, true, false, ◌||◌, List, [], ◌∷◌, ◌++◌, Option, none, some,
  if◌then◌else◌, leb, ltb,
}
use influence_platform.Js.Text.{Text, codes, ◌===◌, decimal}

-- `health_score` may be `NULL`.
pub record Account : Type 0 where
  pub status : Text
  pub health_score : Option ℕ

abbrev pub default_limits : List (Text × ℕ)
default_limits =
    (codes "like", 350)
    ∷ (codes "comment_like", 200)
    ∷ (codes "follow", 200)
    ∷ (codes "unfollow", 200)
    ∷ (codes "comment", 60)
    ∷ (codes "dm", 50)
    ∷ (codes "post", 3)
    ∷ (codes "story", 10)
    ∷ (codes "reel", 3)
    ∷ []

-- The value of a name in a table, else a default.
unfoldable pub lookup : Text → List (Text × ℕ) → ℕ → ℕ
lookup name [] default = default
lookup name ((n, v) ∷ table) default =
    let rest = lookup name table default in if n === name then v else rest

unfoldable pub get_health_multiplier : Option ℕ → ℕ
get_health_multiplier none = 0
get_health_multiplier (some h) =
    if leb 90 h
    then 100
    else if leb 70 h
    then 80
    else if leb 50 h
    then 50
    else if leb 30 h
    then 25
    else 0

abbrev pub base_limit : Text → ℕ
base_limit action = lookup action default_limits 50

unfoldable pub effective_limit : Option ℕ → Text → ℕ
effective_limit health action = base_limit action * get_health_multiplier health / 100

pub record LimitCheck : Type 0 where
  pub allowed : Bool
  pub current : ℕ
  pub limit : ℕ
  pub reason : Option Text

abbrev refusal : Text → LimitCheck
refusal reason = record { allowed = false; current = 0; limit = 0; reason = some reason }

abbrev pub is_stopped : Text → Bool
is_stopped status =
    status === codes "banned" || status === codes "shadowbanned" || status === codes "resting"

-- The row of the account, if there is one, and the counts of the day.
unfoldable pub check_daily_limit : Option Account → List (Text × ℕ) → Text → LimitCheck
check_daily_limit none counts action = refusal (codes "Account not found")
check_daily_limit (some account) counts action =
    let limit = effective_limit account.health_score action in
    let current = lookup action counts 0 in
    if is_stopped account.status
    then refusal (codes "Account status: " ++ account.status)
    else record {
      allowed = ltb current limit;
      current = current;
      limit = limit;
      reason =
          if leb limit current
          then some (
              codes "Daily limit reached ("
              ++ decimal current
              ++ codes "/"
              ++ decimal limit
              ++ codes ")")
          else none;
    }

abbrev counted : Text → List (Text × ℕ) → List (Text × ℕ)
counted action [] = (action, 1) ∷ []
counted action ((n, c) ∷ counts) =
    let rest = counted action counts in if n === action then (n, suc c) ∷ counts else (n, c) ∷ rest

-- The count of an action grows by one, if the statements go through, whose exceptions the code swallows;
-- the success of the action does not matter.
unfoldable pub record_action : Bool → Text → List (Text × ℕ) → List (Text × ℕ)
record_action written action counts = if written then counted action counts else counts
