-- ===== src/Engine/Safety/Cooldowns.antt =====
-- distribution-engine/src/core/cooldownManager.js: the cooldowns of an account's actions on targets.
-- Times are in milliseconds; the multipliers are hundredths, which divide the cooldowns of the code.
pub mod Active
use influence_platform.Prelude.{
  ℕ, ◌+◌, ◌-◌, ◌*◌, ◌/◌, Bool, true, false, ◌&&◌, not, List, [], ◌∷◌, ◌++◌, Option, none, some,
  if◌then◌else◌, leb, ltb, filter, find, ◌==◌,
}
use influence_platform.Js.Text.{Text, codes, ◌===◌, decimal}
use influence_platform.Engine.Safety.Limits.{lookup}

abbrev hours : ℕ → ℕ
hours n = n * 3600000

abbrev minutes : ℕ → ℕ
minutes n = n * 60000

abbrev pub default_cooldowns : List (Text × ℕ)
default_cooldowns =
    (codes "follow", hours 2)
    ∷ (codes "unfollow", hours 1)
    ∷ (codes "like", minutes 5)
    ∷ (codes "comment", minutes 30)
    ∷ (codes "comment_like", minutes 10)
    ∷ (codes "dm", minutes 60)
    ∷ (codes "like_post", minutes 10)
    ∷ (codes "comment_post", minutes 60)
    ∷ (codes "follow_hashtag", minutes 60)
    ∷ (codes "follow_location", minutes 60)
    ∷ []

unfoldable pub get_health_cooldown_multiplier : ℕ → ℕ
get_health_cooldown_multiplier h =
    if leb 90 h
    then 100
    else if leb 70 h
    then 150
    else if leb 50 h
    then 200
    else if leb 30 h
    then 300
    else 500

-- `rows[0]?.health_score || 100`
unfoldable pub health_or_full : Option ℕ → ℕ
health_or_full none = 100
health_or_full (some h) = if h == 0 then 100 else h

unfoldable pub effective_cooldown : Option ℕ → Text → ℕ
effective_cooldown health action =
    lookup action default_cooldowns 0 * get_health_cooldown_multiplier (health_or_full health) / 100

-- The action and the target that a cooldown is for.
pub record CooldownKey : Type 0 where
  pub action_type : Text
  pub target_type : Text
  pub target_id : Text

abbrev pub same_key : CooldownKey → CooldownKey → Bool
same_key a b =
    a.action_type === b.action_type
    && a.target_type === b.target_type
    && a.target_id === b.target_id

pub record CooldownCheck : Type 0 where
  pub allowed : Bool
  pub wait_time : Option ℕ
  pub reason : Option Text
  pub cooldown_ms : Option ℕ

-- `Math.ceil(n / d)`
abbrev pub ceil_div : ℕ → ℕ → ℕ
ceil_div n d = (n + (d - 1)) / d

abbrev pub Cooldowns : Type 0
Cooldowns = List (CooldownKey × ℕ)

-- A row for the key whose time is not over.
abbrev pub is_active : ℕ → CooldownKey → CooldownKey × ℕ → Bool
is_active now key (k, until) = same_key k key && ltb now until

unfoldable on_cooldown : ℕ → ℕ → Option (CooldownKey × ℕ) → CooldownCheck
on_cooldown now effective none = record {
  allowed = true;
  wait_time = none;
  reason = none;
  cooldown_ms = some effective;
}
on_cooldown now effective (some (k, until)) = record {
  allowed = false;
  wait_time = some (ceil_div (until - now) 1000);
  reason = some (
      codes "Cooldown active. Wait "
      ++ decimal (ceil_div (until - now) 60000)
      ++ codes " minutes.");
  cooldown_ms = none;
}

unfoldable pub check_cooldown : ℕ → Option ℕ → Cooldowns → CooldownKey → CooldownCheck
unfolding on_cooldown
check_cooldown now health rows key =
    on_cooldown now (effective_cooldown health key.action_type) (find (is_active now key) rows)

-- `customCooldownMs || …`
abbrev chosen : Option ℕ → ℕ → ℕ
chosen none default = default
chosen (some c) default = if c == 0 then default else c

-- What went through of the `DELETE` and the `INSERT`; the code swallows their exceptions.
pub data Writes : Type 0 where
  both_written only_deleted none_written : Writes

abbrev pub without_key : CooldownKey → Cooldowns → Cooldowns
without_key key rows = filter (λ ((k, until) : CooldownKey × ℕ). not (same_key k key)) rows

-- The rows of the key are deleted, then the new one is inserted.
unfoldable pub set_cooldown : Writes → ℕ → Option ℕ → Option ℕ → CooldownKey → Cooldowns → Cooldowns
set_cooldown none_written now health custom key rows = rows
set_cooldown only_deleted now health custom key rows = without_key key rows
set_cooldown both_written now health custom key rows =
    without_key key rows
    ++ (key, now + chosen custom (effective_cooldown health key.action_type)) ∷ []

unfoldable pub cleanup_expired_cooldowns : ℕ → Cooldowns → Cooldowns
cleanup_expired_cooldowns now rows =
    filter (λ ((k, until) : CooldownKey × ℕ). not (ltb until now)) rows
