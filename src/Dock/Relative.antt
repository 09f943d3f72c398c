-- ===== src/Dock/Relative.antt =====
-- `formatDockRelativeTime`. Times are in milliseconds. `Intl.RelativeTimeFormat`, the platform's
-- formatter, is the argument `format`, and `none` stands for its exceptions; `Date.parse` is `parse`,
-- and `none` stands for `NaN`.
use influence_platform.Prelude.{
  ℕ, ◌+◌, ◌-◌, ◌*◌, ◌/◌, ◌≤◌, ◌<◌, [], ◌++◌, Option, none, some, ltb, leb, if◌then◌else◌, or_else,
  arith,
}
use influence_platform.Js.Text.{Text, codes, ◌===◌, truthy?, replace, decimal}
use influence_platform.Dock.{TimeContext, started, updated, completed}

pub record DockTimeLabels : Type 0 where
  pub just_now : Text
  pub sec_ago : Text
  pub min_ago : Text
  pub hr_ago : Text
  pub day_ago : Text
  pub started_ago : Text
  pub updated_ago : Text
  pub completed_ago : Text

pub data TimeUnit : Type 0 where
  second minute hour day : TimeUnit

-- A signed whole number: `ahead n` is n, `ago n` is -n.
pub data Offset : Type 0 where
  ahead ago : ℕ → Offset

abbrev pub abs : Offset → ℕ
abs (ahead n) = n
abs (ago n) = n

-- `Math.round(x / k)` of a whole number: a half goes up, so towards zero for a negative one.
unfoldable pub round_div : Offset → ℕ → Offset
round_div (ahead n) k = ahead ((n + k / 2) / k)
round_div (ago n) k = ago ((n + (k - 1) / 2) / k)

-- `Math.round((ts - now) / 1000)`
unfoldable pub diff_sec : ℕ → ℕ → Offset
unfolding round_div
diff_sec ts now =
    if leb now ts then round_div (ahead (ts - now)) 1000 else round_div (ago (now - ts)) 1000

-- The unit and the amount that are handed to the formatter.
unfoldable pub relative_amount : Offset → Offset × TimeUnit
relative_amount d =
    if ltb (abs d) 60
    then (d, second)
    else if ltb (abs d) 3600
    then (round_div d 60, minute)
    else if ltb (abs d) 86400
    then (round_div d 3600, hour)
    else (round_div d 86400, day)

-- The `catch` branch: the template and the amount.
unfoldable pub fallback_amount : DockTimeLabels → ℕ → Text × ℕ
fallback_amount labels secs =
    if ltb secs 60
    then (labels.sec_ago, secs)
    else if ltb secs 3600
    then (labels.min_ago, secs / 60)
    else if ltb secs 86400
    then (labels.hr_ago, secs / 3600)
    else (labels.day_ago, secs / 86400)

abbrev fallback_text : Text × ℕ → Text
fallback_text (template, n) = replace template (codes "{n}") (decimal n)

abbrev prefix_of : DockTimeLabels → TimeContext → Text
prefix_of labels started = labels.started_ago
prefix_of labels completed = labels.completed_ago
prefix_of labels updated = labels.updated_ago

module _ (format : Text → Offset → TimeUnit → Option Text) where
  format_offset : Text → DockTimeLabels → TimeContext → Offset → Text
  unfolding relative_amount fallback_amount
  format_offset locale labels context d =
      let (amount, unit) = relative_amount d in
      let lang = if locale === codes "fr" then codes "fr" else codes "en" in
      let prefix = prefix_of labels context in
      if ltb (abs d) 10
      then prefix ++ codes " " ++ labels.just_now
      else prefix
        ++ codes " "
        ++ or_else (format lang amount unit) (fallback_text (fallback_amount labels (abs d)))

  unfoldable pub format_dock_relative_time :
      (Text → Option ℕ) → ℕ → Option Text → Text → DockTimeLabels → TimeContext → Option Text
  unfolding format_offset diff_sec
  format_dock_relative_time parse now iso locale labels context =
      if truthy? iso
      then elim (parse (or_else iso [])) [
        | none ↦ none
        | some ts ↦ some (format_offset locale labels context (diff_sec ts now))
      ]
      else none

-- The seconds of a unit.
abbrev pub seconds : TimeUnit → ℕ
seconds second = 1
seconds minute = 60
seconds hour = 3600
seconds day = 86400

-- For an offset other than zero, the formatter is handed the offset in its unit, off by half a unit at
-- most, and never zero units.
relative_amount_near :
    (d : Offset)
    → 0 < abs d
    → let (amount, unit) = relative_amount d in
      (2 * abs d ≤ 2 * (seconds unit * abs amount) + seconds unit)
      × (2 * (seconds unit * abs amount) ≤ 2 * abs d + seconds unit)
      × (0 < abs amount)
unfolding relative_amount round_div
relative_amount_near (ahead n) h = ground arith
relative_amount_near (ago n) h = ground arith
