-- ===== src/Home.antt =====
-- The home page's view model: dashboard/src/lib/dashboard/home-metrics.ts and kpi-catalog.ts.
-- Counts are natural numbers. `Math.round((part / whole) * 100)` is floating point and a parameter.
pub mod Bounds
pub mod Catalog
pub mod Incidents
mod Tests
use influence_platform.Prelude.{
  ℕ, ◌+◌, ◌*◌, ◌^◌, ◌≤◌, ◌<◌, Bool, true, false, ◌&&◌, ◌||◌, List, [], ◌∷◌, ◌++◌, Option, none,
  some, ltb, if◌then◌else◌, length, filter, find, or_else,
}
use influence_platform.Js.Text.{Text, codes, ◌===◌, to_upper_case, decimal}
pub use influence_platform.Home.Catalog.{
  Direction, higher_is_better, lower_is_better, KpiDefinition,
}
unfoldable pub use influence_platform.Home.Catalog.{dashboard_kpi_catalog}

-- `percent part whole` is `Math.round((part / whole) * 100)`. In doubles it is the nearest whole
-- number to 100 part / whole, and one of the two at a tie, for counts far below 2 ^ 53.
pub record Rounding : Type 0 where
  pub percent : ℕ → ℕ → ℕ
  pub percent_near :
      (part whole : ℕ)
      → part ≤ whole
      → 0 < whole
      → whole < 2 ^ 40
      → (2 * (whole * percent part whole) ≤ 200 * part + whole)
        × (200 * part ≤ 2 * (whole * percent part whole) + whole)

pub record PublicationStats : Type 0 where
  pub published : ℕ
  pub failed : ℕ
  pub retrying : ℕ
  pub published_today : ℕ
  pub failed_today : ℕ

pub record QueueStats : Type 0 where
  pub pending : ℕ
  pub delayed : ℕ
  pub publish_commands_pending : Option ℕ

pub record Account : Type 0 where
  pub status : Option Text
  pub health_score : Option ℕ

pub data Severity : Type 0 where
  low medium high : Severity

pub record Card : Type 0 where
  pub id : Text
  pub label : Text
  pub value : Text
  pub sub : Text
  pub severity : Severity

pub record ActionItem : Type 0 where
  pub label : Text
  pub value : ℕ
  pub href : Text

pub record HomeViewModel : Type 0 where
  pub cards : List Card
  pub incidents : List Text
  pub action_queue : List ActionItem

abbrev below : ℕ → Option ℕ → Bool
below value none = false
below value (some t) = ltb value t

abbrev above : ℕ → Option ℕ → Bool
above value none = false
above value (some t) = ltb t value

severity_by : Direction → KpiDefinition → ℕ → Severity
severity_by higher_is_better kpi value =
    if below value kpi.critical_threshold
    then high
    else if below value kpi.warning_threshold
    then medium
    else low
severity_by lower_is_better kpi value =
    if above value kpi.critical_threshold
    then high
    else if above value kpi.warning_threshold
    then medium
    else low

unfoldable pub severity_for : Text → ℕ → Severity
unfolding severity_by dashboard_kpi_catalog
severity_for id value =
    elim (find (λ (item : KpiDefinition). item.id === id) dashboard_kpi_catalog) [
      | none ↦ low
      | some kpi ↦ severity_by kpi.direction kpi value
    ]

-- `(a.status ?? "").toUpperCase() === status`
abbrev pub has_status : Text → Account → Bool
has_status status a = to_upper_case (or_else a.status []) === status

unfoldable pub count_accounts : (Account → Bool) → List Account → ℕ
count_accounts p accounts = length (filter p accounts)

unfoldable pub queue_pressure : QueueStats → ℕ
queue_pressure q = or_else q.publish_commands_pending 0 + q.delayed

unfoldable pub low_health : List Account → ℕ
low_health accounts = count_accounts (λ a. ltb (or_else a.health_score 0) 50) accounts

abbrev pub active_accounts : List Account → ℕ
active_accounts accounts = count_accounts (has_status (codes "ACTIVE")) accounts

abbrev pub warming_accounts : List Account → ℕ
warming_accounts accounts = count_accounts (has_status (codes "WARMING")) accounts

module _ (rounding : Rounding) where
  open rounding use {percent}

  unfoldable pub success_rate : PublicationStats → ℕ
  success_rate stats =
      let attempts = stats.published + stats.failed in
      if ltb 0 attempts then percent stats.published attempts else 100

  unfoldable pub readiness : List Account → ℕ
  readiness accounts =
      if ltb 0 (length accounts)
      then percent (active_accounts accounts + warming_accounts accounts) (length accounts)
      else 0

  unfoldable pub incidents_of : PublicationStats → QueueStats → List Text
  incidents_of stats queue =
      let rate = success_rate stats in
      let pressure = queue_pressure queue in
      (if ltb rate 80
        then (codes "Publish success rate is low (" ++ decimal rate ++ codes "%).") ∷ []
        else [])
      ++ (if ltb 50 pressure
          then (codes "Queue pressure is high (" ++ decimal pressure ++ codes ").") ∷ []
          else [])
      ++ (if ltb 20 stats.retrying
          then (codes "Retrying backlog is elevated (" ++ decimal stats.retrying ++ codes ").") ∷ []
          else [])

  cards_of : PublicationStats → QueueStats → List Account → List Card
  cards_of stats queue accounts =
      let rate = success_rate stats in
      let pressure = queue_pressure queue in
      let ready = readiness accounts in
      record {
        id = codes "publish_success_rate";
        label = codes "Publish Success";
        value = decimal rate ++ codes "%";
        sub =
            decimal stats.published_today
            ++ codes " published today / "
            ++ decimal stats.failed_today
            ++ codes " failed today";
        severity = severity_for (codes "publish_success_rate") rate;
      }
      ∷ record {
        id = codes "queue_pressure";
        label = codes "Queue Pressure";
        value = decimal pressure;
        sub =
            decimal queue.pending
            ++ codes " pending, "
            ++ decimal queue.delayed
            ++ codes " delayed";
        severity = severity_for (codes "queue_pressure") pressure;
      }
      ∷ record {
        id = codes "account_readiness";
        label = codes "Account Readiness";
        value = decimal ready ++ codes "%";
        sub =
            decimal (active_accounts accounts)
            ++ codes " active, "
            ++ decimal (warming_accounts accounts)
            ++ codes " warming, "
            ++ decimal (low_health accounts)
            ++ codes " low health";
        severity = severity_for (codes "account_readiness") ready;
      }
      ∷ record {
        id = codes "retry_risk";
        label = codes "Retrying Risk";
        value = decimal stats.retrying;
        sub = decimal stats.failed ++ codes " failed requiring attention";
        severity = severity_for (codes "retry_risk") stats.retrying;
      }
      ∷ []

  unfoldable pub build_home_view_model :
      PublicationStats → QueueStats → List Account → ℕ → HomeViewModel
  unfolding cards_of incidents_of
  build_home_view_model stats queue accounts content_queue_size = record {
    cards = cards_of stats queue accounts;
    incidents = incidents_of stats queue;
    action_queue =
        record {
          label = codes "Failed Publications";
          value = stats.failed;
          href = codes "/publications?status=failed";
        }
        ∷ record {
          label = codes "Retrying Publications";
          value = stats.retrying;
          href = codes "/publications?status=retrying";
        }
        ∷ record {
          label = codes "Content Queue";
          value = content_queue_size;
          href = codes "/generation-studio";
        }
        ∷ record {
          label = codes "Low Health Accounts";
          value = low_health accounts;
          href = codes "/accounts";
        }
        ∷ [];
  }
