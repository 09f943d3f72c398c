-- ===== src/Home/Bounds.antt =====
-- The percentages of the home page stay within 100.
use influence_platform.Prelude.{
  ℕ, ◌+◌, ◌^◌, ◌≤◌, ◌<◌, ◌≡◌, true, false, List, [], ◌∷◌, length, arith, or_else,
}
use influence_platform.Js.Text.{codes, to_upper_case}
use influence_platform.Js.Trim.{===_iff}
use influence_platform.Home.{
  Rounding, PublicationStats, Account, has_status, count_accounts, active_accounts,
  warming_accounts, success_rate, readiness,
}

-- No account is both active and warming.
has_status_once :
    (a : Account) → has_status (codes "ACTIVE") a ≡ true → has_status (codes "WARMING") a ≡ false
has_status_once a h = ground (
  arith,
  ===_iff (to_upper_case (or_else a.status [])) (codes "ACTIVE"),
  ===_iff (to_upper_case (or_else a.status [])) (codes "WARMING"),
)

active-warming-le :
    (accounts : List Account)
    → active_accounts accounts + warming_accounts accounts ≤ length accounts
unfolding count_accounts
active-warming-le [] = omega arith
active-warming-le (a ∷ accounts) = ground (arith, has_status_once a, active-warming-le accounts)

percent-le :
    (r : Rounding) (part whole : ℕ)
    → part ≤ whole
    → 0 < whole
    → whole < 2 ^ 40
    → r.percent part whole ≤ 100
percent-le r part whole h k l = grind (arith, r.percent_near part whole h k l)

-- The success rate and the readiness of the accounts are at most 100, for fewer than 2 ^ 40
-- publications and accounts.
percentages_bounded :
    (r : Rounding) (stats : PublicationStats) (accounts : List Account)
    → stats.published + stats.failed < 2 ^ 40
    → length accounts < 2 ^ 40
    → (success_rate r stats ≤ 100) × (readiness r accounts ≤ 100)
unfolding success_rate readiness
percentages_bounded r stats accounts h k = ground (
  arith,
  percent-le r stats.published (stats.published + stats.failed),
  percent-le r (active_accounts accounts + warming_accounts accounts) (length accounts),
  active-warming-le accounts,
)
