-- ===== src/Home/Incidents.antt =====
-- The incidents of the home page against the severities of its cards.
use influence_platform.Prelude.{ℕ, ◌≡◌, Bool, true, false, List, length, arith, filter, ◌&&◌, not}
use influence_platform.Js.Text.{codes, ◌===◌}
use influence_platform.Home.{
  Rounding, PublicationStats, QueueStats, Account, Severity, high, Card, severity_for,
  build_home_view_model,
}

abbrev pub is_high : Severity → Bool
is_high high = true
is_high _ = false

-- The cards that have an incident of their own: all but the readiness of the accounts.
abbrev pub has_incident : Card → Bool
has_incident card = is_high card.severity && not (card.id === codes "account_readiness")

-- There are as many incidents as cards of high severity, the account readiness aside: the thresholds
-- of the incidents and those of the catalog agree.
incidents-high_cards :
    (r : Rounding) (stats : PublicationStats) (queue : QueueStats) (accounts : List Account) (n : ℕ)
    → let vm = build_home_view_model r stats queue accounts n in
      length vm.incidents ≡ length (filter has_incident vm.cards)
unfolding build_home_view_model severity_for ◌===◌
incidents-high_cards r stats queue accounts n = ground arith
