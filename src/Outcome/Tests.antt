-- ===== src/Outcome/Tests.antt =====
-- Runs of the publication outcome, and the theorems at concrete inputs.
use influence_platform.Prelude.{◌≡◌, refl, ◌↔◌, ◌⊎◌, true, false, [], ◌∷◌, none, some}
use influence_platform.Js.Text.{Text, codes, ◌===◌, trim, to_lower_case}
use influence_platform.Outcome.{
  PublishIntentTarget, OutcomeInput, post_now, failure, partial_failure, is_failed, is_ok,
  is_in_flight, normalize_status, count_targets, all_targets_failed, summarize_publish_targets,
  resolve_publication_outcome, is_publication_outcome_terminal,
}
use influence_platform.Outcome.Variant.{HasError, IntentIs, AllFailed, failure_iff}
use influence_platform.Outcome.Terminal.{stops, terminal-resolve}

abbrev target : Text → PublishIntentTarget
target s = record { account_id = codes "a1"; platform = codes "instagram"; status = s }

abbrev mixed : OutcomeInput
mixed = record {
  intent = record {
    intent_id = codes "i1";
    status = codes "Queued";
    targets = some (target (codes " FAILED ") ∷ target (codes "publishing") ∷ []);
  };
  action = post_now;
  dispatched = true;
  dispatch_count = some 2;
  error_message = none;
}

mixed_runs :
    ((resolve_publication_outcome mixed).variant ≡ partial_failure)
    × (is_publication_outcome_terminal (resolve_publication_outcome mixed) ≡ false)
unfolding resolve_publication_outcome is_publication_outcome_terminal is_failed is_ok is_in_flight
    normalize_status summarize_publish_targets count_targets all_targets_failed ◌===◌ trim
    to_lower_case
mixed_runs = (refl, refl)

failure_iff_example :
    ((resolve_publication_outcome mixed).variant ≡ failure)
    ↔ (HasError mixed ⊎ IntentIs mixed (codes "failed") ⊎ AllFailed mixed)
failure_iff_example = failure_iff mixed

terminal-resolve_example :
    is_publication_outcome_terminal (resolve_publication_outcome mixed)
    ≡ stops (resolve_publication_outcome mixed).variant mixed
terminal-resolve_example = terminal-resolve mixed
