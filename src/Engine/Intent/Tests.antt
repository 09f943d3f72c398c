-- ===== src/Engine/Intent/Tests.antt =====
-- The theorems on intents at work.
use influence_platform.Prelude.{◌≡◌, refl, List, [], ◌∷◌, map, none, some, true}
use influence_platform.Js.Text.{codes, ◌===◌}
use influence_platform.Engine.Target.{TargetStatus, published, uncertain, status_text}
use influence_platform.Engine.Intent.{
  IntentRow, aggregate_status, aggregate_intent, repaired_status, repair_intent,
}
use influence_platform.Engine.Intent.Agreement.{announced, resolve-aggregate_status}
use influence_platform.Outcome.{
  OutcomeInput, PublishIntentTarget, post_now, resolve_publication_outcome,
}

abbrev two_targets : List TargetStatus
two_targets = published ∷ uncertain ∷ []

abbrev target_with : TargetStatus → PublishIntentTarget
target_with t = record {
  account_id = codes "a";
  platform = codes "instagram";
  status = status_text t;
}

abbrev mixed_input : OutcomeInput
mixed_input = record {
  intent = record {
    intent_id = codes "i";
    status = codes "partial_failed";
    targets = some (map target_with two_targets);
  };
  action = post_now;
  dispatched = true;
  dispatch_count = some 2;
  error_message = none;
}

resolve-aggregate_status_example :
    (resolve_publication_outcome mixed_input).variant ≡ announced (codes "partial_failed")
unfolding aggregate_status
resolve-aggregate_status_example =
    resolve-aggregate_status two_targets mixed_input refl refl refl refl

abbrev queued_row : IntentRow
queued_row = record {
  status = codes "queued";
  error_message = some (codes "publish_adapter_failed");
}

-- An intent that is found published keeps the error that the aggregation would clear.
error_kept :
    ((repair_intent (published ∷ []) queued_row).error_message
      ≡ some (codes "publish_adapter_failed"))
    × ((aggregate_intent (published ∷ []) queued_row).error_message ≡ none)
unfolding repair_intent repaired_status aggregate_intent aggregate_status ◌===◌
error_kept = (refl, refl)
