-- ===== src/Engine/Intent.antt =====
-- The status of a publication intent, from the statuses of its targets:
-- `aggregatePublicationIntentStatus` and `recoverOrphanQueuedPublicationIntents` of
-- distribution-engine/src/publisher/PublishingWorker.js.
pub mod Repair
pub mod Agreement
mod Tests
use influence_platform.Prelude.{
  ℕ, Bool, true, false, ◌&&◌, ◌||◌, not, List, [], ◌∷◌, Option, none, some, if◌then◌else◌, ltb,
  ◌==◌, length, filter, any,
}
use influence_platform.Js.Text.{Text, codes, ◌===◌}
use influence_platform.Engine.Target.{
  TargetStatus, pending, publishing, published, failed, uncertain, other,
}

abbrev pub is_published : TargetStatus → Bool
is_published published = true
is_published _ = false

-- `status IN ('failed', 'uncertain')`
abbrev pub is_failed_target : TargetStatus → Bool
is_failed_target failed = true
is_failed_target uncertain = true
is_failed_target _ = false

-- `status IN ('pending', 'publishing')`
abbrev pub is_open : TargetStatus → Bool
is_open pending = true
is_open publishing = true
is_open _ = false

-- `COUNT(*) FILTER (WHERE …)`
abbrev pub count_status : (TargetStatus → Bool) → List TargetStatus → ℕ
count_status p targets = length (filter p targets)

-- The status that the intent is given, `none` where it is left alone.
unfoldable pub aggregate_status : List TargetStatus → Option Text
aggregate_status targets =
    let total = length targets in
    let published_count = count_status is_published targets in
    let failed_count = count_status is_failed_target targets in
    if total == 0
    then none
    else if ltb 0 (count_status is_open targets)
    then none
    else if published_count == total
    then some (codes "published")
    else if failed_count == total
    then some (codes "failed")
    else if ltb 0 published_count && ltb 0 failed_count
    then some (codes "partial_failed")
    else none

-- The row of the intent.
pub record IntentRow : Type 0 where
  pub status : Text
  pub error_message : Option Text

-- The `UPDATE` of the aggregation clears the error of a published intent.
abbrev updated : Option Text → IntentRow → IntentRow
updated none row = row
updated (some new) row = record {
  status = new;
  error_message = if new === codes "published" then none else row.error_message;
}

unfoldable pub aggregate_intent : List TargetStatus → IntentRow → IntentRow
aggregate_intent targets row = updated (aggregate_status targets) row

-- The `CASE` of the repair.
unfoldable repaired_status : List TargetStatus → Text → Text
repaired_status targets status =
    let total = length targets in
    if count_status is_published targets == total
    then codes "published"
    else if count_status is_failed_target targets == total
    then codes "failed"
    else if any is_published targets && any is_failed_target targets
    then codes "partial_failed"
    else status

-- The `UPDATE` of the repair, which leaves the error as it is.
unfoldable pub repair_intent : List TargetStatus → IntentRow → IntentRow
unfolding repaired_status
repair_intent targets row =
    if row.status === codes "queued" && ltb 0 (length targets) && not (any is_open targets)
    then record row { status = repaired_status targets row.status }
    else row
