-- ===== src/Engine/Intent/Agreement.antt =====
-- What the dashboard says of an intent whose status the distribution engine has aggregated.
use influence_platform.Prelude.{
  ◌+◌, ◌<◌, ◌≡◌, ◌⊎◌, inl, inr, refl, sym, ap, ◌∙◌, Bool, true, false, List, [], ◌∷◌, map, some,
  if◌then◌else◌, length, every, arith,
}
use influence_platform.Js.Text.{Text, codes, ◌===◌, trim, to_lower_case, truthy?}
use influence_platform.Engine.Target.{
  TargetStatus, pending, publishing, published, failed, uncertain, other, status_text,
}
use influence_platform.Engine.Intent.{
  is_published, is_failed_target, is_open, count_status, aggregate_status,
}
use influence_platform.Outcome.{
  OutcomeInput, PublicationOutcomeVariant, success, failure, partial_failure, is_failed, is_ok,
  normalize_status, target_statuses, count_targets, all_targets_failed, resolve_publication_outcome,
}

-- A status that the worker knows.
abbrev pub is_known : TargetStatus → Bool
is_known (other s) = false
is_known _ = true

abbrev is_ok_target : TargetStatus → Bool
is_ok_target published = true
is_ok_target t = is_open t

is_failed-status_text :
    (t : TargetStatus)
    → is_known t ≡ true
    → is_failed (normalize_status (status_text t)) ≡ is_failed_target t
unfolding is_failed normalize_status ◌===◌ trim to_lower_case
is_failed-status_text pending known = refl
is_failed-status_text publishing known = refl
is_failed-status_text published known = refl
is_failed-status_text failed known = refl
is_failed-status_text uncertain known = refl
is_failed-status_text (other s) known = ground (arith, known)

is_ok-status_text :
    (t : TargetStatus)
    → is_known t ≡ true
    → is_ok (normalize_status (status_text t)) ≡ is_ok_target t
unfolding is_ok normalize_status ◌===◌ trim to_lower_case
is_ok-status_text pending known = refl
is_ok-status_text publishing known = refl
is_ok-status_text published known = refl
is_ok-status_text failed known = refl
is_ok-status_text uncertain known = refl
is_ok-status_text (other s) known = ground (arith, known)

-- The counts of the dashboard are those of the worker.
count_targets-is_failed :
    (ts : List TargetStatus)
    → every is_known ts ≡ true
    → count_targets is_failed (map status_text ts) ≡ count_status is_failed_target ts
unfolding count_targets
count_targets-is_failed [] known = refl
count_targets-is_failed (t ∷ ts) known =
    ground (arith, known, is_failed-status_text t, count_targets-is_failed ts)

count_targets-is_ok :
    (ts : List TargetStatus)
    → every is_known ts ≡ true
    → count_targets is_ok (map status_text ts)
      ≡ count_status is_published ts + count_status is_open ts
unfolding count_targets
count_targets-is_ok [] known = refl
count_targets-is_ok (t ∷ ts) known =
    ground (arith, known, is_ok-status_text t, count_targets-is_ok ts)

length-status_text : (ts : List TargetStatus) → length (map status_text ts) ≡ length ts
length-status_text [] = refl
length-status_text (t ∷ ts) = omega (arith, length-status_text ts)

count_status-partition :
    (ts : List TargetStatus)
    → every is_known ts ≡ true
    → count_status is_published ts + count_status is_failed_target ts + count_status is_open ts
      ≡ length ts
count_status-partition [] known = refl
count_status-partition (t ∷ ts) known = ground (arith, known, count_status-partition ts)

-- The variant that an aggregated status is to be announced by.
abbrev pub announced : Text → PublicationOutcomeVariant
announced status =
    if status === codes "published"
    then success
    else if status === codes "failed"
    then failure
    else partial_failure

-- The test of an intent's status.
is_status :
    (expected status : Text) (i : OutcomeInput) (b : Bool)
    → i.intent.status ≡ status
    → (normalize_status status === expected) ≡ b
    → (normalize_status i.intent.status === expected) ≡ b
is_status expected status i b same test = rw same test

-- Where some target is published, not all have failed.
not_all_failed :
    (ts : List TargetStatus) (l : List Text)
    → every is_known ts ≡ true
    → l ≡ map status_text ts
    → 0 < count_status is_published ts
    → all_targets_failed l ≡ false
unfolding all_targets_failed
not_all_failed ts l known same some_published =
    ground (arith, same, count_targets-is_ok ts known, some_published)

published-failed : (normalize_status (codes "published") === codes "failed") ≡ false
unfolding normalize_status trim to_lower_case ◌===◌
published-failed = refl

published-published : (normalize_status (codes "published") === codes "published") ≡ true
unfolding normalize_status trim to_lower_case ◌===◌
published-published = refl

failed-failed : (normalize_status (codes "failed") === codes "failed") ≡ true
unfolding normalize_status trim to_lower_case ◌===◌
failed-failed = refl

partial_failed-failed : (normalize_status (codes "partial_failed") === codes "failed") ≡ false
unfolding normalize_status trim to_lower_case ◌===◌
partial_failed-failed = refl

resolve_published :
    (ts : List TargetStatus) (i : OutcomeInput)
    → every is_known ts ≡ true
    → target_statuses i.intent ≡ map status_text ts
    → truthy? i.error_message ≡ false
    → 0 < length ts
    → count_status is_published ts ≡ length ts
    → i.intent.status ≡ codes "published"
    → (resolve_publication_outcome i).variant ≡ success
unfolding resolve_publication_outcome
resolve_published ts i known targets silent some_target all same = ground (
  arith,
  silent,
  is_status (codes "failed") (codes "published") i false same published-failed,
  is_status (codes "published") (codes "published") i true same published-published,
  not_all_failed ts (target_statuses i.intent) known targets (omega (arith, some_target, all)),
  ap (count_targets is_failed) targets ∙ count_targets-is_failed ts known,
  count_status-partition ts known,
  all,
)

resolve_failed :
    (i : OutcomeInput)
    → truthy? i.error_message ≡ false
    → i.intent.status ≡ codes "failed"
    → (resolve_publication_outcome i).variant ≡ failure
unfolding resolve_publication_outcome
resolve_failed i silent same =
    ground (arith, silent, is_status (codes "failed") (codes "failed") i true same failed-failed)

resolve_mixed :
    (ts : List TargetStatus) (i : OutcomeInput)
    → every is_known ts ≡ true
    → target_statuses i.intent ≡ map status_text ts
    → truthy? i.error_message ≡ false
    → 0 < count_status is_published ts
    → 0 < count_status is_failed_target ts
    → i.intent.status ≡ codes "partial_failed"
    → (resolve_publication_outcome i).variant ≡ partial_failure
unfolding resolve_publication_outcome
resolve_mixed ts i known targets silent some_published some_failed same = ground (
  arith,
  silent,
  is_status (codes "failed") (codes "partial_failed") i false same partial_failed-failed,
  not_all_failed ts (target_statuses i.intent) known targets some_published,
  ap (count_targets is_failed) targets ∙ count_targets-is_failed ts known,
  ap (count_targets is_ok) targets ∙ count_targets-is_ok ts known,
  some_published,
  some_failed,
)

-- The cases of the aggregation.
aggregate_status-cases :
    (ts : List TargetStatus) (status : Text)
    → aggregate_status ts ≡ some status
    → ((0 < length ts) × (count_status is_published ts ≡ length ts) × (status ≡ codes "published"))
      ⊎ (status ≡ codes "failed")
      ⊎ ((0 < count_status is_published ts)
          × (0 < count_status is_failed_target ts)
          × (status ≡ codes "partial_failed"))
unfolding aggregate_status
aggregate_status-cases ts status aggregated = ground (arith, aggregated)

-- The dashboard announces the statuses that the worker aggregates: where the targets of an intent have
-- statuses that the worker knows, the intent has the status that they aggregate to, and the response
-- has no error, the outcome is success for `published`, failure for `failed` and partial failure for
-- `partial_failed`, whatever the action and the dispatch.
pub resolve-aggregate_status :
    (ts : List TargetStatus) (i : OutcomeInput)
    → every is_known ts ≡ true
    → target_statuses i.intent ≡ map status_text ts
    → truthy? i.error_message ≡ false
    → aggregate_status ts ≡ some i.intent.status
    → (resolve_publication_outcome i).variant ≡ announced i.intent.status
unfolding ◌===◌
resolve-aggregate_status ts i known targets silent aggregated =
    elim (aggregate_status-cases ts i.intent.status aggregated) [
      | inl (some_target, all, same) ↦
          resolve_published ts i known targets silent some_target all same ∙ sym (ap announced same)
      | inr (inl same) ↦ resolve_failed i silent same ∙ sym (ap announced same)
      | inr (inr (some_published, some_failed, same)) ↦
          resolve_mixed ts i known targets silent some_published some_failed same
          ∙ sym (ap announced same)
    ]
