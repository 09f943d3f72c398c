-- ===== src/Outcome.antt =====
-- The user-facing outcome of a publication: dashboard/src/lib/publication-outcome.ts.
-- A target that is given as `{ status: string }` is its status text.
pub mod Targets
pub mod Variant
pub mod Terminal
mod Tests
use influence_platform.Prelude.{
  ℕ, Bool, true, false, ◌&&◌, ◌||◌, not, List, [], ◌∷◌, map, Option, none, some, ltb, ◌==◌,
  if◌then◌else◌, length, filter, every, any, or_else,
}
use influence_platform.Js.Text.{Text, codes, ◌===◌, truthy, truthy?, trim, to_lower_case}

pub record PublishIntentTarget : Type 0 where
  pub account_id : Text
  pub platform : Text
  pub status : Text

-- `targets` may be missing in a response: the code reads `intent.targets ?? []`.
pub record PublishIntentResponse : Type 0 where
  pub intent_id : Text
  pub status : Text
  pub targets : Option (List PublishIntentTarget)

pub data PublicationOutcomeVariant : Type 0 where
  success queued partial_failure failure : PublicationOutcomeVariant

pub data PublicationOutcomeAction : Type 0 where
  post_now create_intent save_draft schedule : PublicationOutcomeAction

pub record PublicationOutcome : Type 0 where
  pub variant : PublicationOutcomeVariant
  pub intent : PublishIntentResponse
  pub action : PublicationOutcomeAction
  pub dispatched : Bool
  pub dispatch_count : Option ℕ
  pub error_message : Option Text

-- The argument of `resolvePublicationOutcome`.
pub record OutcomeInput : Type 0 where
  pub intent : PublishIntentResponse
  pub action : PublicationOutcomeAction
  pub dispatched : Bool
  pub dispatch_count : Option ℕ
  pub error_message : Option Text

unfoldable pub is_failed : Text → Bool
is_failed s = s === codes "failed" || s === codes "uncertain"

unfoldable pub is_ok : Text → Bool
is_ok s =
    s === codes "pending"
    || s === codes "publishing"
    || s === codes "published"
    || s === codes "queued"

unfoldable pub is_in_flight : Text → Bool
is_in_flight s = s === codes "pending" || s === codes "publishing" || s === codes "queued"

-- `String(value || "")` is the identity on strings.
unfoldable pub normalize_status : Text → Text
normalize_status value = to_lower_case (trim value)

pub record TargetSummary : Type 0 where
  pub all_failed : Bool
  pub all_published : Bool
  pub any_in_flight : Bool

unfoldable pub summarize_statuses : List Text → TargetSummary
summarize_statuses [] = record { all_failed = false; all_published = false; any_in_flight = false }
summarize_statuses (s ∷ ss) = record {
  all_failed = every is_failed (s ∷ ss);
  all_published = every (λ t. t === codes "published") (s ∷ ss);
  any_in_flight = any is_in_flight (s ∷ ss);
}

-- Of the raw statuses of the targets.
unfoldable pub summarize_publish_targets : List Text → TargetSummary
unfolding summarize_statuses
summarize_publish_targets targets = summarize_statuses (map normalize_status targets)

-- The raw statuses of `intent.targets ?? []`.
abbrev pub target_statuses : PublishIntentResponse → List Text
target_statuses intent = map (λ (t : PublishIntentTarget). t.status) (or_else intent.targets [])

abbrev pub is_failure : PublicationOutcomeVariant → Bool
is_failure failure = true
is_failure _ = false

abbrev pub is_partial_failure : PublicationOutcomeVariant → Bool
is_partial_failure partial_failure = true
is_partial_failure _ = false

unfoldable pub is_publication_outcome_terminal : PublicationOutcome → Bool
is_publication_outcome_terminal o =
    let intent_status = normalize_status o.intent.status in
    let summary = summarize_publish_targets (target_statuses o.intent) in
    if truthy? o.error_message
    then true
    else if is_failure o.variant
    then true
    else if intent_status === codes "published" || summary.all_published
    then true
    else if intent_status === codes "failed" || summary.all_failed
    then true
    else is_partial_failure o.variant && not summary.any_in_flight

abbrev is_post_now : PublicationOutcomeAction → Bool
is_post_now post_now = true
is_post_now _ = false

abbrev is_save_draft : PublicationOutcomeAction → Bool
is_save_draft save_draft = true
is_save_draft _ = false

abbrev is_schedule : PublicationOutcomeAction → Bool
is_schedule schedule = true
is_schedule _ = false

-- The result of each `return`: the input's fields with a variant. Only the first has the message.
abbrev outcome : PublicationOutcomeVariant → Option Text → OutcomeInput → PublicationOutcome
outcome v message i = record {
  variant = v;
  intent = i.intent;
  action = i.action;
  dispatched = i.dispatched;
  dispatch_count = i.dispatch_count;
  error_message = message;
}

-- The targets whose normalised status passes a test, counted.
unfoldable pub count_targets : (Text → Bool) → List Text → ℕ
count_targets p targets = length (filter (λ t. p (normalize_status t)) targets)

unfoldable pub all_targets_failed : List Text → Bool
unfolding count_targets
all_targets_failed targets =
    ltb 0 (length targets)
    && count_targets is_failed targets == length targets
    && count_targets is_ok targets == 0

unfoldable pub resolve_publication_outcome : OutcomeInput → PublicationOutcome
resolve_publication_outcome i =
    let intent_status = normalize_status i.intent.status in
    let targets = target_statuses i.intent in
    let summary = summarize_publish_targets targets in
    if truthy? i.error_message
    then outcome failure i.error_message i
    else if intent_status === codes "failed" || all_targets_failed targets
    then outcome failure none i
    else if ltb 0 (count_targets is_failed targets) && ltb 0 (count_targets is_ok targets)
    then outcome partial_failure none i
    else if summary.all_published || intent_status === codes "published"
    then outcome success none i
    else if is_save_draft i.action
        || intent_status === codes "draft"
        || is_schedule i.action
        || (not i.dispatched && not (is_post_now i.action))
    then outcome queued none i
    else if i.dispatched
        && (intent_status === codes "queued"
            || summary.any_in_flight
            || intent_status === codes "partial_failed")
    then outcome queued none i
    else outcome queued none i
