-- ===== src/Publications.antt =====
-- The publications of the list and the detail sheet: dashboard/src/lib/publication-types.ts.
-- A status is its text: `canRetryPublication` compares texts, and the diagnostics' status is cast.
use influence_platform.Prelude.{
  ℕ, ◌≡◌, ◌↔◌, ◌⊎◌, ◌<◌, Bool, true, false, ◌||◌, not, Option, none, some, ltb, ◌==◌, if◌then◌else◌,
  arith,
}
use influence_platform.Js.Text.{Text, codes, ◌===◌, truthy?}
use influence_platform.Js.Trim.{===_iff}

pub record Publication : Type 0 where
  pub id : Text
  pub content_id : Option Text
  pub publication_target_id : Option Text
  pub generation_job_id : Option Text
  pub status : Text
  pub post_url : Option Text
  pub published_at : Option Text
  pub error_message : Option Text
  pub retry_count : ℕ
  pub attempt : Option ℕ
  pub failure_type : Option Text
  pub last_retry_at : Option Text
  pub next_retry_at : Option Text
  pub max_retries : ℕ
  pub engagement_score : Option ℕ
  pub created_at : Text
  pub updated_at : Text
  pub account_username : Text
  pub account_platform : Text
  pub content_caption : Option Text
  pub content_type : Option Text
  pub content_niche : Option Text

pub record PublicationDiagnostics : Type 0 where
  pub id : Text
  pub status : Text
  pub error_message : Option Text
  pub failure_type : Option Text
  pub retry_count : ℕ
  pub max_retries : ℕ
  pub attempt : ℕ
  pub last_retry_at : Option Text
  pub next_retry_at : Option Text
  pub created_at : Text
  pub updated_at : Text
  pub published_at : Option Text
  pub post_url : Option Text
  pub account_id : Text
  pub account_username : Text
  pub content_id : Option Text
  pub generation_job_id : Option Text
  pub content_type : Option Text
  pub content_niche : Option Text
  pub content_caption : Option Text

unfoldable pub publication_from_diagnostics : PublicationDiagnostics → Publication
publication_from_diagnostics diag = record {
  id = diag.id;
  content_id = diag.content_id;
  publication_target_id = none;
  generation_job_id = diag.generation_job_id;
  status = diag.status;
  post_url = diag.post_url;
  published_at = diag.published_at;
  error_message = diag.error_message;
  retry_count = diag.retry_count;
  attempt = some diag.attempt;
  failure_type = diag.failure_type;
  last_retry_at = diag.last_retry_at;
  next_retry_at = diag.next_retry_at;
  max_retries = diag.max_retries;
  engagement_score = none;
  created_at = diag.created_at;
  updated_at = diag.updated_at;
  account_username = diag.account_username;
  account_platform = codes "instagram";
  content_caption = diag.content_caption;
  content_type = diag.content_type;
  content_niche = diag.content_niche;
}

-- `Number(item.max_retries || 3)`: a maximum of 0 counts as 3.
abbrev pub retry_limit : ℕ → ℕ
retry_limit most = if most == 0 then 3 else most

abbrev is_retryable : Text → Bool
is_retryable s = s === codes "failed" || s === codes "permanently_failed" || s === codes "retrying"

unfoldable pub can_retry_publication : Publication → Bool
can_retry_publication item =
    if not (is_retryable item.status)
    then false
    else if truthy? item.publication_target_id
    then true
    else ltb item.retry_count (retry_limit item.max_retries)

-- The statuses that a retry may start from.
abbrev pub IsRetryable : Text → Type 0
IsRetryable s = (s ≡ codes "failed") ⊎ (s ≡ codes "permanently_failed") ⊎ (s ≡ codes "retrying")

-- A publication can be retried exactly when its status is failed, permanently failed or retrying, and
-- it has a target or its retries are below the limit.
can_retry_iff :
    (item : Publication)
    → (can_retry_publication item ≡ true) ↔ (
        IsRetryable item.status
        × ((truthy? item.publication_target_id ≡ true)
            ⊎ (item.retry_count < retry_limit item.max_retries)))
unfolding can_retry_publication
can_retry_iff item = ground (
  arith,
  ===_iff item.status (codes "failed"),
  ===_iff item.status (codes "permanently_failed"),
  ===_iff item.status (codes "retrying"),
)

-- The diagnostics know no target: a publication that was rebuilt from them can be retried only below
-- the limit, also where the listed publication, with its target, has no limit.
retry_from_diagnostics :
    (diag : PublicationDiagnostics) (item : Publication)
    → item.status ≡ diag.status
    → item.retry_count ≡ diag.retry_count
    → item.max_retries ≡ diag.max_retries
    → (can_retry_publication (publication_from_diagnostics diag) ≡ true)
      ↔ ((can_retry_publication item ≡ true) × (diag.retry_count < retry_limit diag.max_retries))
unfolding can_retry_publication publication_from_diagnostics
retry_from_diagnostics diag item h k l = ground (
  arith,
  ===_iff diag.status (codes "failed"),
  ===_iff diag.status (codes "permanently_failed"),
  ===_iff diag.status (codes "retrying"),
)
