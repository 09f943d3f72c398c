-- ===== src/Engine/Publication.antt =====
-- `syncPublicationRowForIntentTarget` of distribution-engine/src/publisher/PublishingWorker.js: the row
-- of the table `publications` that mirrors a final target. Times are left out, and so is the run of the
-- intent's aggregation at its end.
use influence_platform.Prelude.{
  ℕ, Bool, [], Option, none, some, if◌then◌else◌, leb, take, or_else, or_try,
}
use influence_platform.Js.Text.{Text, codes, truthy?}
use influence_platform.Engine.Target.{published, failed, uncertain, Target}

pub record PublicationRow : Type 0 where
  pub status : Text
  pub failure_type : Option Text
  pub error_message : Option Text
  pub instagram_post_id : Option Text
  pub retry_count : ℕ
  pub max_retries : ℕ

-- `String(value || default).slice(0, 8000)`
abbrev error_text : Option Text → Text → Text
error_text value default = take 8000 (if truthy? value then or_else value [] else default)

abbrev post_id : Option Text → Option Text
post_id none = none
post_id (some id) = if truthy? (some id) then some (take 200 id) else none

-- `rc >= maxR`
abbrev pub is_exhausted : Target → Bool
is_exhausted t = leb t.max_retries t.retry_count

-- The values that are written for a final status.
unfoldable pub mirrored : Target → Option PublicationRow
mirrored t = elim t.status [
  | published ↦ some (record {
    status = codes "published";
    failure_type = none;
    error_message = none;
    instagram_post_id = post_id t.external_post_id;
    retry_count = t.retry_count;
    max_retries = t.max_retries;
  })
  | uncertain ↦ some (record {
    status = codes "failed";
    failure_type = some (codes "uncertain");
    error_message = some (error_text t.last_error (codes "uncertain_publish_state"));
    instagram_post_id = none;
    retry_count = t.retry_count;
    max_retries = t.max_retries;
  })
  | failed ↦ some (record {
    status = if is_exhausted t then codes "permanently_failed" else codes "failed";
    failure_type =
        some (if is_exhausted t then codes "max_retries_exhausted" else codes "adapter_error");
    error_message = some (error_text t.last_error (codes "publish_failed"));
    instagram_post_id = none;
    retry_count = t.retry_count;
    max_retries = t.max_retries;
  })
  | _ ↦ none
]

-- `UPDATE` where there is a row, else `INSERT`: an older post's id stays where none is written.
abbrev written : Option PublicationRow → PublicationRow → PublicationRow
written none new = new
written (some old) new = record new {
  instagram_post_id = or_try new.instagram_post_id old.instagram_post_id;
}

abbrev synced : Option PublicationRow → Option PublicationRow → Option PublicationRow
synced old none = old
synced old (some new) = some (written old new)

unfoldable pub sync_publication : Target → Option PublicationRow → Option PublicationRow
unfolding mirrored
sync_publication t old = synced old (mirrored t)
