-- ===== src/Engine/Target.antt =====
-- Rows of the table `publication_targets`, and the statements of
-- distribution-engine/src/publisher/PublishingWorker.js on them. A statement gives the row afterwards
-- and whether it changed the row (`rowCount > 0`). Times other than staleness are left out.
use influence_platform.Prelude.{
  ℕ, suc, Bool, true, false, ◌&&◌, Option, some, if◌then◌else◌, ltb, leb, take, or_try,
}
use influence_platform.Js.Text.{Text, codes}

pub data TargetStatus : Type 0 where
  pending publishing published failed uncertain : TargetStatus
  other : Text → TargetStatus

abbrev pub status_text : TargetStatus → Text
status_text pending = codes "pending"
status_text publishing = codes "publishing"
status_text published = codes "published"
status_text failed = codes "failed"
status_text uncertain = codes "uncertain"
status_text (other s) = s

abbrev pub is_pending : TargetStatus → Bool
is_pending pending = true
is_pending _ = false

abbrev pub is_publishing : TargetStatus → Bool
is_publishing publishing = true
is_publishing _ = false

-- The statuses that the worker takes for final.
abbrev pub is_final : TargetStatus → Bool
is_final published = true
is_final failed = true
is_final uncertain = true
is_final _ = false

pub record Target : Type 0 where
  pub status : TargetStatus
  pub retry_count : ℕ
  pub max_retries : ℕ
  pub external_post_id : Option Text
  pub external_post_url : Option Text
  pub publish_stage : Option Text
  pub provider_container_id : Option Text
  pub last_error : Option Text

-- `String(errMsg).slice(0, 8000)`
abbrev pub stored_error : Text → Text
stored_error message = take 8000 message

unfoldable pub claim : Target → Target × Bool
claim t = if is_pending t.status then (record t { status = publishing }, true) else (t, false)

-- The row already has a post.
unfoldable pub mark_published : Target → Target
mark_published t = if is_publishing t.status then record t { status = published } else t

-- What the adapter answers to a publication; an empty container or stage is `none`.
pub record Post : Type 0 where
  pub external_post_id : Text
  pub external_post_url : Text
  pub container_id : Option Text
  pub stage : Option Text

unfoldable pub record_published : Post → Target → Target × Bool
record_published post t =
    if is_publishing t.status
    then (
      record t {
        status = published;
        external_post_id = some post.external_post_id;
        external_post_url = some post.external_post_url;
        provider_container_id = or_try post.container_id t.provider_container_id;
        publish_stage = or_try post.stage t.publish_stage;
      },
      true,
    )
    else (t, false)

unfoldable pub schedule_retry : Text → Target → Target × Bool
schedule_retry message t =
    if is_publishing t.status && ltb t.retry_count t.max_retries
    then (
      record t {
        status = pending;
        retry_count = suc t.retry_count;
        last_error = some (stored_error message);
      },
      true,
    )
    else (t, false)

-- A failure of a publication: what it says, where it happened, and whether it may be retried.
pub record Failure : Type 0 where
  pub message : Text
  pub stage : Option Text
  pub container_id : Option Text
  pub allow_retry : Bool

unfoldable pub mark_failed : Failure → Target → Target
mark_failed f t =
    if is_publishing t.status
    then record t {
      status = if f.allow_retry then failed else uncertain;
      publish_stage = or_try f.stage t.publish_stage;
      provider_container_id = or_try f.container_id t.provider_container_id;
      last_error = some (stored_error f.message);
    }
    else t

-- The two statements of `recoverStalePublishingTargets`, on a row whose last change is too long ago.
unfoldable pub recover_stale : Target → Target
recover_stale t =
    if is_publishing t.status && ltb t.retry_count t.max_retries
    then record t {
      status = pending;
      last_error =
          or_try t.last_error
            (some (codes "Recovered from stale publishing state after worker restart"));
    }
    else if is_publishing t.status && leb t.max_retries t.retry_count
    then record t {
      status = failed;
      last_error =
          or_try t.last_error
            (some (codes "Marked failed after stale publishing state and exhausted retries"));
    }
    else t
