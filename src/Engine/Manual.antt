-- ===== src/Engine/Manual.antt =====
-- The retry of a publication by an operator: `POST /publications/:id/retry` of
-- distribution-engine/src/managers/publicationsRouter.js, where no statement throws. Times are left out.
pub mod Offered
mod Tests
use influence_platform.Prelude.{
  ℕ, suc, Bool, true, false, ◌&&◌, ◌||◌, not, List, [], ◌∷◌, Option, none, some, if◌then◌else◌, leb,
  ◌==◌,
}
use influence_platform.Js.Text.{Text, codes, ◌===◌, truthy, truthy?}
use influence_platform.Engine.Target.{TargetStatus, pending, failed, uncertain, Target}
use influence_platform.Engine.Access.{
  Scope, AccountRow, Access, granted, denied, assert_account_access,
}

-- The row of `publications`.
pub record PublicationRecord : Type 0 where
  pub status : Text
  pub retry_count : ℕ
  pub max_retries : ℕ
  pub account_id : Text
  pub content_packet_id : Option Text
  pub publication_target_id : Option Text

-- The row, whether the outbox has a payload and there is a connection to Redis, the row of the target,
-- the messages in `publish:commands`, and the packets that were pushed into the delayed queue.
pub record ManualState : Type 0 where
  pub publication : Option PublicationRecord
  pub has_payload : Bool
  pub has_redis : Bool
  pub target : Target
  pub commands : ℕ
  pub delayed : List Text

pub data RetryReply : Type 0 where
  retrying : RetryReply
  refused_with : ℕ → RetryReply

abbrev is_retryable : Text → Bool
is_retryable s = s === codes "failed" || s === codes "permanently_failed" || s === codes "retrying"

-- `Number(pub.max_retries || 3)`
abbrev limit_of : PublicationRecord → ℕ
limit_of r = if r.max_retries == 0 then 3 else r.max_retries

-- `status IN ('failed', 'uncertain')`
abbrev pub is_retriable_target : TargetStatus → Bool
is_retriable_target failed = true
is_retriable_target uncertain = true
is_retriable_target _ = false

unfoldable retry_target : PublicationRecord → ManualState → RetryReply × ManualState
retry_target r s =
    if not s.has_payload
    then (refused_with 400, s)
    else if not s.has_redis
    then (refused_with 503, s)
    else if not (is_retriable_target s.target.status)
    then (refused_with 400, s)
    else (
      retrying,
      record s {
        target = record s.target { status = pending; retry_count = 0; last_error = none };
        commands = suc s.commands;
        publication = some (record r { status = codes "retrying"; retry_count = 0 });
      },
    )

unfoldable retry_packet : PublicationRecord → ManualState → RetryReply × ManualState
retry_packet r s =
    if leb (limit_of r) r.retry_count then (refused_with 400, s) else elim r.content_packet_id [
      | none ↦ (refused_with 400, s)
      | some id ↦
          if truthy id
          then (
            retrying,
            record s {
              delayed = id ∷ s.delayed;
              publication = some (record r { status = codes "retrying" });
            },
          )
          else (refused_with 400, s)
    ]

unfoldable retry_allowed : PublicationRecord → ManualState → RetryReply × ManualState
unfolding retry_target retry_packet
retry_allowed r s =
    if not (is_retryable r.status)
    then (refused_with 400, s)
    else if not (truthy? r.publication_target_id) && leb (limit_of r) r.retry_count
    then (refused_with 400, s)
    else if not (truthy r.account_id)
    then (refused_with 400, s)
    else if truthy? r.publication_target_id
    then retry_target r s
    else retry_packet r s

-- The exception of a refused account ends in the handler's `catch`.
unfoldable retry_accessed : Access → PublicationRecord → ManualState → RetryReply × ManualState
unfolding retry_allowed
retry_accessed (denied code) r s = (refused_with 500, s)
retry_accessed (granted id) r s = retry_allowed r s

unfoldable pub retry_publication : Scope → List AccountRow → ManualState → RetryReply × ManualState
unfolding retry_accessed
retry_publication scope rows s =
    if scope.is_viewer then (refused_with 403, s) else elim s.publication [
      | none ↦ (refused_with 404, s)
      | some r ↦ retry_accessed (assert_account_access rows scope (some r.account_id)) r s
    ]
