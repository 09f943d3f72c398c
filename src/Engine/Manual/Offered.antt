-- ===== src/Engine/Manual/Offered.antt =====
-- The retry that the dashboard offers and the retry that the engine accepts.
use influence_platform.Prelude.{◌≡◌, Bool, true, false, ◌&&◌, not, List, some, if◌then◌else◌, arith}
use influence_platform.Js.Text.{truthy, truthy?}
use influence_platform.Publications.{Publication, can_retry_publication}
use influence_platform.Engine.Access.{
  Scope, AccountRow, Access, granted, denied, assert_account_access,
}
use influence_platform.Engine.Manual.{
  PublicationRecord, ManualState, RetryReply, retrying, refused_with, is_retriable_target,
  retry_target, retry_packet, retry_allowed, retry_accessed, retry_publication,
}

abbrev pub is_accepted : RetryReply → Bool
is_accepted retrying = true
is_accepted (refused_with code) = false

abbrev pub is_granted : Access → Bool
is_granted (granted id) = true
is_granted (denied code) = false

-- What a retry needs besides: for a target its payload, a connection and a target that has failed, and
-- else a packet.
abbrev pub is_prepared : PublicationRecord → ManualState → Bool
is_prepared r s =
    truthy r.account_id
    && (if truthy? r.publication_target_id
        then s.has_payload && s.has_redis && is_retriable_target s.target.status
        else truthy? r.content_packet_id)

-- The engine accepts a retry if and only if the user is no viewer and reaches the account, the dashboard
-- offers it for the publication with these values, and what it needs is there.
pub retry_publication-can_retry_publication :
    (scope : Scope) (rows : List AccountRow) (s : ManualState) (r : PublicationRecord)
    (item : Publication)
    → s.publication ≡ some r
    → item.status ≡ r.status
    → item.retry_count ≡ r.retry_count
    → item.max_retries ≡ r.max_retries
    → item.publication_target_id ≡ r.publication_target_id
    → is_accepted (retry_publication scope rows s).0 ≡ (
        not scope.is_viewer
        && is_granted (assert_account_access rows scope (some r.account_id))
        && can_retry_publication item
        && is_prepared r s)
unfolding retry_publication retry_accessed retry_allowed retry_target retry_packet
    can_retry_publication
retry_publication-can_retry_publication scope rows s r item there status count most target =
    ground (arith, there, status, count, most, target)
