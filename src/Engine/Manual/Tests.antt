-- ===== src/Engine/Manual/Tests.antt =====
-- The theorem on manual retries at a publication whose target has failed.
use influence_platform.Prelude.{◌≡◌, refl, true, false, ◌&&◌, List, [], ◌∷◌, none, some}
use influence_platform.Js.Text.{codes}
use influence_platform.Publications.{Publication, can_retry_publication}
use influence_platform.Engine.Target.{Target, failed}
use influence_platform.Engine.Access.{Scope, admin, scoped, AccountRow, assert_account_access}
use influence_platform.Engine.Manual.{PublicationRecord, ManualState, retry_publication}
use influence_platform.Engine.Manual.Offered.{
  is_accepted, is_granted, is_prepared, retry_publication-can_retry_publication,
}

abbrev ada : Scope
ada = record {
  user_id = some (codes "u");
  organization_id = codes "o";
  role = admin;
  mode = scoped;
  persona_ids = none;
  is_admin = true;
  is_fleet = true;
  is_viewer = false;
}

abbrev rows : List AccountRow
rows = (record { id = codes "1"; persona_id = none; organization_id = none }) ∷ []

abbrev failed_target : Target
failed_target = record {
  status = failed;
  retry_count = 3;
  max_retries = 3;
  external_post_id = none;
  external_post_url = none;
  publish_stage = none;
  provider_container_id = none;
  last_error = some (codes "timeout");
}

abbrev stored : PublicationRecord
stored = record {
  status = codes "failed";
  retry_count = 3;
  max_retries = 0;
  account_id = codes "1";
  content_packet_id = none;
  publication_target_id = some (codes "t");
}

abbrev state : ManualState
state = record {
  publication = some stored;
  has_payload = true;
  has_redis = true;
  target = failed_target;
  commands = 0;
  delayed = [];
}

abbrev listed : Publication
listed = record {
  id = codes "p1";
  content_id = none;
  publication_target_id = some (codes "t");
  generation_job_id = none;
  status = codes "failed";
  post_url = none;
  published_at = none;
  error_message = none;
  retry_count = 3;
  attempt = none;
  failure_type = none;
  last_retry_at = none;
  next_retry_at = none;
  max_retries = 0;
  engagement_score = none;
  created_at = codes "2025-01-01";
  updated_at = codes "2025-01-02";
  account_username = codes "lyon";
  account_platform = codes "instagram";
  content_caption = none;
  content_type = none;
  content_niche = none;
}

retry_publication-can_retry_publication_example :
    is_accepted (retry_publication ada rows state).0 ≡ (
      true
      && is_granted (assert_account_access rows ada (some (codes "1")))
      && can_retry_publication listed
      && is_prepared stored state)
retry_publication-can_retry_publication_example =
    retry_publication-can_retry_publication ada rows state stored listed refl refl refl refl refl
