-- ===== src/Publish.antt =====
-- The publish panel of the generation studio:
-- dashboard/src/components/generation/GenerationStudioPublishPanel.tsx.
pub mod Hashtags
pub mod Key
pub mod Intent
pub mod Polling
pub mod PostNow
mod Tests
use influence_platform.Prelude.{
  ℕ, Bool, true, false, ◌&&◌, ◌||◌, not, List, [], ◌∷◌, ◌++◌, Option, none, some, if◌then◌else◌,
  leb, ltb, any, every, find, map, length, or_else, ◌==◌,
}
use influence_platform.Js.Text.{Text, codes, ◌===◌, truthy, trim, join, decimal}

pub data ContentType : Type 0 where
  post reel story : ContentType

abbrev pub content_type_text : ContentType → Text
content_type_text post = codes "post"
content_type_text reel = codes "reel"
content_type_text story = codes "story"

pub data PublishMode : Type 0 where
  publish_now scheduled save_for_later : PublishMode

pub data AssetType : Type 0 where
  image video thumbnail : AssetType

pub record PublishPanelAsset : Type 0 where
  pub id : Text
  pub asset_type : AssetType
  pub public_url : Text
  pub mime_type : Text

-- The form of the panel. `scheduled_for` is a time in milliseconds.
pub record Form : Type 0 where
  pub job_id : Text
  pub selected_asset_id : Text
  pub content_type : ContentType
  pub caption : Text
  pub hashtag_tags : List Text
  pub mode : PublishMode
  pub scheduled_for : Option ℕ
  pub selected_accounts : List Text
  pub reel_enabled : Bool

abbrev is_image : PublishPanelAsset → Bool
is_image a = elim a.asset_type [ image ↦ true | _ ↦ false ]

abbrev is_video : PublishPanelAsset → Bool
is_video a = elim a.asset_type [ video ↦ true | _ ↦ false ]

-- `a?.id || b`
abbrev id_or : Option PublishPanelAsset → Text → Text
id_or none other = other
id_or (some a) other = if truthy a.id then a.id else other

unfoldable pub default_asset_id : List PublishPanelAsset → Bool → Text
default_asset_id [] prefer_photo = []
default_asset_id (a ∷ assets) prefer_photo =
    let first_image = find is_image (a ∷ assets) in
    let first_video = find is_video (a ∷ assets) in
    if prefer_photo
    then id_or first_image (id_or first_video a.id)
    else id_or first_video (id_or first_image a.id)

unfoldable pub final_content_type : Form → ContentType
final_content_type form = elim form.content_type [
  | reel ↦ if form.reel_enabled then reel else post
  | other ↦ other
]

-- `hasScheduleError` and `scheduleOk` at a time.
unfoldable pub has_schedule_error : ℕ → PublishMode → Option ℕ → Bool
has_schedule_error now scheduled none = true
has_schedule_error now scheduled (some t) = leb t now
has_schedule_error now _ _ = false

unfoldable pub schedule_ok : ℕ → PublishMode → Option ℕ → Bool
schedule_ok now scheduled none = false
schedule_ok now scheduled (some t) = ltb now t
schedule_ok now _ _ = true

-- `payloadMode === "scheduled" && !scheduledFor ? "publish_now" : payloadMode`. A `Date` is truthy.
unfoldable pub resolve_payload_mode : PublishMode → Option ℕ → PublishMode
resolve_payload_mode scheduled none = publish_now
resolve_payload_mode mode _ = mode

abbrev pub has_id : Text → List Text → Bool
has_id id ids = any (λ x. x === id) ids

-- The ids of the assets and of the accounts, which may be in the process of sending.
unfoldable pub can_submit : ℕ → Form → List Text → List Text → Bool → Bool → Bool
can_submit now form asset_ids account_ids loading immediate_loading =
    truthy form.selected_asset_id
    && has_id form.selected_asset_id asset_ids
    && ltb 0 (length form.selected_accounts)
    && every (λ id. has_id id account_ids) form.selected_accounts
    && schedule_ok now form.mode form.scheduled_for
    && not loading
    && not immediate_loading
