-- ===== src/Engine/Media.antt =====
-- The caption and the kind of a publication: distribution-engine/src/publisher/adapters/platformAdapter.js.
use influence_platform.Prelude.{
  Bool, false, ◌||◌, List, [], ◌∷◌, map, reverse, Option, if◌then◌else◌, or_else, filter, any, ◌==◌,
}
use influence_platform.Js.Text.{Text, codes, ◌===◌, truthy, trim, to_lower_case, starts_with, join}

pub record Asset : Type 0 where
  pub mime_type : Option Text
  pub public_url : Option Text

-- `String(value || "").trim().toLowerCase()`
abbrev plain : Option Text → Text
plain value = to_lower_case (trim (or_else value []))

unfoldable pub normalize_caption : Option Text → List Text → Text
normalize_caption caption hashtags =
    let base = trim (or_else caption []) in
    let tags = map trim (filter (λ h. truthy (trim h)) hashtags) in
    elim tags [
      | [] ↦ base
      | t ∷ ts ↦ join (codes "\n\n") (filter truthy (base ∷ join (codes " ") (t ∷ ts) ∷ []))
    ]

-- `url.split("?")[0]`
abbrev before_query : Text → Text
before_query [] = []
before_query (c ∷ s) = if c == b'?' then [] else c ∷ before_query s

-- Without a query, the pattern only finds an ending.
abbrev ends_with : Text → Text → Bool
ends_with s t = starts_with (reverse s) (reverse t)

abbrev video_endings : List Text
video_endings = codes ".mp4" ∷ codes ".webm" ∷ codes ".mov" ∷ codes ".m4v" ∷ []

unfoldable pub is_video_asset : Asset → Bool
is_video_asset asset =
    starts_with (plain asset.mime_type) (codes "video/")
    || any (ends_with (before_query (plain asset.public_url))) video_endings

unfoldable pub is_photo_publish : Option Text → Asset → Bool
is_photo_publish content_type asset =
    if is_video_asset asset
    then false
    else plain content_type === codes "post" || starts_with (plain asset.mime_type) (codes "image/")

pub data PublishKind : Type 0 where
  photo reel feed_video : PublishKind

unfoldable pub resolve_publish_kind : Option Text → Asset → PublishKind
resolve_publish_kind content_type asset =
    if is_photo_publish content_type asset
    then photo
    else if is_video_asset asset
    then reel
    else if plain content_type === codes "reel"
    then reel
    else feed_video
