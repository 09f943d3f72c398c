-- ===== src/Engine/Adapter.antt =====
-- distribution-engine/src/publisher/adapters/platformAdapter.js: the publication of an asset with the
-- Instagram Graph API. The API, the token and the proxy are a `Provider`: its answers are parameters,
-- by request and by the number of the poll. A run gives its reply and the requests it made, in order.
-- Logs, metrics and the persona's id are left out.
pub mod Calls
pub mod Covered
mod Tests
use influence_platform.Prelude.{
  ℕ, zero, suc, Bool, true, false, ◌&&◌, ◌||◌, not, List, [], ◌∷◌, ◌++◌, map, reverse, Option, none,
  some, if◌then◌else◌, or_else, filter, any, ◌==◌,
}
use influence_platform.Js.Text.{
  Text, codes, ◌===◌, truthy, truthy?, trim, to_lower_case, to_upper_case, starts_with, join,
}
use influence_platform.Engine.Media.{
  Asset, PublishKind, photo, reel, feed_video, normalize_caption, resolve_publish_kind,
}
use influence_platform.Js.Uri.{encode_uri_component}
use influence_platform.Engine.Target.{Post}
use influence_platform.Engine.Command.{AdapterReply, posted, refused, raised, Refusal}

pub record PublishRequest : Type 0 where
  pub platform : Text
  pub asset : Asset
  pub caption : Option Text
  pub hashtags : List Text
  pub account_id : Text
  pub ig_user_id : Text
  pub content_type : Option Text

-- An error: its message, `String(err)`, its code, and the JSON of the response's data, if it has any.
pub record Thrown : Type 0 where
  pub message : Text
  pub shown : Text
  pub code : Option Text
  pub response_data : Option Text

pub data Result (A : Type 0) : Type 0 where
  answered : A → Result A
  thrown : Thrown → Result A

-- What is read of the data of a response, and its JSON.
pub record Answer : Type 0 where
  pub id : Option Text
  pub status_code : Option Text
  pub status : Option Text
  pub json : Text

-- A `POST` to the API: the user as it is encoded in the URL, the path that follows, and the parameters
-- before their encoding.
pub record GraphPost : Type 0 where
  pub user : Text
  pub path : Text
  pub params : List (Text × Text)

pub data Call : Type 0 where
  posts : GraphPost → Call
  polls : Text → Call

pub record Provider : Type 0 where
  pub persona : Result Unit
  pub http_client : Result Unit
  pub token : Result Text
  pub post : GraphPost → Result Answer
  pub get : ℕ → Text → Result Answer

abbrev error : Text → Thrown
error message = record {
  message = message;
  shown = codes "Error: " ++ message;
  code = none;
  response_data = none;
}

abbrev pub graph_url : GraphPost → Text
graph_url r =
    codes "https://graph.instagram.com/v25.0" ++ codes "/" ++ r.user ++ codes "/" ++ r.path

abbrev malformed : Thrown
malformed = record {
  message = codes "URI malformed";
  shown = codes "URIError: URI malformed";
  code = none;
  response_data = none;
}

-- The id of an answer, or the error that it is missing.
unfoldable with_id : Text → Result Answer → Result Text
with_id what (thrown e) = thrown e
with_id what (answered a) =
    if truthy? a.id
    then answered (or_else a.id [])
    else thrown (error (what ++ codes " (" ++ a.json ++ codes ")"))

-- A post to a path of the user, with the calls before it.
unfoldable post_to : Provider → Text → Text → Text → List (Text × Text) → Result Text × List Call
unfolding with_id
post_to p user path missing params = elim (encode_uri_component user) [
  | none ↦ (thrown malformed, [])
  | some u ↦
      let request : GraphPost = record { user = u; path = path; params = params } in
      (with_id missing (p.post request), posts request ∷ [])
]

abbrev image_params : Text → Text → Text → List (Text × Text)
image_params url caption token =
    (codes "image_url", url) ∷ (codes "caption", caption) ∷ (codes "access_token", token) ∷ []

abbrev reel_params : Text → Text → Text → List (Text × Text)
reel_params url caption token =
    (codes "media_type", codes "REELS")
    ∷ (codes "video_url", url)
    ∷ (codes "caption", caption)
    ∷ (codes "access_token", token)
    ∷ []

unfoldable pub create_container :
    Provider → PublishKind → Text → Text → Text → Text → Result Text × List Call
unfolding post_to
create_container p photo user url caption token =
    post_to p user (codes "media")
      (codes "Instagram createImageContainer failed: missing container id")
      (image_params url caption token)
create_container p kind user url caption token =
    post_to p user (codes "media")
      (codes "Instagram createReelContainer failed: missing container id")
      (reel_params url caption token)

abbrev timeout_code : Text
timeout_code = codes "INSTAGRAM_CONTAINER_TIMEOUT"

unfoldable container_timeout : Text → Thrown
container_timeout container =
    let message = codes "Instagram container timeout for " ++ container in
    record {
      message = message;
      shown = codes "Error: " ++ message;
      code = some timeout_code;
      response_data = none;
    }

unfoldable container_error : Text → Option Text → Thrown
container_error container status =
    let detail = trim (or_else status []) in
    error (
      codes "Instagram container processing failed for "
      ++ container
      ++ (if truthy detail then codes ": " ++ detail else []))

-- The state that a status code stands for.
pub data ContainerState : Type 0 where
  finished erroneous in_progress : ContainerState

unfoldable pub container_state : Answer → ContainerState
container_state a =
    let code = to_upper_case (or_else a.status_code []) in
    if code === codes "FINISHED"
    then finished
    else if code === codes "ERROR"
    then erroneous
    else in_progress

-- The polls that are left, after a number of them.
unfoldable pub wait_for_container : Provider → Text → ℕ → ℕ → Result Unit × List Call
unfolding container_timeout container_error
wait_for_container p container zero made = (thrown (container_timeout container), [])
wait_for_container p container (suc left) made =
    let (r, calls) = wait_for_container p container left (suc made) in
    elim (p.get made container) [
      | thrown e ↦ (thrown e, polls container ∷ [])
      | answered a ↦ elim (container_state a) [
        | finished ↦ (answered tt, polls container ∷ [])
        | erroneous ↦ (thrown (container_error container a.status), polls container ∷ [])
        | in_progress ↦ (r, polls container ∷ calls)
      ]
    ]

unfoldable pub publish_container : Provider → Text → Text → Text → Result Text × List Call
unfolding post_to
publish_container p user container token =
    post_to p user (codes "media_publish")
      (codes "Instagram publishContainer failed: missing post id")
      ((codes "creation_id", container) ∷ (codes "access_token", token) ∷ [])

-- `encodeURIComponent` of the container's id may throw before the first poll.
unfoldable pub await_container : Provider → Text → Result Unit × List Call
await_container p container = elim (encode_uri_component container) [
  | none ↦ (thrown malformed, [])
  | some u ↦ wait_for_container p container 20 0
]

-- A failure that is answered before anything is asked of the API.
abbrev invalid : Text → AdapterReply × List Call
invalid message = (
  refused
      (record { error = some message; stage = none; container_id = none; safe_to_retry = none }),
  [],
)

-- What the `catch` answers, for an error at a stage.
unfoldable pub failure_at : Text → Option Text → Thrown → AdapterReply
failure_at stage container e =
    let shown = if truthy e.message then e.message else e.shown in
    refused (record {
      error =
          some
            (elim e.response_data [ none ↦ shown | some d ↦ codes "Instagram API error: " ++ d ]);
      stage = some stage;
      container_id = container;
      safe_to_retry = some (
          not (
            stage === codes "wait_container"
            || stage === codes "publish_container"
            || or_else e.code [] === timeout_code));
    })

unfoldable posted_as : Text → Text → Text → AdapterReply
posted_as container post url = posted (record {
  external_post_id = post;
  external_post_url = codes "https://www.instagram.com/p/" ++ url ++ codes "/";
  container_id = some container;
  stage = some (codes "published");
})

-- `media_publish` has answered; the link to the post encodes its id.
unfoldable with_post : Text → Result Text → AdapterReply
unfolding posted_as
with_post container (thrown e) = failure_at (codes "publish_container") (some container) e
with_post container (answered post) = elim (encode_uri_component post) [
  | none ↦ failure_at (codes "publish_container") (some container) malformed
  | some u ↦ posted_as container post u
]

-- The container is ready, or not.
unfoldable with_ready : Provider → Text → Text → Text → Result Unit → AdapterReply × List Call
unfolding with_post
with_ready p user token container (thrown e) =
    (failure_at (codes "wait_container") (some container) e, [])
with_ready p user token container (answered ready) =
    let (r, calls) = publish_container p user container token in (with_post container r, calls)

unfoldable with_container : Provider → Text → Text → Result Text → AdapterReply × List Call
unfolding with_ready
with_container p user token (thrown e) = (failure_at (codes "create_container") none e, [])
with_container p user token (answered container) =
    let (ready, waited) = await_container p container in
    let (reply, calls) = with_ready p user token container ready in (reply, waited ++ calls)

unfoldable with_token : Provider → PublishRequest → Text → Result Text → AdapterReply × List Call
unfolding with_container
with_token p q url (thrown e) = (failure_at (codes "fetch_token") none e, [])
with_token p q url (answered token) =
    let kind = resolve_publish_kind q.content_type q.asset in
    let caption = normalize_caption q.caption q.hashtags in
    let (created, posting) = create_container p kind q.ig_user_id url caption token in
    let (reply, calls) = with_container p q.ig_user_id token created in (reply, posting ++ calls)

unfoldable with_client : Provider → PublishRequest → Text → Result Unit → AdapterReply × List Call
unfolding with_token
with_client p q url (thrown e) = (failure_at (codes "fetch_token") none e, [])
with_client p q url (answered client) = with_token p q url p.token

-- The persona is looked up outside of the `try`.
unfoldable with_persona : Provider → PublishRequest → Text → Result Unit → AdapterReply × List Call
unfolding with_client
with_persona p q url (thrown e) = (raised (if truthy e.message then e.message else e.shown), [])
with_persona p q url (answered persona) = with_client p q url p.http_client

unfoldable pub publish : Provider → PublishRequest → AdapterReply × List Call
unfolding with_persona
publish p q =
    let url = trim (or_else q.asset.public_url []) in
    if not (to_lower_case q.platform === codes "instagram")
    then invalid (codes "Unsupported platform: " ++ q.platform)
    else if not (truthy q.account_id)
    then invalid (codes "Missing accountId")
    else if not (truthy q.ig_user_id)
    then invalid (codes "Missing igUserId")
    else if not (truthy url)
    then invalid (codes "Missing asset.public_url for Instagram publish")
    else with_persona p q url p.persona
