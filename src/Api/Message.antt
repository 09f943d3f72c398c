-- ===== src/Api/Message.antt =====
-- The message of a failed request: `formatContentApiError`. `JSON.stringify` and `String` of the items
-- of a validation error are given by the texts that they make.
use influence_platform.Prelude.{
  ◌≡◌, refl, inl, inr, Bool, true, ◌||◌, List, [], ◌∷◌, ◌++◌, map, Option, none, some,
  if◌then◌else◌, or_else, All, Bool-cases,
}
use influence_platform.Js.Text.{
  Text, codes, ◌===◌, truthy, truthy?, trim, to_lower_case, includes, join,
}
use influence_platform.Errors.Idempotent.{classify-Good, Good, skip, fixed}
use influence_platform.Errors.{humanize_generation_message}

-- An entry of FastAPI's list of errors: an object with a `msg`, as text, or anything else, as JSON.
pub data DetailItem : Type 0 where
  with_msg json_of : Text → DetailItem

-- `detail`, where it is there: a text, a list, or anything else.
pub data Detail : Type 0 where
  detail_text : Text → Detail
  detail_items : List DetailItem → Detail
  detail_other : Detail

-- The body of a response; a field that is no text is `none`.
pub record ErrorData : Type 0 where
  pub detail : Option Detail
  pub error : Option Text
  pub hint : Option Text
  pub details : Option Text
  pub message : Option Text

-- An error of the HTTP client: `response` is `none` where no answer came.
pub record ApiError : Type 0 where
  pub code : Option Text
  pub message : Option Text
  pub response : Option ErrorData

abbrev pub timeout_message : Text
timeout_message = codes "Request timed out. The Content API may be slow or unreachable — try again."

abbrev pub unreachable_message : Text
unreachable_message =
    codes
      "Cannot reach Content API. Check NEXT_PUBLIC_CONTENT_API_URL (from the browser it must resolve, e.g. http://localhost:8000)."

abbrev item_text : DetailItem → Text
item_text (with_msg s) = s
item_text (json_of s) = s

-- `hint ? `${base} ${hint}` : base`
abbrev pub hinted : Text → Option Text → Text
hinted base hint = if truthy? hint then base ++ codes " " ++ or_else hint [] else base

-- From `if (typeof data?.error === "string")` on: the error with its hint, the details, the message.
abbrev plain_of : Option Text → Option Text → Option Text → Option Text → Text → Text
plain_of (some e) hint details message fallback = hinted (humanize_generation_message e) hint
plain_of none hint (some d) message fallback = humanize_generation_message d
plain_of none hint none (some m) fallback = humanize_generation_message m
plain_of none hint none none fallback = fallback

-- `data?.detail`, and what the code goes on to where it is no text and no list with entries.
unfoldable pub detail_message : Option Detail → Text → Text
detail_message (some (detail_text s)) otherwise = humanize_generation_message s
detail_message (some (detail_items [])) otherwise = otherwise
detail_message (some (detail_items (item ∷ items))) otherwise =
    humanize_generation_message (join (codes " ") (map item_text (item ∷ items)))
detail_message (some detail_other) otherwise = otherwise
detail_message none otherwise = otherwise

unfoldable pub response_message : Option ErrorData → Text → Text
unfolding detail_message
response_message none fallback = unreachable_message
response_message (some body) fallback =
    detail_message body.detail (plain_of body.error body.hint body.details body.message fallback)

unfoldable pub is_timeout : ApiError → Bool
is_timeout e =
    or_else e.code [] === codes "ECONNABORTED"
    || includes (to_lower_case (or_else e.message [])) (codes "timeout")

-- `none` is an error of another kind than the HTTP client's.
unfoldable pub format_content_api_error : Option ApiError → Text → Text
format_content_api_error none fallback = fallback
format_content_api_error (some e) fallback =
    if is_timeout e then timeout_message else response_message e.response fallback

truthy-Good :
    (raw : Text) (o : Option Text) → truthy raw ≡ true → Good o → truthy (or_else o raw) ≡ true
truthy-Good raw none h skip = h
truthy-Good raw (some m) h (fixed p t) = t

truthy-humanize : (m : Text) → truthy m ≡ true → truthy (humanize_generation_message m) ≡ true
unfolding humanize_generation_message
truthy-humanize m h = elim (Bool-cases (truthy (trim m))) [
  | inl e ↦ rw e (truthy-Good (trim m) _ e (classify-Good (to_lower_case (trim m))))
  | inr e ↦ rw e h
]

-- Every text that the body has is not empty.
abbrev pub Says : Option Text → Type 0
Says none = Unit
Says (some s) = truthy s ≡ true

abbrev pub DetailSays : Option Detail → Type 0
DetailSays (some (detail_text s)) = truthy s ≡ true
DetailSays (some (detail_items items)) = All (λ item. truthy (item_text item) ≡ true) items
DetailSays _ = Unit

abbrev pub ResponseSays : Option ErrorData → Type 0
ResponseSays none = Unit
ResponseSays (some body) =
    DetailSays body.detail × Says body.error × Says body.details × Says body.message

abbrev pub ErrorSays : Option ApiError → Type 0
ErrorSays none = Unit
ErrorSays (some e) = ResponseSays e.response

truthy-append : (s t : Text) → truthy s ≡ true → truthy (s ++ t) ≡ true
truthy-append [] t h = cc
truthy-append (c ∷ s) t h = refl

truthy-join :
    (s : Text) (rest : List Text) → truthy s ≡ true → truthy (join (codes " ") (s ∷ rest)) ≡ true
unfolding join
truthy-join s [] h = h
truthy-join s (t ∷ rest) h =
    truthy-append (s ++ codes " ") (join (codes " ") (t ∷ rest)) (truthy-append s (codes " ") h)

truthy-hinted :
    (base : Text) (hint : Option Text) → truthy base ≡ true → truthy (hinted base hint) ≡ true
truthy-hinted base hint h = elim (Bool-cases (truthy? hint)) [
  | inl e ↦
      rw e (truthy-append (base ++ codes " ") (or_else hint []) (truthy-append base (codes " ") h))
  | inr e ↦ rw e h
]

truthy-plain :
    (error hint details message : Option Text) (fallback : Text)
    → truthy fallback ≡ true
    → Says error
    → Says details
    → Says message
    → truthy (plain_of error hint details message fallback) ≡ true
truthy-plain (some e) hint details message fallback h k l m =
    truthy-hinted (humanize_generation_message e) hint (truthy-humanize e k)
truthy-plain none hint (some d) message fallback h k l m = truthy-humanize d l
truthy-plain none hint none (some t) fallback h k l m = truthy-humanize t m
truthy-plain none hint none none fallback h k l m = h

truthy-detail :
    (detail : Option Detail) (otherwise : Text)
    → truthy otherwise ≡ true
    → DetailSays detail
    → truthy (detail_message detail otherwise) ≡ true
unfolding detail_message
truthy-detail (some (detail_text s)) otherwise h d = truthy-humanize s d
truthy-detail (some (detail_items [])) otherwise h d = h
truthy-detail (some (detail_items (item ∷ items))) otherwise h (d, ds) =
    truthy-humanize (join (codes " ") (map item_text (item ∷ items)))
      (truthy-join (item_text item) (map item_text items) d)
truthy-detail (some detail_other) otherwise h d = h
truthy-detail none otherwise h d = h

truthy-response :
    (response : Option ErrorData) (fallback : Text)
    → truthy fallback ≡ true
    → ResponseSays response
    → truthy (response_message response fallback) ≡ true
unfolding response_message
truthy-response none fallback h k = refl
truthy-response (some body) fallback h (d, k, l, m) =
    truthy-detail body.detail _
      (truthy-plain body.error body.hint body.details body.message fallback h k l m) d

-- The message of a failed request is not empty, when the fallback is not and the texts that the
-- response has are not.
truthy-format_content_api_error :
    (error : Option ApiError) (fallback : Text)
    → truthy fallback ≡ true
    → ErrorSays error
    → truthy (format_content_api_error error fallback) ≡ true
unfolding format_content_api_error
truthy-format_content_api_error none fallback h k = h
truthy-format_content_api_error (some e) fallback h k = elim (Bool-cases (is_timeout e)) [
  | inl t ↦ rw t refl
  | inr t ↦ rw t (truthy-response e.response fallback h k)
]
