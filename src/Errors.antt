-- ===== src/Errors.antt =====
-- Operator-friendly messages for generation failures: dashboard/src/lib/generation-errors.ts.
pub mod Idempotent
pub mod Pipeline
use influence_platform.Prelude.{
  ℕ, ◌+◌, Bool, true, false, ◌&&◌, ◌||◌, not, List, [], ◌∷◌, ◌++◌, Option, none, some, ltb, ◌==◌,
  if◌then◌else◌, length, take, or_else,
}
use influence_platform.Js.Text.{
  Text, codes, ◌===◌, truthy, trim, to_lower_case, includes, join, decimal,
}

abbrev pub aliveai_message : Text
aliveai_message =
    codes
      "AliveAI API key is missing. Set AILIVEAI_API_KEY or AILIVEAI_API_TOKEN on the Content Factory service."

abbrev pub kie_message : Text
kie_message = codes "Kie.ai API key is missing. Set KIE_API_KEY on the Content Factory service."

abbrev pub quota_message : Text
quota_message =
    codes "Text or media provider quota/credits are exhausted. Top up API credits and retry."

abbrev pub no_output_message : Text
no_output_message =
    codes "Video provider returned no output URL. Retry the step or check Kie/AliveAI job status."

abbrev pub public_url_message : Text
public_url_message =
    codes
      "Media must be available at a public HTTPS URL (not localhost). Check storage/CDN settings and regenerate assets."

abbrev pub incomplete_message : Text
incomplete_message =
    codes
      "Scene media is incomplete (missing image or video). Retry the failed scene from the timeline."

-- The message for a text in lower case; `none` where the code returns the trimmed text.
unfoldable pub classify : Text → Option Text
classify lower =
    if includes lower (codes "no_ailiveai")
      || includes lower (codes "ailiveai_api_key")
      || includes lower (codes "ailiveai_api_token")
    then some aliveai_message
    else if includes lower (codes "kie_api_key") || includes lower (codes "no_api_key")
    then some kie_message
    else if includes lower (codes "no text model provider")
        || includes lower (codes "anthropic_api_key")
        || includes lower (codes "gemini_api_key")
        || includes lower (codes "provider rejected api key")
    then none
    else if includes lower (codes "quota")
        || includes lower (codes "credit balance")
        || includes lower (codes "rate limit")
        || includes lower (codes "resourceexhausted")
        || includes lower (codes "429")
    then some quota_message
    else if includes lower (codes "success_no_urls") || includes lower (codes "no_task_id")
    then some no_output_message
    else if includes lower (codes "localhost")
        || includes lower (codes "not publicly accessible")
        || includes lower (codes "public media")
        || ((includes lower (codes "media url") || includes lower (codes "video url"))
            && not (includes lower (codes "https://")))
    then some public_url_message
    else if includes lower (codes "partial_images") || includes lower (codes "missing_video")
    then some incomplete_message
    else none

unfoldable pub humanize_generation_message : Text → Text
unfolding classify
humanize_generation_message message =
    let raw = trim message in
    if truthy raw then or_else (classify (to_lower_case raw)) raw else message

pub record PipelineStep : Type 0 where
  pub step_name : Text
  pub status : Text
  pub error_message : Option Text

pub record PipelineScene : Type 0 where
  pub scene_index : ℕ
  pub status : Text
  pub error_message : Option Text

-- `x.status === "failed" && x.error_message?.trim()`
unfoldable pub has_failure : Text → Option Text → Bool
has_failure status none = false
has_failure status (some message) = status === codes "failed" && truthy (trim message)

unfoldable pub step_parts : List PipelineStep → List Text
step_parts [] = []
step_parts (s ∷ steps) =
    let rest = step_parts steps in
    if has_failure s.status s.error_message
    then (s.step_name ++ codes ": " ++ humanize_generation_message (or_else s.error_message []))
      ∷ rest
    else rest

unfoldable pub scene_parts : List PipelineScene → List Text
scene_parts [] = []
scene_parts (s ∷ scenes) =
    let rest = scene_parts scenes in
    if has_failure s.status s.error_message
    then (codes "Scene "
        ++ decimal (s.scene_index + 1)
        ++ codes ": "
        ++ humanize_generation_message (or_else s.error_message []))
      ∷ rest
    else rest

unfoldable pub summary_of : List Text → Option Text
summary_of parts =
    let joined = join (codes " - ") (take 3 parts) in
    if length parts == 0
    then none
    else some (if ltb 3 (length parts) then joined ++ codes " - ..." else joined)

unfoldable pub summarize_job_pipeline_errors :
    Option (List PipelineStep) → Option (List PipelineScene) → Option Text
unfolding summary_of
summarize_job_pipeline_errors steps scenes =
    summary_of (step_parts (or_else steps []) ++ scene_parts (or_else scenes []))
