-- ===== src/JobProgress/Model.antt =====
-- The data of a generation job's progress, and what the presentation looks up in them:
-- dashboard/src/lib/generation-job-progress.ts.
use influence_platform.Prelude.{
  ℕ, Bool, false, ◌&&◌, ◌||◌, List, [], ◌∷◌, Option, none, some, if◌then◌else◌, find, or_else,
  or_try,
}
use influence_platform.Js.Text.{Text, codes, ◌===◌, replace, decimal}
use influence_platform.Js.Unknown.{Unknown, undefined}

-- `Record<string, unknown>`: a missing key reads as `undefined`.
abbrev pub Metadata : Type 0
Metadata = List (Text × Unknown)

unfoldable pub get_key : Text → Metadata → Unknown
get_key key [] = undefined
get_key key ((k, v) ∷ rest) = if k === key then v else get_key key rest

pub record JobStepLike : Type 0 where
  pub step_name : Text
  pub status : Text
  pub progress : ℕ
  pub metadata : Option Metadata

pub record JobProgressInput : Type 0 where
  pub status : Text
  pub progress : ℕ
  pub execution_mode : Option Text
  pub steps : Option (List JobStepLike)

pub record JobProgressLabels : Type 0 where
  pub phase_draft : Text
  pub phase_ready : Text
  pub phase_starting : Text
  pub phase_scene_gen : Text
  pub phase_images : Text
  pub phase_photo : Text
  pub phase_video : Text
  pub phase_video_motion : Text
  pub phase_video_bolt : Text
  pub phase_assembly : Text
  pub phase_finalizing : Text
  pub phase_done : Text
  pub phase_failed : Text
  pub phase_cancelled : Text
  pub phase_cancelling : Text
  pub scenes_progress : Text
  pub provider_wait : Text
  pub estimated_hint : Text
  pub elapsed : Text

-- "none" is `no_bar`.
pub data BarMode : Type 0 where
  no_bar indeterminate determinate : BarMode

pub record JobProgressPresentation : Type 0 where
  pub phase_label : Text
  pub detail_line : Option Text
  pub bar_mode : BarMode
  pub bar_value : ℕ
  pub show_percent : Bool
  pub percent_label : Option Text
  pub eta_hint : Option Text

-- `SINGLE_CLIP.has(mode)` and `PHOTO_MODES.has(mode)`
unfoldable pub is_single_clip : Text → Bool
is_single_clip mode =
    mode === codes "multi_scene_single_video" || mode === codes "ailiveai_single_video"

unfoldable pub is_photo_mode : Text → Bool
is_photo_mode mode = mode === codes "single_image"

unfoldable pub active_step : JobProgressInput → Option JobStepLike
active_step job =
    let steps = or_else job.steps [] in
    or_try (find (λ s. s.status === codes "running") steps)
      (find (λ s. s.status === codes "pending" && job.status === codes "running") steps)

unfoldable pub step_by_name : JobProgressInput → Text → Option JobStepLike
step_by_name job name = find (λ s. s.step_name === name) (or_else job.steps [])

unfoldable pub format_scenes : ℕ → ℕ → Text → Text
format_scenes done total template =
    replace (replace template (codes "{done}") (decimal done)) (codes "{total}") (decimal total)

-- `step?.step_name === name` and `step?.status === status`
abbrev pub step_is : Option JobStepLike → Text → Bool
step_is none name = false
step_is (some s) name = s.step_name === name

abbrev pub step_has_status : Option JobStepLike → Text → Bool
step_has_status none status = false
step_has_status (some s) status = s.status === status
