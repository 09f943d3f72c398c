-- ===== src/JobProgress.antt =====
-- The presentation of a generation job's progress: dashboard/src/lib/generation-job-progress.ts.
-- `progress` is a natural number, as the service sends it. `undefined` and `null` fields are `none`.
-- `formatJobElapsed` takes what the code asks of the platform, the parsed start and the present
-- time in milliseconds, as arguments.
pub mod Model
pub mod Bar
pub mod Steps
pub mod Tests
use influence_platform.Prelude.{
  ℕ, zero, suc, ◌+◌, ◌-◌, ◌/◌, ◌%◌, min, max, Bool, true, false, ◌&&◌, ◌||◌, not, List, [], ◌∷◌,
  ◌++◌, Option, none, some, ltb, leb, ◌==◌, if◌then◌else◌, find, or_else, or_try,
}
use influence_platform.Js.Text.{Text, codes, ◌===◌, trim, truthy, truthy?, replace, decimal}
use influence_platform.Js.Unknown.{
  Unknown, undefined, null, boolean, number, string, as_number, as_string,
}
pub use influence_platform.JobProgress.Model.{
  Metadata, JobStepLike, JobProgressInput, JobProgressLabels, BarMode, JobProgressPresentation,
  step_is, step_has_status, no_bar, indeterminate, determinate,
}
unfoldable pub use influence_platform.JobProgress.Model.{
  get_key, is_single_clip, is_photo_mode, active_step, step_by_name, format_scenes,
}

unfoldable pub percent : ℕ → Text
percent n = decimal n ++ codes "%"

-- A presentation with a phase and a bar, and nothing else.
abbrev pub plain : Text → BarMode → JobProgressPresentation
plain label mode = record {
  phase_label = label;
  detail_line = none;
  bar_mode = mode;
  bar_value = 0;
  show_percent = false;
  percent_label = none;
  eta_hint = none;
}

-- One with a percentage.
abbrev pub measured : Text → Option Text → BarMode → ℕ → Option Text → JobProgressPresentation
measured label detail mode value hint = record {
  phase_label = label;
  detail_line = detail;
  bar_mode = mode;
  bar_value = value;
  show_percent = true;
  percent_label = some (percent value);
  eta_hint = hint;
}

-- The early returns on the status alone.
unfoldable pub status_presentation : Text → JobProgressLabels → Option JobProgressPresentation
status_presentation status labels =
    if status === codes "draft"
    then some (plain labels.phase_draft no_bar)
    else if status === codes "ready"
    then some (plain labels.phase_ready no_bar)
    else if status === codes "cancelling"
    then some (plain labels.phase_cancelling indeterminate)
    else if status === codes "cancelled"
    then some (plain labels.phase_cancelled no_bar)
    else if status === codes "failed"
    then some (plain labels.phase_failed no_bar)
    else if status === codes "completed"
    then some (measured labels.phase_done none determinate 100 none)
    else none

unfoldable pub finishing_presentation :
    JobProgressInput → JobProgressLabels → Option JobStepLike → JobProgressPresentation
finishing_presentation job labels running =
    measured
      (if step_is running (codes "distribution")
        then labels.phase_finalizing
        else labels.phase_done)
      none determinate (min 99 (max job.progress 92)) none

unfoldable pub phase_of_step : JobProgressLabels → Text → Text → Text
phase_of_step labels mode name =
    if name === codes "scene_generation"
    then labels.phase_scene_gen
    else if name === codes "image_generation"
    then (if is_photo_mode mode then labels.phase_photo else labels.phase_images)
    else if name === codes "video_generation"
    then (if mode === codes "multi_scene_single_video"
        then labels.phase_video_motion
        else if mode === codes "ailiveai_single_video"
        then labels.phase_video_bolt
        else labels.phase_video)
    else if name === codes "assembly"
    then labels.phase_assembly
    else labels.phase_starting

-- `pollAttempt` and `pollMax` are numbers, and `pollMax > 0`.
abbrev poll_detail : JobProgressLabels → Option ℕ → Option ℕ → Option Text
poll_detail labels (some attempt) (some most) =
    if ltb 0 most
    then some (
        replace (replace labels.provider_wait (codes "{current}") (decimal attempt)) (codes "{max}")
          (decimal most))
    else none
poll_detail labels _ _ = none

detail_of_step : JobProgressLabels → Text → Option ℕ → Option ℕ → Option ℕ → Option ℕ → Option Text
unfolding format_scenes
detail_of_step labels mode (some done) (some total) attempt most =
    if ltb 0 total && mode === codes "scene_based"
    then some (format_scenes done total labels.scenes_progress)
    else poll_detail labels attempt most
detail_of_step labels mode _ _ attempt most = poll_detail labels attempt most

-- `attempt < (most ?? 999)`; a `most` that is no number, boolean or nullish compares false.
abbrev below_poll_max : ℕ → Unknown → Bool
below_poll_max attempt undefined = ltb attempt 999
below_poll_max attempt null = ltb attempt 999
below_poll_max attempt (number most) = ltb attempt most
below_poll_max attempt (boolean b) = if b then ltb attempt 1 else false
below_poll_max attempt _ = false

abbrev is_polling : Option ℕ → Unknown → Bool
is_polling none most = false
is_polling (some attempt) most = below_poll_max attempt most

-- The waiting time that is announced for a single clip.
abbrev motion_hint : Text → Text
motion_hint locale =
    if locale === codes "fr" then codes "En general 3-12 min" else codes "Usually 3-12 min"

abbrev bolt_hint : Text → Text
bolt_hint locale =
    if locale === codes "fr" then codes "En general 5-10 min" else codes "Usually 5-10 min"

abbrev with_hint : JobProgressLabels → Text → Text
with_hint labels hint = labels.estimated_hint ++ codes " - " ++ hint

unfoldable pub eta_of_step : JobProgressLabels → Text → Text → Text → Text
eta_of_step labels locale mode name =
    if name === codes "video_generation" && mode === codes "multi_scene_single_video"
    then with_hint labels (motion_hint locale)
    else if name === codes "video_generation" && mode === codes "ailiveai_single_video"
    then with_hint labels (bolt_hint locale)
    else labels.estimated_hint

-- The `if (running)` block.
unfoldable pub running_presentation :
    JobProgressInput → JobProgressLabels → Text → Text → JobStepLike → JobProgressPresentation
unfolding detail_of_step phase_of_step eta_of_step
running_presentation job labels locale mode step =
    let meta = or_else step.metadata [] in
    let attempt = as_number (get_key (codes "provider_poll_attempt") meta) in
    let poll_max = get_key (codes "provider_poll_max") meta in
    let done = as_number (get_key (codes "video_scenes_completed") meta) in
    let total = as_number (get_key (codes "video_scenes_total") meta) in
    let value = min 99 (max 8 job.progress) in
    let polling =
      is_single_clip mode
      && step.step_name === codes "video_generation"
      && is_polling attempt poll_max in
    measured (phase_of_step labels mode step.step_name)
      (detail_of_step labels mode done total attempt (as_number poll_max))
      (if polling && ltb value 15 then indeterminate else determinate) value
      (some (eta_of_step labels locale mode step.step_name))

abbrev photo_hint : Text → Text
photo_hint locale =
    if locale === codes "fr" then codes "En general 1-3 min" else codes "Usually 1-3 min"

-- The last returns, where no step is active: a photo, a single clip, and anything else.
abbrev photo_waiting : JobProgressLabels → Text → ℕ → JobProgressPresentation
photo_waiting labels locale value =
    measured labels.phase_photo none (if ltb value 14 then indeterminate else determinate) value
      (some (with_hint labels (photo_hint locale)))

abbrev clip_waiting : JobProgressLabels → Text → Text → ℕ → JobProgressPresentation
clip_waiting labels locale mode value =
    measured
      (if mode === codes "ailiveai_single_video"
        then labels.phase_video_bolt
        else labels.phase_video_motion)
      none (if ltb value 14 then indeterminate else determinate) value
      (some (
        with_hint labels (
          if mode === codes "multi_scene_single_video"
          then motion_hint locale
          else bolt_hint locale)))

abbrev other_waiting : JobProgressLabels → ℕ → JobProgressPresentation
other_waiting labels progress = record {
  phase_label = labels.phase_starting;
  detail_line = none;
  bar_mode = if ltb 0 progress then determinate else indeterminate;
  bar_value = min 99 (max progress 10);
  show_percent = ltb 0 progress;
  percent_label = if ltb 0 progress then some (percent progress) else none;
  eta_hint = some labels.estimated_hint;
}

unfoldable pub waiting_presentation :
    JobProgressInput → JobProgressLabels → Text → Text → JobProgressPresentation
waiting_presentation job labels locale mode =
    if job.status === codes "running"
      && is_photo_mode mode
      && leb 8 job.progress
      && ltb job.progress 95
    then photo_waiting labels locale (min 99 (max job.progress 8))
    else if job.status === codes "running"
        && is_single_clip mode
        && leb 10 job.progress
        && ltb job.progress 95
    then clip_waiting labels locale mode (min 99 (max job.progress 10))
    else other_waiting labels job.progress

-- `(job.execution_mode || "scene_based").trim()`
unfoldable pub mode_of : JobProgressInput → Text
mode_of job =
    trim (if truthy? job.execution_mode then or_else job.execution_mode [] else codes "scene_based")

unfoldable pub working_presentation :
    JobProgressInput
    → JobProgressLabels
    → Text
    → Text
    → Option JobStepLike
    → JobProgressPresentation
working_presentation job labels locale mode running =
    let is_running = job.status === codes "running" in
    if step_is running (codes "distribution")
      || (step_has_status (step_by_name job (codes "video_generation")) (codes "completed")
          && is_running)
    then finishing_presentation job labels running
    else if is_photo_mode mode
        && (step_has_status (step_by_name job (codes "image_generation")) (codes "completed")
            || step_is running (codes "distribution"))
        && is_running
    then finishing_presentation job labels running
    else elim running [
      | some step ↦ running_presentation job labels locale mode step
      | none ↦ waiting_presentation job labels locale mode
    ]

unfoldable pub resolve_job_progress_presentation :
    JobProgressInput → JobProgressLabels → Text → JobProgressPresentation
resolve_job_progress_presentation job labels locale = elim (status_presentation job.status labels) [
  | some p ↦ p
  | none ↦ working_presentation job labels locale (mode_of job) (active_step job)
]

-- `String(n).padStart(2, "0")`
abbrev pad : ℕ → Text
pad n = if ltb n 10 then b'0' ∷ decimal n else decimal n

-- `started` is `Date.parse(startedAtIso)`, `none` for `NaN`; a time before `started` counts as 0.
unfoldable pub format_job_elapsed : (Text → Option ℕ) → ℕ → Option Text → Text → Option Text
format_job_elapsed parse now started_at_iso locale =
    if truthy? started_at_iso
    then elim (parse (or_else started_at_iso [])) [
      | none ↦ none
      | some started ↦
          let sec = (now - started) / 1000 in
          let m = sec / 60 in
          let s = sec % 60 in
          some (
            if locale === codes "fr"
            then decimal m ++ codes " min " ++ pad s ++ codes " s"
            else decimal m ++ codes "m " ++ pad s ++ codes "s")
    ]
    else none

abbrev started_text : Option JobStepLike → Option Text
started_text none = none
started_text (some step) =
    as_string (get_key (codes "execution_started_at") (or_else step.metadata []))

unfoldable pub video_generation_started_at : JobProgressInput → Option Text
video_generation_started_at job = started_text (step_by_name job (codes "video_generation"))
