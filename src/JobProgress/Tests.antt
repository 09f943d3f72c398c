-- ===== src/JobProgress/Tests.antt =====
-- Runs of the progress presentation, and the theorems at concrete inputs.
use influence_platform.Prelude.{ℕ, ◌≡◌, ◌≤◌, ◌↔◌, refl, [], ◌∷◌, Option, none, some}
use influence_platform.Js.Text.{Text, codes, ◌===◌, trim, decimal, replace}
use influence_platform.Js.Unknown.{number}
use influence_platform.JobProgress.{
  JobStepLike, JobProgressInput, JobProgressLabels, is_single_clip, is_photo_mode, active_step,
  step_by_name, mode_of, percent, status_presentation, working_presentation, running_presentation,
  finishing_presentation, waiting_presentation, resolve_job_progress_presentation, get_key,
  format_job_elapsed,
}
use influence_platform.JobProgress.Bar.{bar_full_iff}

abbrev pub labels : JobProgressLabels
labels = record {
  phase_draft = codes "draft";
  phase_ready = codes "ready";
  phase_starting = codes "starting";
  phase_scene_gen = codes "scenes";
  phase_images = codes "images";
  phase_photo = codes "photo";
  phase_video = codes "video";
  phase_video_motion = codes "motion";
  phase_video_bolt = codes "bolt";
  phase_assembly = codes "assembly";
  phase_finalizing = codes "finalizing";
  phase_done = codes "done";
  phase_failed = codes "failed";
  phase_cancelled = codes "cancelled";
  phase_cancelling = codes "cancelling";
  scenes_progress = codes "{done}/{total}";
  provider_wait = codes "{current} of {max}";
  estimated_hint = codes "estimated";
  elapsed = codes "elapsed";
}

abbrev video_step : JobStepLike
video_step = record {
  step_name = codes "video_generation";
  status = codes "running";
  progress = 40;
  metadata =
      some
        ((codes "video_scenes_completed", number 2) ∷ (codes "video_scenes_total", number 5) ∷ []);
}

abbrev job : JobProgressInput
job = record {
  status = codes "running";
  progress = 40;
  execution_mode = none;
  steps = some (video_step ∷ []);
}

abbrev shown : JobProgressInput → ℕ × Option Text × Option Text
shown j =
    let p = resolve_job_progress_presentation j labels (codes "en") in
    (p.bar_value, p.percent_label, p.detail_line)

job_shown : shown job ≡ (40, some (codes "40%"), some (codes "2/5"))
unfolding resolve_job_progress_presentation status_presentation working_presentation
    running_presentation finishing_presentation waiting_presentation active_step step_by_name
    mode_of is_single_clip is_photo_mode percent get_key ◌===◌ trim decimal replace
job_shown = refl

bar_full_iff_example :
    ((resolve_job_progress_presentation job labels (codes "en")).bar_value ≤ 100)
    × (((resolve_job_progress_presentation job labels (codes "en")).bar_value ≡ 100)
        ↔ (job.status ≡ codes "completed"))
bar_full_iff_example = bar_full_iff job labels (codes "en")

elapsed_runs :
    format_job_elapsed (λ s. some 1_000) 126_500 (some (codes "t")) (codes "en")
    ≡ some (codes "2m 05s")
unfolding format_job_elapsed decimal ◌===◌
elapsed_runs = refl
