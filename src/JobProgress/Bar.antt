-- ===== src/JobProgress/Bar.antt =====
-- Bounds and labels of the progress bar.
use influence_platform.Prelude.{
  ℕ, ◌≡◌, refl, ◌↔◌, ◌⊎◌, inl, inr, true, false, Option, none, some, arith, ◌≤◌, ◌<◌, ◌≢◌,
  Option-cases, min, max,
}
use influence_platform.Js.Text.{Text, codes}
use influence_platform.Js.Trim.{===_iff}
use influence_platform.JobProgress.{
  JobStepLike, JobProgressInput, JobProgressLabels, JobProgressPresentation, percent,
  status_presentation, running_presentation, waiting_presentation, finishing_presentation,
  working_presentation, resolve_job_progress_presentation, is_photo_mode, mode_of, active_step,
  step_by_name,
}

-- Without a final status the bar stops at 99.
working-bar_value :
    (job : JobProgressInput) (labels : JobProgressLabels) (locale mode : Text)
    (running : Option JobStepLike)
    → (working_presentation job labels locale mode running).bar_value ≤ 99
unfolding working_presentation finishing_presentation running_presentation waiting_presentation
working-bar_value job labels locale mode none = ground arith
working-bar_value job labels locale mode (some s) = ground arith

-- The bar is full exactly when the job is completed, and never overfull.
pub bar_full_iff :
    (job : JobProgressInput) (labels : JobProgressLabels) (locale : Text)
    → let p = resolve_job_progress_presentation job labels locale in
      (p.bar_value ≤ 100) × ((p.bar_value ≡ 100) ↔ (job.status ≡ codes "completed"))
unfolding resolve_job_progress_presentation status_presentation
bar_full_iff job labels locale = ground (
  arith,
  ===_iff job.status (codes "draft"),
  ===_iff job.status (codes "ready"),
  ===_iff job.status (codes "cancelling"),
  ===_iff job.status (codes "cancelled"),
  ===_iff job.status (codes "failed"),
  ===_iff job.status (codes "completed"),
  working-bar_value job labels locale (mode_of job) (active_step job),
)

-- The label says what the bar shows.
abbrev pub LabelFits : JobProgressPresentation → Type 0
LabelFits p =
    ((p.show_percent ≡ true) ↔ (p.percent_label ≢ none))
    × ((p.percent_label ≡ none) ⊎ (p.percent_label ≡ some (percent p.bar_value)))

status-LabelFits :
    (status : Text) (labels : JobProgressLabels) (p : JobProgressPresentation)
    → status_presentation status labels ≡ some p
    → LabelFits p
unfolding status_presentation
status-LabelFits status labels p h = ground arith

working-LabelFits :
    (job : JobProgressInput) (labels : JobProgressLabels) (locale mode : Text)
    (running : Option JobStepLike)
    → 10 ≤ job.progress
    → job.progress ≤ 99
    → LabelFits (working_presentation job labels locale mode running)
unfolding working_presentation finishing_presentation running_presentation waiting_presentation
working-LabelFits job labels locale mode none h k = ground arith
working-LabelFits job labels locale mode (some s) h k = ground arith

-- For a progress from 10 to 99, a percentage is announced exactly when there is a label for it, and
-- the label is the bar's value in percent.
presentation-LabelFits :
    (job : JobProgressInput) (labels : JobProgressLabels) (locale : Text)
    → 10 ≤ job.progress
    → job.progress ≤ 99
    → LabelFits (resolve_job_progress_presentation job labels locale)
unfolding resolve_job_progress_presentation
presentation-LabelFits job labels locale h k =
    elim (Option-cases (status_presentation job.status labels)) [
      | inl e ↦
          rw (e, resolve_job_progress_presentation)
            (working-LabelFits job labels locale (mode_of job) (active_step job) h k)
      | inr (p, e) ↦
          rw (e, resolve_job_progress_presentation) (status-LabelFits job.status labels p e)
    ]

-- With no active step, outside the phases of a photo and of a single clip, the label shows the
-- progress as it is while the bar is held at 10 or more: below 10 the two differ.
small_label_differs :
    (job : JobProgressInput) (labels : JobProgressLabels) (locale mode : Text)
    → is_photo_mode mode ≡ false
    → 0 < job.progress
    → job.progress < 10
    → let p = waiting_presentation job labels locale mode in
      (p.bar_value ≡ 10) × (p.percent_label ≡ some (percent job.progress))
unfolding waiting_presentation
small_label_differs job labels locale mode photo h k = ground arith

-- The bar with another progress for the same job.
abbrev pub bar_at : JobProgressInput → JobProgressLabels → Text → ℕ → ℕ
bar_at job labels locale p =
    (resolve_job_progress_presentation (record job { progress = p }) labels locale).bar_value

module _ (job : JobProgressInput) (labels : JobProgressLabels) (locale mode : Text) where
  running-bar_value :
      (s : JobStepLike)
      → (running_presentation job labels locale mode s).bar_value ≡ min 99 (max 8 job.progress)
  unfolding running_presentation
  running-bar_value s = refl

  finishing-bar_value :
      (running : Option JobStepLike)
      → (finishing_presentation job labels running).bar_value ≡ min 99 (max job.progress 92)
  unfolding finishing_presentation
  finishing-bar_value running = refl

  step_by_name-progress :
      (p : ℕ) (name : Text)
      → step_by_name (record job { progress = p }) name ≡ step_by_name job name
  unfolding step_by_name
  step_by_name-progress p name = refl

  waiting-bar_mono :
      (p q : ℕ)
      → p ≤ q
      → (is_photo_mode mode ≡ false) ⊎ (10 ≤ q)
      → (waiting_presentation (record job { progress = p }) labels locale mode).bar_value
        ≤ (waiting_presentation (record job { progress = q }) labels locale mode).bar_value
  unfolding waiting_presentation
  waiting-bar_mono p q h k = ground arith

module _ (job : JobProgressInput) (labels : JobProgressLabels) (locale mode : Text) where
  working-bar_mono :
      (running : Option JobStepLike) (p q : ℕ)
      → p ≤ q
      → (is_photo_mode mode ≡ false) ⊎ (10 ≤ q)
      → (working_presentation (record job { progress = p }) labels locale mode running).bar_value
        ≤ (working_presentation (record job { progress = q }) labels locale mode running).bar_value
  unfolding working_presentation
  working-bar_mono none p q h k = ground (
    arith,
    step_by_name-progress job labels locale mode p (codes "video_generation"),
    step_by_name-progress job labels locale mode q (codes "video_generation"),
    step_by_name-progress job labels locale mode p (codes "image_generation"),
    step_by_name-progress job labels locale mode q (codes "image_generation"),
    finishing-bar_value (record job { progress = p }) labels locale mode none,
    finishing-bar_value (record job { progress = q }) labels locale mode none,
    waiting-bar_mono job labels locale mode p q,
  )
  working-bar_mono (some s) p q h k = ground (
    arith,
    step_by_name-progress job labels locale mode p (codes "video_generation"),
    step_by_name-progress job labels locale mode q (codes "video_generation"),
    step_by_name-progress job labels locale mode p (codes "image_generation"),
    step_by_name-progress job labels locale mode q (codes "image_generation"),
    finishing-bar_value (record job { progress = p }) labels locale mode (some s),
    finishing-bar_value (record job { progress = q }) labels locale mode (some s),
    running-bar_value (record job { progress = p }) labels locale mode s,
    running-bar_value (record job { progress = q }) labels locale mode s,
  )

-- The bar of a job does not go back when its progress grows, all else being equal: in a mode other
-- than the photo's at any progress, and in the photo's from 10 on.
bar_mono :
    (job : JobProgressInput) (labels : JobProgressLabels) (locale : Text) (p q : ℕ)
    → p ≤ q
    → (is_photo_mode (mode_of job) ≡ false) ⊎ (10 ≤ q)
    → bar_at job labels locale p ≤ bar_at job labels locale q
unfolding resolve_job_progress_presentation active_step mode_of
bar_mono job labels locale p q h k = elim (Option-cases (status_presentation job.status labels)) [
  | inl e ↦
      rw (e, bar_at, resolve_job_progress_presentation)
        (working-bar_mono job labels locale (mode_of job) (active_step job) p q h k)
  | inr (r, e) ↦ rw (e, bar_at, resolve_job_progress_presentation) (omega arith)
]

-- A photo that runs with no active step shows 10 at a progress of 7 and 8 at a progress of 8.
photo_bar_goes_back :
    (job : JobProgressInput) (labels : JobProgressLabels) (locale mode : Text)
    → job.status ≡ codes "running"
    → is_photo_mode mode ≡ true
    → ((waiting_presentation (record job { progress = 7 }) labels locale mode).bar_value ≡ 10)
      × ((waiting_presentation (record job { progress = 8 }) labels locale mode).bar_value ≡ 8)
unfolding waiting_presentation
photo_bar_goes_back job labels locale mode h k =
    ground (arith, ===_iff job.status (codes "running"))
