-- ===== src/Dock/Agreement.antt =====
-- The tone of a dock entry against its presentation, which the dock computes separately: the call in
-- dashboard/src/components/generation/GenerationJobProgressDock.tsx hands both the same job.
use influence_platform.Prelude.{◌≡◌, ◌⊎◌, true, false, arith, ◌<◌, length, or_try}
use influence_platform.Js.Text.{Text, codes, ◌===◌}
use influence_platform.Js.Trim.{===_iff}
use influence_platform.JobProgress.{JobProgressPresentation, no_bar, indeterminate}
use influence_platform.Dock.{
  DockJob, DockProgressLabels, Tone, live, success, publish, failed, muted, ToneInput, unmeasured,
  normalize_intent, snapshot_targets, snapshot_intent, resolve_completed_publish_presentation,
  resolve_dock_job_presentation, dock_status_tone, is_dock_job_live,
}

-- The arguments of `dockStatusTone` in the dock.
abbrev pub tone_input : DockJob → ToneInput
tone_input job = record {
  intent_status = or_try (snapshot_intent job.publish_snapshot) job.publish_intent_status;
  targets = snapshot_targets job.publish_snapshot;
}

-- The presentation that goes with the tone of a completed job.
abbrev pub presentation_of_tone : DockProgressLabels → Tone → JobProgressPresentation
presentation_of_tone labels failed = unmeasured labels.phase_publish_failed no_bar 0
presentation_of_tone labels publish = unmeasured labels.phase_published no_bar 100
presentation_of_tone labels live = unmeasured labels.phase_publishing indeterminate 100
presentation_of_tone labels success = unmeasured labels.phase_ready_to_publish no_bar 100
presentation_of_tone labels muted = unmeasured labels.phase_ready_to_publish no_bar 100

-- The two read the same intent: there are targets, or no snapshot, or the snapshot's intent agrees
-- with the job's own.
abbrev pub IsCoherent : DockJob → Type 0
IsCoherent job =
    (0 < length (snapshot_targets job.publish_snapshot))
    ⊎ (normalize_intent (or_try (snapshot_intent job.publish_snapshot) job.publish_intent_status)
        ≡ normalize_intent job.publish_intent_status)

-- The two ladders ask for "failed" and "published" in different orders: no intent is both.
intent_once :
    (intent : Text) → intent === codes "published" ≡ true → intent === codes "failed" ≡ false
intent_once intent h =
    ground (arith, ===_iff intent (codes "published"), ===_iff intent (codes "failed"))

-- For a completed job whose snapshot has targets, or whose intent reads the same from the snapshot
-- and from the job, the presentation is the one of the tone.
pub tone_agrees :
    (job : DockJob) (labels : DockProgressLabels) (locale : Text)
    → job.input.status ≡ codes "completed"
    → IsCoherent job
    → resolve_dock_job_presentation job labels locale
      ≡ presentation_of_tone labels (dock_status_tone job.input.status (tone_input job))
unfolding resolve_dock_job_presentation dock_status_tone resolve_completed_publish_presentation
tone_agrees job labels locale h c = ground (
  arith,
  ===_iff job.input.status (codes "completed"),
  ===_iff job.input.status (codes "failed"),
  ===_iff job.input.status (codes "cancelled"),
  ===_iff job.input.status (codes "cancelling"),
  ===_iff job.input.status (codes "ready"),
  intent_once (normalize_intent job.publish_intent_status),
)

-- An entry that may be dismissed has none of the live tone's statuses; a live one is shown live or,
-- when it is ready or being cancelled, as success or muted.
live_tone :
    (status : Text) (input : ToneInput)
    → is_dock_job_live status ≡ true
    → (dock_status_tone status input ≡ live)
      ⊎ ((status ≡ codes "ready") × (dock_status_tone status input ≡ success))
      ⊎ ((status ≡ codes "cancelling") × (dock_status_tone status input ≡ muted))
unfolding is_dock_job_live dock_status_tone
live_tone status input h = ground (
  arith,
  ===_iff status (codes "completed"),
  ===_iff status (codes "failed"),
  ===_iff status (codes "cancelled"),
  ===_iff status (codes "cancelling"),
  ===_iff status (codes "ready"),
  ===_iff status (codes "draft"),
  ===_iff status (codes "running"),
  ===_iff status (codes "pending"),
)
