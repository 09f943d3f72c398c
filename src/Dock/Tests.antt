-- ===== src/Dock/Tests.antt =====
-- The theorems of the dock at concrete inputs.
use influence_platform.Prelude.{◌≡◌, refl, inl, [], ◌∷◌, none, some, arith}
use influence_platform.Js.Text.{codes, trim}
use influence_platform.JobProgress.Tests.{labels}
use influence_platform.Dock.{
  DockJob, DockProgressLabels, TitledJob, resolve_dock_job_presentation, dock_status_tone,
  resolve_tracked_job_title, truncate_title,
}
use influence_platform.Dock.Agreement.{tone_input, presentation_of_tone, tone_agrees}

abbrev dock_labels : DockProgressLabels
dock_labels = record {
  job = labels;
  phase_ready_to_publish = codes "ready to publish";
  phase_published = codes "published";
  phase_publishing = codes "publishing";
  phase_publish_failed = codes "publish failed";
}

abbrev done_job : DockJob
done_job = record {
  input = record {
    status = codes "completed";
    progress = 100;
    execution_mode = none;
    steps = none;
  };
  publish_intent_status = some (codes "queued");
  publish_snapshot =
      some (record { intent_status = codes "queued"; targets = codes "published" ∷ [] });
}

tone_agrees_example :
    resolve_dock_job_presentation done_job dock_labels (codes "en")
    ≡ presentation_of_tone dock_labels
        (dock_status_tone done_job.input.status (tone_input done_job))
tone_agrees_example = tone_agrees done_job dock_labels (codes "en") refl (inl (omega arith))

abbrev titled : TitledJob
titled = record {
  id = codes "0123456789";
  input_payload = none;
  queue_display_title = some (codes "  ");
  caption = some (codes " A day   in Lyon ");
  topic = none;
}

title_runs : resolve_tracked_job_title titled (codes "Job {id}") ≡ codes "A day in Lyon"
unfolding resolve_tracked_job_title trim truncate_title
title_runs = refl
