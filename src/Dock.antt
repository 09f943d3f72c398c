-- ===== src/Dock.antt =====
-- The dock of tracked generation jobs: dashboard/src/lib/generation-dock.ts.
pub mod Agreement
pub mod Fetch
pub mod Notify
pub mod Relative
pub mod Title
mod Tests
use influence_platform.Prelude.{
  ℕ, ◌+◌, ◌-◌, ◌/◌, Bool, true, false, ◌&&◌, ◌||◌, List, [], ◌∷◌, ◌++◌, Option, none, some, ltb,
  leb, if◌then◌else◌, length, take, or_else,
}
use influence_platform.Js.Text.{
  Text, codes, ◌===◌, trim, truthy, truthy?, replace, decimal, is_space,
}
use influence_platform.Js.Unknown.{string, to_string, or_text}
use influence_platform.Outcome.{TargetSummary, summarize_publish_targets, normalize_status}
use influence_platform.JobProgress.{
  Metadata, get_key, JobProgressInput, JobProgressLabels, JobProgressPresentation, BarMode, no_bar,
  indeterminate, resolve_job_progress_presentation,
}

-- `publish_snapshot`, with the raw statuses of its targets.
pub record DockPublishSnapshot : Type 0 where
  pub intent_status : Text
  pub targets : List Text

pub record DockProgressLabels : Type 0 where
  pub job : JobProgressLabels
  pub phase_ready_to_publish : Text
  pub phase_published : Text
  pub phase_publishing : Text
  pub phase_publish_failed : Text

-- A job with what the dock knows of its publication.
pub record DockJob : Type 0 where
  pub input : JobProgressInput
  pub publish_intent_status : Option Text
  pub publish_snapshot : Option DockPublishSnapshot

unfoldable pub is_live_status : Text → Bool
is_live_status s = s === codes "running" || s === codes "pending" || s === codes "cancelling"

unfoldable pub is_dock_job_live : Text → Bool
unfolding is_live_status
is_dock_job_live status =
    is_live_status status || status === codes "draft" || status === codes "ready"

-- `value.replace(/\s+/g, " ")`: the flag says that the last unit read was a space.
unfoldable pub collapse_from : Bool → Text → Text
collapse_from spaced [] = []
collapse_from spaced (c ∷ s) =
    let plain = c ∷ collapse_from false s in
    let rest = collapse_from true s in
    if is_space c then (if spaced then rest else b' ' ∷ rest) else plain

abbrev ellipsis : Text → ℕ → Text
ellipsis t most = if ltb most (length t) then take (most - 1) t ++ codes "…" else t

unfoldable pub truncate_title : Text → ℕ → Text
unfolding collapse_from
truncate_title value most =
    let t = trim (collapse_from false value) in if truthy t then ellipsis t most else []

-- The default of its second parameter.
abbrev pub title_length : ℕ
title_length = 52

-- `String(value || "").trim().toLowerCase()`
unfoldable pub normalize_intent : Option Text → Text
normalize_intent value = normalize_status (or_else value [])

-- `{ ...base, … }` with all seven fields given anew: nothing of `base` is left.
abbrev pub unmeasured : Text → BarMode → ℕ → JobProgressPresentation
unmeasured label mode value = record {
  phase_label = label;
  detail_line = none;
  bar_mode = mode;
  bar_value = value;
  show_percent = false;
  percent_label = none;
  eta_hint = none;
}

-- `intent === "queued" || intent === "partial_failed"`
abbrev pub intent_in_flight : Text → Bool
intent_in_flight intent = intent === codes "queued" || intent === codes "partial_failed"

unfoldable pub resolve_completed_publish_presentation :
    DockProgressLabels → Text → List Text → JobProgressPresentation
resolve_completed_publish_presentation labels intent_status targets =
    let intent = normalize_intent (some intent_status) in
    let summary = summarize_publish_targets targets in
    if summary.all_failed || intent === codes "failed"
    then unmeasured labels.phase_publish_failed no_bar 0
    else if summary.all_published || intent === codes "published"
    then unmeasured labels.phase_published no_bar 100
    else if summary.any_in_flight || intent_in_flight intent
    then unmeasured labels.phase_publishing indeterminate 100
    else unmeasured labels.phase_ready_to_publish no_bar 100

-- What `resolveTrackedJobTitle` reads of a job.
pub record TitledJob : Type 0 where
  pub id : Text
  pub input_payload : Option Metadata
  pub queue_display_title : Option Text
  pub caption : Option Text
  pub topic : Option Text

-- `value?.trim()` in a condition.
abbrev pub has_text : Option Text → Bool
has_text none = false
has_text (some s) = truthy (trim s)

-- `String(payload[key] ?? "").trim()`
abbrev pub payload_text : Metadata → Text → Text
payload_text payload key = trim (to_string (or_text (get_key key payload) []))

payload_title : TitledJob → Text → Text
payload_title job fallback =
    let payload = or_else job.input_payload [] in
    let cap = payload_text payload (codes "caption") in
    let topic = payload_text payload (codes "topic") in
    let niche = payload_text payload (codes "niche") in
    if truthy cap
    then truncate_title cap title_length
    else if truthy topic
    then truncate_title topic title_length
    else if truthy niche
    then truncate_title niche title_length
    else replace fallback (codes "{id}") (take 8 job.id)

unfoldable pub resolve_tracked_job_title : TitledJob → Text → Text
unfolding payload_title
resolve_tracked_job_title job fallback =
    if has_text job.queue_display_title
    then truncate_title (or_else job.queue_display_title []) title_length
    else if has_text job.caption
    then truncate_title (or_else job.caption []) title_length
    else if has_text job.topic
    then truncate_title (or_else job.topic []) title_length
    else payload_title job fallback

intent_presentation : DockProgressLabels → Text → JobProgressPresentation
intent_presentation labels intent =
    if intent === codes "published"
    then unmeasured labels.phase_published no_bar 100
    else if intent === codes "failed"
    then unmeasured labels.phase_publish_failed no_bar 0
    else if intent_in_flight intent
    then unmeasured labels.phase_publishing indeterminate 100
    else unmeasured labels.phase_ready_to_publish no_bar 100

-- `snapshot?.targets ?? []`: both functions below look at the targets only if there are some.
abbrev pub snapshot_targets : Option DockPublishSnapshot → List Text
snapshot_targets none = []
snapshot_targets (some snapshot) = snapshot.targets

abbrev pub snapshot_intent : Option DockPublishSnapshot → Option Text
snapshot_intent none = none
snapshot_intent (some snapshot) = some snapshot.intent_status

unfoldable pub resolve_dock_job_presentation :
    DockJob → DockProgressLabels → Text → JobProgressPresentation
unfolding intent_presentation
resolve_dock_job_presentation job labels locale =
    if job.input.status === codes "completed"
    then if ltb 0 (length (snapshot_targets job.publish_snapshot))
      then resolve_completed_publish_presentation labels
          (or_else (snapshot_intent job.publish_snapshot) [])
          (snapshot_targets job.publish_snapshot)
      else intent_presentation labels (normalize_intent job.publish_intent_status)
    else if job.input.status === codes "ready"
    then unmeasured labels.phase_ready_to_publish no_bar 0
    else resolve_job_progress_presentation job.input labels.job locale

pub data Tone : Type 0 where
  live success publish failed muted : Tone

-- The third argument of `dockStatusTone`.
pub record ToneInput : Type 0 where
  pub intent_status : Option Text
  pub targets : List Text

targets_tone : Text → TargetSummary → Tone
targets_tone intent summary =
    if summary.all_failed || intent === codes "failed"
    then failed
    else if summary.all_published || intent === codes "published"
    then publish
    else if summary.any_in_flight || intent_in_flight intent
    then live
    else success

intent_tone : Text → Text → Tone
intent_tone status intent =
    if status === codes "completed" && intent === codes "published"
    then publish
    else if status === codes "completed" && intent === codes "failed"
    then failed
    else if status === codes "completed" && intent_in_flight intent
    then live
    else if status === codes "completed" || status === codes "ready"
    then success
    else if is_live_status status || status === codes "draft"
    then live
    else muted

unfoldable pub dock_status_tone : Text → ToneInput → Tone
unfolding targets_tone intent_tone
dock_status_tone status input =
    let intent = normalize_intent input.intent_status in
    if status === codes "failed"
    then failed
    else if status === codes "cancelled" || status === codes "cancelling"
    then muted
    else if status === codes "completed" && ltb 0 (length input.targets)
    then targets_tone intent (summarize_publish_targets input.targets)
    else intent_tone status intent

pub data TimeContext : Type 0 where
  started updated completed : TimeContext

unfoldable pub dock_timestamp_context : Text → TimeContext
dock_timestamp_context status =
    if status === codes "completed" || status === codes "failed" || status === codes "cancelled"
    then completed
    else if status === codes "draft" || status === codes "ready"
    then started
    else updated

unfoldable pub dock_progress_line : JobProgressPresentation → Option Text
dock_progress_line p =
    let label = or_else p.percent_label [] in
    let detail = or_else p.detail_line [] in
    if p.show_percent && truthy label && truthy detail
    then some (label ++ codes " · " ++ detail)
    else if p.show_percent && truthy label
    then some label
    else if truthy detail
    then some detail
    else none
