-- ===== src/Dock/Fetch.antt =====
-- The fetching of the tracked jobs by the dock:
-- dashboard/src/components/generation/GenerationJobProgressDock.tsx. The answers of the service are
-- arguments, `none` where a request fails; for two jobs with one id, their intents are answered in the
-- jobs' order. Maps are association lists, of which the last entry counts. What is read of a job for
-- its title alone is not kept.
pub mod Answers
use influence_platform.Prelude.{
  ℕ, suc, ◌≡◌, refl, sym, ◌∙◌, ◌⊎◌, inl, inr, Bool, true, false, ◌&&◌, List, [], ◌∷◌, ◌++◌, map,
  Option, none, some, if◌then◌else◌, or_else, or_try, length, any, arith, Bool-cases, Option-cases,
  Any, All, ◌↔◌,
}
use mathlib.Core.Option
use influence_platform.Js.Text.{Text, codes, ◌===◌, truthy, truthy?}
use influence_platform.Js.Trim.{===_iff}
use influence_platform.JobProgress.{JobProgressInput, JobStepLike, Metadata}
use influence_platform.Dock.{DockPublishSnapshot, TitledJob, resolve_tracked_job_title}

pub record TrackedJobEnrich : Type 0 where
  pub topic : Option Text
  pub caption : Option Text
  pub queue_display_title : Option Text
  pub publish_intent_id : Option Text
  pub publish_intent_status : Option Text

-- A row of the list; `id` is `none` where it is no text.
pub record ListRow : Type 0 where
  pub id : Option Text
  pub enrich : TrackedJobEnrich

-- `map.get(id)`
unfoldable pub get_entry : {A : Type 0} → Text → List (Text × A) → Option A
get_entry id [] = none
get_entry id ((j, a) ∷ rest) = or_try (get_entry id rest) (if j === id then some a else none)

unfoldable pub enrich_rows : List Text → List ListRow → List (Text × TrackedJobEnrich)
enrich_rows ids [] = []
enrich_rows ids (row ∷ rows) =
    let id = or_else row.id [] in
    let rest = enrich_rows ids rows in
    if truthy id && any (λ i. i === id) ids then (id, row.enrich) ∷ rest else rest

-- The answer is `none` where the request fails, or its body is no list.
unfoldable pub fetch_list_enrich :
    List Text → Option (List ListRow) → List (Text × TrackedJobEnrich)
fetch_list_enrich ids rows = enrich_rows ids (or_else rows [])

-- The answer for one job; a field of another type than expected is `none`.
pub record RawJob : Type 0 where
  pub id : Option Text
  pub status : Option Text
  pub progress : Option ℕ
  pub execution_mode : Option Text
  pub input_payload : Option Metadata
  pub steps : Option (List JobStepLike)
  pub created_at : Option Text
  pub updated_at : Option Text

pub record TrackedJob : Type 0 where
  pub id : Text
  pub input : JobProgressInput
  pub created_at : Option Text
  pub updated_at : Option Text
  pub publish_intent_id : Option Text
  pub publish_intent_status : Option Text
  pub title : Text
  pub publish_snapshot : Option DockPublishSnapshot

abbrev no_enrich : TrackedJobEnrich
no_enrich = record {
  topic = none;
  caption = none;
  queue_display_title = none;
  publish_intent_id = none;
  publish_intent_status = none;
}

-- One job, before its snapshot is known.
unfoldable pub job_of : Text → List (Text × TrackedJobEnrich) → Text → RawJob → TrackedJob
job_of fallback enrich id raw =
    let extra = or_else (get_entry id enrich) no_enrich in
    let own_id = or_else raw.id id in
    record {
      id = own_id;
      input = record {
        status = or_else raw.status (codes "unknown");
        progress = or_else raw.progress 0;
        execution_mode = raw.execution_mode;
        steps = raw.steps;
      };
      created_at = raw.created_at;
      updated_at = raw.updated_at;
      publish_intent_id = extra.publish_intent_id;
      publish_intent_status = extra.publish_intent_status;
      title =
          resolve_tracked_job_title
            (record {
              id = own_id;
              input_payload = raw.input_payload;
              queue_display_title = extra.queue_display_title;
              caption = extra.caption;
              topic = extra.topic;
            })
            fallback;
      publish_snapshot = none;
    }

abbrev both : {A B : Type 0} → (A → B) → Option A → Option (List B) → Option (List B)
both f (some a) (some bs) = some (f a ∷ bs)
both f _ _ = none

-- `Promise.all`: one failing request fails the whole.
unfoldable pub fetch_jobs :
    Text
    → List (Text × TrackedJobEnrich)
    → (Text → Option RawJob)
    → List Text
    → Option (List TrackedJob)
fetch_jobs fallback enrich get [] = some []
fetch_jobs fallback enrich get (id ∷ ids) =
    both (job_of fallback enrich id) (get id) (fetch_jobs fallback enrich get ids)

abbrev pub wants_snapshot : TrackedJob → Bool
wants_snapshot job = job.input.status === codes "completed" && truthy? job.publish_intent_id

abbrev pub with_entry : {A : Type 0} → Bool → Text → Option A → List (Text × A) → List (Text × A)
with_entry true id (some a) rest = (id, a) ∷ rest
with_entry _ id _ rest = rest

unfoldable pub fetch_publish_snapshots :
    (Text → Option DockPublishSnapshot) → List TrackedJob → List (Text × DockPublishSnapshot)
fetch_publish_snapshots get_intent [] = []
fetch_publish_snapshots get_intent (job ∷ jobs) =
    with_entry (wants_snapshot job) job.id (get_intent (or_else job.publish_intent_id []))
      (fetch_publish_snapshots get_intent jobs)

abbrev pub with_snapshot : List (Text × DockPublishSnapshot) → TrackedJob → TrackedJob
with_snapshot snapshots job = record job { publish_snapshot = get_entry job.id snapshots }

unfoldable pub fetch_tracked_jobs :
    Option (List ListRow)
    → (Text → Option RawJob)
    → (Text → Option DockPublishSnapshot)
    → List Text
    → Text
    → Option (List TrackedJob)
fetch_tracked_jobs rows get get_intent ids fallback =
    Option.map (λ jobs. map (with_snapshot (fetch_publish_snapshots get_intent jobs)) jobs)
      (fetch_jobs fallback (fetch_list_enrich ids rows) get ids)
