-- ===== src/Dock/Fetch/Answers.antt =====
-- What the dock's jobs and snapshots are made from.
use influence_platform.Prelude.{
  ◌≡◌, refl, ◌∙◌, ◌⊎◌, inl, inr, Bool, true, false, List, [], ◌∷◌, map, Option, none, some, or_else,
  length, arith, Option-cases, Any, All, ◌↔◌,
}
use influence_platform.Js.Text.{Text, codes}
use influence_platform.Js.Trim.{===_iff}
use influence_platform.Dock.{DockPublishSnapshot}
use influence_platform.Dock.Fetch.{
  TrackedJobEnrich, ListRow, RawJob, TrackedJob, get_entry, fetch_list_enrich, job_of, fetch_jobs,
  wants_snapshot, with_entry, fetch_publish_snapshots, with_snapshot, fetch_tracked_jobs,
}

fetch_jobs-some :
    (fallback : Text) (enrich : List (Text × TrackedJobEnrich)) (get : Text → Option RawJob)
    (ids : List Text) (jobs : List TrackedJob)
    → fetch_jobs fallback enrich get ids ≡ some jobs
    → (length jobs ≡ length ids) × All (λ id. (raw : RawJob) × (get id ≡ some raw)) ids
unfolding fetch_jobs
fetch_jobs-some fallback enrich get [] jobs h = (ground (arith, h), tt)
fetch_jobs-some fallback enrich get (id ∷ ids) jobs h = elim (Option-cases (get id)) [
  | inl n ↦ ground (arith, n, h)
  | inr (raw, n) ↦ elim (Option-cases (fetch_jobs fallback enrich get ids)) [
    | inl m ↦ ground (arith, n, m, h)
    | inr (rest, m) ↦
        let (same, all) = fetch_jobs-some fallback enrich get ids rest m in
        (ground (arith, n, m, h, same), ((raw, n), all))
  ]
]

fetch_jobs-All :
    (fallback : Text) (enrich : List (Text × TrackedJobEnrich)) (get : Text → Option RawJob)
    (ids : List Text)
    → All (λ id. (raw : RawJob) × (get id ≡ some raw)) ids
    → (jobs : List TrackedJob) × (fetch_jobs fallback enrich get ids ≡ some jobs)
unfolding fetch_jobs
fetch_jobs-All fallback enrich get [] h = ([], refl)
fetch_jobs-All fallback enrich get (id ∷ ids) ((raw, n), h) =
    let (jobs, m) = fetch_jobs-All fallback enrich get ids h in
    (job_of fallback enrich id raw ∷ jobs, rw (n, m) refl)

length-map_with :
    (s : List (Text × DockPublishSnapshot)) (jobs : List TrackedJob)
    → length (map (with_snapshot s) jobs) ≡ length jobs
length-map_with s [] = refl
length-map_with s (job ∷ jobs) = omega (arith, length-map_with s jobs)

-- The dock gets its jobs, one for each tracked id, exactly when the request of every id succeeds; the
-- list and the intents may fail.
fetch_tracked_jobs_iff :
    (rows : Option (List ListRow)) (get : Text → Option RawJob)
    (get_intent : Text → Option DockPublishSnapshot) (ids : List Text) (fallback : Text)
    → ((jobs : List TrackedJob) × ((fetch_tracked_jobs rows get get_intent ids fallback ≡ some jobs)
          × (length jobs ≡ length ids)))
      ↔ All (λ id. (raw : RawJob) × (get id ≡ some raw)) ids
unfolding fetch_tracked_jobs
fetch_tracked_jobs_iff rows get get_intent ids fallback =
    let enrich = fetch_list_enrich ids rows in
    (
      λ (jobs, (h, n)). elim (Option-cases (fetch_jobs fallback enrich get ids)) [
        | inl m ↦
            let gone : fetch_tracked_jobs rows get get_intent ids fallback ≡ none = rw m refl in cc
        | inr (found, m) ↦ (fetch_jobs-some fallback enrich get ids found m).1
      ],
      λ all.
          let (jobs, m) = fetch_jobs-All fallback enrich get ids all in
          let snapshots = fetch_publish_snapshots get_intent jobs in
          (
            map (with_snapshot snapshots) jobs,
            (
              rw m refl,
              length-map_with snapshots jobs ∙ (fetch_jobs-some fallback enrich get ids jobs m).0,
            ),
          ),
    )

get_entry-with_entry :
    {A : Type 0} (b : Bool) (j id : Text) (o : Option A) (rest : List (Text × A)) (a : A)
    → get_entry id (with_entry b j o rest) ≡ some a
    → (get_entry id rest ≡ some a) ⊎ ((b ≡ true) × (j ≡ id) × (o ≡ some a))
unfolding get_entry
get_entry-with_entry true j id (some c) rest a h = elim (Option-cases (get_entry id rest)) [
  | inl n ↦ ground (arith, ===_iff j id, n, h)
  | inr (d, n) ↦ ground (arith, n, h)
]
get_entry-with_entry true j id none rest a h = inl h
get_entry-with_entry false j id o rest a h = inl h

-- Whatever job a snapshot is found for, it is the service's answer for the intent of a completed job
-- with that id.
get_entry-fetch_publish_snapshots :
    (get_intent : Text → Option DockPublishSnapshot) (jobs : List TrackedJob) (id : Text)
    (s : DockPublishSnapshot)
    → get_entry id (fetch_publish_snapshots get_intent jobs) ≡ some s
    → Any
        (λ k.
          (k.id ≡ id)
          × (k.input.status ≡ codes "completed")
          × (get_intent (or_else k.publish_intent_id []) ≡ some s))
        jobs
unfolding get_entry fetch_publish_snapshots
get_entry-fetch_publish_snapshots get_intent [] id s h = ground (arith, h)
get_entry-fetch_publish_snapshots get_intent (job ∷ jobs) id s h =
    let later = fetch_publish_snapshots get_intent jobs in
    let asked = get_intent (or_else job.publish_intent_id []) in
    elim (get_entry-with_entry (wants_snapshot job) job.id id asked later s h) [
      | inl n ↦ inr (get_entry-fetch_publish_snapshots get_intent jobs id s n)
      | inr (wanted, same, answered) ↦ inl (
        same,
        (===_iff job.input.status (codes "completed")).0 (ground (arith, wanted)),
        answered,
      )
    ]
