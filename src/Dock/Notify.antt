-- ===== src/Dock/Notify.antt =====
-- The notifications of the dock: the effect over the fetched jobs in
-- dashboard/src/components/generation/GenerationJobProgressDock.tsx. `prevStatusRef.current` is an
-- association list, and a toast is its kind with the job's title.
use influence_platform.Prelude.{
  ◌≡◌, ap, ◌∙◌, refl, ◌⊎◌, ◌≢◌, Bool, true, false, ◌&&◌, not, List, [], ◌∷◌, ◌++◌, Option, none,
  some, if◌then◌else◌, arith, ◌↔◌,
}
use influence_platform.Js.Text.{Text, codes, ◌===◌, truthy}
use influence_platform.Js.Trim.{===_iff}
use influence_platform.Dock.{is_dock_job_live}

pub record FetchedJob : Type 0 where
  pub id : Text
  pub status : Text
  pub title : Text

pub data Toast : Type 0 where
  finished failed cancelled : Text → Toast

abbrev pub StatusById : Type 0
StatusById = List (Text × Text)

unfoldable pub get_status : Text → StatusById → Option Text
get_status id [] = none
get_status id ((j, s) ∷ rest) = if j === id then some s else get_status id rest

unfoldable pub set_status : Text → Text → StatusById → StatusById
set_status id s [] = (id, s) ∷ []
set_status id s ((j, t) ∷ rest) = if j === id then (id, s) ∷ rest else (j, t) ∷ set_status id s rest

unfoldable pub toast_of : FetchedJob → List Toast
toast_of j =
    if j.status === codes "completed"
    then finished j.title ∷ []
    else if j.status === codes "failed"
    then failed j.title ∷ []
    else if j.status === codes "cancelled"
    then cancelled j.title ∷ []
    else []

-- `was && isDockJobLive(was) && !isDockJobLive(j.status)`
unfoldable pub left_live : Option Text → Text → Bool
left_live none status = false
left_live (some was) status = truthy was && is_dock_job_live was && not (is_dock_job_live status)

-- The loop: `prev` stays, `next` is written.
unfoldable pub notify_jobs : StatusById → StatusById → List FetchedJob → StatusById × List Toast
notify_jobs prev next [] = (next, [])
notify_jobs prev next (j ∷ jobs) =
    let (final, toasts) = notify_jobs prev (set_status j.id j.status next) jobs in
    (final, (if left_live (get_status j.id prev) j.status then toast_of j else []) ++ toasts)

-- One run of the effect; no jobs, no change.
unfoldable pub notify : StatusById → List FetchedJob → StatusById × List Toast
unfolding notify_jobs
notify prev jobs = notify_jobs prev prev jobs

get-set_status :
    (id j s : Text) (m : StatusById)
    → get_status j (set_status id s m) ≡ (if id === j then some s else get_status j m)
unfolding get_status set_status
get-set_status id j s [] = refl
get-set_status id j s ((k, t) ∷ m) =
    ground (arith, ===_iff k id, ===_iff k j, ===_iff id j, get-set_status id j s m)

-- The status that the last entry for the id has in a list of fetched jobs, over a default.
abbrev pub last_status : Text → Option Text → List FetchedJob → Option Text
last_status id old [] = old
last_status id old (j ∷ jobs) = last_status id (if j.id === id then some j.status else old) jobs

notify_jobs-status :
    (prev next : StatusById) (jobs : List FetchedJob) (id : Text)
    → get_status id (notify_jobs prev next jobs).0 ≡ last_status id (get_status id next) jobs
unfolding notify_jobs
notify_jobs-status prev next [] id = refl
notify_jobs-status prev next (j ∷ jobs) id =
    notify_jobs-status prev (set_status j.id j.status next) jobs id
    ∙ ap (λ old. last_status id old jobs) (get-set_status j.id id j.status next)

-- After a run the dock remembers the fetched status of each job, and keeps the others.
notify-status :
    (prev : StatusById) (jobs : List FetchedJob) (id : Text)
    → get_status id (notify prev jobs).0 ≡ last_status id (get_status id prev) jobs
unfolding notify
notify-status prev jobs id = notify_jobs-status prev prev jobs id

-- A status notifies once at most: when the same job is fetched with it again, there is no toast.
notify_once :
    (prev : StatusById) (j : FetchedJob) → (notify (notify prev (j ∷ [])).0 (j ∷ [])).1 ≡ []
unfolding notify notify_jobs left_live
notify_once prev j = ground (arith, get-set_status j.id j.id j.status prev, ===_iff j.id j.id)

live-truthy : (s : Text) → is_dock_job_live s ≡ true → truthy s ≡ true
unfolding is_dock_job_live ◌===◌
live-truthy [] h = cc
live-truthy (c ∷ s) h = refl

completed_not_live : is_dock_job_live (codes "completed") ≡ false
unfolding is_dock_job_live ◌===◌
completed_not_live = refl

failed_not_live : is_dock_job_live (codes "failed") ≡ false
unfolding is_dock_job_live ◌===◌
failed_not_live = refl

cancelled_not_live : is_dock_job_live (codes "cancelled") ≡ false
unfolding is_dock_job_live ◌===◌
cancelled_not_live = refl

-- A toast is shown for a job of a run of one exactly when it was live and is no longer, with one of
-- the three final statuses.
notify_iff :
    (prev : StatusById) (j : FetchedJob) (was : Text)
    → get_status j.id prev ≡ some was
    → ((notify prev (j ∷ [])).1 ≢ []) ↔ (
        (is_dock_job_live was ≡ true)
        × ((j.status ≡ codes "completed")
            ⊎ (j.status ≡ codes "failed")
            ⊎ (j.status ≡ codes "cancelled")))
unfolding notify notify_jobs left_live toast_of
notify_iff prev j was h = (
  λ shown. ground (
    arith,
    ===_iff j.status (codes "completed"),
    ===_iff j.status (codes "failed"),
    ===_iff j.status (codes "cancelled"),
  ),
  λ (live, final) none_shown. ground (
    arith,
    live-truthy was,
    completed_not_live,
    failed_not_live,
    cancelled_not_live,
    ===_iff j.status (codes "completed"),
    ===_iff j.status (codes "failed"),
    ===_iff j.status (codes "cancelled"),
  ),
)
