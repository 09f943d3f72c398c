-- ===== src/JobProgress/Steps.antt =====
-- Which step of a job counts as the active one.
use influence_platform.Prelude.{
  ◌≡◌, ◌⊎◌, inl, inr, Bool, true, false, ◌&&◌, none, some, List, [], ◌∷◌, arith, Bool-cases,
  Option-cases, find, or_else, Any, All,
}
use influence_platform.Js.Text.{codes, ◌===◌}
use influence_platform.Js.Trim.{===_iff}
use influence_platform.JobProgress.{JobStepLike, JobProgressInput, active_step}

-- What `find` returns is a member that passes, and nothing found means that no member passes.
find-Any :
    (p : JobStepLike → Bool) (xs : List JobStepLike) (s : JobStepLike)
    → find p xs ≡ some s
    → Any (λ t. t ≡ s) xs × (p s ≡ true)
find-Any p [] s h = cc
find-Any p (x ∷ xs) s h = elim (Bool-cases (p x)) [
  | inl e ↦ let same : x ≡ s = ground arith in (inl same, rw same at e)
  | inr e ↦ let (m, q) = find-Any p xs s (ground arith) in (inr m, q)
]

find-none :
    (p : JobStepLike → Bool) (xs : List JobStepLike) → find p xs ≡ none → All (λ s. p s ≡ false) xs
find-none p [] h = tt
find-none p (x ∷ xs) h = elim (Bool-cases (p x)) [
  | inl e ↦ absurd (ground arith)
  | inr e ↦ (e, find-none p xs (ground arith))
]

module _ (job : JobProgressInput) where
  abbrev pub steps_of : List JobStepLike
  steps_of = or_else job.steps []

  abbrev pub NoneRunning : Type 0
  NoneRunning = All (λ s. s.status === codes "running" ≡ false) steps_of

-- The active step is a step of the job that is running, or else one that is pending while the job
-- runs and none of its steps does.
active_step_sound :
    (job : JobProgressInput) (s : JobStepLike)
    → active_step job ≡ some s
    → Any (λ t. t ≡ s) (steps_of job)
      × ((s.status ≡ codes "running")
          ⊎ ((s.status ≡ codes "pending") × (job.status ≡ codes "running") × NoneRunning job))
unfolding active_step
active_step_sound job s h =
    let running = λ (t : JobStepLike). t.status === codes "running" in
    let waiting =
      λ (t : JobStepLike). t.status === codes "pending" && job.status === codes "running" in
    let run = ===_iff s.status (codes "running") in
    let pend = ===_iff s.status (codes "pending") in
    let on = ===_iff job.status (codes "running") in
    elim (Option-cases (find running (steps_of job))) [
      | inl e ↦
          let (m, q) = find-Any waiting (steps_of job) s (rw e at h) in
          (m, inr (ground (arith, pend), ground (arith, on), find-none running (steps_of job) e))
      | inr (t, e) ↦
          let same : t ≡ s = ground arith in
          let (m, q) = find-Any running (steps_of job) s (rw same at e) in (m, inl (run.0 q))
    ]
