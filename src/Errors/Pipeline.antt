-- ===== src/Errors/Pipeline.antt =====
-- The summary of a job's failures.
use influence_platform.Prelude.{◌≡◌, refl, ◌↔◌, false, List, [], ◌∷◌, ◌++◌, none, some, arith, All}
use influence_platform.Js.Text.{Text}
use influence_platform.Errors.{
  PipelineStep, PipelineScene, has_failure, step_parts, scene_parts, summary_of,
  summarize_job_pipeline_errors,
}

step_parts_nil :
    (steps : List PipelineStep)
    → (step_parts steps ≡ []) ↔ All (λ s. has_failure s.status s.error_message ≡ false) steps
unfolding step_parts
step_parts_nil [] = (λ _. tt, λ _. refl)
step_parts_nil (s ∷ steps) = ground (arith, step_parts_nil steps)

scene_parts_nil :
    (scenes : List PipelineScene)
    → (scene_parts scenes ≡ []) ↔ All (λ s. has_failure s.status s.error_message ≡ false) scenes
unfolding scene_parts
scene_parts_nil [] = (λ _. tt, λ _. refl)
scene_parts_nil (s ∷ scenes) = ground (arith, scene_parts_nil scenes)

summary_nil : (xs ys : List Text) → (summary_of (xs ++ ys) ≡ none) ↔ ((xs ≡ []) × (ys ≡ []))
unfolding summary_of
summary_nil [] [] = (λ _. (refl, refl), λ _. refl)
summary_nil [] (y ∷ ys) = ground arith
summary_nil (x ∷ xs) ys = ground arith

-- There is no summary exactly when no step and no scene has failed with a message.
no_summary_iff :
    (steps : List PipelineStep) (scenes : List PipelineScene)
    → (summarize_job_pipeline_errors (some steps) (some scenes) ≡ none) ↔ (
        All (λ s. has_failure s.status s.error_message ≡ false) steps
        × All (λ s. has_failure s.status s.error_message ≡ false) scenes)
unfolding summarize_job_pipeline_errors
no_summary_iff steps scenes =
    let (to, from) = summary_nil (step_parts steps) (scene_parts scenes) in
    (
      λ e. ((step_parts_nil steps).0 (to e).0, (scene_parts_nil scenes).0 (to e).1),
      λ h. from ((step_parts_nil steps).1 h.0, (scene_parts_nil scenes).1 h.1),
    )
