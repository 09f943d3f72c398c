-- ===== src/Workflow.antt =====
-- The workflow of the generation studio: dashboard/src/lib/generation-studio-workflow.ts.
use influence_platform.Prelude.{
  ℕ, ◌≡◌, refl, ◌≢◌, ◌⊎◌, inl, ◌↔◌, Bool, true, false, ◌||◌, not, List, [], ◌∷◌, Option, none, some,
  if◌then◌else◌, or_else, arith,
}
use influence_platform.Js.Text.{Text, codes, ◌===◌, truthy?, to_lower_case}
use influence_platform.Js.Trim.{===_iff}

pub data StudioWorkflowPhase : Type 0 where
  drafted generating generated publishing published : StudioWorkflowPhase

pub data StudioPublishActivity : Type 0 where
  idle intent dispatched : StudioPublishActivity

pub data StudioTab : Type 0 where
  creation publication : StudioTab

pub data StudioUserWorkflowPhase : Type 0 where
  configure generate review publish : StudioUserWorkflowPhase

abbrev pub studio_user_workflow_phases : List StudioUserWorkflowPhase
studio_user_workflow_phases = configure ∷ generate ∷ review ∷ publish ∷ []

-- `String(jobStatus ?? "").toLowerCase()`
abbrev pub lower_status : Option Text → Text
lower_status status = to_lower_case (or_else status [])

abbrev pub is_active : Text → Bool
is_active s = s === codes "running" || s === codes "pending" || s === codes "cancelling"

phase_of_status : Text → StudioWorkflowPhase
phase_of_status status =
    if status === codes "completed"
    then generated
    else if is_active status
    then generating
    else if status === codes "draft" || status === codes "ready"
    then drafted
    else drafted

unfoldable pub derive_studio_workflow_phase :
    Option Text → StudioPublishActivity → StudioWorkflowPhase
unfolding phase_of_status
derive_studio_workflow_phase job_status dispatched = publishing
derive_studio_workflow_phase job_status intent = generated
derive_studio_workflow_phase job_status idle = phase_of_status (lower_status job_status)

unfoldable pub is_publication_tab_unlocked : StudioWorkflowPhase → Bool
is_publication_tab_unlocked generated = true
is_publication_tab_unlocked publishing = true
is_publication_tab_unlocked published = true
is_publication_tab_unlocked _ = false

unfoldable pub parse_studio_tab : Option Text → StudioTab
parse_studio_tab none = creation
parse_studio_tab (some s) = if s === codes "publication" then publication else creation

user_phase_of_status : Text → StudioUserWorkflowPhase
user_phase_of_status status =
    if is_active status
    then generate
    else if status === codes "completed"
    then review
    else if status === codes "failed"
        || status === codes "cancelled"
        || status === codes "draft"
        || status === codes "ready"
    then generate
    else configure

unfoldable pub resolve_studio_user_workflow_phase :
    StudioTab → Option Text → Option Text → StudioUserWorkflowPhase
unfolding user_phase_of_status
resolve_studio_user_workflow_phase publication job_id job_status = publish
resolve_studio_user_workflow_phase creation job_id job_status =
    if not (truthy? job_id) || not (truthy? job_status)
    then configure
    else user_phase_of_status (lower_status job_status)

-- `indexOf`; every phase is in the list, so -1 does not occur.
unfoldable pub studio_user_workflow_phase_index : StudioUserWorkflowPhase → ℕ
studio_user_workflow_phase_index configure = 0
studio_user_workflow_phase_index generate = 1
studio_user_workflow_phase_index review = 2
studio_user_workflow_phase_index publish = 3

-- The publication tab is open exactly when a publication was begun or the job is completed.
unlocked_iff :
    (job_status : Option Text) (activity : StudioPublishActivity)
    → (is_publication_tab_unlocked (derive_studio_workflow_phase job_status activity) ≡ true)
      ↔ ((activity ≢ idle) ⊎ (lower_status job_status ≡ codes "completed"))
unfolding is_publication_tab_unlocked derive_studio_workflow_phase
unlocked_iff job_status idle = ground (arith, ===_iff (lower_status job_status) (codes "completed"))
unlocked_iff job_status intent = (λ _. inl (λ e. cc), λ _. refl)
unlocked_iff job_status dispatched = (λ _. inl (λ e. cc), λ _. refl)

-- On the creation tab, with a job that has a status, the review step is shown exactly when the
-- publication tab is open without a publication begun.
review_iff :
    (job_id job_status : Option Text)
    → truthy? job_id ≡ true
    → truthy? job_status ≡ true
    → (resolve_studio_user_workflow_phase creation job_id job_status ≡ review)
      ↔ (is_publication_tab_unlocked (derive_studio_workflow_phase job_status idle) ≡ true)
unfolding resolve_studio_user_workflow_phase is_publication_tab_unlocked
    derive_studio_workflow_phase
review_iff job_id job_status h k =
    let s = lower_status job_status in
    ground (
      arith,
      ===_iff s (codes "completed"),
      ===_iff s (codes "running"),
      ===_iff s (codes "pending"),
      ===_iff s (codes "cancelling"),
    )
