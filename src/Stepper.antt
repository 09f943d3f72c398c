-- ===== src/Stepper.antt =====
-- The stepper: dashboard/src/lib/platform/stepper.ts.
pub mod Current
use influence_platform.Prelude.{
  ℕ, zero, suc, ◌-◌, Bool, true, false, not, List, [], ◌∷◌, Option, none, some, ltb, ◌==◌,
  if◌then◌else◌, length, or_try, or_else,
}
use influence_platform.Js.Text.{Text}
use mathlib.Core.Option

pub data AppStepperStepStatus : Type 0 where
  complete current upcoming : AppStepperStepStatus

pub record AppStepperStep : Type 0 where
  pub id : Text
  pub label : Text
  pub hint : Option Text
  pub status : AppStepperStepStatus

pub record WorkflowItem : Type 0 where
  pub id : Text
  pub label : Text
  pub done : Bool
  pub active : Bool
  pub hint : Option Text

unfoldable pub derive_step_status : ℕ → ℕ → AppStepperStepStatus
derive_step_status index active_index =
    if ltb index active_index then complete else if index == active_index then current else upcoming

-- `items.findIndex(test)`; -1 is `none`.
unfoldable pub find_index : (WorkflowItem → Bool) → List WorkflowItem → Option ℕ
find_index p [] = none
find_index p (x ∷ xs) = if p x then some 0 else Option.map suc (find_index p xs)

-- `Math.max(0, steps.length - 1)` is the truncated difference.
unfoldable pub active_index_from_flags : List WorkflowItem → ℕ
active_index_from_flags items =
    or_else (or_try (find_index (λ s. s.active) items) (find_index (λ s. not s.done) items))
      (length items - 1)

abbrev pub status_at : WorkflowItem → ℕ → ℕ → AppStepperStepStatus
status_at item index active_index =
    if item.done then complete else if index == active_index then current else upcoming

abbrev pub step_at : WorkflowItem → ℕ → ℕ → AppStepperStep
step_at item index active_index = record {
  id = item.id;
  label = item.label;
  hint = item.hint;
  status = status_at item index active_index;
}

unfoldable pub steps_from : ℕ → ℕ → List WorkflowItem → List AppStepperStep
steps_from index active_index [] = []
steps_from index active_index (item ∷ items) =
    step_at item index active_index ∷ steps_from (suc index) active_index items

unfoldable pub steps_from_workflow : List WorkflowItem → List AppStepperStep
unfolding steps_from
steps_from_workflow items = steps_from 0 (active_index_from_flags items) items
