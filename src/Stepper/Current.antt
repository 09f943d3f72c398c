-- ===== src/Stepper/Current.antt =====
-- Which steps a workflow shows as current.
use influence_platform.Prelude.{
  ℕ, suc, ◌+◌, ◌≡◌, refl, inl, inr, ◌≤◌, ◌<◌, ◌↔◌, Bool, true, false, not, List, [], ◌∷◌, none,
  some, if◌then◌else◌, All, Any, arith, Bool-cases, Option-cases,
}
use influence_platform.Stepper.{
  AppStepperStepStatus, complete, current, AppStepperStep, WorkflowItem, find_index,
  active_index_from_flags, steps_from, steps_from_workflow,
}

abbrev pub is_current : AppStepperStepStatus → Bool
is_current current = true
is_current _ = false

unfoldable pub count_current : List AppStepperStep → ℕ
count_current [] = 0
count_current (s ∷ steps) =
    let rest = count_current steps in if is_current s.status then suc rest else rest

past : (i a : ℕ) (items : List WorkflowItem) → a < i → count_current (steps_from i a items) ≡ 0
unfolding count_current steps_from
past i a [] h = refl
past i a (item ∷ items) h = ground (arith, past (suc i) a items)

count-steps_from : (i a : ℕ) (items : List WorkflowItem) → count_current (steps_from i a items) ≤ 1
unfolding count_current steps_from
count-steps_from i a [] = omega arith
count-steps_from i a (item ∷ items) =
    ground (arith, count-steps_from (suc i) a items, past (suc i) a items)

-- A workflow never shows two current steps.
one_current : (items : List WorkflowItem) → count_current (steps_from_workflow items) ≤ 1
unfolding steps_from_workflow
one_current items = count-steps_from 0 (active_index_from_flags items) items

count-first_incomplete :
    (i a k : ℕ) (items : List WorkflowItem)
    → a ≡ i + k
    → find_index (λ s. not s.done) items ≡ some k
    → count_current (steps_from i a items) ≡ 1
unfolding find_index steps_from count_current
count-first_incomplete i a k [] e h = cc
count-first_incomplete i a k (item ∷ items) e h =
    elim (Option-cases (find_index (λ s. not s.done) items)) [
      | inl n ↦ ground (arith, past (suc i) a items)
      | inr (j, n) ↦ ground (arith, past (suc i) a items, count-first_incomplete (suc i) a j items)
    ]

no_active_index :
    (items : List WorkflowItem)
    → All (λ item. item.active ≡ false) items
    → find_index (λ s. s.active) items ≡ none
unfolding find_index
no_active_index [] h = refl
no_active_index (item ∷ items) (p, h) = ground (arith, no_active_index items h)

some_incomplete :
    (items : List WorkflowItem)
    → Any (λ item. item.done ≡ false) items
    → (k : ℕ) × (find_index (λ s. not s.done) items ≡ some k)
unfolding find_index
some_incomplete [] h = absurd h
some_incomplete (item ∷ items) h = elim (Bool-cases item.done) [
  | inl e ↦ elim h [
    | inl p ↦ cc
    | inr q ↦ let (k, found) = some_incomplete items q in (suc k, rw (e, found) refl)
  ]
  | inr e ↦ (0, rw e)
]

-- With no item flagged active and some item not done, exactly one step is current.
one_current_of_incomplete :
    (items : List WorkflowItem)
    → All (λ item. item.active ≡ false) items
    → Any (λ item. item.done ≡ false) items
    → count_current (steps_from_workflow items) ≡ 1
unfolding steps_from_workflow active_index_from_flags
one_current_of_incomplete items none_active some_open =
    let (k, found) = some_incomplete items some_open in
    let none_found = no_active_index items none_active in
    rw (none_found, found) (count-first_incomplete 0 k k items (omega arith) found)

-- An item and its step have the same texts, and the step is complete exactly when the item is done.
abbrev pub Fits : List WorkflowItem → List AppStepperStep → Type 0
Fits [] [] = Unit
Fits (item ∷ items) (step ∷ steps) =
    ((step.id ≡ item.id)
      × (step.label ≡ item.label)
      × (step.hint ≡ item.hint)
      × ((step.status ≡ complete) ↔ (item.done ≡ true)))
    × Fits items steps
Fits _ _ = ⊥

steps_from-Fits : (i a : ℕ) (items : List WorkflowItem) → Fits items (steps_from i a items)
unfolding steps_from
steps_from-Fits i a [] = tt
steps_from-Fits i a (item ∷ items) =
    ((refl, refl, refl, ground arith), steps_from-Fits (suc i) a items)

-- Each item gives one step, in order, with its texts; the step is complete exactly when the item is
-- done, whatever its flag.
steps_from_workflow-Fits : (items : List WorkflowItem) → Fits items (steps_from_workflow items)
unfolding steps_from_workflow
steps_from_workflow-Fits items = steps_from-Fits 0 (active_index_from_flags items) items
