-- ===== src/Outcome/Terminal.antt =====
-- Which resolved outcomes are terminal, that is, stop the polling of the publication.
use influence_platform.Prelude.{
  ◌≡◌, refl, Bool, true, false, ◌||◌, not, List, [], ◌∷◌, map, every, arith, ◌<◌,
}
use influence_platform.Js.Text.{Text, codes, ◌===◌}
use influence_platform.Outcome.{
  PublicationOutcomeVariant, OutcomeInput, success, queued, partial_failure, failure, is_failed,
  normalize_status, summarize_publish_targets, count_targets, target_statuses,
  resolve_publication_outcome, is_publication_outcome_terminal,
}
use influence_platform.Outcome.Targets.{is_failed-ne_published, all_targets_failed_eq}

-- With a failed target not all are published.
failed-not_all_published :
    (ts : List Text)
    → 0 < count_targets is_failed ts
    → every (λ s. s === codes "published") (map normalize_status ts) ≡ false
unfolding count_targets
failed-not_all_published [] h = absurd (omega arith)
failed-not_all_published (t ∷ ts) h =
    ground (arith, is_failed-ne_published (normalize_status t), failed-not_all_published ts)

failed-all_published :
    (ts : List Text)
    → 0 < count_targets is_failed ts
    → (summarize_publish_targets ts).all_published ≡ false
unfolding summarize_publish_targets
failed-all_published [] h = refl
failed-all_published (t ∷ ts) h = failed-not_all_published (t ∷ ts) h

-- What the polling is told for each variant.
abbrev pub stops : PublicationOutcomeVariant → OutcomeInput → Bool
stops success i = true
stops failure i = true
stops queued i = false
stops partial_failure i =
    normalize_status i.intent.status === codes "published"
    || not (summarize_publish_targets (target_statuses i.intent)).any_in_flight

-- A resolved outcome is terminal when it is a success or a failure, and not when it is queued; a
-- partial failure is terminal once the intent is published or no target is in flight.
pub terminal-resolve :
    (i : OutcomeInput)
    → is_publication_outcome_terminal (resolve_publication_outcome i)
      ≡ stops (resolve_publication_outcome i).variant i
unfolding is_publication_outcome_terminal resolve_publication_outcome
terminal-resolve i =
    let ts = target_statuses i.intent in
    ground (arith, all_targets_failed_eq ts, failed-all_published ts)
