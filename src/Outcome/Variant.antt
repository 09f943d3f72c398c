-- ===== src/Outcome/Variant.antt =====
-- When `resolvePublicationOutcome` reports each variant.
use influence_platform.Prelude.{
  ◌≡◌, ◌↔◌, ◌⊎◌, inl, inr, true, false, List, arith, ◌<◌, Bool-cases, sym, ◌∙◌,
}
use influence_platform.Js.Text.{Text, codes, truthy?}
use influence_platform.Js.Trim.{===_iff}
use influence_platform.Outcome.{
  OutcomeInput, partial_failure, failure, is_failed, is_ok, normalize_status, count_targets,
  all_targets_failed, resolve_publication_outcome, target_statuses,
}
use influence_platform.Outcome.Targets.{
  SomeTarget, EveryTarget, IsNonempty, count_targets-pos, pos-count_targets, all_targets_failed_eq,
  all_failed_iff,
}

-- A target in order is not failed.
not_all_failed : (ts : List Text) → 0 < count_targets is_ok ts → all_targets_failed ts ≡ false
unfolding all_targets_failed
not_all_failed ts h = ground arith

module _ (i : OutcomeInput) where
  abbrev pub HasError : Type 0
  HasError = truthy? i.error_message ≡ true

  abbrev pub IntentIs : Text → Type 0
  IntentIs s = normalize_status i.intent.status ≡ s

  abbrev pub AllFailed : Type 0
  AllFailed =
      IsNonempty (target_statuses i.intent) × EveryTarget is_failed (target_statuses i.intent)

  -- `failure` is reported exactly when there is an error message, the intent failed, or there are
  -- targets and each of them failed.
  pub failure_iff :
      ((resolve_publication_outcome i).variant ≡ failure)
      ↔ (HasError ⊎ IntentIs (codes "failed") ⊎ AllFailed)
  unfolding resolve_publication_outcome
  failure_iff =
      let ts = target_statuses i.intent in
      let failed = ===_iff (normalize_status i.intent.status) (codes "failed") in
      let every = all_failed_iff ts in
      let same = all_targets_failed_eq ts in
      (
        λ h. elim (Bool-cases (all_targets_failed ts)) [
          | inl e ↦ inr (inr (every.0 (sym same ∙ e)))
          | inr e ↦ ground (arith, failed)
        ],
        λ h. elim h [
          | inl e ↦ ground arith
          | inr (inl e) ↦ ground (arith, failed)
          | inr (inr e) ↦ let f : all_targets_failed ts ≡ true = same ∙ every.1 e in ground arith
        ],
      )

  -- `partial_failure` is reported exactly when there is no error message, the intent is not failed,
  -- some target failed and some target is in order.
  pub partial_failure_iff : ((resolve_publication_outcome i).variant ≡ partial_failure) ↔ (
      (¬ HasError)
      × (¬ IntentIs (codes "failed"))
      × SomeTarget is_failed (target_statuses i.intent)
      × SomeTarget is_ok (target_statuses i.intent))
  unfolding resolve_publication_outcome
  partial_failure_iff =
      let ts = target_statuses i.intent in
      let failed = ===_iff (normalize_status i.intent.status) (codes "failed") in
      (
        λ h. (
          λ e. ground arith,
          λ e. ground (arith, failed),
          pos-count_targets is_failed ts (ground arith),
          pos-count_targets is_ok ts (ground arith),
        ),
        λ h.
            let some_failed = count_targets-pos is_failed ts h.2 in
            let some_ok = count_targets-pos is_ok ts h.3 in
            ground (arith, failed, not_all_failed ts some_ok),
      )
