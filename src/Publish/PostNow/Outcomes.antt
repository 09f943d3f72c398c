-- ===== src/Publish/PostNow/Outcomes.antt =====
-- What the panel shows after each answer.
use influence_platform.Prelude.{◌≡◌, refl, ◌∙◌, ap, inl, inr, true, false, [], Option, none, some}
use influence_platform.Js.Text.{Text, codes, trim, to_lower_case, truthy}
use influence_platform.Outcome.{
  PublishIntentResponse, PublicationOutcome, OutcomeInput, post_now, failure, normalize_status,
  resolve_publication_outcome, is_publication_outcome_terminal,
}
use influence_platform.Outcome.Variant.{AllFailed, failure_iff}
use influence_platform.Outcome.Terminal.{stops, terminal-resolve}
use influence_platform.Publish.PostNow.{
  error, Panel, empty_intent, with_status, created, dispatch_answered,
}

-- A failure that stops the polling.
abbrev pub IsFinalFailure : Option PublicationOutcome → Type 0
IsFinalFailure none = ⊥
IsFinalFailure (some o) = (o.variant ≡ failure) × (is_publication_outcome_terminal o ≡ true)

final :
    (i : OutcomeInput)
    → (resolve_publication_outcome i).variant ≡ failure
    → IsFinalFailure (some (resolve_publication_outcome i))
final i v = (v, terminal-resolve i ∙ ap (λ x. stops x i) v)

failed_normal : normalize_status (codes "failed") ≡ codes "failed"
unfolding normalize_status trim to_lower_case
failed_normal = refl

-- The input of the outcome of a post that was not dispatched.
abbrev pub input : PublishIntentResponse → Option Text → OutcomeInput
input i message = record {
  intent = i;
  action = post_now;
  dispatched = false;
  dispatch_count = none;
  error_message = message;
}

-- When the intent cannot be created, the panel shows a failure that is final, whatever the message.
creation_fails :
    (message : Text) (p : Panel)
    → IsFinalFailure (created (error message) p).1.outcome
      × ((created (error message) p).1.in_flight ≡ false)
      × ((created (error message) p).1.error_text ≡ some message)
unfolding created
creation_fails message p =
    let i = input empty_intent (some message) in
    (final i ((failure_iff i).1 (inr (inl failed_normal))), refl, refl)

-- When the dispatch fails with a message, the panel shows a failure that is final, whatever the intent.
pub dispatch_fails :
    (i : PublishIntentResponse) (message : Text) (p : Panel)
    → truthy message ≡ true
    → IsFinalFailure (dispatch_answered i (error message) p).1.outcome
      × ((dispatch_answered i (error message) p).1.in_flight ≡ false)
unfolding dispatch_answered
dispatch_fails i message p h =
    let j = input (with_status i i.status) (some message) in
    (final j ((failure_iff j).1 (inl h)), refl)

-- When the dispatch fails with an empty message, and the intent is not failed and has no targets that
-- all failed, the panel shows no failure: the failed dispatch leaves no trace in the outcome.
dispatch_fails_silently :
    (i : PublishIntentResponse) (p : Panel)
    → ¬ (normalize_status i.status ≡ codes "failed")
    → ¬ AllFailed (input i (some []))
    → (o : PublicationOutcome) × ((dispatch_answered i (error []) p).1.outcome ≡ some o)
      × (¬ (o.variant ≡ failure))
unfolding dispatch_answered
dispatch_fails_silently i p h k =
    let j = input i (some []) in
    (
      resolve_publication_outcome j,
      refl,
      λ v. elim ((failure_iff j).0 v) [ inl e ↦ cc | inr (inl e) ↦ h e | inr (inr e) ↦ k e ],
    )
