-- ===== src/Publish/Tests.antt =====
-- The theorems of the publish panel at concrete inputs.
use influence_platform.Prelude.{◌≡◌, refl, true, false, List, [], ◌∷◌, none, some, arith, inl}
use mathlib.Core.List.{Perm, Permᴰ}
use influence_platform.Js.Text.{codes, ◌===◌, trim, to_lower_case}
use influence_platform.Outcome.{
  PublishIntentResponse, PublicationOutcome, queued, post_now, normalize_status,
}
use influence_platform.Publish.{Form, post, publish_now, scheduled, can_submit, schedule_ok}
use influence_platform.Publish.Intent.{IntentPanel, on_create_intent, SendsMode, submitted_mode}
use influence_platform.Publish.Polling.{polled_intent, refresh, polling_ends}
use influence_platform.Publish.Key.{IntentPayload, build_publish_idempotency_key, key_ignores_order}
use influence_platform.Publish.PostNow.{
  Answer, ok, error, Event, clicks, answers, run, fresh, dispatch_answered,
}
use influence_platform.Publish.PostNow.Guard.{IsGuarded, run-IsGuarded}
use influence_platform.Publish.PostNow.Outcomes.{IsFinalFailure, dispatch_fails}

abbrev form : Form
form = record {
  job_id = codes "j1";
  selected_asset_id = codes "a1";
  content_type = post;
  caption = codes "Lyon";
  hashtag_tags = codes "#sun" ∷ [];
  mode = publish_now;
  scheduled_for = none;
  selected_accounts = codes "b" ∷ codes "a" ∷ [];
  reel_enabled = true;
}

swapped : Perm form.selected_accounts (codes "a" ∷ codes "b" ∷ [])
swapped = ∣ Permᴰ.swap refl refl ∣₁

key_ignores_order_example :
    build_publish_idempotency_key form publish_now
    ≡ build_publish_idempotency_key
        (record form { selected_accounts = codes "a" ∷ codes "b" ∷ [] })
        publish_now
key_ignores_order_example = key_ignores_order form (codes "a" ∷ codes "b" ∷ []) publish_now swapped

abbrev queued_intent : PublishIntentResponse
queued_intent = record { intent_id = codes "i1"; status = codes "queued"; targets = none }

-- Two clicks, the second before the first has an answer; then both answers of the first handler.
abbrev schedule : List Event
schedule =
    clicks true none
    ∷ clicks true none
    ∷ answers 0 (ok queued_intent) (error [])
    ∷ answers 0 (error []) (ok (record { dispatched_targets = 2; status = none }))
    ∷ []

fresh-IsGuarded : IsGuarded fresh
fresh-IsGuarded = record { exclusive = refl; loading = refl; dispatched_once = omega arith }

run-IsGuarded_example : IsGuarded (run schedule fresh)
run-IsGuarded_example = run-IsGuarded schedule fresh fresh-IsGuarded

dispatch_fails_example :
    IsFinalFailure (dispatch_answered queued_intent (error (codes "offline")) fresh).1.outcome
    × ((dispatch_answered queued_intent (error (codes "offline")) fresh).1.in_flight ≡ false)
dispatch_fails_example = dispatch_fails queued_intent (codes "offline") fresh refl

other_status : (normalize_status queued_intent.status === codes "failed") ≡ false
unfolding normalize_status trim to_lower_case ◌===◌
other_status = refl

abbrev later : Form
later = record form { mode = scheduled; scheduled_for = some 2000 }

abbrev service : IntentPayload → Answer PublishIntentResponse
service payload = ok queued_intent

abbrev empty_panel : IntentPanel
empty_panel = record { loading = false; error_text = none; outcome = none; activities = [] }

submitted_mode_example :
    (payload : IntentPayload) × (((on_create_intent
          (codes "late")
          1000
          true
          none
          later
          service
          empty_panel).1
        ≡ some payload)
      × SendsMode 1000 later payload)
submitted_mode_example =
    submitted_mode 1000 later (codes "a1" ∷ []) (codes "a" ∷ codes "b" ∷ []) false false
      (codes "late") service empty_panel (unfold can_submit schedule_ok ◌===◌ in refl)

abbrev shown : PublicationOutcome
shown = record {
  variant = queued;
  intent = queued_intent;
  action = post_now;
  dispatched = true;
  dispatch_count = some 2;
  error_message = none;
}

abbrev published_intent : PublishIntentResponse
published_intent = record queued_intent { status = codes " Published" }

polling_ends_example :
    polled_intent (refresh (codes "i1") false (some published_intent) (some shown)) ≡ none
polling_ends_example =
    polling_ends published_intent shown (inl (unfold normalize_status trim to_lower_case in refl))
