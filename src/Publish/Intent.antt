-- ===== src/Publish/Intent.antt =====
-- `onCreateIntent` of the publish panel, from the click to the answer of the service.
use influence_platform.Prelude.{
  ℕ, ◌≡◌, refl, ◌<◌, Bool, true, false, ◌&&◌, not, List, ◌∷◌, Option, none, some, if◌then◌else◌,
  arith,
}
use influence_platform.Js.Text.{Text}
use influence_platform.Outcome.{
  PublishIntentResponse, PublicationOutcome, PublicationOutcomeAction, save_draft, schedule,
  create_intent, resolve_publication_outcome,
}
use influence_platform.Publish.{
  Form, PublishMode, publish_now, scheduled, save_for_later, resolve_payload_mode,
  has_schedule_error, schedule_ok, can_submit,
}
use influence_platform.Publish.Key.{IntentPayload, schedule_of, build_intent_payload}
use influence_platform.Publish.PostNow.{Answer, ok, error, Activity, intent}

pub record IntentPanel : Type 0 where
  pub loading : Bool
  pub error_text : Option Text
  pub outcome : Option PublicationOutcome
  pub activities : List Activity

-- `forcedMode ?? (mode === "scheduled" && !scheduledFor ? "publish_now" : mode)`
unfoldable pub intent_mode : Option PublishMode → Form → PublishMode
intent_mode (some forced) form = forced
intent_mode none form = resolve_payload_mode form.mode form.scheduled_for

abbrev is_scheduled : PublishMode → Bool
is_scheduled scheduled = true
is_scheduled _ = false

unfoldable pub intent_action : Option PublishMode → PublishMode → PublicationOutcomeAction
intent_action (some save_for_later) payload_mode = save_draft
intent_action forced payload_mode = if is_scheduled payload_mode then schedule else create_intent

-- The `try`, `catch` and `finally` blocks. Loading is set before them and unset at their end.
unfoldable pub intent_answered :
    PublicationOutcomeAction → Answer PublishIntentResponse → IntentPanel → IntentPanel
intent_answered action (ok response) p = record p {
  loading = false;
  error_text = none;
  outcome = some (
      resolve_publication_outcome (record {
        intent = response;
        action = action;
        dispatched = false;
        dispatch_count = none;
        error_message = none;
      }));
  activities = intent ∷ p.activities;
}
intent_answered action (error message) p = record p {
  loading = false;
  error_text = some message;
  outcome = none;
}

-- The handler of one render of the panel: `canSubmit` and `hasScheduleError` are values of that render, and
-- the time they were computed at is given. The panel afterwards and the payload that was sent, if any. `api` is what the service answers.
unfoldable pub on_create_intent :
    Text
    → ℕ
    → Bool
    → Option PublishMode
    → Form
    → (IntentPayload → Answer PublishIntentResponse)
    → IntentPanel
    → IntentPanel × Option IntentPayload
on_create_intent schedule_error rendered_at can forced form api p =
    let mode = intent_mode forced form in
    let payload = build_intent_payload form mode in
    if not can
    then (p, none)
    else if is_scheduled mode && has_schedule_error rendered_at form.mode form.scheduled_for
    then (record p { error_text = some schedule_error }, none)
    else (intent_answered (intent_action forced mode) (api payload) p, some payload)

-- The time that is sent for a mode: a schedule has the form's time, which lay ahead at the render, the
-- other modes have none.
abbrev pub TimeFits : ℕ → PublishMode → Option ℕ → Option ℕ → Type 0
TimeFits rendered_at scheduled (some t) sent = (sent ≡ some t) × (rendered_at < t)
TimeFits rendered_at scheduled none sent = ⊥
TimeFits rendered_at _ time sent = sent ≡ none

-- The mode of the form is sent, and the time that fits.
abbrev pub SendsMode : ℕ → Form → IntentPayload → Type 0
SendsMode rendered_at form payload =
    (payload.mode ≡ form.mode)
    × TimeFits rendered_at form.mode form.scheduled_for payload.scheduled_for

mode_sent :
    (rendered_at : ℕ) (mode : PublishMode) (time : Option ℕ)
    → schedule_ok rendered_at mode time ≡ true
    → (resolve_payload_mode mode time ≡ mode)
      × TimeFits rendered_at mode time (schedule_of mode time)
      × ((is_scheduled mode && has_schedule_error rendered_at mode time) ≡ false)
unfolding schedule_ok resolve_payload_mode has_schedule_error
mode_sent rendered_at publish_now time h = (refl, refl, refl)
mode_sent rendered_at save_for_later time h = (refl, refl, refl)
mode_sent rendered_at scheduled none h = cc
mode_sent rendered_at scheduled (some t) h = (refl, (refl, ground arith), ground arith)

can_submit-schedule_ok :
    (rendered_at : ℕ) (form : Form) (assets accounts : List Text) (loading immediate_loading : Bool)
    → can_submit rendered_at form assets accounts loading immediate_loading ≡ true
    → schedule_ok rendered_at form.mode form.scheduled_for ≡ true
unfolding can_submit
can_submit-schedule_ok rendered_at form assets accounts loading immediate_loading h = ground arith

built-SendsMode :
    (rendered_at : ℕ) (form : Form)
    → schedule_ok rendered_at form.mode form.scheduled_for ≡ true
    → SendsMode rendered_at form (build_intent_payload form form.mode)
unfolding build_intent_payload
built-SendsMode rendered_at form h =
    let (same, fits, no_error) = mode_sent rendered_at form.mode form.scheduled_for h in
    (same, rw same fits)

sent-on_create_intent :
    (rendered_at : ℕ) (form : Form) (schedule_error : Text)
    (api : IntentPayload → Answer PublishIntentResponse) (p : IntentPanel)
    → schedule_ok rendered_at form.mode form.scheduled_for ≡ true
    → (on_create_intent schedule_error rendered_at true none form api p).1
      ≡ some (build_intent_payload form form.mode)
unfolding on_create_intent intent_mode
sent-on_create_intent rendered_at form schedule_error api p h =
    let (same, fits, no_error) = mode_sent rendered_at form.mode form.scheduled_for h in
    rw (same, no_error) refl

-- A form that could be submitted at its render is sent by that render's handler with its own mode, where
-- none is forced: a schedule never falls back to publishing at once, and its time is sent, which lay
-- ahead at the render.
pub submitted_mode :
    (rendered_at : ℕ) (form : Form) (assets accounts : List Text) (loading immediate_loading : Bool)
    (schedule_error : Text) (api : IntentPayload → Answer PublishIntentResponse) (p : IntentPanel)
    → can_submit rendered_at form assets accounts loading immediate_loading ≡ true
    → (payload : IntentPayload) × (((on_create_intent schedule_error rendered_at true none form api
            p).1
          ≡ some payload)
        × SendsMode rendered_at form payload)
submitted_mode rendered_at form assets accounts loading immediate_loading schedule_error api p h =
    let ok_time =
      can_submit-schedule_ok rendered_at form assets accounts loading immediate_loading h in
    (
      build_intent_payload form form.mode,
      (
        sent-on_create_intent rendered_at form schedule_error api p ok_time,
        built-SendsMode rendered_at form ok_time,
      ),
    )
