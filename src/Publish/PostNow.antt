-- ===== src/Publish/PostNow.antt =====
-- `onPostNow` of the publish panel. The handler gives up control while it waits for the creation of
-- the intent and for its dispatch; every click runs a handler of its own, and a schedule is a list of
-- clicks and answers. What the API answers is an argument of the event: an error is its message.
pub mod Guard
pub mod Outcomes
use influence_platform.Prelude.{
  ℕ, zero, suc, ◌+◌, Bool, true, false, ◌&&◌, ◌||◌, not, List, [], ◌∷◌, ◌++◌, Option, none, some,
  if◌then◌else◌, or_else,
}
use influence_platform.Js.Text.{Text, codes}
use influence_platform.Outcome.{
  PublishIntentResponse, PublicationOutcome, OutcomeInput, post_now, resolve_publication_outcome,
}

pub data Answer {ℓ} (A : Type ℓ) : Type ℓ where
  ok : A → Answer A
  error : Text → Answer A

-- The answer of a dispatch: the number of targets, and a status that may be missing.
pub record Dispatched : Type 0 where
  pub dispatched_targets : ℕ
  pub status : Option Text

pub data Activity : Type 0 where
  intent dispatched : Activity

-- Waiting for the intent; waiting for the dispatch of an intent; ended.
pub data Handler : Type 0 where
  creating : Handler
  dispatching : PublishIntentResponse → Handler
  ended : Handler

pub record Panel : Type 0 where
  pub in_flight : Bool
  pub immediate_loading : Bool
  pub error_text : Option Text
  pub outcome : Option PublicationOutcome
  pub activities : List Activity
  pub handlers : List Handler
  pub creations : ℕ
  pub dispatches : ℕ

-- `{ ...intent, status }`
abbrev with_status : PublishIntentResponse → Text → PublishIntentResponse
with_status i status = record i { status = status }

abbrev post_now_outcome : PublishIntentResponse → Bool → Option ℕ → Option Text → PublicationOutcome
post_now_outcome i is_dispatched count message = resolve_publication_outcome (record {
  intent = i;
  action = post_now;
  dispatched = is_dispatched;
  dispatch_count = count;
  error_message = message;
})

abbrev empty_intent : PublishIntentResponse
empty_intent = record { intent_id = []; status = codes "failed"; targets = some [] }

-- The `finally` block.
abbrev finish : Panel → Panel
finish p = record p { immediate_loading = false; in_flight = false }

-- A click. `can_submit` and the schedule error are those of the render that the click sees.
unfoldable pub click : Bool → Option Text → Panel → Panel
click can_submit schedule_error p =
    if not can_submit || p.in_flight then p else elim schedule_error [
      | some message ↦ record p { error_text = some message }
      | none ↦ record p {
        in_flight = true;
        immediate_loading = true;
        error_text = none;
        outcome = none;
        handlers = creating ∷ p.handlers;
        creations = suc p.creations;
      }
    ]

-- What a handler does when its answer comes: itself afterwards, and the panel.
unfoldable pub created : Answer PublishIntentResponse → Panel → Handler × Panel
created (ok i) p =
    (dispatching i, record p { activities = intent ∷ p.activities; dispatches = suc p.dispatches })
created (error message) p = (
  ended,
  finish (record p {
    error_text = some message;
    outcome = some (post_now_outcome empty_intent false none (some message));
  }),
)

unfoldable pub dispatch_answered :
    PublishIntentResponse → Answer Dispatched → Panel → Handler × Panel
dispatch_answered i (ok d) p = (
  ended,
  finish (record p {
    activities = dispatched ∷ p.activities;
    outcome = some (
        post_now_outcome (with_status i (or_else d.status i.status)) true
          (some d.dispatched_targets) none);
  }),
)
dispatch_answered i (error message) p = (
  ended,
  finish (record p {
    outcome = some (post_now_outcome (with_status i i.status) false none (some message));
  }),
)

-- The answers that a waiting handler may get; it takes the one that it waits for.
unfoldable pub answer :
    Handler → Answer PublishIntentResponse → Answer Dispatched → Panel → Handler × Panel
answer creating a d p = created a p
answer (dispatching i) a d p = dispatch_answered i d p
answer ended a d p = (ended, p)

-- The handler at a place takes its answer.
unfoldable pub answer_at :
    ℕ
    → Answer PublishIntentResponse
    → Answer Dispatched
    → List Handler
    → Panel
    → List Handler × Panel
answer_at i a d [] p = ([], p)
answer_at zero a d (h ∷ hs) p = let (h', p') = answer h a d p in (h' ∷ hs, p')
answer_at (suc i) a d (h ∷ hs) p = let (hs', p') = answer_at i a d hs p in (h ∷ hs', p')

pub data Event : Type 0 where
  clicks : Bool → Option Text → Event
  answers : ℕ → Answer PublishIntentResponse → Answer Dispatched → Event

unfoldable pub step : Event → Panel → Panel
step (clicks can_submit schedule_error) p = click can_submit schedule_error p
step (answers i a d) p = let (hs, p') = answer_at i a d p.handlers p in record p' { handlers = hs }

unfoldable pub run : List Event → Panel → Panel
run [] p = p
run (e ∷ es) p = run es (step e p)

abbrev pub fresh : Panel
fresh = record {
  in_flight = false;
  immediate_loading = false;
  error_text = none;
  outcome = none;
  activities = [];
  handlers = [];
  creations = 0;
  dispatches = 0;
}
