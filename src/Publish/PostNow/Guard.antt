-- ===== src/Publish/PostNow/Guard.antt =====
-- The guard against a second click.
use influence_platform.Prelude.{
  ℕ, zero, suc, ◌+◌, ◌≤◌, ◌≡◌, Bool, true, false, List, [], ◌∷◌, Option, arith,
}
use influence_platform.Js.Text.{Text}
use influence_platform.Outcome.{PublishIntentResponse}
use influence_platform.Publish.PostNow.{
  Answer, ok, error, Dispatched, Handler, creating, dispatching, ended, Panel, click, created,
  dispatch_answered, answer, answer_at, Event, clicks, answers, step, run,
}

abbrev pub is_waiting : Handler → ℕ
is_waiting creating = 1
is_waiting (dispatching i) = 1
is_waiting ended = 0

abbrev pub waiting : List Handler → ℕ
waiting [] = 0
waiting (h ∷ hs) = is_waiting h + waiting hs

abbrev pub is_creating : Handler → ℕ
is_creating creating = 1
is_creating _ = 0

abbrev pub awaiting_intent : List Handler → ℕ
awaiting_intent [] = 0
awaiting_intent (h ∷ hs) = is_creating h + awaiting_intent hs

abbrev pub flag_value : Bool → ℕ
flag_value true = 1
flag_value false = 0

-- The guard is set exactly while one handler waits, the loading state follows it, and each intent is
-- dispatched at most once: a dispatch per creation that has been answered.
pub record IsGuarded (p : Panel) : Type 0 where
  pub exclusive : waiting p.handlers ≡ flag_value p.in_flight
  pub loading : p.immediate_loading ≡ p.in_flight
  pub dispatched_once : p.dispatches + awaiting_intent p.handlers ≤ p.creations

click-IsGuarded : (c : Bool) (e : Option Text) (p : Panel) → IsGuarded p → IsGuarded (click c e p)
unfolding click
click-IsGuarded c e p h = ground arith

-- What one answer changes, at any place: the waiting handlers go down with the flag.
record Changes (hs hs' : List Handler) (p p' : Panel) : Type 0 where
  exclusive :
      waiting hs ≤ flag_value p.in_flight
      → waiting hs' + flag_value p.in_flight ≡ waiting hs + flag_value p'.in_flight
  loading : p.immediate_loading ≡ p.in_flight → p'.immediate_loading ≡ p'.in_flight
  once : p'.dispatches + awaiting_intent hs' ≤ p.dispatches + awaiting_intent hs
  creations : p'.creations ≡ p.creations

answer-Changes :
    (h : Handler) (a : Answer PublishIntentResponse) (d : Answer Dispatched) (p : Panel)
    (hs : List Handler)
    → Changes (h ∷ hs) ((answer h a d p).0 ∷ hs) p (answer h a d p).1
unfolding answer created dispatch_answered
answer-Changes creating (ok i) d p hs = ground arith
answer-Changes creating (error m) d p hs = ground arith
answer-Changes (dispatching i) a (ok r) p hs = ground arith
answer-Changes (dispatching i) a (error m) p hs = ground arith
answer-Changes ended a d p hs = ground arith

answer_at-Changes :
    (i : ℕ) (a : Answer PublishIntentResponse) (d : Answer Dispatched) (hs : List Handler)
    (p : Panel)
    → Changes hs (answer_at i a d hs p).0 p (answer_at i a d hs p).1
unfolding answer_at
answer_at-Changes i a d [] p = ground arith
answer_at-Changes zero a d (h ∷ hs) p = answer-Changes h a d p hs
answer_at-Changes (suc i) a d (h ∷ hs) p = ground (arith, answer_at-Changes i a d hs p)

step-IsGuarded : (e : Event) (p : Panel) → IsGuarded p → IsGuarded (step e p)
unfolding step
step-IsGuarded (clicks c e) p h = click-IsGuarded c e p h
step-IsGuarded (answers i a d) p h = ground (arith, answer_at-Changes i a d p.handlers p)

-- Under every schedule of clicks and answers, at most one handler is under way, the guard and the
-- loading state say so, and there is at most one dispatch for each created intent.
pub run-IsGuarded : (es : List Event) (p : Panel) → IsGuarded p → IsGuarded (run es p)
unfolding run
run-IsGuarded [] p h = h
run-IsGuarded (e ∷ es) p h = run-IsGuarded es (step e p) (step-IsGuarded e p h)
