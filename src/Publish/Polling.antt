-- ===== src/Publish/Polling.antt =====
-- The polling of a publish intent by the publish panel: the effect that asks for the intent again.
use influence_platform.Prelude.{
  ◌≡◌, refl, ◌⊎◌, inl, inr, Bool, true, false, ◌||◌, not, List, [], ◌∷◌, Option, none, some,
  if◌then◌else◌, arith, Bool-cases, Option-cases,
}
use influence_platform.Js.Text.{Text, codes, ◌===◌, truthy}
use influence_platform.Js.Trim.{===_iff}
use influence_platform.Outcome.{
  PublishIntentResponse, PublicationOutcome, OutcomeInput, normalize_status,
  resolve_publication_outcome, is_publication_outcome_terminal,
}

-- The intent that the effect asks for, `none` where it returns at once.
unfoldable pub polled_intent : Option PublicationOutcome → Option Text
polled_intent none = none
polled_intent (some o) =
    if not (truthy o.intent.intent_id) || is_publication_outcome_terminal o
    then none
    else some o.intent.intent_id

-- The input of the outcome that a fresh intent gives.
abbrev pub refreshed : PublishIntentResponse → PublicationOutcome → OutcomeInput
refreshed fresh prev = record {
  intent = fresh;
  action = prev.action;
  dispatched = prev.dispatched;
  dispatch_count = prev.dispatch_count;
  error_message = prev.error_message;
}

-- An answer for an id: `none` where the request failed, and nothing once the effect is cancelled.
unfoldable pub refresh :
    Text
    → Bool
    → Option PublishIntentResponse
    → Option PublicationOutcome
    → Option PublicationOutcome
refresh id cancelled fresh none = none
refresh id cancelled none (some prev) = some prev
refresh id cancelled (some fresh) (some prev) =
    if cancelled || not (prev.intent.intent_id === id)
    then some prev
    else some (resolve_publication_outcome (refreshed fresh prev))

-- Any sequence of answers: the id and the cancellation of the effect that asked, and the answer.
pub record PollAnswer : Type 0 where
  pub id : Text
  pub cancelled : Bool
  pub fresh : Option PublishIntentResponse

unfoldable pub refresh_all : List PollAnswer → Option PublicationOutcome → Option PublicationOutcome
refresh_all [] outcome = outcome
refresh_all (a ∷ answers) outcome = refresh_all answers (refresh a.id a.cancelled a.fresh outcome)

-- What polling leaves alone.
abbrev pub Keeps : Option PublicationOutcome → Option PublicationOutcome → Type 0
Keeps none none = Unit
Keeps (some o) (some p) =
    (p.action ≡ o.action) × (p.dispatched ≡ o.dispatched) × (p.dispatch_count ≡ o.dispatch_count)
Keeps _ _ = ⊥

resolve_publication_outcome-keeps :
    (i : OutcomeInput)
    → let o = resolve_publication_outcome i in
      (o.intent ≡ i.intent)
      × (o.action ≡ i.action)
      × (o.dispatched ≡ i.dispatched)
      × (o.dispatch_count ≡ i.dispatch_count)
unfolding resolve_publication_outcome
resolve_publication_outcome-keeps i = ground arith

Keeps-trans : (o p q : Option PublicationOutcome) → Keeps o p → Keeps p q → Keeps o q
Keeps-trans none none none h k = tt
Keeps-trans none none (some q) h k = elim k [ ]
Keeps-trans none (some p) q h k = elim h [ ]
Keeps-trans (some o) none q h k = elim h [ ]
Keeps-trans (some o) (some p) none h k = elim k [ ]
Keeps-trans (some o) (some p) (some q) h k = ground (arith, h, k)

Keeps-same : (o : Option PublicationOutcome) → Keeps o o
Keeps-same none = tt
Keeps-same (some o) = (refl, refl, refl)

refresh-Keeps :
    (a : PollAnswer) (o : Option PublicationOutcome) → Keeps o (refresh a.id a.cancelled a.fresh o)
unfolding refresh
refresh-Keeps a none = tt
refresh-Keeps a (some o) = elim (Option-cases a.fresh) [
  | inl n ↦ rw n (refl, refl, refl)
  | inr (fresh, n) ↦ elim (Bool-cases (a.cancelled || not (o.intent.intent_id === a.id))) [
    | inl e ↦ rw (n, e) (refl, refl, refl)
    | inr e ↦
        rw (n, e)
          (let (same, acted, sent, counted) =
              resolve_publication_outcome-keeps (refreshed fresh o) in
            (acted, sent, counted))
  ]
]

-- Whatever the polling is answered, it never brings back an outcome that was cleared, and the outcome
-- keeps its action, whether it was dispatched, and to how many targets.
refresh_all-Keeps :
    (answers : List PollAnswer) (o : Option PublicationOutcome) → Keeps o (refresh_all answers o)
unfolding refresh_all
refresh_all-Keeps [] o = Keeps-same o
refresh_all-Keeps (a ∷ answers) o =
    Keeps-trans o (refresh a.id a.cancelled a.fresh o) (refresh_all (a ∷ answers) o)
      (refresh-Keeps a o) (refresh_all-Keeps answers (refresh a.id a.cancelled a.fresh o))

terminal-settled :
    (o : PublicationOutcome)
    → (normalize_status o.intent.status ≡ codes "published")
      ⊎ (normalize_status o.intent.status ≡ codes "failed")
    → is_publication_outcome_terminal o ≡ true
unfolding is_publication_outcome_terminal
terminal-settled o h =
    let s = normalize_status o.intent.status in
    ground (arith, ===_iff s (codes "published"), ===_iff s (codes "failed"))

unpolled :
    (o : PublicationOutcome)
    → is_publication_outcome_terminal o ≡ true
    → polled_intent (some o) ≡ none
unfolding polled_intent
unpolled o h = ground arith

-- The polling ends once the intent that it asked for is published or failed, whatever its targets.
pub polling_ends :
    (fresh : PublishIntentResponse) (o : PublicationOutcome)
    → (normalize_status fresh.status ≡ codes "published")
      ⊎ (normalize_status fresh.status ≡ codes "failed")
    → polled_intent (refresh o.intent.intent_id false (some fresh) (some o)) ≡ none
unfolding refresh
polling_ends fresh o h =
    let i = refreshed fresh o in
    let (same, acted, sent, counted) = resolve_publication_outcome-keeps i in
    let itself = (===_iff o.intent.intent_id o.intent.intent_id).1 refl in
    rw itself (unpolled (resolve_publication_outcome i) (terminal-settled _ (rw same h)))
