-- ===== src/Outcome/Targets.antt =====
-- What the counts and the summary of the targets say of their statuses.
use influence_platform.Prelude.{
  ◌≡◌, refl, ◌↔◌, Bool, true, false, List, [], ◌∷◌, map, arith, ◌==◌, length, every, Any, All, ◌≤◌,
  ◌<◌, inl, inr, Bool-cases, length-filter-le,
}
use influence_platform.Js.Text.{Text, codes, ◌===◌}
use influence_platform.Js.Trim.{===_iff}
use influence_platform.Outcome.{
  is_failed, is_ok, normalize_status, summarize_publish_targets, count_targets, all_targets_failed,
}

-- No status counts both as failed and as in order.
is_failed-is_ok : (s : Text) → is_failed s ≡ true → is_ok s ≡ false
unfolding is_failed is_ok
is_failed-is_ok s h = ground (
  arith,
  ===_iff s (codes "failed"),
  ===_iff s (codes "uncertain"),
  ===_iff s (codes "pending"),
  ===_iff s (codes "publishing"),
  ===_iff s (codes "published"),
  ===_iff s (codes "queued"),
)

pub is_failed-ne_published : (s : Text) → is_failed s ≡ true → (s === codes "published") ≡ false
unfolding is_failed
is_failed-ne_published s h = ground (
  arith,
  ===_iff s (codes "failed"),
  ===_iff s (codes "uncertain"),
  ===_iff s (codes "published"),
)

-- Some target has a normalised status that passes the test, and every target has.
abbrev pub SomeTarget : (Text → Bool) → List Text → Type 0
SomeTarget p targets = Any (λ t. p (normalize_status t) ≡ true) targets

abbrev pub EveryTarget : (Text → Bool) → List Text → Type 0
EveryTarget p targets = All (λ t. p (normalize_status t) ≡ true) targets

pub count_targets-pos :
    (p : Text → Bool) (ts : List Text) → SomeTarget p ts → 0 < count_targets p ts
unfolding count_targets
count_targets-pos p [] h = absurd h
count_targets-pos p (t ∷ ts) (inl h) = rw h (omega arith)
count_targets-pos p (t ∷ ts) (inr h) = ground (arith, count_targets-pos p ts h)

pub pos-count_targets :
    (p : Text → Bool) (ts : List Text) → 0 < count_targets p ts → SomeTarget p ts
unfolding count_targets
pos-count_targets p [] h = absurd (omega arith)
pos-count_targets p (t ∷ ts) h = elim (Bool-cases (p (normalize_status t))) [
  | inl e ↦ inl e
  | inr e ↦ inr (pos-count_targets p ts (rw e at h))
]

count_targets-le : (p : Text → Bool) (ts : List Text) → count_targets p ts ≤ length ts
unfolding count_targets
count_targets-le p ts = length-filter-le (λ t. p (normalize_status t)) ts

-- The count reaches the length exactly when every target passes.
count_targets-eq-every :
    (p : Text → Bool) (ts : List Text)
    → (count_targets p ts == length ts) ≡ every p (map normalize_status ts)
unfolding count_targets
count_targets-eq-every p [] = refl
count_targets-eq-every p (t ∷ ts) = elim (Bool-cases (p (normalize_status t))) [
  | inl e ↦ rw e (ground (arith, count_targets-eq-every p ts))
  | inr e ↦ rw e (ground (arith, length-filter-le (λ u. p (normalize_status u)) ts))
]

every-EveryTarget :
    (p : Text → Bool) (ts : List Text)
    → (every p (map normalize_status ts) ≡ true) ↔ EveryTarget p ts
every-EveryTarget p [] = (λ _. tt, λ _. refl)
every-EveryTarget p (t ∷ ts) = elim (Bool-cases (p (normalize_status t))) [
  | inl e ↦ rw e (λ h. (refl, (every-EveryTarget p ts).0 h), λ h. (every-EveryTarget p ts).1 h.1)
  | inr e ↦ rw e (λ h. cc, λ h. cc (h.0))
]

-- With every target failed none is in order.
every_failed-count_ok :
    (ts : List Text) → every is_failed (map normalize_status ts) ≡ true → count_targets is_ok ts ≡ 0
unfolding count_targets
every_failed-count_ok [] h = refl
every_failed-count_ok (t ∷ ts) h =
    ground (arith, is_failed-is_ok (normalize_status t), every_failed-count_ok ts)

-- The two ways in which the code asks whether all targets failed agree: by counting, with the
-- extra test that none is in order, and by the summary.
pub all_targets_failed_eq :
    (ts : List Text) → all_targets_failed ts ≡ (summarize_publish_targets ts).all_failed
unfolding all_targets_failed summarize_publish_targets
all_targets_failed_eq [] = refl
all_targets_failed_eq (t ∷ ts) =
    ground (arith, count_targets-eq-every is_failed (t ∷ ts), every_failed-count_ok (t ∷ ts))

abbrev pub IsNonempty : List Text → Type 0
IsNonempty ts = 0 < length ts

-- The summary says that all failed exactly when there are targets and every one failed.
pub all_failed_iff :
    (ts : List Text)
    → ((summarize_publish_targets ts).all_failed ≡ true)
      ↔ (IsNonempty ts × EveryTarget is_failed ts)
unfolding summarize_publish_targets
all_failed_iff [] = ground arith
all_failed_iff (t ∷ ts) =
    let iff = every-EveryTarget is_failed (t ∷ ts) in (λ h. (omega arith, iff.0 h), λ h. iff.1 h.1)

all_published_iff :
    (ts : List Text)
    → ((summarize_publish_targets ts).all_published ≡ true)
      ↔ (IsNonempty ts × EveryTarget (λ s. s === codes "published") ts)
unfolding summarize_publish_targets
all_published_iff [] = ground arith
all_published_iff (t ∷ ts) =
    let iff = every-EveryTarget (λ s. s === codes "published") (t ∷ ts) in
    (λ h. (omega arith, iff.0 h), λ h. iff.1 h.1)
