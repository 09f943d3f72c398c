-- ===== src/Errors/Idempotent.antt =====
-- Humanising a message twice is humanising it once.
use influence_platform.Prelude.{
  ◌≡◌, refl, ap, inl, inr, Bool, true, false, Option, none, some, Bool-cases, Option-cases,
  if◌then◌else◌,
}
use influence_platform.Js.Text.{Text, truthy, trim, to_lower_case, includes}
use influence_platform.Js.Trim.{trim_idem}
use influence_platform.Errors.{
  aliveai_message, kie_message, quota_message, no_output_message, public_url_message,
  incomplete_message, classify, humanize_generation_message,
}

-- The messages that `classify` can give.
abbrev IsFixed : Text → Type 0
IsFixed m = humanize_generation_message m ≡ m

aliveai-IsFixed : IsFixed aliveai_message
unfolding humanize_generation_message trim includes to_lower_case
aliveai-IsFixed = refl

kie-IsFixed : IsFixed kie_message
unfolding humanize_generation_message trim includes to_lower_case
kie-IsFixed = refl

quota-IsFixed : IsFixed quota_message
unfolding humanize_generation_message trim includes to_lower_case
quota-IsFixed = refl

no_output-IsFixed : IsFixed no_output_message
unfolding humanize_generation_message trim includes to_lower_case
no_output-IsFixed = refl

public_url-IsFixed : IsFixed public_url_message
unfolding humanize_generation_message trim includes to_lower_case
public_url-IsFixed = refl

incomplete-IsFixed : IsFixed incomplete_message
unfolding humanize_generation_message trim includes to_lower_case
incomplete-IsFixed = refl

pub data Good : Option Text → Type 0 where
  skip : Good none
  fixed : {m : Text} → IsFixed m → truthy m ≡ true → Good (some m)

pick : (b : Bool) {x y : Option Text} → Good x → Good y → Good (if b then x else y)
pick true g h = g
pick false g h = h

pub classify-Good : (lower : Text) → Good (classify lower)
unfolding classify
classify-Good lower = pick _ (fixed aliveai-IsFixed refl) (
    pick _ (fixed kie-IsFixed refl) (
      pick _ skip (
        pick _ (fixed quota-IsFixed refl) (
          pick _ (fixed no_output-IsFixed refl) (
            pick _ (fixed public_url-IsFixed refl)
              (pick _ (fixed incomplete-IsFixed refl) skip))))))

Good-some : (m : Text) (o : Option Text) → Good o → o ≡ some m → IsFixed m
Good-some m none skip e = cc
Good-some m (some n) (fixed p t) e = let same : n ≡ m = cc in rw same at p

-- A trimmed text with no message of its own comes back unchanged.
unclassified :
    (message : Text)
    → truthy (trim message) ≡ true
    → classify (to_lower_case (trim message)) ≡ none
    → (humanize_generation_message message ≡ trim message) × IsFixed (trim message)
unfolding humanize_generation_message
unclassified message t c = (rw (t, c) refl, rw (trim_idem message) (rw (t, c) refl))

-- A message that was humanised once is left as it is by a second time.
humanize_idempotent :
    (message : Text)
    → humanize_generation_message (humanize_generation_message message)
      ≡ humanize_generation_message message
humanize_idempotent message = elim (Bool-cases (truthy (trim message))) [
  | inr e ↦
      let same : humanize_generation_message message ≡ message =
        unfold humanize_generation_message in rw e refl in
      ap humanize_generation_message same
  | inl t ↦ elim (Option-cases (classify (to_lower_case (trim message)))) [
    | inl c ↦ let (same, again) = unclassified message t c in rw same again
    | inr (m, c) ↦
        let same : humanize_generation_message message ≡ m =
          unfold humanize_generation_message in rw (t, c) refl in
        rw same (Good-some m (classify (to_lower_case (trim message))) (classify-Good _) c)
  ]
]
