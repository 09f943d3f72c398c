-- ===== src/Tracking/Laws.antt =====
-- The tracked ids as a bounded list without repetitions.
use influence_platform.Prelude.{
  ℕ, zero, suc, ◌≡◌, refl, ap, inl, inr, true, false, List, [], ◌∷◌, map, arith, ◌≤◌, length, take,
  All, Bool-cases, length-take,
}
use influence_platform.Js.Text.{Text, ◌===◌}
use influence_platform.Js.Unknown.{Unknown, string}
use influence_platform.Tracking.{max_tracked, is_job_id, job_ids, without}

abbrev pub AreIds : List Text → Type 0
AreIds ids = All (λ s. is_job_id s ≡ true) ids

-- Not in the list, by the code's comparison.
abbrev pub Absent : Text → List Text → Type 0
Absent id ids = All (λ s. s === id ≡ false) ids

abbrev pub AreDistinct : List Text → Type 0
AreDistinct [] = Unit
AreDistinct (s ∷ ids) = Absent s ids × AreDistinct ids

pub AreIds-job_ids : (xs : List Unknown) → AreIds (job_ids xs)
unfolding job_ids
AreIds-job_ids [] = tt
AreIds-job_ids (string s ∷ xs) = elim (Bool-cases (is_job_id s)) [
  | inl e ↦ rw e (e, AreIds-job_ids xs)
  | inr e ↦ rw e (AreIds-job_ids xs)
]
AreIds-job_ids (_ ∷ xs) = AreIds-job_ids xs

pub All-take {κ} : (P : Text → Type κ) (n : ℕ) (ids : List Text) → All P ids → All P (take n ids)
All-take P zero ids h = tt
All-take P (suc n) [] h = tt
All-take P (suc n) (s ∷ ids) (p, h) = (p, All-take P n ids h)

pub AreDistinct-take : (n : ℕ) (ids : List Text) → AreDistinct ids → AreDistinct (take n ids)
AreDistinct-take zero ids h = tt
AreDistinct-take (suc n) [] h = tt
AreDistinct-take (suc n) (s ∷ ids) (p, h) =
    (All-take (λ t. t === s ≡ false) n ids p, AreDistinct-take n ids h)

pub All-without {κ} :
    (P : Text → Type κ) (id : Text) (ids : List Text) → All P ids → All P (without id ids)
unfolding without
All-without P id [] h = tt
All-without P id (s ∷ ids) (p, h) = elim (Bool-cases (s === id)) [
  | inl e ↦ rw e (All-without P id ids h)
  | inr e ↦ rw e (p, All-without P id ids h)
]

pub Absent-without : (id : Text) (ids : List Text) → Absent id (without id ids)
unfolding without
Absent-without id [] = tt
Absent-without id (s ∷ ids) = elim (Bool-cases (s === id)) [
  | inl e ↦ rw e (Absent-without id ids)
  | inr e ↦ rw e (e, Absent-without id ids)
]

pub AreDistinct-without :
    (id : Text) (ids : List Text) → AreDistinct ids → AreDistinct (without id ids)
unfolding without
AreDistinct-without id [] h = tt
AreDistinct-without id (s ∷ ids) (p, h) = elim (Bool-cases (s === id)) [
  | inl e ↦ rw e (AreDistinct-without id ids h)
  | inr e ↦ rw e (All-without (λ t. t === s ≡ false) id ids p, AreDistinct-without id ids h)
]

-- Removing an id that is not there changes nothing.
without-Absent : (id : Text) (ids : List Text) → Absent id ids → without id ids ≡ ids
unfolding without
without-Absent id [] h = refl
without-Absent id (s ∷ ids) (p, h) = rw p (ap (λ t. s ∷ t) (without-Absent id ids h))

-- What is written is read back.
pub job_ids-strings : (ids : List Text) → AreIds ids → job_ids (map string ids) ≡ ids
unfolding job_ids
job_ids-strings [] h = refl
job_ids-strings (s ∷ ids) (p, h) = rw p (ap (λ t. s ∷ t) (job_ids-strings ids h))

pub take-short : (n : ℕ) (ids : List Text) → length ids ≤ n → take n ids ≡ ids
take-short zero [] h = refl
take-short zero (s ∷ ids) h = absurd (omega arith)
take-short (suc n) [] h = refl
take-short (suc n) (s ∷ ids) h = ap (λ t. s ∷ t) (take-short n ids (omega arith))

take_twice : (n : ℕ) (ids : List Text) → take n (take n ids) ≡ take n ids
take_twice n ids = take-short n (take n ids) (omega (arith, length-take n ids))

-- The invariant of the tracked ids.
pub record IsTracked (ids : List Text) : Type 0 where
  pub valid : AreIds ids
  pub distinct : AreDistinct ids
  pub bounded : length ids ≤ max_tracked
