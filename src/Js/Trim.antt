-- ===== src/Js/Trim.antt =====
-- Laws of string equality and of `trim`.
use influence_platform.Prelude.{
  ℕ, ◌≡◌, refl, ◌↔◌, Bool, true, false, [], ◌∷◌, inl, inr, Bool-cases, arith, ◌≤◌, length, any, not,
  ◌||◌, ◌∙◌, if◌then◌else◌,
}
use influence_platform.Js.Text.{truthy, Text, ◌===◌, is_space, trim_start, trim_end, trim}

pub ===-refl : (s : Text) → (s === s) ≡ true
unfolding ◌===◌
===-refl [] = refl
===-refl (c ∷ s) = ground (arith, ===-refl s)

===-sound : (s t : Text) → (s === t) ≡ true → s ≡ t
unfolding ◌===◌
===-sound [] [] h = refl
===-sound [] (d ∷ t) h = cc
===-sound (c ∷ s) [] h = cc
===-sound (c ∷ s) (d ∷ t) h = ground (arith, ===-sound s t)

pub ===_iff : (s t : Text) → ((s === t) ≡ true) ↔ (s ≡ t)
===_iff s t = (===-sound s t, λ e. rw (← e) (===-refl s))

-- A text that does not begin with a space.
abbrev pub IsSolid : Text → Type 0
IsSolid [] = Unit
IsSolid (c ∷ s) = is_space c ≡ false

trim_start-IsSolid : (s : Text) → IsSolid (trim_start s)
unfolding trim_start
trim_start-IsSolid [] = tt
trim_start-IsSolid (c ∷ s) = elim (Bool-cases (is_space c)) [
  | inl p ↦ rw p (trim_start-IsSolid s)
  | inr p ↦ rw p p
]

trim_start_of_IsSolid : (s : Text) → IsSolid s → trim_start s ≡ s
unfolding trim_start
trim_start_of_IsSolid [] h = refl
trim_start_of_IsSolid (c ∷ s) h = rw h

-- One step of `trim_end`, on the trimmed rest.
abbrev keep : ℕ → Text → Text
keep c [] = if is_space c then [] else c ∷ []
keep c (d ∷ r) = c ∷ d ∷ r

trim_end-cons : (c : ℕ) (s : Text) → trim_end (c ∷ s) ≡ keep c (trim_end s)
unfolding trim_end
trim_end-cons c s = ground arith

keep-IsSolid : (c : ℕ) (t : Text) → is_space c ≡ false → IsSolid (keep c t)
keep-IsSolid c [] h = rw h h
keep-IsSolid c (d ∷ r) h = h

trim_end-IsSolid : (s : Text) → IsSolid s → IsSolid (trim_end s)
trim_end-IsSolid [] h = unfold trim_end in tt
trim_end-IsSolid (c ∷ s) h = rw (trim_end-cons c s) (keep-IsSolid c (trim_end s) h)

trim_end-keep : (c : ℕ) (t : Text) → trim_end t ≡ t → trim_end (keep c t) ≡ keep c t
unfolding trim_end
trim_end-keep c [] h = ground arith
trim_end-keep c (d ∷ r) h = rw (trim_end-cons c (d ∷ r), h)

trim_end_idem : (s : Text) → trim_end (trim_end s) ≡ trim_end s
trim_end_idem [] = unfold trim_end in refl
trim_end_idem (c ∷ s) = rw (trim_end-cons c s) (trim_end-keep c (trim_end s) (trim_end_idem s))

-- Trimming a second time changes nothing.
pub trim_idem : (s : Text) → trim (trim s) ≡ trim s
unfolding trim
trim_idem s =
    let solid = trim_end-IsSolid (trim_start s) (trim_start-IsSolid s) in
    rw (trim_start_of_IsSolid (trim_end (trim_start s)) solid) (trim_end_idem (trim_start s))

keep-length : (c : ℕ) (t : Text) → length (keep c t) ≤ length (c ∷ t)
keep-length c [] = ground arith
keep-length c (d ∷ r) = omega arith

pub trim_end-length : (s : Text) → length (trim_end s) ≤ length s
trim_end-length [] = unfold trim_end in omega arith
trim_end-length (c ∷ s) =
    rw (trim_end-cons c s) (omega (arith, keep-length c (trim_end s), trim_end-length s))

trim_start-length : (s : Text) → length (trim_start s) ≤ length s
unfolding trim_start
trim_start-length [] = omega arith
trim_start-length (c ∷ s) = ground (arith, trim_start-length s)

length-trim-le : (s : Text) → length (trim s) ≤ length s
unfolding trim
length-trim-le s = omega (arith, trim_end-length (trim_start s), trim_start-length s)

-- Some unit is no space.
abbrev pub has_solid : Text → Bool
has_solid s = any (λ c. not (is_space c)) s

truthy-trim_end : (s : Text) → truthy (trim_end s) ≡ has_solid s
truthy-trim_end [] = unfold trim_end in refl
truthy-trim_end (c ∷ s) =
    rw (trim_end-cons c s) (ground (arith, truthy-trim_end s, truthy-keep c (trim_end s)))
  where
    truthy-keep : (c : ℕ) (t : Text) → truthy (keep c t) ≡ (not (is_space c) || truthy t)
    truthy-keep c [] = ground arith
    truthy-keep c (d ∷ r) = ground arith

has_solid-trim_start : (s : Text) → has_solid (trim_start s) ≡ has_solid s
unfolding trim_start
has_solid-trim_start [] = refl
has_solid-trim_start (c ∷ s) = elim (Bool-cases (is_space c)) [
  | inl p ↦ rw p (has_solid-trim_start s)
  | inr p ↦ rw p (rw p)
]

-- Trimming leaves something exactly when some unit is no space.
pub truthy-trim : (s : Text) → truthy (trim s) ≡ has_solid s
unfolding trim
truthy-trim s = truthy-trim_end (trim_start s) ∙ has_solid-trim_start s
