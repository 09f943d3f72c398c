-- ===== src/Tracking/Invariant.antt =====
-- What adding and removing a tracked id does to the list that is read back.
use influence_platform.Prelude.{
  suc, ◌≡◌, refl, ap, ◌∙◌, true, false, List, [], ◌∷◌, map, some, none, arith, ◌≤◌, length, take,
  length-take, length-filter-le, not, ◌&&◌, inl, inr, Bool-cases,
}
use influence_platform.Js.Text.{Text, ◌===◌, trim, truthy}
use influence_platform.Js.Unknown.{string}
use influence_platform.Tracking.{
  Browser, Stored, array, absent, malformed, other, max_tracked, is_job_id, job_ids, ids_of,
  get_tracked_generation_job_ids, without, add_tracked_generation_job_id,
  remove_tracked_generation_job_id,
}
use influence_platform.Tracking.Laws.{
  AreIds, Absent, IsTracked, AreIds-job_ids, All-take, AreDistinct-take, All-without,
  Absent-without, AreDistinct-without, job_ids-strings, take-short,
}

ids_of-AreIds : (st : Stored) → AreIds (ids_of st)
unfolding ids_of
ids_of-AreIds (array xs) =
    All-take (λ s. is_job_id s ≡ true) max_tracked (job_ids xs) (AreIds-job_ids xs)
ids_of-AreIds absent = tt
ids_of-AreIds malformed = tt
ids_of-AreIds other = tt

ids_of-bounded : (st : Stored) → length (ids_of st) ≤ max_tracked
unfolding ids_of
ids_of-bounded (array xs) = omega (arith, length-take max_tracked (job_ids xs))
ids_of-bounded absent = omega arith
ids_of-bounded malformed = omega arith
ids_of-bounded other = omega arith

ids_of-written :
    (ids : List Text)
    → AreIds ids
    → length ids ≤ max_tracked
    → ids_of (array (map string ids)) ≡ ids
unfolding ids_of
ids_of-written ids v h =
    ap (take max_tracked) (job_ids-strings ids v) ∙ take-short max_tracked ids h

length-without : (id : Text) (ids : List Text) → length (without id ids) ≤ length ids
unfolding without
length-without id ids = length-filter-le (λ x. not (x === id)) ids

-- The ids that are read back from a browser.
abbrev pub tracked : Browser → List Text
tracked b = get_tracked_generation_job_ids (some b)

module _ (id : Text) (b : Browser) where
  -- The ids that `addTrackedGenerationJobId` writes.
  abbrev pub ids_after_add : List Text
  ids_after_add = take max_tracked (trim id ∷ without (trim id) (tracked b))

  ids_after_add-AreIds : is_job_id (trim id) ≡ true → AreIds ids_after_add
  unfolding get_tracked_generation_job_ids
  ids_after_add-AreIds v =
      All-take (λ s. is_job_id s ≡ true) max_tracked (trim id ∷ without (trim id) (tracked b))
        (v, All-without (λ s. is_job_id s ≡ true) (trim id) (tracked b) (ids_of-AreIds b.stored))

  ids_after_add-bounded : length ids_after_add ≤ max_tracked
  ids_after_add-bounded =
      omega (arith, length-take max_tracked (trim id ∷ without (trim id) (tracked b)))

ids_after_add-IsTracked :
    (id : Text) (b : Browser)
    → is_job_id (trim id) ≡ true
    → IsTracked (tracked b)
    → IsTracked (ids_after_add id b)
ids_after_add-IsTracked id b v h =
    let rest = without (trim id) (tracked b) in
    record {
      valid = ids_after_add-AreIds id b v;
      distinct = AreDistinct-take max_tracked (trim id ∷ rest) (
        Absent-without (trim id) (tracked b),
        AreDistinct-without (trim id) (tracked b) h.distinct,
      );
      bounded = ids_after_add-bounded id b;
    }

-- Adding a valid id puts it first, takes an older copy of it out, keeps five ids at most, and
-- announces the change once.
get-add :
    (id : Text) (b : Browser)
    → truthy id ≡ true
    → is_job_id (trim id) ≡ true
    → (b' : Browser) × (add_tracked_generation_job_id id (some b) ≡ some b')
      × (tracked b' ≡ take max_tracked (trim id ∷ without (trim id) (tracked b)))
      × (b'.events ≡ suc b.events)
unfolding add_tracked_generation_job_id get_tracked_generation_job_ids
get-add id b t v = (
  record { stored = array (map string (ids_after_add id b)); events = suc b.events },
  rw (t, v),
  ids_of-written (ids_after_add id b) (ids_after_add-AreIds id b v) (ids_after_add-bounded id b),
  refl,
)

-- An id that is empty, or is no id once trimmed, is not added, and nothing is announced.
add_invalid :
    (id : Text) (b : Browser)
    → is_job_id (trim id) ≡ false
    → add_tracked_generation_job_id id (some b) ≡ some b
unfolding add_tracked_generation_job_id
add_invalid id b v = ground arith

add_refused :
    (id : Text) (b : Browser)
    → truthy id && is_job_id (trim id) ≡ false
    → add_tracked_generation_job_id id (some b) ≡ some b
unfolding add_tracked_generation_job_id
add_refused id b e = ground arith

-- Removing an id that is not empty takes out its copies and keeps the order of the rest.
get-remove :
    (id : Text) (b : Browser)
    → truthy id ≡ true
    → (b' : Browser) × (remove_tracked_generation_job_id id (some b) ≡ some b')
      × (tracked b' ≡ without (trim id) (tracked b))
      × Absent (trim id) (tracked b')
unfolding remove_tracked_generation_job_id get_tracked_generation_job_ids
get-remove id b t =
    let left = without (trim id) (ids_of b.stored) in
    let back : ids_of (array (map string left)) ≡ left =
      ids_of-written left
        (All-without (λ s. is_job_id s ≡ true) (trim id) (ids_of b.stored) (ids_of-AreIds b.stored))
        (omega (arith, length-without (trim id) (ids_of b.stored), ids_of-bounded b.stored)) in
    (
      record { stored = array (map string left); events = suc b.events },
      rw t refl,
      back,
      rw back (Absent-without (trim id) (ids_of b.stored)),
    )

-- Removing an empty id changes nothing.
remove_empty :
    (id : Text) (b : Browser)
    → truthy id ≡ false
    → remove_tracked_generation_job_id id (some b) ≡ some b
unfolding remove_tracked_generation_job_id
remove_empty id b t = rw t refl

-- Whatever the storage holds, at most five ids are read from it, and each has the form of an id.
tracked_valid : (b : Browser) → AreIds (tracked b) × (length (tracked b) ≤ max_tracked)
unfolding get_tracked_generation_job_ids
tracked_valid b = (ids_of-AreIds b.stored, ids_of-bounded b.stored)

-- A call of one of the two writers.
pub data Change : Type 0 where
  add remove : Text → Change

abbrev pub apply : Change → Browser → Browser
apply (add id) b = elim (add_tracked_generation_job_id id (some b)) [ none ↦ b | some b' ↦ b' ]
apply (remove id) b = elim (remove_tracked_generation_job_id id (some b)) [
  | none ↦ b
  | some b' ↦ b'
]

abbrev pub apply_all : List Change → Browser → Browser
apply_all [] b = b
apply_all (c ∷ cs) b = apply_all cs (apply c b)

add-IsTracked :
    (id : Text) (b : Browser) → IsTracked (tracked b) → IsTracked (tracked (apply (add id) b))
add-IsTracked id b h = elim (Bool-cases (truthy id && is_job_id (trim id))) [
  | inl e ↦
      let (b', added, back, _) = get-add id b (ground arith) (ground arith) in
      rw (added, apply) (rw back (ids_after_add-IsTracked id b (ground arith) h))
  | inr e ↦ rw (add_refused id b e, apply) h
]

remove-IsTracked :
    (id : Text) (b : Browser) → IsTracked (tracked b) → IsTracked (tracked (apply (remove id) b))
remove-IsTracked id b h = elim (Bool-cases (truthy id)) [
  | inl t ↦
      let (b', removed, back, _) = get-remove id b t in
      rw (removed, apply)
        (rw back (record {
          valid = All-without (λ s. is_job_id s ≡ true) (trim id) (tracked b) h.valid;
          distinct = AreDistinct-without (trim id) (tracked b) h.distinct;
          bounded = omega (arith, length-without (trim id) (tracked b), h.bounded);
        }))
  | inr t ↦ rw (remove_empty id b t, apply) h
]

-- From a browser whose tracked ids are valid, distinct and five at most, they stay so under every
-- sequence of additions and removals.
pub changes-IsTracked :
    (cs : List Change) (b : Browser) → IsTracked (tracked b) → IsTracked (tracked (apply_all cs b))
changes-IsTracked [] b h = h
changes-IsTracked (add id ∷ cs) b h = changes-IsTracked cs (apply (add id) b) (add-IsTracked id b h)
changes-IsTracked (remove id ∷ cs) b h =
    changes-IsTracked cs (apply (remove id) b) (remove-IsTracked id b h)
