-- ===== src/Tracking/Tests.antt =====
-- Runs of the tracked ids, and the theorems at concrete inputs.
use influence_platform.Prelude.{◌≡◌, refl, [], ◌∷◌, some, arith}
use influence_platform.Js.Text.{Text, codes, ◌===◌, trim}
use influence_platform.Js.Unknown.{number, string}
use influence_platform.Tracking.{
  Browser, array, absent, is_job_id, get_tracked_generation_job_ids, add_tracked_generation_job_id,
}
use influence_platform.Tracking.Laws.{IsTracked}
use influence_platform.Tracking.Invariant.{tracked, add, remove, apply_all, changes-IsTracked}

abbrev id_a : Text
id_a = codes "0123456789ab-0123456789ab-0123456789"

abbrev id_b : Text
id_b = codes "ABCDEF012345-0123456789ab-0123456789"

abbrev browser : Browser
browser = record { stored = array (string id_a ∷ number 3 ∷ string id_b ∷ []); events = 0 }

add_runs :
    get_tracked_generation_job_ids (add_tracked_generation_job_id id_b (some browser))
    ≡ id_b ∷ id_a ∷ []
unfolding get_tracked_generation_job_ids add_tracked_generation_job_id is_job_id ◌===◌ trim
add_runs = refl

abbrev empty : Browser
empty = record { stored = absent; events = 0 }

empty-IsTracked : IsTracked (tracked empty)
unfolding get_tracked_generation_job_ids
empty-IsTracked = record { valid = tt; distinct = tt; bounded = omega arith }

changes-IsTracked_example :
    IsTracked (tracked (apply_all (add id_a ∷ add id_b ∷ remove id_a ∷ []) empty))
changes-IsTracked_example =
    changes-IsTracked (add id_a ∷ add id_b ∷ remove id_a ∷ []) empty empty-IsTracked
