-- ===== src/Tracking.antt =====
-- The tracked generation jobs in the browser's storage:
-- dashboard/src/lib/generation-job-tracking.ts, and dashboard/src/lib/generation-job-actions.ts.
-- The stored item is given by what `JSON.parse` makes of it; `JSON.stringify` of a list of texts is
-- parsed back to that list.
pub mod Laws
pub mod Invariant
mod Tests
use influence_platform.Prelude.{
  ℕ, suc, Bool, true, false, ◌&&◌, ◌||◌, not, List, [], ◌∷◌, map, Option, none, some, leb, ◌==◌,
  if◌then◌else◌, length, take, filter, every,
}
use influence_platform.Js.Text.{Text, codes, ◌===◌, trim, truthy}
use influence_platform.Js.Unknown.{Unknown, string}

-- No item or an empty one; an item that is no JSON; JSON that is no array; an array.
pub data Stored : Type 0 where
  absent malformed other : Stored
  array : List Unknown → Stored

-- The storage item, and how many times TRACKING_CHANGED_EVENT was dispatched.
pub record Browser : Type 0 where
  pub stored : Stored
  pub events : ℕ

abbrev pub max_tracked : ℕ
max_tracked = 5

abbrev is_id_unit : ℕ → Bool
is_id_unit c =
    (leb b'0' c && leb c b'9')
    || (leb b'a' c && leb c b'f')
    || (leb b'A' c && leb c b'F')
    || c == b'-'

-- `/^[0-9a-f-]{36}$/i`
unfoldable pub is_job_id : Text → Bool
is_job_id s = length s == 36 && every is_id_unit s

-- The filter over the parsed array keeps the texts that are ids.
unfoldable pub job_ids : List Unknown → List Text
job_ids [] = []
job_ids (string s ∷ xs) = if is_job_id s then s ∷ job_ids xs else job_ids xs
job_ids (_ ∷ xs) = job_ids xs

unfoldable pub ids_of : Stored → List Text
ids_of (array xs) = take max_tracked (job_ids xs)
ids_of _ = []

-- `none` is a server, where `window` is undefined.
unfoldable pub get_tracked_generation_job_ids : Option Browser → List Text
unfolding ids_of job_ids
get_tracked_generation_job_ids none = []
get_tracked_generation_job_ids (some b) = ids_of b.stored

-- `ids.filter((id) => id !== jobId)`
unfoldable pub without : Text → List Text → List Text
without id ids = filter (λ x. not (x === id)) ids

-- `localStorage.setItem` and the event.
abbrev write_ids : List Text → Browser → Browser
write_ids ids b = record { stored = array (map string ids); events = suc b.events }

add_to : Text → Browser → Browser
unfolding without ids_of
add_to trimmed b =
    if is_job_id trimmed
    then write_ids (take max_tracked (trimmed ∷ without trimmed (ids_of b.stored))) b
    else b

unfoldable pub add_tracked_generation_job_id : Text → Option Browser → Option Browser
unfolding add_to
add_tracked_generation_job_id job_id none = none
add_tracked_generation_job_id job_id (some b) =
    some (if truthy job_id then add_to (trim job_id) b else b)

unfoldable pub remove_tracked_generation_job_id : Text → Option Browser → Option Browser
unfolding without ids_of
remove_tracked_generation_job_id job_id none = none
remove_tracked_generation_job_id job_id (some b) =
    some (if truthy job_id then write_ids (without (trim job_id) (ids_of b.stored)) b else b)

-- `canAbandonGenerationJob`: the job has a status and it is no active one.
unfoldable pub can_abandon_generation_job : Option Text → Bool
can_abandon_generation_job none = false
can_abandon_generation_job (some status) =
    truthy status
    && not
        (status === codes "running" || status === codes "pending" || status === codes "cancelling")
