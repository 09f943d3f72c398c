-- ===== src/Engine/Delayed.antt =====
-- The delayed queue of distribution-engine/src/core/redis.js: `pushDelayed` and `pollDelayedQueue`. The
-- sorted set is a list of payloads with their scores; a payload is in it once. A poll has read the items
-- that are due, and moves them one statement at a time; it ends where a statement throws.
pub mod Kept
mod Tests
use influence_platform.Prelude.{
  ℕ, zero, suc, ◌+◌, Bool, true, false, ◌&&◌, not, List, [], ◌∷◌, map, Option, none, some,
  if◌then◌else◌, leb, filter, any,
}
use influence_platform.Js.Text.{Text, ◌===◌}

-- `content:delayed` and `content:ready`.
pub record DelayedQueues : Type 0 where
  pub delayed : List (Text × ℕ)
  pub ready : List Text

abbrev without : Text → List (Text × ℕ) → List (Text × ℕ)
without payload items = filter (λ ((t, score) : Text × ℕ). not (t === payload)) items

-- `ZADD` sets the score of a payload that is there.
unfoldable pub push_delayed : ℕ → Text → ℕ → DelayedQueues → DelayedQueues
push_delayed now payload delay q = record q {
  delayed = (payload, now + delay) ∷ without payload q.delayed;
}

-- `ZRANGEBYSCORE … 0 now`; the order by score is left out.
unfoldable pub due : ℕ → DelayedQueues → List Text
due now q =
    map (λ ((t, score) : Text × ℕ). t) (filter (λ ((t, score) : Text × ℕ). leb score now) q.delayed)

unfoldable pub push_ready : Text → DelayedQueues → DelayedQueues
push_ready item q = record q { ready = item ∷ q.ready }

unfoldable pub remove_delayed : Text → DelayedQueues → DelayedQueues
remove_delayed item q = record q { delayed = without item q.delayed }

-- The statements of a poll over the items that are due, up to a number of them.
unfoldable pub move_items : ℕ → List Text → DelayedQueues → DelayedQueues
move_items n [] q = q
move_items zero (item ∷ items) q = q
move_items (suc zero) (item ∷ items) q = push_ready item q
move_items (suc (suc n)) (item ∷ items) q =
    move_items n items (remove_delayed item (push_ready item q))

-- A poll, of which a number of statements succeed.
unfoldable pub poll_delayed_queue : ℕ → ℕ → DelayedQueues → DelayedQueues
poll_delayed_queue now n q = move_items n (due now q) q
