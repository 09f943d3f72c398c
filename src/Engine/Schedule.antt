-- ===== src/Engine/Schedule.antt =====
-- Schedules of the publish consumers: `startPublishConsumer` and the recoveries at its start, in
-- distribution-engine/src/publisher/PublishingWorker.js, for the messages of one target that has a
-- row. Several processes may run; their limits on concurrent handlers only rule out schedules.
pub mod Attempts
pub mod Once
pub mod Final
pub mod Mirror
pub mod Waiting
pub mod Alone
mod Tests
use influence_platform.Prelude.{
  ℕ, zero, suc, ◌+◌, Bool, true, false, ◌&&◌, ◌||◌, List, [], ◌∷◌, Option, none, some,
  if◌then◌else◌, leb, ltb, ◌==◌,
}
use influence_platform.Js.Text.{Text, codes, trim}
use influence_platform.Engine.Target.{
  TargetStatus, Target, recover_stale, is_publishing, is_pending,
}
use influence_platform.Engine.Intent.{repair_intent}
use influence_platform.Engine.Command.{
  Stage, received, adapting, done, dead_lettering, Reply, Shared, resume, push,
}

abbrev is_between : ℕ → ℕ → ℕ → Bool
is_between low high c = leb low c && leb c high

-- `[0-9a-f]`, `[1-5]` and `[89ab]` without regard to case, and a dash, `x`, `v`, `n` and `-`.
abbrev is_unit : ℕ → ℕ → Bool
is_unit kind c =
    let hex = is_between b'0' b'9' c || is_between b'a' b'f' c || is_between b'A' b'F' c in
    let variant = c == b'8' || c == b'9' || c == b'a' || c == b'b' || c == b'A' || c == b'B' in
    if kind == b'x'
    then hex
    else if kind == b'v'
    then is_between b'1' b'5' c
    else if kind == b'n'
    then variant
    else c == kind

has_shape : Text → Text → Bool
has_shape [] [] = true
has_shape (k ∷ kinds) (c ∷ s) = is_unit k c && has_shape kinds s
has_shape _ _ = false

unfoldable pub is_uuid : Text → Bool
unfolding has_shape
is_uuid value = has_shape (codes "xxxxxxxx-xxxx-vxxx-nxxx-xxxxxxxxxxxx") (trim value)

-- A payload is `none` where it is no JSON; its ids are the texts of `intent_id` and `target_id`.
unfoldable pub start : Option (Text × Text) → Stage
start none = dead_lettering false
start (some (intent_id, target_id)) =
    if is_uuid target_id && is_uuid intent_id then received else dead_lettering false

-- The shared state, the handlers, and the times that a stale row was made pending again.
pub record World : Type 0 where
  pub shared : Shared
  pub handlers : List Stage
  pub recoveries : ℕ

pub data Event : Type 0 where
  enqueues : Event
  takes : Option (Text × Text) → Event
  resumes : ℕ → Reply → Event
  crashes : ℕ → Event
  requeues_processing : Event
  recovers_stale : Event
  repairs_intent : Event
  siblings_become : List TargetStatus → Event

-- The handler at a place resumes.
unfoldable pub resume_at : ℕ → Reply → List Stage → Shared → List Stage × Shared
resume_at i reply [] s = ([], s)
resume_at zero reply (h ∷ hs) s = let (h', s') = resume h reply s in (h' ∷ hs, s')
resume_at (suc i) reply (h ∷ hs) s = let (hs', s') = resume_at i reply hs s in (h ∷ hs', s')

-- A post may exist when a process ends while its adapter runs.
unfoldable pub crash : Stage → Shared → Shared
crash adapting s = record s { exposures = suc s.exposures }
crash st s = s

-- A handler whose process ends leaves its message in the processing queue.
unfoldable pub crash_at : ℕ → List Stage → Shared → List Stage × Shared
crash_at i [] s = ([], s)
crash_at zero (h ∷ hs) s = (done ∷ hs, crash h s)
crash_at (suc i) (h ∷ hs) s = let (hs', s') = crash_at i hs s in (h ∷ hs', s')

-- `BRPOPLPUSH`; without a message nothing happens.
unfoldable take_message : Option (Text × Text) → ℕ → World → World
unfolding start
take_message payload zero w = w
take_message payload (suc left) w =
    let s = w.shared in
    record w {
      shared = record s { commands = left; processing = suc s.processing };
      handlers = start payload ∷ w.handlers;
    }

abbrev with_target : Target → Shared → Shared
with_target t s = record s { target = t }

-- Every message of the processing queues goes back to `publish:commands`.
abbrev pub requeue_processing : Shared → Shared
requeue_processing s = record s { commands = s.commands + s.processing; processing = 0 }

-- What the repair of a stale row counts.
abbrev pub made_pending : Target → Target → ℕ
made_pending before after = if is_publishing before.status && is_pending after.status then 1 else 0

unfoldable pub step : Event → World → World
unfolding take_message
step enqueues w = record w { shared = push w.shared }
step (takes payload) w = take_message payload w.shared.commands w
step (resumes i reply) w =
    let (hs, s) = resume_at i reply w.handlers w.shared in record w { shared = s; handlers = hs }
step (crashes i) w =
    let (hs, s) = crash_at i w.handlers w.shared in record w { shared = s; handlers = hs }
step requeues_processing w = record w { shared = requeue_processing w.shared }
step recovers_stale w =
    let t = recover_stale w.shared.target in
    record w {
      shared = with_target t w.shared;
      recoveries = w.recoveries + made_pending w.shared.target t;
    }
step repairs_intent w =
    let s = w.shared in
    record w {
      shared = record s { intent = repair_intent (s.target.status ∷ s.siblings) s.intent };
    }
step (siblings_become statuses) w = record w { shared = record w.shared { siblings = statuses } }

unfoldable pub run : List Event → World → World
run [] w = w
run (e ∷ es) w = run es (step e w)
