-- ===== src/Engine/Schedule/Mirror.antt =====
-- The row of the publications table mirrors the target's.
use influence_platform.Prelude.{ℕ, zero, suc, ◌≡◌, ◌⊎◌, List, [], ◌∷◌, Option, none, some, arith}
use influence_platform.Js.Text.{Text}
use influence_platform.Engine.Target.{
  Target, claim, mark_published, record_published, schedule_retry, mark_failed, recover_stale,
}
use influence_platform.Engine.Command.{
  Stage, adapting, syncing, failure_syncing, Reply, answers, adapter, throws, AdapterReply, Shared,
  triage, adapted, proceed, resume,
}
use influence_platform.Engine.Schedule.{
  World, Event, takes, resumes, crashes, recovers_stale, resume_at, crash, crash_at, step, run,
  take_message,
}
use influence_platform.Engine.Publication.{PublicationRow, mirrored, sync_publication}

-- What a mirroring row has of the row that is written; an older post's id may stay.
abbrev essence : Option PublicationRow → Option (Text × Option Text × Option Text × ℕ × ℕ)
essence none = none
essence (some r) = some (r.status, r.failure_type, r.error_message, r.retry_count, r.max_retries)

-- There is no row, or it says what is to be written for the target.
abbrev pub IsMirrored : Shared → Type 0
IsMirrored s = (s.publication ≡ none) ⊎ (essence s.publication ≡ essence (mirrored s.target))

sync_publication-IsMirrored :
    (t : Target) (p : Option PublicationRow)
    → ((p ≡ none) ⊎ (essence p ≡ essence (mirrored t)))
    → (sync_publication t p ≡ none) ⊎ (essence (sync_publication t p) ≡ essence (mirrored t))
unfolding sync_publication
sync_publication-IsMirrored t p ok = ground (arith, ok)

proceed-IsMirrored : (st : Stage) (s : Shared) → IsMirrored s → IsMirrored (proceed st s).1
unfolding proceed triage claim mark_published record_published schedule_retry mark_failed mirrored
proceed-IsMirrored (syncing e) s ok = sync_publication-IsMirrored s.target s.publication ok
proceed-IsMirrored (failure_syncing f) s ok = sync_publication-IsMirrored s.target s.publication ok
proceed-IsMirrored st s ok = ground (arith, ok)

adapted-IsMirrored : (a : AdapterReply) (s : Shared) → IsMirrored s → IsMirrored (adapted a s).1
unfolding adapted
adapted-IsMirrored a s ok = ground (arith, ok)

resume-IsMirrored :
    (st : Stage) (r : Reply) (s : Shared) → IsMirrored s → IsMirrored (resume st r s).1
unfolding resume
resume-IsMirrored st answers s ok = proceed-IsMirrored st s ok
resume-IsMirrored adapting (adapter a) s ok = adapted-IsMirrored a s ok
resume-IsMirrored st (adapter a) s ok = ok
resume-IsMirrored st (throws m) s ok = ok

resume_at-IsMirrored :
    (i : ℕ) (r : Reply) (hs : List Stage) (s : Shared)
    → IsMirrored s
    → IsMirrored (resume_at i r hs s).1
unfolding resume_at
resume_at-IsMirrored i r [] s ok = ok
resume_at-IsMirrored zero r (h ∷ hs) s ok = resume-IsMirrored h r s ok
resume_at-IsMirrored (suc i) r (h ∷ hs) s ok = resume_at-IsMirrored i r hs s ok

crash_at-IsMirrored :
    (i : ℕ) (hs : List Stage) (s : Shared) → IsMirrored s → IsMirrored (crash_at i hs s).1
unfolding crash_at crash
crash_at-IsMirrored i [] s ok = ok
crash_at-IsMirrored zero (h ∷ hs) s ok = ground (arith, ok)
crash_at-IsMirrored (suc i) (h ∷ hs) s ok = crash_at-IsMirrored i hs s ok

step-IsMirrored : (e : Event) (w : World) → IsMirrored w.shared → IsMirrored (step e w).shared
unfolding step take_message recover_stale mirrored
step-IsMirrored (takes p) w ok = ground (arith, ok)
step-IsMirrored (resumes i r) w ok = resume_at-IsMirrored i r w.handlers w.shared ok
step-IsMirrored (crashes i) w ok = crash_at-IsMirrored i w.handlers w.shared ok
step-IsMirrored recovers_stale w ok = ground (arith, ok)
step-IsMirrored e w ok = ok

-- Under every schedule, whatever throws or crashes, the publications table has no row for a target, or
-- one with the status, the kind of failure, the error and the retries that the target's row gives,
-- which is final; where it held before.
pub run-IsMirrored :
    (es : List Event) (w : World) → IsMirrored w.shared → IsMirrored (run es w).shared
unfolding run
run-IsMirrored [] w ok = ok
run-IsMirrored (e ∷ es) w ok = run-IsMirrored es (step e w) (step-IsMirrored e w ok)
