-- ===== src/Engine/Schedule/Once.antt =====
-- That one publication is posted at most once, where no statement throws and no row goes stale.
use influence_platform.Prelude.{
  ℕ, zero, suc, ◌+◌, ◌≤◌, ◌≡◌, refl, Bool, true, false, List, [], ◌∷◌, Option, arith, every,
}
use influence_platform.Js.Text.{Text, ◌===◌}
use influence_platform.Engine.Target.{
  claim, mark_published, record_published, schedule_retry, mark_failed,
}
use influence_platform.Engine.Command.{
  Stage, checking, adapting, retrying, catching, Reply, answers, adapter, throws, AdapterReply,
  Shared, triage, start_failure, raised_failure, timeout_message, adapted, ended, proceed, resume,
}
use influence_platform.Engine.Schedule.{
  World, Event, takes, resumes, crashes, recovers_stale, resume_at, crash, crash_at, step, run,
  start, take_message,
}
use influence_platform.Engine.Schedule.Attempts.{begun}

-- A statement answers, and no row goes stale.
abbrev pub is_calm : Event → Bool
is_calm (resumes i (throws m)) = false
is_calm recovers_stale = false
is_calm _ = true

-- A handler that may still post, or make the row pending again.
abbrev owns : Stage → ℕ
owns checking = 1
owns adapting = 1
owns (retrying f) = 1
owns (catching m) = 1
owns _ = 0

abbrev pub owners : List Stage → ℕ
owners [] = 0
owners (h ∷ hs) = owns h + owners hs

abbrev pub is_answer : Reply → Bool
is_answer (throws m) = false
is_answer _ = true

abbrev Guarded : Stage × Shared → Stage × Shared → Type 0
Guarded (st, s) (st', s') =
    s'.exposures + owns st' + begun s.target.status ≤ s.exposures + owns st + begun s'.target.status

proceed-Guarded : (st : Stage) (s : Shared) → Guarded (st, s) (proceed st s)
unfolding proceed triage claim mark_published record_published schedule_retry mark_failed ended
    start_failure
proceed-Guarded st s = ground arith

pub raised_failure_timeout : (raised_failure timeout_message).allow_retry ≡ false
unfolding raised_failure ◌===◌
raised_failure_timeout = refl

adapted-Guarded : (a : AdapterReply) (s : Shared) → Guarded (adapting, s) (adapted a s)
unfolding adapted start_failure
adapted-Guarded a s = ground (arith, raised_failure_timeout)

resume-Guarded :
    (st : Stage) (r : Reply) (s : Shared) → is_answer r ≡ true → Guarded (st, s) (resume st r s)
unfolding resume
resume-Guarded st answers s calm = proceed-Guarded st s
resume-Guarded adapting (adapter a) s calm = adapted-Guarded a s
resume-Guarded st (adapter a) s calm = ground arith
resume-Guarded st (throws m) s calm = ground (arith, calm)

abbrev AllGuarded : List Stage × Shared → List Stage × Shared → Type 0
AllGuarded (hs, s) (hs', s') =
    s'.exposures + owners hs' + begun s.target.status
    ≤ s.exposures + owners hs + begun s'.target.status

resume_at-AllGuarded :
    (i : ℕ) (r : Reply) (hs : List Stage) (s : Shared)
    → is_answer r ≡ true
    → AllGuarded (hs, s) (resume_at i r hs s)
unfolding resume_at
resume_at-AllGuarded i r [] s calm = ground arith
resume_at-AllGuarded zero r (h ∷ hs) s calm = omega (arith, resume-Guarded h r s calm)
resume_at-AllGuarded (suc i) r (h ∷ hs) s calm = omega (arith, resume_at-AllGuarded i r hs s calm)

crash-Guarded :
    (st : Stage) (s : Shared)
    → ((crash st s).exposures ≤ s.exposures + owns st) × ((crash st s).target ≡ s.target)
unfolding crash
crash-Guarded st s = (ground arith, ground arith)

crash_at-AllGuarded : (i : ℕ) (hs : List Stage) (s : Shared) → AllGuarded (hs, s) (crash_at i hs s)
unfolding crash_at
crash_at-AllGuarded i [] s = omega arith
crash_at-AllGuarded zero (h ∷ hs) s =
    let (exposed, same) = crash-Guarded h s in rw same (omega (arith, exposed))
crash_at-AllGuarded (suc i) (h ∷ hs) s = omega (arith, crash_at-AllGuarded i hs s)

-- What may have been posted and the handlers that may still post are one together, and none while the
-- row is pending.
abbrev pub IsGuarded : World → Type 0
IsGuarded w = w.shared.exposures + owners w.handlers ≤ begun w.shared.target.status

start-owns : (p : Option (Text × Text)) → owns (start p) ≡ 0
unfolding start
start-owns p = ground arith

take_message-IsGuarded :
    (p : Option (Text × Text)) (n : ℕ) (w : World) → IsGuarded w → IsGuarded (take_message p n w)
unfolding take_message
take_message-IsGuarded p zero w ok = ok
take_message-IsGuarded p (suc n) w ok = omega (arith, ok, start-owns p)

resumes-IsGuarded :
    (i : ℕ) (r : Reply) (w : World)
    → is_answer r ≡ true
    → IsGuarded w
    → IsGuarded (step (resumes i r) w)
unfolding step
resumes-IsGuarded i r w calm ok =
    omega (arith, resume_at-AllGuarded i r w.handlers w.shared calm, ok)

step-IsGuarded : (e : Event) (w : World) → is_calm e ≡ true → IsGuarded w → IsGuarded (step e w)
unfolding step
step-IsGuarded (takes p) w calm ok = take_message-IsGuarded p w.shared.commands w ok
step-IsGuarded (resumes i answers) w calm ok = resumes-IsGuarded i answers w refl ok
step-IsGuarded (resumes i (adapter a)) w calm ok = resumes-IsGuarded i (adapter a) w refl ok
step-IsGuarded (resumes i (throws m)) w calm ok = ground (arith, calm)
step-IsGuarded (crashes i) w calm ok = omega (arith, crash_at-AllGuarded i w.handlers w.shared, ok)
step-IsGuarded recovers_stale w calm ok = ground (arith, calm)
step-IsGuarded e w calm ok = ok

run-IsGuarded :
    (es : List Event) (w : World) → every is_calm es ≡ true → IsGuarded w → IsGuarded (run es w)
unfolding run
run-IsGuarded [] w calm ok = ok
run-IsGuarded (e ∷ es) w calm ok =
    run-IsGuarded es (step e w) (ground (arith, calm))
      (step-IsGuarded e w (ground (arith, calm)) ok)

-- Under every schedule of any number of handlers, with duplicated messages and crashes, in which no
-- statement throws and no row goes stale, a target for which nothing may have been posted, and which no
-- handler is about to publish or to retry, is posted at most once, where a call past its time, a
-- failure that is not safe to retry and a crash while the adapter runs count as posts, and an exception
-- that the adapter throws does not.
pub run-once :
    (es : List Event) (w : World)
    → every is_calm es ≡ true
    → w.shared.exposures ≡ 0
    → owners w.handlers ≡ 0
    → (run es w).shared.exposures ≤ 1
run-once es w calm unexposed no_owners =
    let ok = run-IsGuarded es w calm (omega (arith, unexposed, no_owners)) in ground (arith, ok)
