-- ===== src/Engine/Schedule/Waiting.antt =====
-- That a pending target keeps a message that will lead a worker to it.
use influence_platform.Prelude.{
  ℕ, zero, suc, ◌+◌, ◌≤◌, ◌≡◌, refl, Bool, true, false, ◌&&◌, List, [], ◌∷◌, Option, none, some,
  arith, every,
}
use influence_platform.Js.Text.{Text}
use influence_platform.Engine.Target.{
  TargetStatus, pending, claim, mark_published, record_published, schedule_retry, mark_failed,
}
use influence_platform.Engine.Command.{
  Stage, received, claiming, adapting, requeueing, retry_pushing, broken, catching, Reply, answers,
  adapter, throws, AdapterReply, Shared, triage, start_failure, adapted, ended, proceed, resume,
}
use influence_platform.Engine.Schedule.Once.{is_answer}
use influence_platform.Engine.Schedule.{
  World, Event, enqueues, takes, resumes, crashes, requeues_processing, recovers_stale,
  repairs_intent, siblings_become, resume_at, step, run, start, take_message, is_uuid,
}

-- A statement answers, no row goes stale, no process ends, and a message is one for the target.
abbrev pub is_smooth : Event → Bool
is_smooth (resumes i (throws m)) = false
is_smooth (crashes i) = false
is_smooth recovers_stale = false
is_smooth (takes none) = false
is_smooth (takes (some (intent_id, target_id))) = is_uuid target_id && is_uuid intent_id
is_smooth _ = true

-- A handler that will read the row while it is pending, or push a message.
abbrev waits : Stage → ℕ
waits received = 1
waits claiming = 1
waits requeueing = 1
waits retry_pushing = 1
waits broken = 1
waits (catching m) = 1
waits _ = 0

abbrev pub waiters : List Stage → ℕ
waiters [] = 0
waiters (h ∷ hs) = waits h + waiters hs

-- One while the row is pending.
abbrev pub owed : TargetStatus → ℕ
owed pending = 1
owed _ = 0

-- With a number of other handlers that wait, a row that is pending has a message or a handler.
abbrev Led : ℕ → Stage × Shared → Type 0
Led n (st, s) = owed s.target.status ≤ s.commands + waits st + n

proceed-Led : (n : ℕ) (st : Stage) (s : Shared) → Led n (st, s) → Led n (proceed st s)
unfolding proceed triage claim mark_published record_published schedule_retry mark_failed ended
    start_failure
proceed-Led n st s ok = ground (arith, ok)

adapted-Led : (n : ℕ) (a : AdapterReply) (s : Shared) → Led n (adapting, s) → Led n (adapted a s)
unfolding adapted start_failure
adapted-Led n a s ok = ground (arith, ok)

resume-Led :
    (n : ℕ) (st : Stage) (r : Reply) (s : Shared)
    → is_answer r ≡ true
    → Led n (st, s)
    → Led n (resume st r s)
unfolding resume
resume-Led n st answers s calm ok = proceed-Led n st s ok
resume-Led n adapting (adapter a) s calm ok = adapted-Led n a s ok
resume-Led n st (adapter a) s calm ok = ok
resume-Led n st (throws m) s calm ok = ground (arith, calm)

abbrev AllLed : ℕ → List Stage × Shared → Type 0
AllLed n (hs, s) = owed s.target.status ≤ s.commands + waiters hs + n

resume_at-AllLed :
    (n i : ℕ) (r : Reply) (hs : List Stage) (s : Shared)
    → is_answer r ≡ true
    → AllLed n (hs, s)
    → AllLed n (resume_at i r hs s)
unfolding resume_at
resume_at-AllLed n i r [] s calm ok = ok
resume_at-AllLed n zero r (h ∷ hs) s calm ok =
    omega (arith, resume-Led (waiters hs + n) h r s calm (omega (arith, ok)))
resume_at-AllLed n (suc i) r (h ∷ hs) s calm ok =
    omega (arith, resume_at-AllLed (waits h + n) i r hs s calm (omega (arith, ok)))

-- A pending row has a message in the queue, or a handler that will read the row or push a message.
abbrev pub IsLed : World → Type 0
IsLed w = owed w.shared.target.status ≤ w.shared.commands + waiters w.handlers

take_message-IsLed :
    (p : Option (Text × Text)) (n : ℕ) (w : World)
    → is_smooth (takes p) ≡ true
    → n ≡ w.shared.commands
    → IsLed w
    → IsLed (take_message p n w)
unfolding take_message start
take_message-IsLed p zero w calm left ok = ok
take_message-IsLed p (suc n) w calm left ok = ground (arith, calm, left, ok)

resumes-IsLed :
    (i : ℕ) (r : Reply) (w : World) → is_answer r ≡ true → IsLed w → IsLed (step (resumes i r) w)
unfolding step
resumes-IsLed i r w calm ok =
    omega (arith, resume_at-AllLed 0 i r w.handlers w.shared calm (omega (arith, ok)))

step-IsLed : (e : Event) (w : World) → is_smooth e ≡ true → IsLed w → IsLed (step e w)
unfolding step
step-IsLed enqueues w calm ok = omega (arith, ok)
step-IsLed (takes p) w calm ok = take_message-IsLed p w.shared.commands w calm refl ok
step-IsLed (resumes i answers) w calm ok = resumes-IsLed i answers w refl ok
step-IsLed (resumes i (adapter a)) w calm ok = resumes-IsLed i (adapter a) w refl ok
step-IsLed (resumes i (throws m)) w calm ok = ground (arith, calm)
step-IsLed (crashes i) w calm ok = ground (arith, calm)
step-IsLed requeues_processing w calm ok = omega (arith, ok)
step-IsLed recovers_stale w calm ok = ground (arith, calm)
step-IsLed repairs_intent w calm ok = ok
step-IsLed (siblings_become l) w calm ok = ok

-- Under every schedule in which no statement throws, no row goes stale, no process ends and only
-- messages for the target are taken: if the row, where it is pending, has a message in the queue or a
-- handler that will read the row or push a message, then so it does after the schedule.
pub run-IsLed :
    (es : List Event) (w : World) → every is_smooth es ≡ true → IsLed w → IsLed (run es w)
unfolding run
run-IsLed [] w calm ok = ok
run-IsLed (e ∷ es) w calm ok =
    run-IsLed es (step e w) (ground (arith, calm)) (step-IsLed e w (ground (arith, calm)) ok)
