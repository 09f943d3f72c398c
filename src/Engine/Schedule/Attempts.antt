-- ===== src/Engine/Schedule/Attempts.antt =====
-- How often the adapter is called for a target.
use influence_platform.Prelude.{
  ℕ, zero, suc, ◌+◌, ◌≤◌, ◌≡◌, refl, List, [], ◌∷◌, Option, max, arith,
}
use influence_platform.Js.Text.{Text}
use influence_platform.Engine.Target.{
  Target, TargetStatus, pending, claim, mark_published, record_published, schedule_retry,
  mark_failed, recover_stale,
}
use influence_platform.Engine.Command.{
  Stage, checking, adapting, Reply, answers, adapter, throws, AdapterReply, Shared, triage,
  start_failure, adapted, ended, unremoved, proceed, thrown, resume,
}
use influence_platform.Engine.Schedule.{
  World, Event, enqueues, takes, resumes, crashes, requeues_processing, recovers_stale,
  repairs_intent, siblings_become, resume_at, crash, crash_at, step, run, start, take_message,
}

abbrev pub is_checking : Stage → ℕ
is_checking checking = 1
is_checking _ = 0

abbrev pub checks : List Stage → ℕ
checks [] = 0
checks (h ∷ hs) = is_checking h + checks hs

-- A row that is not pending has its attempt begun.
abbrev pub begun : TargetStatus → ℕ
begun pending = 0
begun _ = 1

-- The calls that a row allows.
abbrev pub allowance : Target → ℕ
allowance t = t.retry_count + begun t.status

-- A change of the row and a stage that keeps the balance of calls and allowance.
abbrev Balanced : Stage × Shared → Stage × Shared → Type 0
Balanced (st, s) (st', s') =
    (s'.calls + is_checking st' + allowance s.target
      ≤ s.calls + is_checking st + allowance s'.target)
    × (s'.target.retry_count ≤ max s.target.retry_count s.target.max_retries)
    × (s'.target.max_retries ≡ s.target.max_retries)

proceed-Balanced : (st : Stage) (s : Shared) → Balanced (st, s) (proceed st s)
unfolding proceed triage claim mark_published record_published schedule_retry mark_failed ended
    start_failure
proceed-Balanced st s = ground arith

adapted-Balanced : (a : AdapterReply) (s : Shared) → Balanced (adapting, s) (adapted a s)
unfolding adapted start_failure
adapted-Balanced a s = ground arith

thrown-Balanced : (st : Stage) (m : Text) (s : Shared) → Balanced (st, s) (thrown st m, s)
unfolding thrown unremoved
thrown-Balanced st m s = ground arith

resume-Balanced : (st : Stage) (r : Reply) (s : Shared) → Balanced (st, s) (resume st r s)
unfolding resume
resume-Balanced st answers s = proceed-Balanced st s
resume-Balanced st (throws m) s = thrown-Balanced st m s
resume-Balanced adapting (adapter a) s = adapted-Balanced a s
resume-Balanced st (adapter a) s = ground arith

-- The same for the handlers together.
abbrev AllBalanced : List Stage × Shared → List Stage × Shared → Type 0
AllBalanced (hs, s) (hs', s') =
    (s'.calls + checks hs' + allowance s.target ≤ s.calls + checks hs + allowance s'.target)
    × (s'.target.retry_count ≤ max s.target.retry_count s.target.max_retries)
    × (s'.target.max_retries ≡ s.target.max_retries)

resume_at-AllBalanced :
    (i : ℕ) (r : Reply) (hs : List Stage) (s : Shared) → AllBalanced (hs, s) (resume_at i r hs s)
unfolding resume_at
resume_at-AllBalanced i r [] s = ground arith
resume_at-AllBalanced zero r (h ∷ hs) s = omega (arith, resume-Balanced h r s)
resume_at-AllBalanced (suc i) r (h ∷ hs) s = omega (arith, resume_at-AllBalanced i r hs s)

crash-target :
    (st : Stage) (s : Shared) → ((crash st s).target ≡ s.target) × ((crash st s).calls ≡ s.calls)
unfolding crash
crash-target st s = (ground arith, ground arith)

-- A crash changes neither the row nor the count of calls.
pub crash_at-target :
    (i : ℕ) (hs : List Stage) (s : Shared)
    → ((crash_at i hs s).1.target ≡ s.target) × ((crash_at i hs s).1.calls ≡ s.calls)
unfolding crash_at
crash_at-target i [] s = (refl, refl)
crash_at-target zero (h ∷ hs) s = crash-target h s
crash_at-target (suc i) (h ∷ hs) s = crash_at-target i hs s

crash_at-checks : (i : ℕ) (hs : List Stage) (s : Shared) → checks (crash_at i hs s).0 ≤ checks hs
unfolding crash_at
crash_at-checks i [] s = omega arith
crash_at-checks zero (h ∷ hs) s = omega arith
crash_at-checks (suc i) (h ∷ hs) s = omega (arith, crash_at-checks i hs s)

-- The calls of the adapter, made and about to be made, stay within what the row and the recoveries of
-- stale rows allow, and the retries within their maximum.
pub record IsPaid (w : World) : Type 0 where
  pub paid : w.shared.calls + checks w.handlers ≤ allowance w.shared.target + w.recoveries
  pub limited : w.shared.target.retry_count ≤ w.shared.target.max_retries

start-is_checking : (p : Option (Text × Text)) → is_checking (start p) ≡ 0
unfolding start
start-is_checking p = ground arith

take_message-IsPaid :
    (p : Option (Text × Text)) (n : ℕ) (w : World) → IsPaid w → IsPaid (take_message p n w)
unfolding take_message
take_message-IsPaid p zero w ok = ok
take_message-IsPaid p (suc n) w ok = record {
  paid = omega (arith, ok.paid, start-is_checking p);
  limited = ok.limited;
}

recover_stale-IsPaid : (w : World) → IsPaid w → IsPaid (step recovers_stale w)
unfolding step recover_stale
recover_stale-IsPaid w ok = record {
  paid = ground (arith, ok.paid);
  limited = ground (arith, ok.limited);
}

step-IsPaid : (e : Event) (w : World) → IsPaid w → IsPaid (step e w)
unfolding step
step-IsPaid enqueues w ok = record { paid = ok.paid; limited = ok.limited }
step-IsPaid (takes p) w ok = take_message-IsPaid p w.shared.commands w ok
step-IsPaid (resumes i r) w ok = record {
  paid = omega (arith, resume_at-AllBalanced i r w.handlers w.shared, ok.paid);
  limited = omega (arith, resume_at-AllBalanced i r w.handlers w.shared, ok.limited);
}
step-IsPaid (crashes i) w ok =
    let (same, as_many) = crash_at-target i w.handlers w.shared in
    record {
      paid = rw (same, as_many) (omega (arith, crash_at-checks i w.handlers w.shared, ok.paid));
      limited = rw same ok.limited;
    }
step-IsPaid requeues_processing w ok = record { paid = ok.paid; limited = ok.limited }
step-IsPaid recovers_stale w ok = recover_stale-IsPaid w ok
step-IsPaid repairs_intent w ok = record { paid = ok.paid; limited = ok.limited }
step-IsPaid (siblings_become l) w ok = record { paid = ok.paid; limited = ok.limited }

run-IsPaid : (es : List Event) (w : World) → IsPaid w → IsPaid (run es w)
unfolding run
run-IsPaid [] w ok = ok
run-IsPaid (e ∷ es) w ok = run-IsPaid es (step e w) (step-IsPaid e w ok)

-- No event changes the maximum of retries.
step-max_retries :
    (e : Event) (w : World) → (step e w).shared.target.max_retries ≡ w.shared.target.max_retries
unfolding step take_message recover_stale
step-max_retries (takes p) w = ground arith
step-max_retries (resumes i r) w = omega (arith, resume_at-AllBalanced i r w.handlers w.shared)
step-max_retries (crashes i) w = rw (crash_at-target i w.handlers w.shared).0 refl
step-max_retries recovers_stale w = ground arith
step-max_retries e w = ground arith

run-max_retries :
    (es : List Event) (w : World)
    → (run es w).shared.target.max_retries ≡ w.shared.target.max_retries
unfolding run
run-max_retries [] w = refl
run-max_retries (e ∷ es) w = omega (arith, run-max_retries es (step e w), step-max_retries e w)

-- Under every schedule of any number of handlers, with duplicated messages, exceptions at any statement
-- and crashes, a target whose retries are within their maximum, which no handler is about to publish and
-- for which neither a call of the adapter nor a recovery of its stale row was counted, gets at most one
-- call more than its maximum of retries and the recoveries of its stale row together.
pub run-calls_bound :
    (es : List Event) (w : World)
    → w.shared.calls ≡ 0
    → w.recoveries ≡ 0
    → checks w.handlers ≡ 0
    → w.shared.target.retry_count ≤ w.shared.target.max_retries
    → (run es w).shared.calls ≤ suc w.shared.target.max_retries + (run es w).recoveries
run-calls_bound es w no_calls no_recoveries no_checks limited =
    let ok =
      run-IsPaid es w
        (record { paid = omega (arith, no_calls, no_checks, no_recoveries); limited = limited }) in
    ground (arith, ok.paid, ok.limited, run-max_retries es w)
