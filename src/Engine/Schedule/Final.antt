-- ===== src/Engine/Schedule/Final.antt =====
-- Final rows: no event changes them.
use influence_platform.Prelude.{ℕ, zero, suc, ◌≡◌, refl, ◌∙◌, ap, true, List, [], ◌∷◌, arith}
use influence_platform.Engine.Target.{
  claim, mark_published, record_published, schedule_retry, mark_failed, recover_stale, is_final,
}
use influence_platform.Engine.Command.{
  Stage, adapting, Reply, answers, adapter, throws, AdapterReply, Shared, triage, adapted, proceed,
  resume,
}
use influence_platform.Engine.Schedule.Attempts.{crash_at-target}
use influence_platform.Engine.Schedule.{
  World, Event, takes, resumes, crashes, recovers_stale, resume_at, step, run, take_message,
}

proceed_final :
    (st : Stage) (s : Shared) → is_final s.target.status ≡ true → (proceed st s).1.target ≡ s.target
unfolding proceed triage claim mark_published record_published schedule_retry mark_failed
proceed_final st s final = ground (arith, final)

adapted_target : (a : AdapterReply) (s : Shared) → (adapted a s).1.target ≡ s.target
unfolding adapted
adapted_target a s = ground arith

resume_final :
    (st : Stage) (r : Reply) (s : Shared)
    → is_final s.target.status ≡ true
    → (resume st r s).1.target ≡ s.target
unfolding resume
resume_final st answers s final = proceed_final st s final
resume_final adapting (adapter a) s final = adapted_target a s
resume_final st (adapter a) s final = refl
resume_final st (throws m) s final = refl

resume_at_final :
    (i : ℕ) (r : Reply) (hs : List Stage) (s : Shared)
    → is_final s.target.status ≡ true
    → (resume_at i r hs s).1.target ≡ s.target
unfolding resume_at
resume_at_final i r [] s final = refl
resume_at_final zero r (h ∷ hs) s final = resume_final h r s final
resume_at_final (suc i) r (h ∷ hs) s final = resume_at_final i r hs s final

step_final :
    (e : Event) (w : World)
    → is_final w.shared.target.status ≡ true
    → (step e w).shared.target ≡ w.shared.target
unfolding step take_message recover_stale
step_final (takes p) w final = ground arith
step_final (resumes i r) w final = resume_at_final i r w.handlers w.shared final
step_final (crashes i) w final = (crash_at-target i w.handlers w.shared).0
step_final recovers_stale w final = ground (arith, final)
step_final e w final = ground arith

-- Under every schedule of the workers, whatever throws or crashes, a row that is published, failed or
-- uncertain stays as it is, its post, its error and its retries included; a retry by an operator is no
-- event of a schedule.
pub run_final :
    (es : List Event) (w : World)
    → is_final w.shared.target.status ≡ true
    → (run es w).shared.target ≡ w.shared.target
unfolding run
run_final [] w final = refl
run_final (e ∷ es) w final =
    let kept = step_final e w final in
    run_final es (step e w) (ap (λ t. is_final t.status) kept ∙ final) ∙ kept
