-- ===== src/Api/Recovery/Exclusive.antt =====
-- At most one handler signs out at a time.
use influence_platform.Prelude.{
  ℕ, zero, suc, ◌+◌, ◌≤◌, ◌≡◌, Bool, true, false, List, [], ◌∷◌, none, some, arith,
}
use influence_platform.Api.Recovery.{
  Handler, signing_out, Recovery, start_handler, resume, resume_at, Event, fails, resumes, step,
  run,
}

abbrev pub is_signing : Handler → ℕ
is_signing signing_out = 1
is_signing _ = 0

abbrev pub signing : List Handler → ℕ
signing [] = 0
signing (h ∷ hs) = is_signing h + signing hs

abbrev pub flag_value : Bool → ℕ
flag_value true = 1
flag_value false = 0

-- The flag is set exactly while one handler signs out, and no second one does.
abbrev pub IsExclusive : Recovery → Type 0
IsExclusive s = signing s.handlers ≡ flag_value s.in_progress

-- Each assignment to the location ended a `signOut`, and each handler that signs out began one.
abbrev pub IsAccounted : Recovery → Type 0
IsAccounted s = s.redirects + signing s.handlers ≤ s.sign_outs

resume-signing :
    (h : Handler) (answer flag : Bool)
    → is_signing h ≤ flag_value flag
    → is_signing (resume h answer flag).handler + flag_value flag
      ≡ is_signing h + flag_value (resume h answer flag).flag
unfolding resume
resume-signing h answer flag k = ground arith

resume_at-signing :
    (i : ℕ) (answer flag : Bool) (hs : List Handler)
    → signing hs ≤ flag_value flag
    → signing (resume_at i answer flag hs).0 + flag_value flag
      ≡ signing hs + flag_value (resume_at i answer flag hs).1.flag
unfolding resume_at
resume_at-signing i answer flag [] k = omega arith
resume_at-signing zero answer flag (h ∷ hs) k =
    omega (arith, resume-signing h answer flag (omega arith))
resume_at-signing (suc i) answer flag (h ∷ hs) k =
    omega (arith, resume_at-signing i answer flag hs (omega arith))

step-IsExclusive : (e : Event) (s : Recovery) → IsExclusive s → IsExclusive (step e s)
unfolding step start_handler
step-IsExclusive (fails has_window none) s h = omega (arith, h)
step-IsExclusive (fails has_window (some status)) s h = ground arith
step-IsExclusive (resumes i answer) s h =
    omega (arith, resume_at-signing i answer s.in_progress s.handlers (omega arith))

-- Under every schedule of failures and resumptions, the flag is set exactly while one handler signs
-- out: two handlers never sign out at a time.
pub run-IsExclusive : (es : List Event) (s : Recovery) → IsExclusive s → IsExclusive (run es s)
unfolding run
run-IsExclusive [] s h = h
run-IsExclusive (e ∷ es) s h = run-IsExclusive es (step e s) (step-IsExclusive e s h)

resume-accounted :
    (h : Handler) (answer flag : Bool)
    → let r = resume h answer flag in
      r.redirects + is_signing r.handler ≤ is_signing h + r.signs_out
unfolding resume
resume-accounted h answer flag = ground arith

resume_at-accounted :
    (i : ℕ) (answer flag : Bool) (hs : List Handler)
    → let (hs', r) = resume_at i answer flag hs in
      r.redirects + signing hs' ≤ signing hs + r.signs_out
unfolding resume_at
resume_at-accounted i answer flag [] = omega arith
resume_at-accounted zero answer flag (h ∷ hs) = omega (arith, resume-accounted h answer flag)
resume_at-accounted (suc i) answer flag (h ∷ hs) =
    omega (arith, resume_at-accounted i answer flag hs)

step-IsAccounted : (e : Event) (s : Recovery) → IsAccounted s → IsAccounted (step e s)
unfolding step start_handler
step-IsAccounted (fails has_window none) s h = omega (arith, h)
step-IsAccounted (fails has_window (some status)) s h = ground arith
step-IsAccounted (resumes i answer) s h =
    omega (arith, resume_at-accounted i answer s.in_progress s.handlers)

-- Under every schedule, the page is sent to the login at most once for each call of `signOut`.
run-IsAccounted : (es : List Event) (s : Recovery) → IsAccounted s → IsAccounted (run es s)
unfolding run
run-IsAccounted [] s h = h
run-IsAccounted (e ∷ es) s h = run-IsAccounted es (step e s) (step-IsAccounted e s h)
