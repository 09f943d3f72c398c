-- ===== src/Api/Recovery.antt =====
-- The recovery from expired sessions: `handleUnauthorizedError`. Several requests may fail together;
-- each failure runs the handler, which gives up control at every `await`. A handler between two
-- awaits is a `Handler`, and a schedule is a list of failures that arrive and handlers that resume.
pub mod Exclusive
use influence_platform.Prelude.{
  ℕ, zero, suc, ◌+◌, ◌*◌, ◌≤◌, ◌<◌, ◌≡◌, refl, Bool, true, false, ◌&&◌, List, [], ◌∷◌, ◌++◌, Option,
  none, some, if◌then◌else◌, ◌==◌, arith, length, All, inl, inr, Bool-cases, ◌⊎◌,
}

-- Waiting for the import of `next-auth/react`, for the first session, for the 400 ms, for the second session, for the end of `signOut`;
-- and rejected, which is how every handler ends.
pub data Handler : Type 0 where
  importing first_session pausing second_session signing_out rejected : Handler

-- The flag `authRecoveryInProgress`, the handlers, the calls of `signOut` and the assignments to
-- `window.location.href`.
pub record Recovery : Type 0 where
  pub in_progress : Bool
  pub handlers : List Handler
  pub sign_outs : ℕ
  pub redirects : ℕ

-- `status` is `error?.response?.status`.
unfoldable pub start_handler : Bool → Option ℕ → Handler
start_handler has_window none = rejected
start_handler has_window (some status) = if has_window && status == 401 then importing else rejected

-- What one resumption does: the handler and the flag afterwards, and what was called.
pub record Resumed : Type 0 where
  pub handler : Handler
  pub flag : Bool
  pub signs_out : ℕ
  pub redirects : ℕ

abbrev quiet : Handler → Bool → Resumed
quiet h flag = record { handler = h; flag = flag; signs_out = 0; redirects = 0 }

-- From `if (!authRecoveryInProgress)` on, up to the `await` of `signOut`.
unfoldable pub recover : Bool → Resumed
recover true = quiet rejected true
recover false = record { handler = signing_out; flag = true; signs_out = 1; redirects = 0 }

-- The answer is whether the import succeeded, whether the session has a token, or whether `signOut`
-- succeeded.
unfoldable pub resume : Handler → Bool → Bool → Resumed
unfolding recover
resume importing true flag = quiet first_session flag
resume importing false flag = quiet rejected flag
resume first_session true flag = recover flag
resume first_session false flag = quiet pausing flag
resume pausing answer flag = quiet second_session flag
resume second_session true flag = recover flag
resume second_session false flag = quiet rejected flag
resume signing_out true flag = quiet rejected false
resume signing_out false flag = record {
  handler = rejected;
  flag = false;
  signs_out = 0;
  redirects = 1;
}
resume rejected answer flag = quiet rejected flag

-- The handler at a place resumes; at a place beyond the list nothing does.
unfoldable pub resume_at : ℕ → Bool → Bool → List Handler → List Handler × Resumed
resume_at i answer flag [] = ([], quiet rejected flag)
resume_at zero answer flag (h ∷ hs) = let r = resume h answer flag in (r.handler ∷ hs, r)
resume_at (suc i) answer flag (h ∷ hs) = let (hs', r) = resume_at i answer flag hs in (h ∷ hs', r)

pub data Event : Type 0 where
  fails : Bool → Option ℕ → Event
  resumes : ℕ → Bool → Event

unfoldable pub step : Event → Recovery → Recovery
step (fails has_window status) s = record s {
  handlers = start_handler has_window status ∷ s.handlers;
}
step (resumes i answer) s =
    let (hs, r) = resume_at i answer s.in_progress s.handlers in
    record {
      in_progress = r.flag;
      handlers = hs;
      sign_outs = s.sign_outs + r.signs_out;
      redirects = s.redirects + r.redirects;
    }

unfoldable pub run : List Event → Recovery → Recovery
run [] s = s
run (e ∷ es) s = run es (step e s)

abbrev pub idle : Recovery
idle = record { in_progress = false; handlers = []; sign_outs = 0; redirects = 0 }
