-- ===== src/Api/Tests.antt =====
-- The theorems of the API client at concrete inputs.
use influence_platform.Prelude.{◌≡◌, refl, true, false, List, [], ◌∷◌, some}
use influence_platform.Api.Recovery.{
  Event, fails, resumes, run, idle, start_handler, step, resume_at, resume,
}
use influence_platform.Api.Recovery.Exclusive.{IsExclusive, run-IsExclusive}

-- Two requests fail together; both have a token, and the second finds the recovery under way.
abbrev together : List Event
together =
    fails true (some 401)
    ∷ fails true (some 401)
    ∷ resumes 0 true
    ∷ resumes 1 true
    ∷ resumes 0 true
    ∷ resumes 1 true
    ∷ resumes 0 false
    ∷ []

together_runs : ((run together idle).sign_outs ≡ 1) × ((run together idle).redirects ≡ 1)
unfolding run step start_handler resume_at resume
together_runs = (refl, refl)

run-IsExclusive_example : IsExclusive (run together idle)
run-IsExclusive_example = run-IsExclusive together idle refl
