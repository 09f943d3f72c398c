-- ===== src/Engine/Schedule/Tests.antt =====
-- The theorems on schedules at work, and the schedules that lose a message or post twice.
use influence_platform.Prelude.{
  ℕ, ◌+◌, ◌≤◌, ◌≡◌, refl, inl, arith, List, [], ◌∷◌, ◌++◌, Option, none, some,
}
use influence_platform.Js.Text.{Text, codes, trim}
use influence_platform.Engine.Target.{
  TargetStatus, pending, publishing, published, Target, Post, claim, schedule_retry, recover_stale,
}
use influence_platform.Engine.Command.{
  answers, adapter, throws, posted, proceed, triage, adapted, thrown, resume, start_failure,
}
use influence_platform.Engine.Schedule.{
  World, Event, takes, resumes, recovers_stale, run, step, is_uuid, resume_at, start, take_message,
}
use influence_platform.Engine.Schedule.Once.{run-once}
use influence_platform.Engine.Schedule.Attempts.{run-calls_bound}
use influence_platform.Engine.Schedule.Final.{run_final}
use influence_platform.Engine.Schedule.Mirror.{run-IsMirrored, IsMirrored}
use influence_platform.Engine.Schedule.Waiting.{run-IsLed, IsLed}

abbrev target_in : TargetStatus → Target
target_in status = record {
  status = status;
  retry_count = 0;
  max_retries = 3;
  external_post_id = none;
  external_post_url = none;
  publish_stage = none;
  provider_container_id = none;
  last_error = none;
}

abbrev world_in : TargetStatus → ℕ → World
world_in status messages = record {
  shared = record {
    target = target_in status;
    commands = messages;
    processing = 0;
    dead = 0;
    calls = 0;
    exposures = 0;
    publication = none;
    intent = record { status = codes "queued"; error_message = none };
    siblings = [];
  };
  handlers = [];
  recoveries = 0;
}

abbrev payload : Option (Text × Text)
payload =
    some
      (codes "6f1c2f4e-52a3-4c43-9a52-0d2f6b7c8d9e", codes "0b0e7a52-1111-4222-8333-444455556666")

abbrev the_post : Post
the_post = record {
  external_post_id = codes "178";
  external_post_url = codes "https://www.instagram.com/p/178/";
  container_id = some (codes "17");
  stage = some (codes "published");
}

-- A message is taken and its handler goes on up to the adapter.
abbrev up_to_adapter : List Event
up_to_adapter = takes payload ∷ resumes 0 answers ∷ resumes 0 answers ∷ resumes 0 answers ∷ []

-- Two messages for the target: the second handler ends while the first waits for the adapter.
abbrev two_handlers : List Event
two_handlers =
    up_to_adapter
    ++ takes payload
      ∷ resumes 0 answers
      ∷ resumes 0 answers
      ∷ resumes 1 (adapter (posted the_post))
      ∷ resumes 1 answers
      ∷ resumes 1 answers
      ∷ []

run-once_example : (run two_handlers (world_in pending 2)).shared.exposures ≤ 1
run-once_example = run-once two_handlers (world_in pending 2) refl refl refl

run-calls_bound_example :
    (run (two_handlers ++ resumes 1 (throws (codes "down")) ∷ []) (world_in pending 2)).shared.calls
    ≤ 4
      + (run
          (two_handlers ++ resumes 1 (throws (codes "down")) ∷ [])
          (world_in pending 2)).recoveries
run-calls_bound_example =
    run-calls_bound (two_handlers ++ resumes 1 (throws (codes "down")) ∷ []) (world_in pending 2)
      refl refl refl (omega arith)

run_final_example : (run two_handlers (world_in published 2)).shared.target ≡ target_in published
run_final_example = run_final two_handlers (world_in published 2) refl

run-IsMirrored_example : IsMirrored (run two_handlers (world_in pending 2)).shared
run-IsMirrored_example = run-IsMirrored two_handlers (world_in pending 2) (inl refl)

run-IsLed_example : IsLed (run two_handlers (world_in pending 2))
unfolding is_uuid trim
run-IsLed_example = run-IsLed two_handlers (world_in pending 2) refl (omega arith)

-- A post that is made while its row cannot be written is made again: the exception leads to a retry.
posted_twice :
    (run
      (up_to_adapter
        ++ resumes 0 (adapter (posted the_post))
          ∷ resumes 0 (throws (codes "down"))
          ∷ resumes 0 answers
          ∷ resumes 0 answers
          ∷ resumes 0 answers
          ∷ up_to_adapter
        ++ resumes 0 (adapter (posted the_post)) ∷ [])
      (world_in pending 1)).shared.exposures
    ≡ 2
unfolding run step take_message start is_uuid trim resume_at resume proceed triage claim adapted
    thrown start_failure schedule_retry
posted_twice = refl

-- A stale row is made pending, and no message is left that leads a worker to it.
stranded :
    ((run
        (takes payload ∷ resumes 0 answers ∷ resumes 0 answers ∷ recovers_stale ∷ [])
        (world_in publishing 1)).shared.commands
      ≡ 0)
    × ((run
          (takes payload ∷ resumes 0 answers ∷ resumes 0 answers ∷ recovers_stale ∷ [])
          (world_in publishing 1)).shared.target.status
        ≡ pending)
unfolding run step take_message start is_uuid trim resume_at resume proceed triage recover_stale
stranded = (refl, refl)
