-- ===== src/Engine/Adapter/Tests.antt =====
-- The theorems on the adapter at work: the container is ready at the second poll, and the publication
-- has no answer.
use influence_platform.Prelude.{◌≡◌, ◌⊎◌, refl, ℕ, zero, suc, [], ◌∷◌, Option, none, some}
use influence_platform.Js.Text.{Text, codes}
use influence_platform.Engine.Adapter.{PublishRequest, Provider, Result, answered, Answer, publish}
use influence_platform.Engine.Target.{pending, published, uncertain}
use influence_platform.Engine.Command.{Shared, received}
use influence_platform.Engine.Schedule.Alone.{alone}
use influence_platform.Engine.Adapter.Covered.{publish-covered}
use influence_platform.Engine.Adapter.Calls.{IsHonest, publications, publish-IsHonest}

abbrev answer : Option Text → Option Text → Answer
answer id status_code = record {
  id = id;
  status_code = status_code;
  status = none;
  json = codes "{}";
}

abbrev polled : ℕ → Result Answer
polled zero = answered (answer none (some (codes "IN_PROGRESS")))
polled (suc n) = answered (answer none (some (codes "FINISHED")))

abbrev provider : Provider
provider = record {
  persona = answered tt;
  http_client = answered tt;
  token = answered (codes "token");
  post = λ r. answered (answer (some (codes "17")) none);
  get = λ n container. polled n;
}

abbrev a_reel : PublishRequest
a_reel = record {
  platform = codes "Instagram";
  asset = record {
    mime_type = none;
    public_url = some (codes "https://cdn.example/clip.mp4?sig=1");
  };
  caption = some (codes "hello");
  hashtags = codes "#a" ∷ [];
  account_id = codes "a";
  ig_user_id = codes "42";
  content_type = some (codes "reel");
}

publish-IsHonest_example : IsHonest 20 (publish provider a_reel)
publish-IsHonest_example = publish-IsHonest provider a_reel

abbrev a_state : Shared
a_state = record {
  target = record {
    status = pending;
    retry_count = 0;
    max_retries = 3;
    external_post_id = none;
    external_post_url = none;
    publish_stage = none;
    provider_container_id = none;
    last_error = none;
  };
  commands = 0;
  processing = 1;
  dead = 0;
  calls = 0;
  exposures = 0;
  publication = none;
  intent = record { status = codes "queued"; error_message = none };
  siblings = [];
}

publish-covered_example :
    ((alone 11 (publish provider a_reel).0 (received, a_state)).1.target.status ≡ published)
    ⊎ (((alone 11 (publish provider a_reel).0 (received, a_state)).1.target.status ≡ uncertain)
        ⊎ (publications (publish provider a_reel).1 ≡ 0))
publish-covered_example = publish-covered provider a_reel a_state refl refl
