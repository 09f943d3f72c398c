-- ===== src/Engine/Adapter/Calls.antt =====
-- The requests that a publication makes, and what its reply says of them.
use influence_platform.Prelude.{
  ℕ, zero, suc, ◌+◌, ◌≤◌, ◌≡◌, refl, List, [], ◌∷◌, ◌++◌, some, arith, if◌then◌else◌, or_else,
}
use influence_platform.Js.Text.{Text, codes, ◌===◌, trim}
use influence_platform.Engine.Command.{
  AdapterReply, posted, refused, raised, timed_out, refusal_failure,
}
use influence_platform.Engine.Media.{PublishKind, photo, normalize_caption, resolve_publish_kind}
use influence_platform.Engine.Adapter.{
  PublishRequest, Provider, Result, answered, thrown, Thrown, Call, posts, polls, create_container,
  wait_for_container, await_container, publish_container, publish, failure_at, posted_as, with_post,
  with_ready, with_container, with_token, with_client, with_persona, post_to, malformed,
}

-- The calls of `media_publish`, which make a post, and the polls.
abbrev pub publications : List Call → ℕ
publications [] = 0
publications (posts r ∷ calls) =
    let rest = publications calls in if r.path === codes "media_publish" then suc rest else rest
publications (polls c ∷ calls) = publications calls

abbrev pub polls_of : List Call → ℕ
polls_of [] = 0
polls_of (posts r ∷ calls) = polls_of calls
polls_of (polls c ∷ calls) = suc (polls_of calls)

publications-append :
    (xs ys : List Call) → publications (xs ++ ys) ≡ publications xs + publications ys
publications-append [] ys = omega arith
publications-append (posts r ∷ xs) ys = ground (arith, publications-append xs ys)
publications-append (polls c ∷ xs) ys = publications-append xs ys

polls_of-append : (xs ys : List Call) → polls_of (xs ++ ys) ≡ polls_of xs + polls_of ys
polls_of-append [] ys = omega arith
polls_of-append (posts r ∷ xs) ys = polls_of-append xs ys
polls_of-append (polls c ∷ xs) ys = omega (arith, polls_of-append xs ys)

-- Whether the worker takes it that a post may exist.
abbrev pub exposure : AdapterReply → ℕ
exposure (posted p) = 1
exposure (refused r) = if (refusal_failure r).allow_retry then 0 else 1
exposure (raised m) = 0
exposure timed_out = 1

post_to-publications :
    (p : Provider) (user path missing : Text) (params : List (Text × Text))
    → (publications (post_to p user path missing params).1
        ≤ (if path === codes "media_publish" then 1 else 0))
      × (polls_of (post_to p user path missing params).1 ≡ 0)
unfolding post_to
post_to-publications p user path missing params = ground arith

create_container-publications :
    (p : Provider) (k : PublishKind) (user url caption token : Text)
    → (publications (create_container p k user url caption token).1 ≡ 0)
      × (polls_of (create_container p k user url caption token).1 ≡ 0)
unfolding create_container ◌===◌
create_container-publications p photo user url caption token =
    ground (arith, post_to-publications p user (codes "media"))
create_container-publications p k user url caption token =
    ground (arith, post_to-publications p user (codes "media"))

wait_for_container-publications :
    (p : Provider) (c : Text) (left made : ℕ)
    → (publications (wait_for_container p c left made).1 ≡ 0)
      × (polls_of (wait_for_container p c left made).1 ≤ left)
unfolding wait_for_container
wait_for_container-publications p c zero made = (refl, omega arith)
wait_for_container-publications p c (suc left) made =
    ground (arith, wait_for_container-publications p c left (suc made))

publish_container-publications :
    (p : Provider) (user container token : Text)
    → (publications (publish_container p user container token).1 ≤ 1)
      × (polls_of (publish_container p user container token).1 ≡ 0)
unfolding publish_container ◌===◌
publish_container-publications p user container token =
    ground (arith, post_to-publications p user (codes "media_publish"))

await_container-publications :
    (p : Provider) (container : Text)
    → (publications (await_container p container).1 ≡ 0)
      × (polls_of (await_container p container).1 ≤ 20)
unfolding await_container
await_container-publications p container =
    ground (arith, wait_for_container-publications p container 20 0)

-- An error at the last stage is not safe to retry.
exposure-publish_container :
    (container : Text) (e : Thrown)
    → exposure (failure_at (codes "publish_container") (some container) e) ≡ 1
unfolding failure_at refusal_failure ◌===◌
exposure-publish_container container e = refl

exposure-with_post : (container : Text) (r : Result Text) → exposure (with_post container r) ≡ 1
unfolding with_post posted_as
exposure-with_post container (thrown e) = exposure-publish_container container e
exposure-with_post container (answered post) =
    ground (arith, exposure-publish_container container malformed)

-- A reply and requests: a post may have been made only if the reply says that one may exist, and the
-- polls are within a number.
abbrev pub IsHonest : ℕ → AdapterReply × List Call → Type 0
IsHonest n (reply, calls) = (publications calls ≤ exposure reply) × (polls_of calls ≤ n)

with_ready-IsHonest :
    (p : Provider) (user token container : Text) (r : Result Unit)
    → IsHonest 0 (with_ready p user token container r)
unfolding with_ready
with_ready-IsHonest p user token container (thrown e) = (omega arith, omega arith)
with_ready-IsHonest p user token container (answered ready) =
    let (published, polled) = publish_container-publications p user container token in
    let exposed = exposure-with_post container (publish_container p user container token).0 in
    (omega (arith, published, exposed), omega (arith, polled))

with_container-IsHonest :
    (p : Provider) (user token : Text) (r : Result Text)
    → IsHonest 20 (with_container p user token r)
unfolding with_container
with_container-IsHonest p user token (thrown e) = (omega arith, omega arith)
with_container-IsHonest p user token (answered container) =
    let (ready, waited) = await_container p container in
    let rest = (with_ready p user token container ready).1 in
    omega (
      arith,
      await_container-publications p container,
      publications-append waited rest,
      polls_of-append waited rest,
      with_ready-IsHonest p user token container ready,
    )

with_token-IsHonest :
    (p : Provider) (q : PublishRequest) (url : Text) (r : Result Text)
    → IsHonest 20 (with_token p q url r)
unfolding with_token
with_token-IsHonest p q url (thrown e) = (omega arith, omega arith)
with_token-IsHonest p q url (answered token) =
    let kind = resolve_publish_kind q.content_type q.asset in
    let caption = normalize_caption q.caption q.hashtags in
    let (created, posting) = create_container p kind q.ig_user_id url caption token in
    let rest = (with_container p q.ig_user_id token created).1 in
    omega (
      arith,
      create_container-publications p kind q.ig_user_id url caption token,
      publications-append posting rest,
      polls_of-append posting rest,
      with_container-IsHonest p q.ig_user_id token created,
    )

with_persona-IsHonest :
    (p : Provider) (q : PublishRequest) (url : Text) (r : Result Unit)
    → IsHonest 20 (with_persona p q url r)
unfolding with_persona with_client
with_persona-IsHonest p q url r = ground (arith, with_token-IsHonest p q url p.token)

-- The reply of a publication is honest, whatever the API, the token and the proxy answer or throw:
-- `media_publish` was called at most as often as the worker takes it that a post may exist, which is
-- never where it allows a retry and once else; and the container is polled 20 times at most.
pub publish-IsHonest : (p : Provider) (q : PublishRequest) → IsHonest 20 (publish p q)
unfolding publish
publish-IsHonest p q =
    ground (arith, with_persona-IsHonest p q (trim (or_else q.asset.public_url [])) p.persona)
