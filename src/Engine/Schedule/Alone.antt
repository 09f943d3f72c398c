-- ===== src/Engine/Schedule/Alone.antt =====
-- A handler that nothing disturbs: its statements answer, and the adapter gives a reply.
use influence_platform.Prelude.{
  ℕ, zero, suc, ◌-◌, ◌≡◌, ◌⊎◌, ◌&&◌, refl, Bool, true, false, some, if◌then◌else◌, ltb, arith,
}
use influence_platform.Js.Text.{truthy?}
use influence_platform.Engine.Target.{
  pending, publishing, published, failed, uncertain, Target, Failure, Post, claim, record_published,
  schedule_retry, mark_failed,
}
use influence_platform.Engine.Publication.{sync_publication}
use influence_platform.Engine.Command.{
  Stage, received, adapting, recording, done, Reply, answers, adapter, AdapterReply, posted,
  refused, raised, timed_out, Shared, triage, start_failure, refusal_failure, raised_failure,
  timeout_message, adapted, ended, proceed, resume,
}

abbrev reply_for : Stage → AdapterReply → Reply
reply_for adapting r = adapter r
reply_for st r = answers

-- So many statements of the handler.
unfoldable pub alone : ℕ → AdapterReply → Stage × Shared → Stage × Shared
alone zero r x = x
alone (suc n) r (st, s) = alone n r (resume st (reply_for st r) s)

-- A failure that may be retried, of a row with retries left.
abbrev pub is_retried : Failure → Target → Bool
is_retried f t = f.allow_retry && ltb t.retry_count t.max_retries

-- The row is pending again, with one retry more and a message more.
abbrev pub IsRetried : Shared → Shared → Type 0
IsRetried s t =
    (t.target.status ≡ pending)
    × (t.target.retry_count ≡ suc s.target.retry_count)
    × (t.commands ≡ suc s.commands)
    × (t.dead ≡ s.dead)

-- The row is failed, or uncertain where a post may exist, and the message is a dead letter.
abbrev pub IsGivenUp : Failure → Shared → Shared → Type 0
IsGivenUp f s t =
    (t.target.status ≡ (if f.allow_retry then failed else uncertain))
    × (t.target.retry_count ≡ s.target.retry_count)
    × (t.commands ≡ s.commands)
    × (t.dead ≡ suc s.dead)
    × (t.publication ≡ sync_publication t.target s.publication)

-- The handler is at its end, with its message taken out, after one call.
abbrev pub IsEnded : Stage → Shared → Shared → Type 0
IsEnded st s t = (st ≡ done) × (t.processing ≡ s.processing - 1)

-- What becomes of a failure.
abbrev pub IsHandled : Failure → Shared → Shared → Type 0
IsHandled f s t =
    ((is_retried f s.target ≡ true) × IsRetried s t)
    ⊎ ((is_retried f s.target ≡ false) × IsGivenUp f s t)

-- The row has the post, and the publications table too.
abbrev pub IsPosted : Post → Shared → Shared → Type 0
IsPosted post s t =
    (t.target.status ≡ published)
    × (t.target.external_post_id ≡ some post.external_post_id)
    × (t.target.retry_count ≡ s.target.retry_count)
    × (t.commands ≡ s.commands)
    × (t.dead ≡ s.dead)
    × (t.publication ≡ sync_publication t.target s.publication)

-- What becomes of a reply of the adapter.
abbrev pub IsSettled : AdapterReply → Shared → Shared → Type 0
IsSettled (posted post) s t = IsPosted post s t
IsSettled (refused r) s t = IsHandled (refusal_failure r) s t
IsSettled (raised message) s t = IsHandled (raised_failure message) s t
IsSettled timed_out s t = IsHandled (raised_failure timeout_message) s t

recording-alone :
    (post : Post) (r : AdapterReply) (s : Shared)
    → s.target.status ≡ publishing
    → let (st, t) = alone 7 r (recording post, s) in
      IsEnded st s t × (t.calls ≡ s.calls) × IsPosted post s t
unfolding alone resume proceed record_published ended
recording-alone post r s claimed = ground (arith, claimed)

failing-alone :
    (f : Failure) (r : AdapterReply) (s : Shared)
    → s.target.status ≡ publishing
    → let (st, t) = alone 7 r (start_failure f, s) in
      IsEnded st s t × (t.calls ≡ s.calls) × IsHandled f s t
unfolding alone resume proceed start_failure schedule_retry mark_failed ended
failing-alone f r s claimed = ground (arith, claimed)

-- The row is claimed, and the adapter called.
abbrev entered : Shared → Shared
entered s = record s { target = record s.target { status = publishing }; calls = suc s.calls }

adapted-alone :
    (r : AdapterReply) (s : Shared)
    → let (st, t) = alone 7 r (adapted r (entered s)) in
      IsEnded st s t × (t.calls ≡ suc s.calls) × IsSettled r s t
unfolding adapted
adapted-alone (posted post) s = recording-alone post (posted post) _ refl
adapted-alone (refused q) s = failing-alone (refusal_failure q) (refused q) _ refl
adapted-alone (raised m) s = failing-alone (raised_failure m) (raised m) _ refl
adapted-alone timed_out s = failing-alone (raised_failure timeout_message) timed_out _ refl

received-alone :
    (r : AdapterReply) (s : Shared)
    → s.target.status ≡ pending
    → truthy? s.target.external_post_id ≡ false
    → alone 4 r (received, s) ≡ adapted r (entered s)
unfolding alone resume proceed triage claim
received-alone r s waiting unposted = rw (waiting, unposted) refl

pub alone_ends :
    (r : AdapterReply) (s : Shared)
    → s.target.status ≡ pending
    → truthy? s.target.external_post_id ≡ false
    → let (st, t) = alone 11 r (received, s) in
      IsEnded st s t × (t.calls ≡ suc s.calls) × IsSettled r s t
unfolding alone
alone_ends r s waiting unposted =
    let same = received-alone r s waiting unposted in rw same (adapted-alone r s)
