-- ===== src/Engine/Adapter/Covered.antt =====
-- The adapter's requests and the row that the worker leaves.
use influence_platform.Prelude.{◌≡◌, ◌⊎◌, false, inl, inr, refl, arith}
use influence_platform.Js.Text.{truthy?}
use influence_platform.Engine.Target.{pending, published, uncertain}
use influence_platform.Engine.Command.{
  received, AdapterReply, posted, refused, raised, timed_out, Shared,
}
use influence_platform.Engine.Schedule.Alone.{alone, alone_ends, IsSettled}
use influence_platform.Engine.Schedule.Once.{raised_failure_timeout}
use influence_platform.Engine.Adapter.{PublishRequest, Provider, publish}
use influence_platform.Engine.Adapter.Calls.{publications, publish-IsHonest, exposure}

-- A row that is neither published nor uncertain was left by a reply after which no post may exist.
IsSettled-exposure :
    (r : AdapterReply) (s t : Shared)
    → IsSettled r s t
    → (t.target.status ≡ published) ⊎ ((t.target.status ≡ uncertain) ⊎ (exposure r ≡ 0))
IsSettled-exposure (posted post) s t settled = inl settled.0
IsSettled-exposure (refused r) s t settled = ground (arith, settled)
IsSettled-exposure (raised message) s t settled = inr (inr refl)
IsSettled-exposure timed_out s t settled = ground (arith, settled, raised_failure_timeout)

-- Where nothing disturbs a handler of a pending row without a post, whatever the API, the token and the
-- proxy answer or throw: the row is left published or uncertain, or the adapter has never called
-- `media_publish`, so a row that is pending again or failed has no post.
pub publish-covered :
    (p : Provider) (q : PublishRequest) (s : Shared)
    → s.target.status ≡ pending
    → truthy? s.target.external_post_id ≡ false
    → let (st, t) = alone 11 (publish p q).0 (received, s) in
      (t.target.status ≡ published)
      ⊎ ((t.target.status ≡ uncertain) ⊎ (publications (publish p q).1 ≡ 0))
publish-covered p q s waiting unposted =
    let (ended, called, settled) = alone_ends (publish p q).0 s waiting unposted in
    let (honest, polled) = publish-IsHonest p q in
    ground (
      arith,
      honest,
      IsSettled-exposure (publish p q).0 s (alone 11 (publish p q).0 (received, s)).1 settled,
    )
