-- ===== src/Engine/Safety/Limits/Bounds.antt =====
-- What the daily limits bound.
use influence_platform.Prelude.{ℕ, suc, ◌≤◌, ◌≡◌, refl, true, false, List, [], ◌∷◌, some, arith}
use influence_platform.Js.Text.{Text, ◌===◌}
use influence_platform.Js.Trim.{===_iff, ===-refl}
use influence_platform.Engine.Safety.Limits.{
  lookup, get_health_multiplier, base_limit, effective_limit, record_action,
}

get_health_multiplier_mono :
    (h k : ℕ) → h ≤ k → get_health_multiplier (some h) ≤ get_health_multiplier (some k)
unfolding get_health_multiplier
get_health_multiplier_mono h k le = ground (arith, le)

-- Recording an action adds one to its count.
record_action-lookup_same :
    (action : Text) (counts : List (Text × ℕ))
    → lookup action (record_action true action counts) 0 ≡ suc (lookup action counts 0)
unfolding lookup record_action
record_action-lookup_same action [] = rw (===-refl action) refl
record_action-lookup_same action ((n, c) ∷ counts) =
    ground (arith, record_action-lookup_same action counts)

record_action-lookup_other :
    (action other_action : Text) (counts : List (Text × ℕ))
    → (action === other_action) ≡ false
    → lookup other_action (record_action true action counts) 0 ≡ lookup other_action counts 0
unfolding lookup record_action
record_action-lookup_other action other_action [] differs = ground (arith, differs)
record_action-lookup_other action other_action ((n, c) ∷ counts) differs = ground (
  arith,
  differs,
  ===_iff n action,
  ===_iff action other_action,
  ===_iff n other_action,
  record_action-lookup_other action other_action counts differs,
)

-- A better health never lowers the limit of an action, and the limit is at most the base limit.
effective_limit_mono :
    (action : Text) (h k : ℕ)
    → h ≤ k
    → (effective_limit (some h) action ≤ effective_limit (some k) action)
      × (effective_limit (some k) action ≤ base_limit action)
unfolding effective_limit get_health_multiplier
effective_limit_mono action h k le = ground (arith, le)
