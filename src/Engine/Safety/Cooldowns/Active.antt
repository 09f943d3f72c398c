-- ===== src/Engine/Safety/Cooldowns/Active.antt =====
-- What setting and cleaning up cooldowns does to the checks.
use influence_platform.Prelude.{
  ℕ, ◌+◌, ◌≤◌, ◌≡◌, refl, ap, true, false, not, [], ◌∷◌, ◌++◌, Option, none, some, if◌then◌else◌,
  leb, ltb, filter, find, arith, Bool-cases, inl, inr,
}
use influence_platform.Js.Trim.{===_iff, ===-refl}
use influence_platform.Engine.Safety.Cooldowns.{
  CooldownKey, Writes, both_written, only_deleted, none_written, without_key, same_key, Cooldowns,
  is_active, check_cooldown, set_cooldown, cleanup_expired_cooldowns, effective_cooldown,
  on_cooldown,
}

same_key_refl : (k : CooldownKey) → same_key k k ≡ true
same_key_refl k =
    ground (arith, ===-refl k.action_type, ===-refl k.target_type, ===-refl k.target_id)

same_key_sound : (a b : CooldownKey) → same_key a b ≡ true → a ≡ b
same_key_sound a b same =
    let type : a.action_type ≡ b.action_type =
      (===_iff a.action_type b.action_type).0 (ground (arith, same)) in
    let target : a.target_type ≡ b.target_type =
      (===_iff a.target_type b.target_type).0 (ground (arith, same)) in
    let id : a.target_id ≡ b.target_id =
      (===_iff a.target_id b.target_id).0 (ground (arith, same)) in
    cc

-- The rows that are kept are of other keys, and the new row decides.
find-set :
    (later until : ℕ) (key : CooldownKey) (rows : Cooldowns)
    → find
        (is_active later key)
        (filter (λ ((k, u) : CooldownKey × ℕ). not (same_key k key)) rows ++ (key, until) ∷ [])
      ≡ (if ltb later until then some (key, until) else none)
find-set later until key [] = ground (arith, same_key_refl key)
find-set later until key ((k, u) ∷ rows) = ground (arith, find-set later until key rows)

-- Where both of its statements go through, an action on a target is allowed again as soon as the time of
-- the cooldown that was set is over, and not before, whatever cooldowns there were.
pub check_cooldown-set_cooldown :
    (now later : ℕ) (health now_health : Option ℕ) (key : CooldownKey) (rows : Cooldowns)
    → (check_cooldown later now_health
        (set_cooldown both_written now health none key rows)
        key).allowed
      ≡ leb (now + effective_cooldown health key.action_type) later
unfolding check_cooldown set_cooldown on_cooldown
check_cooldown-set_cooldown now later health now_health key rows =
    ground (arith, find-set later (now + effective_cooldown health key.action_type) key rows)

find-set_other :
    (later until : ℕ) (key asked : CooldownKey) (rows : Cooldowns)
    → same_key key asked ≡ false
    → find
        (is_active later asked)
        (filter (λ ((k, u) : CooldownKey × ℕ). not (same_key k key)) rows ++ (key, until) ∷ [])
      ≡ find (is_active later asked) rows
find-set_other later until key asked [] differs = ground (arith, differs)
find-set_other later until key asked ((k, u) ∷ rows) differs = elim (Bool-cases (same_key k key)) [
  | inl same ↦
      rw (same_key_sound k key same, same_key_refl key, differs)
        (find-set_other later until key asked rows differs)
  | inr other_key ↦ ground (arith, other_key, find-set_other later until key asked rows differs)
]

find-without_key_other :
    (later : ℕ) (key asked : CooldownKey) (rows : Cooldowns)
    → same_key key asked ≡ false
    → find (is_active later asked) (without_key key rows) ≡ find (is_active later asked) rows
find-without_key_other later key asked [] differs = refl
find-without_key_other later key asked ((k, u) ∷ rows) differs =
    elim (Bool-cases (same_key k key)) [
      | inl same ↦
          rw (same_key_sound k key same, same_key_refl key, differs)
            (find-without_key_other later key asked rows differs)
      | inr other_key ↦
          ground (arith, other_key, find-without_key_other later key asked rows differs)
    ]

find-without_key :
    (later : ℕ) (key : CooldownKey) (rows : Cooldowns)
    → find (is_active later key) (without_key key rows) ≡ none
find-without_key later key [] = refl
find-without_key later key ((k, u) ∷ rows) = ground (arith, find-without_key later key rows)

-- Where only the deletion goes through, the action is allowed at once.
check_cooldown-only_deleted :
    (now later : ℕ) (health now_health custom : Option ℕ) (key : CooldownKey) (rows : Cooldowns)
    → (check_cooldown later now_health
        (set_cooldown only_deleted now health custom key rows)
        key).allowed
      ≡ true
unfolding check_cooldown set_cooldown on_cooldown
check_cooldown-only_deleted now later health now_health custom key rows =
    rw (find-without_key later key rows) refl

-- Setting a cooldown, whatever goes through, changes no check of another action or target.
check_cooldown-set_cooldown_other :
    (writes : Writes) (now later : ℕ) (health now_health custom : Option ℕ)
    (key asked : CooldownKey) (rows : Cooldowns)
    → same_key key asked ≡ false
    → check_cooldown later now_health (set_cooldown writes now health custom key rows) asked
      ≡ check_cooldown later now_health rows asked
unfolding check_cooldown set_cooldown
check_cooldown-set_cooldown_other both_written now later h now_health custom key asked rows
      differs =
    ap (on_cooldown later (effective_cooldown now_health asked.action_type))
      (find-set_other later _ key asked rows differs)
check_cooldown-set_cooldown_other only_deleted now later h now_health custom key asked rows
      differs =
    ap (on_cooldown later (effective_cooldown now_health asked.action_type))
      (find-without_key_other later key asked rows differs)
check_cooldown-set_cooldown_other none_written now later h now_health custom key asked rows
      differs =
    refl

find-cleanup :
    (now later : ℕ) (asked : CooldownKey) (rows : Cooldowns)
    → now ≤ later
    → find (is_active later asked) (cleanup_expired_cooldowns now rows)
      ≡ find (is_active later asked) rows
unfolding cleanup_expired_cooldowns
find-cleanup now later asked [] le = refl
find-cleanup now later asked ((k, u) ∷ rows) le =
    ground (arith, le, find-cleanup now later asked rows le)

-- The cleanup changes no check from then on.
check_cooldown-cleanup :
    (now later : ℕ) (health : Option ℕ) (asked : CooldownKey) (rows : Cooldowns)
    → now ≤ later
    → check_cooldown later health (cleanup_expired_cooldowns now rows) asked
      ≡ check_cooldown later health rows asked
unfolding check_cooldown
check_cooldown-cleanup now later health asked rows le =
    ap (on_cooldown later (effective_cooldown health asked.action_type))
      (find-cleanup now later asked rows le)
