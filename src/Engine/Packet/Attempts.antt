-- ===== src/Engine/Packet/Attempts.antt =====
-- How often a packet is published for an account, and how its retries are counted.
use influence_platform.Prelude.{
  ℕ, suc, ◌≤◌, ◌≡◌, ◌⊎◌, max, true, false, List, [], ◌∷◌, ◌++◌, Option, none, some, filter, arith,
  Option-cases, inl, inr,
}
use influence_platform.Js.Text.{Text, codes, decimal}
use influence_platform.Engine.Retry.{max_retries, requeue_delay, get_retry_delay}
use influence_platform.Engine.Packet.{
  PacketState, allows, Faults, Answers, has_published, max_count, get_retry_count, Attempt,
  returned, thrown, unrecorded, log_publication_attempt, is_entry, requeue_with_delay, record_post,
  fail_for_good, retry_later, handle_error, report_ban, publish_failed, Run, continues, stops,
  execute, guarded, process_account, published_row, finish, log_publication, pass, checked, attempt,
  caught,
}

abbrev pub state_in : Attempt → PacketState
state_in (returned s) = s
state_in (thrown m s) = s
state_in (unrecorded s) = s

-- The status of the newest row.
abbrev pub newest_status : PacketState → Option Text
newest_status s = elim s.rows [ [] ↦ none | row ∷ rows ↦ some row.status ]

abbrev pub state_of : Run → PacketState
state_of (continues s) = s
state_of (stops s) = s

-- What a step may do to the state of a packet without a call: keep the counts in their bound.
abbrev pub Careful : PacketState → PacketState → Type 0
Careful s t = (t.publishes ≡ s.publishes) × (max_count t.rows ≤ max max_retries (max_count s.rows))

handle_error-Careful :
    (f : Faults) (message : Text) (r : ℕ) (s : PacketState)
    → Careful s (state_in (handle_error f message r s))
unfolding handle_error fail_for_good retry_later log_publication_attempt requeue_with_delay
    get_retry_count
handle_error-Careful f message r s = ground arith

publish_failed-Careful :
    (message : Text) (a : Answers) (s : PacketState)
    → Careful s (state_in (publish_failed message a s))
unfolding publish_failed report_ban record_post
publish_failed-Careful message a s =
    ground (arith, handle_error-Careful a.faults message a.random (record_post false s))

-- The delay of a retry after a number of attempts.
abbrev pub retry_delay : ℕ → ℕ → ℕ
retry_delay count r =
    requeue_delay (codes "retry_" ++ decimal (suc count)) (some (get_retry_delay count r)) r

-- The entries of the delayed queue that are the packet with its accounts.
abbrev pub entries : PacketState → List (List Text × ℕ)
entries s = filter (is_entry s.targets) s.delayed

guarded-Careful :
    (a : Answers) (s : PacketState) (t : Attempt) → guarded a s ≡ some t → Careful s (state_in t)
unfolding guarded requeue_with_delay log_publication_attempt
guarded-Careful a s t blocked = ground (arith, blocked)

log_publication-Careful :
    (a : Answers) (s : PacketState) → Careful s (state_in (log_publication a s))
unfolding log_publication finish record_post published_row
log_publication-Careful a s = ground arith

-- The guards that let a real publication pass.
abbrev pub Passed : Answers → Type 0
Passed a = (a.dry_run ≡ false) × (a.guard ≡ allows) × (a.can_publish ≡ true) × (a.interval.0 ≡ true)

guarded-none :
    (a : Answers) (s : PacketState)
    → guarded a s ≡ none
    → (a.guard ≡ allows) × (a.can_publish ≡ true) × (a.interval.0 ≡ true)
unfolding guarded
guarded-none a s passed = ground (arith, passed)

execute_publishes :
    (a : Answers) (s : PacketState)
    → (max_count (state_in (execute a s)).rows ≤ max max_retries (max_count s.rows))
      × (((state_in (execute a s)).publishes ≡ s.publishes)
          ⊎ (((state_in (execute a s)).publishes ≡ suc s.publishes) × (a.dry_run ≡ false)))
unfolding execute
execute_publishes a s =
    let called = record s { publishes = suc s.publishes } in
    elim (Option-cases a.publish_error) [
      | inl e ↦ ground (arith, e, log_publication-Careful a s, log_publication-Careful a called)
      | inr (m, e) ↦
          ground (arith, e, log_publication-Careful a s, publish_failed-Careful m a called)
    ]

attempt_publishes :
    (a : Answers) (s : PacketState)
    → (max_count (state_in (attempt a s)).rows ≤ max max_retries (max_count s.rows))
      × (((state_in (attempt a s)).publishes ≡ s.publishes)
          ⊎ (((state_in (attempt a s)).publishes ≡ suc s.publishes)
              × (has_published s ≡ false)
              × Passed a))
unfolding attempt checked pass
attempt_publishes a s = elim (Option-cases a.check_error) [
  | inr (m, e) ↦ ground (arith, e)
  | inl fine ↦ elim (Option-cases (guarded a s)) [
    | inl passed ↦ ground (arith, fine, passed, guarded-none a s passed, execute_publishes a s)
    | inr (t, blocked) ↦
        ground (arith, fine, blocked, guarded-Careful a s t blocked, execute_publishes a s)
  ]
]

-- The outer `catch` calls no platform and keeps the bound.
caught-Careful : (a : Answers) (t : Attempt) → Careful (state_in t) (state_of (caught a t))
unfolding caught record_post
caught-Careful a (returned s) = ground arith
caught-Careful a (unrecorded s) = ground arith
caught-Careful a (thrown m s) =
    ground (arith, handle_error-Careful a.late m a.random (record_post false s))

-- Whatever throws, the platform is called at most once in a run for an account: only where no row says
-- that the packet is published, the run is no dry run, and the guard, the daily limit and the interval
-- let it pass. The retries on the rows stay within the maximum, or where they stood above it.
pub process_account_publishes :
    (a : Answers) (s : PacketState)
    → (max_count (state_of (process_account a s)).rows ≤ max max_retries (max_count s.rows))
      × (((state_of (process_account a s)).publishes ≡ s.publishes)
          ⊎ (((state_of (process_account a s)).publishes ≡ suc s.publishes)
              × (has_published s ≡ false)
              × Passed a))
unfolding process_account
process_account_publishes a s =
    ground (arith, attempt_publishes a s, caught-Careful a (attempt a s))
