-- ===== src/Engine/Packet/Loop/Ends.antt =====
-- The loop over the accounts of a packet ends, although it adds accounts.
use influence_platform.Prelude.{
  ℕ, zero, suc, ◌+◌, ◌≤◌, ◌<◌, ◌≡◌, ◌⊎◌, inl, inr, refl, Bool, true, false, ◌||◌, not, List, [],
  ◌∷◌, ◌++◌, Option, none, some, length, any, filter, arith, length-append, Option-cases,
  Bool-cases,
}
use influence_platform.Js.Text.{Text, ◌===◌}
use influence_platform.Js.Trim.{===_iff, ===-refl}
use influence_platform.Engine.Packet.{
  PacketState, Faults, Answers, Attempt, returned, thrown, unrecorded, Run, continues, stops,
  process_account, attempt, caught, checked, pass, guarded, execute, log_publication, finish,
  record_post, publish_failed, report_ban, handle_error, fail_for_good, retry_later,
  log_publication_attempt, requeue_with_delay, with_backup,
}
use influence_platform.Engine.Packet.Attempts.{state_in, state_of}
use influence_platform.Engine.Packet.Loop.{
  PacketTables, PacketResult, out_of_fuel, process_accounts, process_packet, account_at, store,
}

abbrev pub is_member : Text → List Text → Bool
is_member t ts = any (λ u. u === t) ts

-- The accounts of a list that are not among the targets.
abbrev pub missing : List Text → List Text → ℕ
missing universe targets = length (filter (λ t. not (is_member t targets)) universe)

-- A run leaves the targets, or adds the backup.
handle_error_targets :
    (f : Faults) (m : Text) (r : ℕ) (s : PacketState)
    → (state_in (handle_error f m r s)).targets ≡ s.targets
unfolding handle_error fail_for_good retry_later log_publication_attempt requeue_with_delay
handle_error_targets f m r s = ground arith

abbrev Extended : Option Text → PacketState → PacketState → Type 0
Extended backup s t = (t.targets ≡ s.targets) ⊎ (t.targets ≡ with_backup backup s.targets)

publish_failed-Extended :
    (m : Text) (a : Answers) (s : PacketState)
    → Extended a.backup s (state_in (publish_failed m a s))
unfolding publish_failed report_ban record_post
publish_failed-Extended m a s =
    ground (arith, handle_error_targets a.faults m a.random (record_post false s))

execute-Extended : (a : Answers) (s : PacketState) → Extended a.backup s (state_in (execute a s))
unfolding execute log_publication finish record_post
execute-Extended a s =
    let called = record s { publishes = suc s.publishes } in
    elim (Option-cases a.publish_error) [
      | inl e ↦ ground (arith, e)
      | inr (m, e) ↦ ground (arith, e, publish_failed-Extended m a called)
    ]

guarded_targets :
    (a : Answers) (s : PacketState) (t : Attempt)
    → guarded a s ≡ some t
    → (state_in t).targets ≡ s.targets
unfolding guarded requeue_with_delay log_publication_attempt
guarded_targets a s t blocked = ground (arith, blocked)

attempt-Extended : (a : Answers) (s : PacketState) → Extended a.backup s (state_in (attempt a s))
unfolding attempt checked pass
attempt-Extended a s = elim (Option-cases a.check_error) [
  | inr (m, e) ↦ ground (arith, e)
  | inl fine ↦ elim (Option-cases (guarded a s)) [
    | inl passed ↦ ground (arith, fine, passed, execute-Extended a s)
    | inr (t, blocked) ↦
        ground (arith, fine, blocked, guarded_targets a s t blocked, execute-Extended a s)
  ]
]

caught_targets :
    (a : Answers) (t : Attempt) → (state_of (caught a t)).targets ≡ (state_in t).targets
unfolding caught record_post
caught_targets a (returned s) = refl
caught_targets a (unrecorded s) = refl
caught_targets a (thrown m s) =
    ground (arith, handle_error_targets a.late m a.random (record_post false s))

process_account-Extended :
    (a : Answers) (s : PacketState) → Extended a.backup s (state_of (process_account a s))
unfolding process_account
process_account-Extended a s = ground (arith, attempt-Extended a s, caught_targets a (attempt a s))

is_member-append :
    (t b : Text) (ts : List Text) → is_member t (ts ++ b ∷ []) ≡ (is_member t ts || b === t)
is_member-append t b [] = ground arith
is_member-append t b (u ∷ ts) = ground (arith, is_member-append t b ts)

missing-append_le :
    (b : Text) (universe ts : List Text) → missing universe (ts ++ b ∷ []) ≤ missing universe ts
missing-append_le b [] ts = omega arith
missing-append_le b (u ∷ universe) ts =
    ground (arith, is_member-append u b ts, missing-append_le b universe ts)

missing-append :
    (b : Text) (universe ts : List Text)
    → is_member b universe ≡ true
    → is_member b ts ≡ false
    → suc (missing universe (ts ++ b ∷ [])) ≤ missing universe ts
missing-append b [] ts there new = ground (arith, there)
missing-append b (u ∷ universe) ts there new = elim (Bool-cases (u === b)) [
  | inl same ↦
      rw ((===_iff u b).0 same)
        (ground (arith, new, is_member-append b b ts, ===-refl b, missing-append_le b universe ts))
  | inr differs ↦
      ground (arith, there, differs, new, is_member-append u b ts, missing-append b universe ts)
]

-- A backup account that is one of the platform's.
abbrev pub is_known : List Text → Option Text → Bool
is_known universe none = true
is_known universe (some b) = is_member b universe

with_backup-missing :
    (universe : List Text) (backup : Option Text) (ts : List Text)
    → is_known universe backup ≡ true
    → length (with_backup backup ts) + missing universe (with_backup backup ts)
      ≤ length ts + missing universe ts
with_backup-missing universe none ts known = omega arith
with_backup-missing universe (some b) ts known =
    ground (arith, known, missing-append b universe ts, length-append ts (b ∷ []))

with_backup-length :
    (backup : Option Text) (ts : List Text) → length ts ≤ length (with_backup backup ts)
with_backup-length none ts = omega arith
with_backup-length (some b) ts = ground (arith, length-append ts (b ∷ []))

-- The targets grow by what they lack.
abbrev Grows : List Text → List Text → List Text → Type 0
Grows universe ts us =
    (length us + missing universe us ≤ length ts + missing universe ts) × (length ts ≤ length us)

process_account-Grows :
    (universe : List Text) (a : Answers) (s : PacketState)
    → is_known universe a.backup ≡ true
    → Grows universe s.targets (state_of (process_account a s)).targets
process_account-Grows universe a s known = elim (process_account-Extended a s) [
  | inl same ↦ rw same (omega arith, omega arith)
  | inr extended ↦
      rw extended (
        with_backup-missing universe a.backup s.targets known,
        with_backup-length a.backup s.targets,
      )
]

Run-cases :
    (r : Run) → ((s : PacketState) × (r ≡ continues s)) ⊎ ((s : PacketState) × (r ≡ stops s))
Run-cases (continues s) = inl (s, refl)
Run-cases (stops s) = inr (s, refl)

abbrev pub is_out_of_fuel : PacketResult → Bool
is_out_of_fuel out_of_fuel = true
is_out_of_fuel _ = false

process_accounts_ends :
    (universe : List Text) (answers : ℕ → Answers) (fuel i : ℕ) (p : PacketTables)
    → ((i : ℕ) → is_known universe (answers i).backup ≡ true)
    → i ≤ length p.shared.targets
    → length p.shared.targets + missing universe p.shared.targets < fuel + i
    → is_out_of_fuel (process_accounts answers fuel i p) ≡ false
unfolding process_accounts
process_accounts_ends universe answers zero i p known within enough =
    absurd (omega (arith, within, enough))
process_accounts_ends universe answers (suc fuel) i p known within enough =
    let account = account_at i p.shared.targets in
    let s : PacketState = record p.shared { rows = p.rows_of account } in
    let grows = process_account-Grows universe (answers i) s (known i) in
    elim (Run-cases (process_account (answers i) s)) [
      | inl (t, e) ↦ ground (
        arith,
        e,
        grows,
        within,
        enough,
        process_accounts_ends universe answers fuel (suc i) (store account t p) known,
      )
      | inr (t, e) ↦ ground (arith, e)
    ]

-- With fuel for the packet's accounts, the platform's accounts that are not among them and one more, the
-- loop ends, whatever the runs answer, throw or add, if every backup is an account of the platform.
pub process_packet_ends :
    (universe : List Text) (answers : ℕ → Answers) (id : Option Text) (p : PacketTables)
    → ((i : ℕ) → is_known universe (answers i).backup ≡ true)
    → is_out_of_fuel (
        process_packet answers
          (suc (length p.shared.targets + missing universe p.shared.targets))
          id
          p)
      ≡ false
unfolding process_packet
process_packet_ends universe answers id p known = ground (
  arith,
  process_accounts_ends universe answers
      (suc (length p.shared.targets + missing universe p.shared.targets)) 0 p known (omega arith)
      (omega arith),
)
