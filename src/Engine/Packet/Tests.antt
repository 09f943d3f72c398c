-- ===== src/Engine/Packet/Tests.antt =====
-- The theorems on packets at work, and the retries that a guard starts over.
use influence_platform.Prelude.{ℕ, ◌≤◌, ◌≡◌, ◌⊎◌, max, refl, true, false, [], ◌∷◌, none, some}
use influence_platform.Js.Text.{Text, codes, to_lower_case, includes, starts_with, ◌===◌}
use influence_platform.Engine.Retry.{max_retries, classify_error}
use influence_platform.Engine.Packet.{
  PacketState, Faults, Answers, allows, inserted, has_published, get_retry_count, max_count,
  handle_error, process_account, attempt, caught, checked, pass, guarded, execute, log_publication,
  finish, published_row, record_post, publish_failed, report_ban, fail_for_good, retry_later,
  log_publication_attempt, requeue_with_delay,
}
use influence_platform.Engine.Packet.Loop.{PacketTables, process_packet}
use influence_platform.Engine.Packet.Loop.Ends.{is_out_of_fuel, process_packet_ends}
use influence_platform.Engine.Packet.Attempts.{state_of, Passed, process_account_publishes}

abbrev new_packet : PacketState
new_packet = record {
  rows = [];
  delayed = [];
  recorded = [];
  publishes = 0;
  targets = codes "a" ∷ [];
  bans = 0;
  packet_published = false;
  activity = 0;
}

abbrev no_faults : Faults
no_faults = record { log_fails = false; count_fails = false; requeue_error = none }

abbrev success : Answers
success = record {
  check_error = none;
  winner_error = none;
  packet_update_fails = false;
  activity_error = none;
  ban_error = none;
  backup_error = none;
  faults = no_faults;
  late = no_faults;
  dry_run = false;
  guard = allows;
  can_publish = true;
  interval = (true, 0);
  skip_recheck = false;
  raced = false;
  publish_error = none;
  insert = inserted;
  backup = none;
  random = 0;
}

abbrev timeout : Text
timeout = codes "Navigation timeout"

abbrev failure : Answers
failure = record success { publish_error = some timeout }

abbrev rate_limited : Answers
rate_limited = record success { can_publish = false }

-- The row of the post is there, but the account's activity cannot be updated.
abbrev inactive : Answers
inactive = record success { activity_error = some timeout }

process_account_publishes_example :
    (max_count (state_of (process_account inactive new_packet)).rows ≤ max max_retries 0)
    × (((state_of (process_account inactive new_packet)).publishes ≡ 0)
        ⊎ (((state_of (process_account inactive new_packet)).publishes ≡ 1)
            × (has_published new_packet ≡ false)
            × Passed inactive))
process_account_publishes_example = process_account_publishes inactive new_packet

abbrev published_state : PacketState
published_state = record new_packet {
  rows = published_row ∷ [];
  recorded = true ∷ [];
  publishes = 1;
  packet_published = true;
  activity = 1;
}

-- A failure, then a run over the daily limit, has the count at 0 again: the retries start over.
retries_start_over :
    get_retry_count false
      (state_of (process_account rate_limited (state_of (process_account failure new_packet))))
    ≡ 0
unfolding process_account attempt caught checked pass guarded execute publish_failed report_ban
    handle_error fail_for_good retry_later log_publication_attempt requeue_with_delay record_post
    has_published get_retry_count classify_error to_lower_case includes starts_with ◌===◌
retries_start_over = refl

-- An exception after the row of a post is there has the row overwritten and the packet delayed again: the
-- next run publishes it a second time.
published_again :
    (state_of (process_account success (state_of (process_account inactive new_packet)))).publishes
    ≡ 2
unfolding process_account attempt caught checked pass guarded execute log_publication finish
    handle_error fail_for_good retry_later log_publication_attempt requeue_with_delay record_post
    has_published get_retry_count classify_error to_lower_case includes starts_with ◌===◌
published_again = refl

abbrev account_id : Text
account_id = codes "6f1c2f4e-52a3-4c43-9a52-0d2f6b7c8d9e"

abbrev backup_id : Text
backup_id = codes "0b0e7a52-1111-4222-8333-444455556666"

abbrev tables : PacketTables
tables = record {
  rows_of = λ account. [];
  shared = record new_packet { targets = account_id ∷ [] };
}

-- The account is suspended, and a backup takes its place.
abbrev suspended : ℕ → Answers
suspended i = record success {
  publish_error = some (codes "Account Suspended");
  backup = some backup_id;
}

process_packet_ends_example :
    is_out_of_fuel (process_packet suspended 3 (some (codes "p")) tables) ≡ false
unfolding ◌===◌
process_packet_ends_example =
    process_packet_ends (account_id ∷ backup_id ∷ []) suspended (some (codes "p")) tables
      (λ i. refl)
