-- ===== src/Engine/Packet.antt =====
-- A packet for one of its accounts: the body of the loop of `processPacket`, with
-- `logPublicationAttempt`, `getRetryCount`, `requeueWithDelay` and the failures, in
-- distribution-engine/src/publisher/PublishingWorker.js. What the database, the guards and the platform
-- answer or throw is a parameter of the run. Times and the human delay are left out. An exception leads
-- to the outer `catch` of the loop's body, unless the row of a post could not be inserted.
pub mod Attempts
pub mod Loop
mod Tests
use influence_platform.Prelude.{
  ℕ, zero, suc, ◌+◌, ◌*◌, max, Bool, true, false, ◌&&◌, ◌||◌, not, List, [], ◌∷◌, ◌++◌, Option,
  none, some, if◌then◌else◌, or_else, leb, any, filter, ◌==◌,
}
use influence_platform.Js.Text.{Text, codes, ◌===◌, truthy, decimal, includes}
use influence_platform.Engine.Retry.{
  max_retries, ErrorClass, permanent, classify_error, class_text, get_retry_delay, requeue_delay,
}

-- A row of `publications` of the account and the packet.
pub record AttemptRow : Type 0 where
  pub status : Text
  pub retry_count : ℕ
  pub failure_type : Option Text
  pub error_message : Option Text

-- The rows, newest first; the delayed queue; what was recorded for the limits; the calls that publish; the
-- accounts that the packet is for; the bans that were reported; and the count of `updateLastActivity`.
-- The queue has a payload once, and of a packet's payloads only the accounts differ: an entry is the
-- accounts with the delay that was last given.
pub record PacketState : Type 0 where
  pub rows : List AttemptRow
  pub delayed : List (List Text × ℕ)
  pub recorded : List Bool
  pub publishes : ℕ
  pub targets : List Text
  pub bans : ℕ
  pub packet_published : Bool
  pub activity : ℕ

-- What the guard answers: allowed, or a reason with the kind of block and a wait in seconds.
pub data GuardReply : Type 0 where
  allows : GuardReply
  blocks : Text → Bool → Option ℕ → GuardReply

pub data InsertReply : Type 0 where
  inserted duplicate refused_insert : InsertReply

-- What goes wrong while a failure is handled: the row is not written and the count is not read, which
-- the code swallows, or the delayed queue throws.
pub record Faults : Type 0 where
  pub log_fails : Bool
  pub count_fails : Bool
  pub requeue_error : Option Text

-- The answers during the run: what the guards say, whether another worker has published the packet
-- meanwhile, what the platform and the insert say, a backup account, and the random number. A lookup or a
-- guard may throw before anything is written, and after the platform's call the lookup of a duplicate,
-- the update of the account's activity, the report of a ban and the search for a backup. `late` are the
-- faults of the outer `catch`.
pub record Answers : Type 0 where
  pub check_error : Option Text
  pub winner_error : Option Text
  pub packet_update_fails : Bool
  pub activity_error : Option Text
  pub ban_error : Option Text
  pub backup_error : Option Text
  pub faults : Faults
  pub late : Faults
  pub dry_run : Bool
  pub guard : GuardReply
  pub can_publish : Bool
  pub interval : Bool × ℕ
  pub skip_recheck : Bool
  pub raced : Bool
  pub publish_error : Option Text
  pub insert : InsertReply
  pub backup : Option Text
  pub random : ℕ

abbrev is_published_row : AttemptRow → Bool
is_published_row r = r.status === codes "published"

unfoldable pub has_published : PacketState → Bool
has_published s = any is_published_row s.rows

-- `COALESCE(MAX(retry_count), 0)`
abbrev pub max_count : List AttemptRow → ℕ
max_count [] = 0
max_count (r ∷ rows) = max r.retry_count (max_count rows)

unfoldable pub get_retry_count : Bool → PacketState → ℕ
get_retry_count fails s = if fails then 0 else max_count s.rows

-- How the body of the loop goes on: it returns, throws, or the row of a post could not be inserted.
pub data Attempt : Type 0 where
  returned : PacketState → Attempt
  thrown : Text → PacketState → Attempt
  unrecorded : PacketState → Attempt

abbrev pub and_then : Attempt → (PacketState → Attempt) → Attempt
and_then (returned s) k = k s
and_then (thrown m s) k = thrown m s
and_then (unrecorded s) k = unrecorded s

abbrev pub unless_thrown : Option Text → PacketState → PacketState → Attempt
unless_thrown none before after = returned after
unless_thrown (some message) before after = thrown message before

-- The newest row is overwritten, its count with the default of 0 included, or a row is inserted.
abbrev overwritten : List AttemptRow → AttemptRow → List AttemptRow
overwritten [] new = new ∷ []
overwritten (r ∷ rows) new = new ∷ rows

unfoldable pub log_publication_attempt :
    Bool → Text → Text → Text → Option ℕ → PacketState → PacketState
log_publication_attempt fails status failure_type message count s = if fails then s else record s {
  rows = overwritten s.rows (record {
    status = status;
    retry_count = or_else count 0;
    failure_type = some failure_type;
    error_message = some message;
  });
}

abbrev pub same_texts : List Text → List Text → Bool
same_texts [] [] = true
same_texts (t ∷ ts) (u ∷ us) = t === u && same_texts ts us
same_texts _ _ = false

abbrev pub is_entry : List Text → List Text × ℕ → Bool
is_entry targets (ts, delay) = same_texts ts targets

-- `ZADD` sets the score of a payload that is there.
abbrev delayed_by : ℕ → PacketState → PacketState
delayed_by delay s = record s {
  delayed = (s.targets, delay) ∷ filter (λ e. not (is_entry s.targets e)) s.delayed;
}

unfoldable pub requeue_with_delay : Option Text → Text → Option ℕ → ℕ → PacketState → Attempt
requeue_with_delay error reason custom r s =
    unless_thrown error s (delayed_by (requeue_delay reason custom r) s)

unfoldable pub record_post : Bool → PacketState → PacketState
record_post success s = record s { recorded = success ∷ s.recorded }

abbrev is_permanent : ErrorClass → Bool
is_permanent permanent = true
is_permanent _ = false

unfoldable pub fail_for_good : Bool → Text → Text → PacketState → PacketState
fail_for_good fails failure_type message s =
    log_publication_attempt fails (codes "permanently_failed") failure_type message none s

unfoldable pub retry_later : Faults → Text → Text → ℕ → PacketState → Attempt
retry_later f failure_type message r s =
    let count = get_retry_count f.count_fails s in
    requeue_with_delay f.requeue_error (codes "retry_" ++ decimal (suc count))
      (some (get_retry_delay count r)) r
      (log_publication_attempt f.log_fails (codes "retrying") failure_type message
        (some (suc count)) s)

-- What both `catch` blocks share: permanent, out of retries, or again later.
unfoldable pub handle_error : Faults → Text → ℕ → PacketState → Attempt
handle_error f message r s =
    if is_permanent (classify_error message)
    then returned (fail_for_good f.log_fails (class_text (classify_error message)) message s)
    else if leb max_retries (get_retry_count f.count_fails s)
    then returned (fail_for_good f.log_fails (codes "max_retries_exhausted") message s)
    else retry_later f (class_text (classify_error message)) message r s

-- The backup account joins the packet, unless it is there.
abbrev with_backup : Option Text → List Text → List Text
with_backup none targets = targets
with_backup (some b) targets =
    if truthy b && not (any (λ t. t === b) targets) then targets ++ b ∷ [] else targets

unfoldable pub report_ban : Text → Answers → PacketState → Attempt
report_ban message a s =
    if is_permanent (classify_error message)
      && (includes message (codes "Action Blocked") || includes message (codes "Suspended"))
    then and_then (unless_thrown a.ban_error s (record s { bans = suc s.bans })) (λ t.
      unless_thrown a.backup_error t (record t { targets = with_backup a.backup t.targets }))
    else returned s

unfoldable pub publish_failed : Text → Answers → PacketState → Attempt
publish_failed message a s =
    and_then (handle_error a.faults message a.random (record_post false s)) (report_ban message a)

unfoldable published_row : AttemptRow
published_row = record {
  status = codes "published";
  retry_count = 0;
  failure_type = none;
  error_message = none;
}

-- After the row: the update of the packet, whose exception is swallowed, of the account's activity, and
-- the record of the success.
unfoldable finish : Answers → PacketState → Attempt
finish a s =
    let packet = record s { packet_published = s.packet_published || not a.packet_update_fails } in
    unless_thrown a.activity_error packet
      (record_post true (record packet { activity = suc packet.activity }))

-- The row of a success; a row that another worker has inserted already counts too, once it is looked up.
unfoldable log_publication : Answers → PacketState → Attempt
unfolding published_row finish
log_publication a s = elim a.insert [
  | inserted ↦ finish a (record s { rows = published_row ∷ s.rows })
  | duplicate ↦ and_then (unless_thrown a.winner_error s s) (finish a)
  | refused_insert ↦ unrecorded s
]

-- The external call, after the checks; a dry run makes none, and has a row like a success.
unfoldable pub execute : Answers → PacketState → Attempt
unfolding log_publication
execute a s =
    let called = record s { publishes = suc s.publishes } in
    if a.dry_run then log_publication a s else elim a.publish_error [
      | some message ↦ publish_failed message a called
      | none ↦ log_publication a called
    ]

-- A reason's wait in the text of the requeue.
abbrev blocked_by : Text → Bool → Option ℕ → Answers → PacketState → Attempt
blocked_by reason daily wait a s =
    let logged =
      log_publication_attempt a.faults.log_fails (codes "failed") (codes "safety_block") reason none
        s in
    if daily
    then requeue_with_delay a.faults.requeue_error (codes "safety_daily_limit") none a.random logged
    else if or_else wait 0 == 0
    then returned logged
    else requeue_with_delay a.faults.requeue_error
        (codes "safety_cooldown_" ++ decimal (or_else wait 0) ++ codes "s")
        (some (or_else wait 0 * 1000)) a.random logged

-- The guards, `none` where they let the packet pass.
unfoldable pub guarded : Answers → PacketState → Option Attempt
guarded a s = elim a.guard [
  | blocks reason daily wait ↦ some (blocked_by reason daily wait a s)
  | allows ↦
      if not a.can_publish
      then some (
          requeue_with_delay a.faults.requeue_error (codes "daily_limit_exceeded") none a.random (
            log_publication_attempt a.faults.log_fails (codes "failed") (codes "rate_limit")
              (codes "Daily rate limit exceeded") none s))
      else if not a.interval.0
      then some (
          requeue_with_delay a.faults.requeue_error
            (codes "min_interval_wait_" ++ decimal a.interval.1 ++ codes "m") none a.random s)
      else none
]

unfoldable pass : Answers → Option Attempt → PacketState → Attempt
pass a (some blocked) s = blocked
pass a none s = if not a.skip_recheck && a.raced then returned s else execute a s

unfoldable checked : Answers → PacketState → Attempt
unfolding pass
checked a s =
    if has_published s then returned s else pass a (if a.dry_run then none else guarded a s) s

-- The body of the `try`.
unfoldable attempt : Answers → PacketState → Attempt
unfolding checked
attempt a s = elim a.check_error [ some message ↦ thrown message s | none ↦ checked a s ]

-- The loop goes on, or `processPacket` ends in an exception.
pub data Run : Type 0 where
  continues : PacketState → Run
  stops : PacketState → Run

abbrev settled : Attempt → Run
settled (returned s) = continues s
settled (thrown message s) = stops s
settled (unrecorded s) = stops s

-- The outer `catch`, which may throw itself.
unfoldable caught : Answers → Attempt → Run
caught a (returned s) = continues s
caught a (unrecorded s) = stops s
caught a (thrown message s) = settled (handle_error a.late message a.random (record_post false s))

unfoldable pub process_account : Answers → PacketState → Run
unfolding attempt caught
process_account a s = caught a (attempt a s)
