-- ===== src/Engine/Packet/Loop.antt =====
-- `processPacket` of distribution-engine/src/publisher/PublishingWorker.js: the tests on the packet and the
-- loop over its accounts, to which a failed publication may add a backup account. The packet's row in
-- `content_packets` is left out. The loop runs on fuel.
pub mod Ends
use influence_platform.Prelude.{
  ℕ, zero, suc, ◌+◌, Bool, true, false, ◌&&◌, not, List, [], ◌∷◌, Option, none, some, if◌then◌else◌,
  ltb, length, every, or_else,
}
use influence_platform.Js.Text.{Text, ◌===◌, truthy?}
use influence_platform.Engine.Schedule.{is_uuid}
use influence_platform.Engine.Packet.{
  AttemptRow, PacketState, Answers, Run, continues, stops, process_account,
}

-- The rows of every account; the rest is shared by the accounts.
pub record PacketTables : Type 0 where
  pub rows_of : Text → List AttemptRow
  pub shared : PacketState

-- `target_accounts[i]`
abbrev pub account_at : ℕ → List Text → Text
account_at i [] = []
account_at zero (t ∷ ts) = t
account_at (suc i) (t ∷ ts) = account_at i ts

abbrev with_rows : Text → List AttemptRow → (Text → List AttemptRow) → Text → List AttemptRow
with_rows account rows rows_of other = if other === account then rows else rows_of other

abbrev pub store : Text → PacketState → PacketTables → PacketTables
store account s p = record { rows_of = with_rows account s.rows p.rows_of; shared = s }

pub data PacketResult : Type 0 where
  invalid out_of_fuel : PacketResult
  finished stopped : PacketTables → PacketResult

abbrev pub run_account : Answers → Text → PacketTables → Run
run_account a account p = process_account a (record p.shared { rows = p.rows_of account })

-- What is left of the loop after a run for an account.
unfoldable pub process_accounts : (ℕ → Answers) → ℕ → ℕ → PacketTables → PacketResult
process_accounts answers zero i p = out_of_fuel
process_accounts answers (suc fuel) i p =
    let account = account_at i p.shared.targets in
    if ltb i (length p.shared.targets)
    then elim (run_account (answers i) account p) [
      | continues s ↦ process_accounts answers fuel (suc i) (store account s p)
      | stops s ↦ stopped (store account s p)
    ]
    else finished p

-- The packet has an id, and accounts, whose ids are all valid.
unfoldable pub process_packet : (ℕ → Answers) → ℕ → Option Text → PacketTables → PacketResult
process_packet answers fuel id p =
    if not (truthy? id)
    then invalid
    else if not (ltb 0 (length p.shared.targets))
    then invalid
    else if not (every is_uuid p.shared.targets)
    then invalid
    else process_accounts answers fuel 0 p
