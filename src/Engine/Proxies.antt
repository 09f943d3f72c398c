-- ===== src/Engine/Proxies.antt =====
-- The assignment of proxies to accounts: distribution-engine/src/proxy/ProxyManager.js. Each call is a
-- handler that gives up control at its statements, and what it wrote is seen by others at once or, in a
-- transaction, at its end. The columns that only describe a proxy are left out.
pub mod Exclusive
pub mod Changes
pub mod Unshared
mod Tests
use influence_platform.Prelude.{
  ℕ, zero, suc, ◌+◌, Bool, true, false, ◌&&◌, ◌||◌, not, List, [], ◌∷◌, map, Option, none, some,
  if◌then◌else◌, or_else, leb, ltb, filter, find, any, ◌==◌, length,
}
use influence_platform.Js.Text.{Text, codes, ◌===◌, truthy?}

pub record AccountLink : Type 0 where
  pub id : Text
  pub proxy_id : Option Text

pub record Proxy : Type 0 where
  pub id : Text
  pub is_active : Bool
  pub assigned_account_id : Option Text

-- The tables `accounts` and `proxies`.
pub record ProxyState : Type 0 where
  pub accounts : List AccountLink
  pub proxies : List Proxy

abbrev pub is_text : Option Text → Text → Bool
is_text none p = false
is_text (some q) p = q === p

-- `other_assignments > 0`
abbrev pub has_others : Text → Text → List AccountLink → Bool
has_others p acc rows = any (λ (r : AccountLink). is_text r.proxy_id p && not (r.id === acc)) rows

abbrev pub is_linked : Text → List AccountLink → Bool
is_linked p rows = any (λ (r : AccountLink). is_text r.proxy_id p) rows

-- `UPDATE accounts SET proxy_id = … WHERE id = …`
abbrev pub set_link : Text → Option Text → List AccountLink → List AccountLink
set_link acc v rows =
    map (λ (r : AccountLink). if r.id === acc then record r { proxy_id = v } else r) rows

abbrev clear_account : Text → List Proxy → List Proxy
clear_account acc rows =
    map
      (λ (p : Proxy).
        if is_text p.assigned_account_id acc then record p { assigned_account_id = none } else p)
      rows

abbrev set_account : Text → Text → List Proxy → List Proxy
set_account proxy acc rows =
    map (λ (p : Proxy). if p.id === proxy then record p { assigned_account_id = some acc } else p)
      rows

abbrev pub find_proxy : Text → List Proxy → Option Proxy
find_proxy id rows = find (λ (p : Proxy). p.id === id) rows

-- What a call answers: `search_refused` is the exception of the search, `failed` one of another
-- statement.
pub data ProxyReply : Type 0 where
  assigned : Text → ProxyReply
  completed : ProxyReply
  not_found inactive taken in_use search_refused failed : ProxyReply

pub data ProxyOperation : Type 0 where
  releases rotates assigns : Text → ProxyOperation
  assigns_specific : Text → Text → ProxyOperation
  deletes : Text → ProxyOperation

-- What a call does next: the two statements of a release, which a rotation begins with, the lookup of the
-- account's own proxy, the test and the writes of the transaction, and the test and the deletion.
pub data ProxyStage : Type 0 where
  unlinking clearing : Bool → Text → ProxyStage
  searching : Text → ProxyStage
  checking writing : Text → Text → ProxyStage
  delete_checking deleting : Text → ProxyStage
  replied : ProxyReply → ProxyStage

unfoldable pub begin_operation : ProxyOperation → ProxyStage
begin_operation (releases acc) = unlinking false acc
begin_operation (rotates acc) = unlinking true acc
begin_operation (assigns acc) = searching acc
begin_operation (assigns_specific acc proxy) = checking acc proxy
begin_operation (deletes id) = delete_checking id

-- The active proxy that the account has.
abbrev pub active_link : Text → ProxyState → Option Proxy
active_link acc s =
    find
      (λ (p : Proxy).
        p.is_active
        && any (λ (r : AccountLink). r.id === acc && is_text r.proxy_id p.id) s.accounts)
      s.proxies

-- The search that follows joins `GROUP BY` with `FOR UPDATE`, which PostgreSQL refuses in every state.
unfoldable pub assign_proxy_to_account : Text → ProxyState → ProxyReply
assign_proxy_to_account acc s = elim (active_link acc s) [
  | none ↦ search_refused
  | some p ↦ assigned p.id
]

-- The tests on the row that the `SELECT` gives, with the policy of one account for a proxy, or without.
unfoldable pub check_proxy : Bool → Text → Text → ProxyState → ProxyStage
check_proxy strict acc proxy s = elim (find_proxy proxy s.proxies) [
  | none ↦ replied not_found
  | some p ↦
      if not p.is_active
      then replied inactive
      else if strict && has_others proxy acc s.accounts
      then replied taken
      else writing acc proxy
]

abbrev is_account : Text → List AccountLink → Bool
is_account acc rows = any (λ (r : AccountLink). r.id === acc) rows

abbrev is_missing : Text → List Proxy → Bool
is_missing id rows = not (any (λ (p : Proxy). p.id === id) rows)

-- The foreign keys refuse a proxy or an account that is gone, where the other one is there.
abbrev is_refused : Text → Text → ProxyState → Bool
is_refused acc proxy s =
    let gone = is_missing proxy s.proxies in
    (is_account acc s.accounts && gone) || (not (is_account acc s.accounts) && not gone)

-- The three `UPDATE`s and the `COMMIT`.
unfoldable pub link_proxy : Text → Text → ProxyState → ProxyStage × ProxyState
link_proxy acc proxy s = if is_refused acc proxy s then (replied failed, s) else (
  replied (assigned proxy),
  record {
    accounts = set_link acc (some proxy) s.accounts;
    proxies = set_account proxy acc (clear_account acc s.proxies);
  },
)

abbrev is_referenced : Proxy → ProxyState → Bool
is_referenced p s = truthy? p.assigned_account_id || is_linked p.id s.accounts

unfoldable pub check_deletion : Text → ProxyState → ProxyStage
check_deletion id s = elim (find_proxy id s.proxies) [
  | none ↦ replied not_found
  | some p ↦ if is_referenced p s then replied in_use else deleting id
]

-- The foreign key refuses the deletion of a proxy that an account has.
unfoldable pub delete_proxy : Text → ProxyState → ProxyStage × ProxyState
delete_proxy id s = if is_linked id s.accounts then (replied failed, s) else (
  replied completed,
  record s { proxies = filter (λ (q : Proxy). not (q.id === id)) s.proxies },
)

-- One statement, or the writes of one transaction.
unfoldable pub proceed : Bool → ProxyStage → ProxyState → ProxyStage × ProxyState
proceed strict (unlinking rotating acc) s =
    (clearing rotating acc, record s { accounts = set_link acc none s.accounts })
proceed strict (clearing rotating acc) s = (
  if rotating then searching acc else replied completed,
  record s { proxies = clear_account acc s.proxies },
)
proceed strict (searching acc) s = (replied (assign_proxy_to_account acc s), s)
proceed strict (checking acc proxy) s = (check_proxy strict acc proxy s, s)
proceed strict (writing acc proxy) s = link_proxy acc proxy s
proceed strict (delete_checking id) s = (check_deletion id s, s)
proceed strict (deleting id) s = delete_proxy id s
proceed strict (replied r) s = (replied r, s)

-- A statement throws: what the transaction wrote is rolled back.
unfoldable pub break : ProxyStage → ProxyStage
break (replied r) = replied r
break st = replied failed

-- The handler at a place goes on.
unfoldable pub proceed_at : Bool → ℕ → List ProxyStage → ProxyState → List ProxyStage × ProxyState
proceed_at strict i [] s = ([], s)
proceed_at strict zero (h ∷ hs) s = let (h', s') = proceed strict h s in (h' ∷ hs, s')
proceed_at strict (suc i) (h ∷ hs) s = let (hs', s') = proceed_at strict i hs s in (h ∷ hs', s')

unfoldable pub break_at : ℕ → List ProxyStage → List ProxyStage
break_at i [] = []
break_at zero (h ∷ hs) = break h ∷ hs
break_at (suc i) (h ∷ hs) = h ∷ break_at i hs

pub record ProxyWorld : Type 0 where
  pub tables : ProxyState
  pub handlers : List ProxyStage

pub data ProxyEvent : Type 0 where
  calls : ProxyOperation → ProxyEvent
  proceeds breaks : ℕ → ProxyEvent

unfoldable pub step : Bool → ProxyEvent → ProxyWorld → ProxyWorld
step strict (calls op) w = record w { handlers = begin_operation op ∷ w.handlers }
step strict (proceeds i) w =
    let (hs, s) = proceed_at strict i w.handlers w.tables in record { tables = s; handlers = hs }
step strict (breaks i) w = record w { handlers = break_at i w.handlers }

unfoldable pub run : Bool → List ProxyEvent → ProxyWorld → ProxyWorld
run strict [] w = w
run strict (e ∷ es) w = run strict es (step strict e w)
