-- ===== src/Engine/Access/Reach.antt =====
-- Who reaches which accounts, personas and proxies.
use influence_platform.Prelude.{
  ℕ, zero, suc, ◌-◌, ◌≡◌, refl, Bool, true, false, ◌&&◌, ◌||◌, not, List, [], ◌∷◌, map, Option,
  none, some, if◌then◌else◌, or_else, filter, any, every, arith,
}
use influence_platform.Js.Text.{Text, ◌===◌, truthy, truthy?, trim}
use influence_platform.Engine.Access.{
  Claims, UserRow, Scope, Users, AccountRow, granted, denied, Clause, of_organization, nothing,
  of_personas, Param, text_param, list_param, Where, ProxyRow, is_admin_role, is_fleet_mode,
  role_of, access_mode, scope_from_claims, resolve_user_row, load_access_scope, load_row,
  includes_id, personas, allows_persona, in_organization, has_persona, get_allowed_account_ids,
  assert_account_access, build_account_scope, user_of, organization_of, redact_proxy_row,
  filter_proxies_for_scope, ids_of, has_assigned,
}

-- A row that the scope reaches: of its organization or of none, and of one of its personas unless it has
-- the whole fleet.
abbrev pub is_reached : Scope → AccountRow → Bool
is_reached s a = in_organization s a && (s.is_fleet || has_persona (personas s) a)

get_allowed_account_ids_lem :
    (rows : List AccountRow) (s : Scope)
    → get_allowed_account_ids rows s ≡ ids_of (filter (is_reached s) rows)
unfolding get_allowed_account_ids
get_allowed_account_ids_lem [] s = ground arith
get_allowed_account_ids_lem (a ∷ rows) s = ground (arith, get_allowed_account_ids_lem rows s)

filter-ids :
    (p : AccountRow → Bool) (rows : List AccountRow) (id : Text)
    → includes_id (ids_of (filter p rows)) id ≡ any (λ (a : AccountRow). a.id === id && p a) rows
filter-ids p [] id = refl
filter-ids p (a ∷ rows) id = ground (arith, filter-ids p rows id)

-- An account is granted if and only if there is a row with the trimmed id that the scope reaches: of its
-- organization or of none, and of one of its personas unless it has the whole fleet. An id that is
-- missing or blank is refused with 400, any other with 403.
pub assert_account_access_lem :
    (rows : List AccountRow) (s : Scope) (account_id : Option Text)
    → assert_account_access rows s account_id ≡ (
        let id = trim (or_else account_id []) in
        if not (truthy id)
        then denied 400
        else if any (λ (a : AccountRow). a.id === id && is_reached s a) rows
        then granted id
        else denied 403)
unfolding assert_account_access
assert_account_access_lem rows s account_id =
    let id = trim (or_else account_id []) in
    rw (get_allowed_account_ids_lem rows s, filter-ids (is_reached s) rows id) refl

-- What a clause means for a row, with the parameters from a first index on: `$start`, `$start + 1`, …
abbrev nth : ℕ → List Param → Option Param
nth n [] = none
nth zero (p ∷ ps) = some p
nth (suc n) (p ∷ ps) = nth n ps

abbrev organization_matches : Option Param → AccountRow → Bool
organization_matches (some (text_param o)) a = elim a.organization_id [
  | none ↦ true
  | some x ↦ x === o
]
organization_matches _ a = false

abbrev persona_matches : Option Param → AccountRow → Bool
persona_matches (some (list_param ids)) a = has_persona ids a
persona_matches _ a = false

abbrev holds : ℕ → List Param → AccountRow → Clause → Bool
holds start params a (of_organization i) = organization_matches (nth (i - start) params) a
holds start params a nothing = false
holds start params a (of_personas i) = persona_matches (nth (i - start) params) a

abbrev pub selects : ℕ → Where → AccountRow → Bool
selects start w a = every (holds start w.params a) w.parts

-- The clause that is built into the queries selects what the scope reaches, from any first index of its
-- parameters.
pub build_account_scope_lem :
    (s : Scope) (start : ℕ) (a : AccountRow)
    → selects start (build_account_scope s start) a ≡ is_reached s a
unfolding build_account_scope
build_account_scope_lem s start a =
    let first : start - start ≡ 0 = omega arith in
    let second : suc start - start ≡ 1 = omega arith in ground (arith, first, second)

-- A proxy without credentials.
abbrev pub is_redacted : ProxyRow → Bool
is_redacted r = elim r.username [
  | none ↦ elim r.password_encrypted [ none ↦ true | some p ↦ false ]
  | some u ↦ false
]

map-redacted :
    (s : Scope) (rows : List ProxyRow)
    → s.is_admin ≡ false
    → every is_redacted (map (λ r. redact_proxy_row r s) rows) ≡ true
unfolding redact_proxy_row
map-redacted s [] plain = refl
map-redacted s (r ∷ rows) plain = ground (arith, plain, map-redacted s rows plain)

-- A user who is no administrator gets no user name and no password of any proxy, with or without the
-- fleet.
pub filter_proxies_for_scope-redacted :
    (rows : List ProxyRow) (s : Scope)
    → s.is_admin ≡ false
    → every is_redacted (filter_proxies_for_scope rows s) ≡ true
unfolding filter_proxies_for_scope
filter_proxies_for_scope-redacted rows s plain = ground (
  arith,
  plain,
  map-redacted s rows plain,
  map-redacted s (filter (has_assigned (personas s)) rows) plain,
)

-- In the scoped mode, where the lookup of the user throws and the token gives no administrator's role,
-- no persona is allowed and no account is reached.
pub load_access_scope_scoped :
    (setting : Option Text) (db : Users) (claims : Claims) (rows : List AccountRow)
    (persona : Option Text)
    → is_fleet_mode (access_mode setting) ≡ false
    → resolve_user_row db claims ≡ none
    → is_admin_role (role_of claims none) ≡ false
    → (allows_persona (load_access_scope setting db claims) persona ≡ false)
      × (get_allowed_account_ids rows (load_access_scope setting db claims) ≡ [])
unfolding load_access_scope scope_from_claims allows_persona get_allowed_account_ids
load_access_scope_scoped setting db claims rows persona not_fleet failed plain =
    ground (arith, not_fleet, failed, plain)

-- In the scoped mode, a user whom neither the row nor the token makes an administrator has no fleet,
-- and is allowed a persona only if it is one that the database assigns to the user.
pub load_access_scope-personas :
    (setting : Option Text) (db : Users) (claims : Claims) (row : Option UserRow) (persona : Text)
    → is_fleet_mode (access_mode setting) ≡ false
    → resolve_user_row db claims ≡ some row
    → is_admin_role (role_of claims row) ≡ false
    → is_admin_role (role_of claims none) ≡ false
    → allows_persona (load_access_scope setting db claims) (some persona) ≡ (
        truthy persona
        && truthy? (user_of claims row)
        && includes_id
            (or_else
              (db.personas_of (or_else (user_of claims row) []) (organization_of claims row))
              [])
            persona)
unfolding load_access_scope load_row scope_from_claims allows_persona
load_access_scope-personas setting db claims row persona scoped found plain plain_token =
    ground (arith, scoped, found, plain, plain_token)
