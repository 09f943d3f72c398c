-- ===== src/Engine/Access.antt =====
-- distribution-engine/src/core/accessScope.js: what a user may see, from the claims of the token and the
-- rows of the database. A lookup that throws is `none`; the mode is the text of `ACCESS_MODE`, if it is
-- set. An empty id counts as missing.
pub mod Reach
mod Tests
use influence_platform.Prelude.{
  ℕ, suc, ◌+◌, Bool, true, false, ◌&&◌, ◌||◌, not, List, [], ◌∷◌, ◌++◌, map, Option, none, some,
  if◌then◌else◌, or_else, filter, any,
}
use influence_platform.Js.Text.{Text, codes, ◌===◌, truthy, truthy?, trim, to_lower_case}

pub data Role : Type 0 where
  admin operator viewer : Role

-- The aliases; the `é` is U+00E9, which lower case leaves.
unfoldable pub normalize_role : Option Text → Role
normalize_role role =
    let raw = to_lower_case (trim (if truthy? role then or_else role [] else codes "viewer")) in
    if raw === codes "admin"
    then admin
    else if raw === codes "operator" || raw === codes "operateur" || raw === codes "opérateur"
    then operator
    else viewer

pub data Mode : Type 0 where
  fleet scoped : Mode

unfoldable pub access_mode : Option Text → Mode
access_mode setting =
    if to_lower_case (trim (if truthy? setting then or_else setting [] else codes "scoped"))
      === codes "fleet"
    then fleet
    else scoped

pub record Claims : Type 0 where
  pub user_id : Option Text
  pub sub : Option Text
  pub email : Option Text
  pub role : Option Text
  pub organization_id : Option Text

pub record UserRow : Type 0 where
  pub id : Text
  pub email : Option Text
  pub role : Option Text
  pub organization_id : Option Text

pub record Scope : Type 0 where
  pub user_id : Option Text
  pub organization_id : Text
  pub role : Role
  pub mode : Mode
  pub persona_ids : Option (List Text)
  pub is_admin : Bool
  pub is_fleet : Bool
  pub is_viewer : Bool

abbrev pub default_organization_id : Text
default_organization_id = codes "00000000-0000-4000-8000-000000000001"

-- `a || b`
abbrev pub or_text : Option Text → Option Text → Option Text
or_text a b = if truthy? a then a else b

abbrev row_role : Option UserRow → Option Text
row_role none = none
row_role (some r) = r.role

abbrev row_organization : Option UserRow → Option Text
row_organization none = none
row_organization (some r) = r.organization_id

abbrev row_id : Option UserRow → Option Text
row_id none = none
row_id (some r) = some r.id

abbrev pub is_admin_role : Role → Bool
is_admin_role admin = true
is_admin_role _ = false

abbrev is_viewer_role : Role → Bool
is_viewer_role viewer = true
is_viewer_role _ = false

abbrev pub is_fleet_mode : Mode → Bool
is_fleet_mode fleet = true
is_fleet_mode scoped = false

abbrev nonempty : Option Text → Option Text
nonempty value = if truthy? value then value else none

abbrev pub role_of : Claims → Option UserRow → Role
role_of claims row = normalize_role (or_text (row_role row) claims.role)

abbrev organization_of : Claims → Option UserRow → Text
organization_of claims row =
    or_else (nonempty (or_text (row_organization row) claims.organization_id))
      default_organization_id

abbrev user_of : Claims → Option UserRow → Option Text
user_of claims row = nonempty (or_text (row_id row) claims.user_id)

unfoldable pub scope_from_claims :
    Option Text → Claims → Option UserRow → Option (List Text) → Scope
scope_from_claims setting claims row persona_ids =
    let role = role_of claims row in
    let mode = access_mode setting in
    record {
      user_id = user_of claims row;
      organization_id = organization_of claims row;
      role = role;
      mode = mode;
      persona_ids = persona_ids;
      is_admin = is_admin_role role;
      is_fleet = is_fleet_mode mode || is_admin_role role;
      is_viewer = is_viewer_role role;
    }

-- The database: users by id and by e-mail, and the personas of a user in an organization.
pub record Users : Type 0 where
  pub by_id : Text → Option (Option UserRow)
  pub by_email : Text → Option (Option UserRow)
  pub personas_of : Text → Text → Option (List Text)

row_by_email : Users → Claims → Option (Option UserRow)
row_by_email db claims =
    let email = to_lower_case (trim (or_else (or_text claims.sub claims.email) [])) in
    if truthy email then db.by_email email else some none

-- The row of the token's id, else of its e-mail; the outer `none` is a query that throws.
unfoldable pub resolve_user_row : Users → Claims → Option (Option UserRow)
unfolding row_by_email
resolve_user_row db claims =
    if truthy? claims.user_id
    then elim (db.by_id (or_else claims.user_id [])) [
      | none ↦ none
      | some none ↦ row_by_email db claims
      | some (some row) ↦ some (some row)
    ]
    else row_by_email db claims

-- What `catch` gives: the claims' scope without personas.
abbrev fallback : Option Text → Claims → Scope
fallback setting claims = scope_from_claims setting claims none (some [])

abbrev with_personas : Option Text → Claims → Option UserRow → Option (List Text) → Scope
with_personas setting claims row none = fallback setting claims
with_personas setting claims row (some ids) = scope_from_claims setting claims row (some ids)

unfoldable load_row : Option Text → Users → Claims → Option UserRow → Scope
unfolding scope_from_claims
load_row setting db claims row =
    let user = user_of claims row in
    if not (is_fleet_mode (access_mode setting))
      && not (is_admin_role (role_of claims row))
      && truthy? user
    then with_personas setting claims row
        (db.personas_of (or_else user []) (organization_of claims row))
    else scope_from_claims setting claims row none

unfoldable pub load_access_scope : Option Text → Users → Claims → Scope
unfolding load_row scope_from_claims
load_access_scope setting db claims = elim (resolve_user_row db claims) [
  | none ↦ fallback setting claims
  | some row ↦ load_row setting db claims row
]

abbrev pub includes_id : List Text → Text → Bool
includes_id ids id = any (λ i. i === id) ids

abbrev pub personas : Scope → List Text
personas s = or_else s.persona_ids []

unfoldable pub allows_persona : Scope → Option Text → Bool
allows_persona s persona_id =
    if not (truthy? persona_id)
    then s.is_fleet
    else if s.is_fleet
    then true
    else includes_id (personas s) (or_else persona_id [])

-- A row of the table `accounts`.
pub record AccountRow : Type 0 where
  pub id : Text
  pub persona_id : Option Text
  pub organization_id : Option Text

abbrev pub in_organization : Scope → AccountRow → Bool
in_organization s a = elim a.organization_id [ none ↦ true | some o ↦ o === s.organization_id ]

-- `persona_id = ANY(…)`: no for `NULL`.
abbrev pub has_persona : List Text → AccountRow → Bool
has_persona ids a = elim a.persona_id [ none ↦ false | some p ↦ includes_id ids p ]

abbrev ids_of : List AccountRow → List Text
ids_of rows = map (λ (a : AccountRow). a.id) rows

unfoldable pub get_allowed_account_ids : List AccountRow → Scope → List Text
get_allowed_account_ids rows s =
    if s.is_fleet then ids_of (filter (in_organization s) rows) else elim (personas s) [
      | [] ↦ []
      | p ∷ ps ↦ ids_of (filter (λ a. has_persona (p ∷ ps) a && in_organization s a) rows)
    ]

-- The account's id, or the status of the error.
pub data Access : Type 0 where
  granted : Text → Access
  denied : ℕ → Access

unfoldable pub assert_account_access : List AccountRow → Scope → Option Text → Access
assert_account_access rows s account_id =
    let id = trim (or_else account_id []) in
    if not (truthy id)
    then denied 400
    else if includes_id (get_allowed_account_ids rows s) id
    then granted id
    else denied 403

-- A clause of the `WHERE` with what it means for a row: of the account's persona, or of the persona.
pub data Clause : Type 0 where
  of_organization : ℕ → Clause
  nothing : Clause
  of_personas : ℕ → Clause

pub data Param : Type 0 where
  text_param : Text → Param
  list_param : List Text → Param

pub record Where : Type 0 where
  pub parts : List Clause
  pub params : List Param
  pub next_index : ℕ

unfoldable pub build_account_scope : Scope → ℕ → Where
build_account_scope s start =
    if s.is_fleet
    then record {
      parts = of_organization start ∷ [];
      params = text_param s.organization_id ∷ [];
      next_index = suc start;
    }
    else elim (personas s) [
      | [] ↦ record {
        parts = of_organization start ∷ nothing ∷ [];
        params = text_param s.organization_id ∷ [];
        next_index = suc start;
      }
      | p ∷ ps ↦ record {
        parts = of_organization start ∷ of_personas (suc start) ∷ [];
        params = text_param s.organization_id ∷ list_param (p ∷ ps) ∷ [];
        next_index = suc (suc start);
      }
    ]

-- The clauses are the same for the personas themselves, whose own ids are compared.
unfoldable pub build_persona_scope : Scope → ℕ → Where
unfolding build_account_scope
build_persona_scope s start = build_account_scope s start

-- The status and the message of the response, where the write is refused.
unfoldable pub forbid_viewer_write : Option Scope → Option (ℕ × Text)
forbid_viewer_write none = none
forbid_viewer_write (some s) =
    if s.is_viewer then some (403, codes "Read-only access for viewer role") else none

unfoldable pub get_publication_scope_notice : Scope → Option Text
get_publication_scope_notice s =
    if s.is_fleet
    then none
    else elim (personas s) [ [] ↦ some (codes "NO_PERSONA_ASSIGNMENTS") | p ∷ ps ↦ none ]

pub record ProxyRow : Type 0 where
  pub id : Text
  pub assigned_persona_id : Option Text
  pub username : Option Text
  pub password_encrypted : Option Text

unfoldable pub redact_proxy_row : ProxyRow → Scope → ProxyRow
redact_proxy_row row s =
    if s.is_admin then row else record row { username = none; password_encrypted = none }

abbrev has_assigned : List Text → ProxyRow → Bool
has_assigned ids r =
    truthy? r.assigned_persona_id && includes_id ids (or_else r.assigned_persona_id [])

unfoldable pub filter_proxies_for_scope : List ProxyRow → Scope → List ProxyRow
filter_proxies_for_scope rows s =
    if s.is_fleet
    then if s.is_admin then rows else map (λ r. redact_proxy_row r s) rows
    else elim (personas s) [
      | [] ↦ []
      | p ∷ ps ↦ map (λ r. redact_proxy_row r s) (filter (has_assigned (p ∷ ps)) rows)
    ]
