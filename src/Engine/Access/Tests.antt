-- ===== src/Engine/Access/Tests.antt =====
-- The theorems on access at work.
use influence_platform.Prelude.{
  ◌≡◌, refl, true, false, ◌&&◌, not, List, [], ◌∷◌, none, some, if◌then◌else◌, any, every,
}
use influence_platform.Js.Text.{Text, codes, ◌===◌, truthy, trim, to_lower_case}
use influence_platform.Engine.Access.{
  Scope, operator, scoped, Claims, UserRow, Users, AccountRow, ProxyRow, granted, denied,
  normalize_role, access_mode, resolve_user_row, load_access_scope, allows_persona,
  get_allowed_account_ids, assert_account_access, build_account_scope, filter_proxies_for_scope,
  includes_id,
}
use influence_platform.Engine.Access.Reach.{
  is_reached, selects, is_redacted, assert_account_access_lem, build_account_scope_lem,
  load_access_scope_scoped, load_access_scope-personas, filter_proxies_for_scope-redacted,
}

abbrev organization : Text
organization = codes "o"

abbrev ann : Scope
ann = record {
  user_id = some (codes "u");
  organization_id = organization;
  role = operator;
  mode = scoped;
  persona_ids = some (codes "p" ∷ []);
  is_admin = false;
  is_fleet = false;
  is_viewer = false;
}

abbrev account_of : Text → Text → AccountRow
account_of id persona = record {
  id = id;
  persona_id = some persona;
  organization_id = some organization;
}

abbrev accounts : List AccountRow
accounts = account_of (codes "1") (codes "q") ∷ account_of (codes "2") (codes "p") ∷ []

assert_account_access_lem_example : assert_account_access accounts ann (some (codes " 2 ")) ≡ (
    let id = trim (codes " 2 ") in
    if not (truthy id)
    then denied 400
    else if any (λ (a : AccountRow). a.id === id && is_reached ann a) accounts
    then granted id
    else denied 403)
assert_account_access_lem_example = assert_account_access_lem accounts ann (some (codes " 2 "))

build_account_scope_lem_example :
    selects 3 (build_account_scope ann 3) (account_of (codes "2") (codes "p"))
    ≡ is_reached ann (account_of (codes "2") (codes "p"))
build_account_scope_lem_example = build_account_scope_lem ann 3 (account_of (codes "2") (codes "p"))

abbrev ann_claims : Claims
ann_claims = record {
  user_id = some (codes "u");
  sub = none;
  email = none;
  role = some (codes "Operateur");
  organization_id = some organization;
}

abbrev ann_row : UserRow
ann_row = record {
  id = codes "u";
  email = none;
  role = some (codes "operator");
  organization_id = some organization;
}

abbrev failing_users : Users
failing_users = record { by_id = λ id. none; by_email = λ e. none; personas_of = λ user org. none }

abbrev users : Users
users = record {
  by_id = λ id. some (some ann_row);
  by_email = λ e. some none;
  personas_of = λ user org. some (codes "p" ∷ []);
}

load_access_scope_scoped_example :
    (allows_persona (load_access_scope none failing_users ann_claims) (some (codes "p")) ≡ false)
    × (get_allowed_account_ids accounts (load_access_scope none failing_users ann_claims) ≡ [])
unfolding access_mode resolve_user_row normalize_role trim to_lower_case ◌===◌
load_access_scope_scoped_example =
    load_access_scope_scoped none failing_users ann_claims accounts (some (codes "p")) refl refl
      refl

load_access_scope-personas_example :
    allows_persona (load_access_scope none users ann_claims) (some (codes "p"))
    ≡ (true && true && includes_id (codes "p" ∷ []) (codes "p"))
unfolding access_mode resolve_user_row normalize_role trim to_lower_case ◌===◌
load_access_scope-personas_example =
    load_access_scope-personas none users ann_claims (some ann_row) (codes "p") refl refl refl refl

abbrev proxies : List ProxyRow
proxies =
    (record {
      id = codes "x";
      assigned_persona_id = some (codes "p");
      username = some (codes "name");
      password_encrypted = some (codes "secret");
    })
    ∷ []

filter_proxies_for_scope-redacted_example :
    every is_redacted (filter_proxies_for_scope proxies ann) ≡ true
filter_proxies_for_scope-redacted_example = filter_proxies_for_scope-redacted proxies ann refl
