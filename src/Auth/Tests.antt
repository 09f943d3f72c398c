-- ===== src/Auth/Tests.antt =====
-- The theorems of the login at concrete inputs.
use influence_platform.Prelude.{◌≡◌, ◌⊎◌, ◌↔◌, true, Option, none, some}
use influence_platform.Js.Text.{Text, codes}
use influence_platform.Auth.{
  AuthEnvironment, FastApiTokenClaims, Credentials, LoginResponse, User, authorize, given, user_of,
  no_claims, no_user,
}
use influence_platform.Auth.Login.{IsTester, Accepts, authorize_iff}

abbrev env : AuthEnvironment
env = record {
  content_factory_url = none;
  public_content_url = none;
  bypass_auth = none;
  test_username = none;
  test_password = none;
}

abbrev credentials : Option Credentials
credentials = some (record { username = codes "ann"; password = codes "pw" })

abbrev response : LoginResponse
response = record { is_ok = true; access_token = some (codes "a.b.c"); user = none }

abbrev login : Text → Credentials → Option LoginResponse
login url c = some response

abbrev decode : Text → Option FastApiTokenClaims
decode token = none

abbrev ann : User
ann = user_of (given credentials) (codes "a.b.c") no_claims no_user

authorize_iff_example :
    ((u : User) × (authorize decode login env credentials ≡ some u))
    ↔ (IsTester env credentials ⊎ Accepts login env credentials)
authorize_iff_example = authorize_iff login env decode credentials
