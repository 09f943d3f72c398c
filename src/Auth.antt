-- ===== src/Auth.antt =====
-- The login of the dashboard: dashboard/src/app/api/auth/[...nextauth]/route.ts, and the role of the
-- current user: dashboard/src/lib/auth.ts. `atob`, `JSON.parse` of the claims and the login request
-- are arguments, `none` where they throw. The access token is a text, as the service declares it.
pub mod Login
pub mod Session
pub mod Roles
mod Tests
use influence_platform.Prelude.{
  ℕ, suc, zero, ◌+◌, ◌-◌, ◌%◌, Bool, true, false, ◌&&◌, ◌||◌, List, [], ◌∷◌, ◌++◌, map, Option,
  none, some, leb, ◌==◌, if◌then◌else◌, length, or_else, or_try,
}
use influence_platform.Js.Text.{Text, codes, ◌===◌, trim, truthy, truthy?, includes}

pub record AuthEnvironment : Type 0 where
  pub content_factory_url : Option Text
  pub public_content_url : Option Text
  pub bypass_auth : Option Text
  pub test_username : Option Text
  pub test_password : Option Text

-- `value || other`
abbrev pub or_truthy : Option Text → Text → Text
or_truthy value other = if truthy? value then or_else value [] else other

-- `url.replace(/\/$/, "")`
unfoldable pub strip_slash : Text → Text
strip_slash [] = []
strip_slash (c ∷ []) = if c == b'/' then [] else c ∷ []
strip_slash (c ∷ d ∷ s) = c ∷ strip_slash (d ∷ s)

abbrev pub service_url : Text
service_url = codes "http://content-factory:8000"

unfoldable pub resolve_content_factory_auth_base_url : AuthEnvironment → Text
resolve_content_factory_auth_base_url env =
    let internal = trim (or_truthy env.content_factory_url []) in
    let public_url = trim (or_truthy env.public_content_url (codes "http://localhost:8000")) in
    if truthy internal
    then strip_slash internal
    else if includes public_url (codes "localhost")
        || includes public_url (codes "127.0.0.1")
        || includes public_url (codes "content-factory")
    then service_url
    else if includes public_url (codes "/api/content")
    then service_url
    else strip_slash public_url

pub record FastApiTokenClaims : Type 0 where
  pub sub : Option Text
  pub role : Option Text
  pub user_id : Option Text
  pub organization_id : Option Text

abbrev pub no_claims : FastApiTokenClaims
no_claims = record { sub = none; role = none; user_id = none; organization_id = none }

-- The second part of `token.split(".")`.
before_dot : Text → Text
before_dot [] = []
before_dot (c ∷ s) = if c == b'.' then [] else c ∷ before_dot s

unfoldable pub token_payload : Text → Option Text
unfolding before_dot
token_payload [] = none
token_payload (c ∷ s) = if c == b'.' then some (before_dot s) else token_payload s

abbrev pub repeated : ℕ → ℕ → Text
repeated zero c = []
repeated (suc n) c = c ∷ repeated n c

-- The two replacements, unit by unit.
abbrev pub base64_unit : ℕ → ℕ
base64_unit c = if c == b'-' then b'+' else if c == b'_' then b'/' else c

unfoldable pub pad_payload : Text → Text
pad_payload payload = map base64_unit payload ++ repeated ((4 - length payload % 4) % 4) b'='

unfoldable pub decode_jwt_payload :
    (Text → Option Text) → (Text → Option FastApiTokenClaims) → Text → Option FastApiTokenClaims
decode_jwt_payload atob parse token = elim (token_payload token) [
  | none ↦ none
  | some payload ↦
      if truthy payload
      then elim (atob (pad_payload payload)) [ none ↦ none | some decoded ↦ parse decoded ]
      else none
]

pub record Credentials : Type 0 where
  pub username : Text
  pub password : Text

pub record ApiUser : Type 0 where
  pub id : Option Text
  pub email : Option Text
  pub role : Option Text
  pub organization_id : Option Text

-- A response with its body; a body that is not JSON counts as one without fields.
pub record LoginResponse : Type 0 where
  pub is_ok : Bool
  pub access_token : Option Text
  pub user : Option ApiUser

pub record User : Type 0 where
  pub id : Text
  pub email : Text
  pub access_token : Text
  pub role : Text
  pub organization_id : Option Text

abbrev pub no_user : ApiUser
no_user = record { id = none; email = none; role = none; organization_id = none }

-- The credentials that the service is sent, where they may be missing.
abbrev pub given : Option Credentials → Credentials
given credentials = or_else credentials (record { username = []; password = [] })

abbrev pub truthy_or_none : Option Text → Option Text
truthy_or_none value = if truthy? value then value else none

-- `name` is the email in both branches and is left out.
unfoldable pub user_of : Credentials → Text → FastApiTokenClaims → ApiUser → User
user_of credentials access_token claims api_user =
    let email = or_truthy api_user.email (or_truthy claims.sub credentials.username) in
    record {
      id = or_truthy api_user.id (or_truthy claims.user_id email);
      email = email;
      access_token = access_token;
      role = or_truthy api_user.role (or_truthy claims.role (codes "viewer"));
      organization_id =
          or_try (truthy_or_none api_user.organization_id) (truthy_or_none claims.organization_id);
    }

-- The tester that the bypass lets in.
unfoldable pub tester : AuthEnvironment → User
tester env =
    let name = or_truthy env.test_username (codes "e2e-user") in
    record {
      id = codes "e2e-user";
      email = name;
      access_token = codes "e2e-access-token";
      role = codes "admin";
      organization_id = none;
    }

unfoldable pub is_bypassed : AuthEnvironment → Option Credentials → Bool
is_bypassed env none = false
is_bypassed env (some c) =
    or_else env.bypass_auth [] === codes "true"
    && c.username === or_truthy env.test_username (codes "e2e-user")
    && c.password === or_truthy env.test_password (codes "e2e-pass")

-- What the response of the service is worth.
unfoldable pub user_of_response :
    (Text → Option FastApiTokenClaims) → Credentials → LoginResponse → Option User
user_of_response decode credentials response =
    let token = or_else response.access_token [] in
    if response.is_ok && truthy token
    then some (
        user_of credentials token (or_else (decode token) no_claims)
          (or_else response.user no_user))
    else none

unfoldable pub authorize :
    (Text → Option FastApiTokenClaims)
    → (Text → Credentials → Option LoginResponse)
    → AuthEnvironment
    → Option Credentials
    → Option User
authorize decode login env credentials =
    if is_bypassed env credentials
    then some (tester env)
    else elim (login (resolve_content_factory_auth_base_url env ++ codes "/auth/login")
        (given credentials)) [
          | none ↦ none
          | some response ↦ user_of_response decode (given credentials) response
        ]
