-- ===== src/Auth/Session.antt =====
-- What becomes of a login: the callbacks `jwt` and `session`, and the role of the current user.
use influence_platform.Prelude.{ℕ, Bool, Option, none, some, leb, if◌then◌else◌, or_else, or_try}
use influence_platform.Js.Text.{Text, codes, ◌===◌}
use influence_platform.Auth.{User}

pub record Token : Type 0 where
  pub access_token : Option Text
  pub role : Option Text
  pub email : Option Text
  pub organization_id : Option Text

-- The `jwt` callback: the user is there at a login only.
unfoldable pub jwt : Token → Option User → Token
jwt token none = token
jwt token (some user) = record {
  access_token = some user.access_token;
  role = some user.role;
  email = some user.email;
  organization_id = user.organization_id;
}

pub record UserSession : Type 0 where
  pub access_token : Option Text
  pub email : Option Text
  pub role : Text
  pub organization_id : Option Text

-- The `session` callback; of the session before, only the email is read.
unfoldable pub session : Option Text → Token → UserSession
session email token = record {
  access_token = token.access_token;
  email = or_try token.email email;
  role = or_else token.role (codes "viewer");
  organization_id = token.organization_id;
}

pub data AppRole : Type 0 where
  admin operator viewer : AppRole

unfoldable pub role_rank : AppRole → ℕ
role_rank admin = 3
role_rank operator = 2
role_rank viewer = 1

-- `normalize` of dashboard/src/lib/auth.ts
unfoldable pub normalize : Option Text → AppRole
normalize none = viewer
normalize (some role) =
    if role === codes "admin" then admin else if role === codes "operator" then operator else viewer

-- `useCurrentUser`: the role of a session, where there is one, and `hasAtLeast`.
unfoldable pub current_role : Option UserSession → AppRole
current_role none = normalize none
current_role (some s) = normalize (some s.role)

unfoldable pub has_at_least : Option UserSession → AppRole → Bool
has_at_least s target = leb (role_rank target) (role_rank (current_role s))
