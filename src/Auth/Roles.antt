-- ===== src/Auth/Roles.antt =====
-- What the role of a login becomes.
use influence_platform.Prelude.{ℕ, zero, suc, ◌≡◌, refl, ◌↔◌, true, Option, none, some, arith}
use influence_platform.Js.Text.{Text, codes}
use influence_platform.Js.Trim.{===_iff}
use influence_platform.Auth.{User}
use influence_platform.Auth.Session.{
  Token, jwt, session, admin, normalize, current_role, has_at_least, role_rank,
}

-- The token after a login and a number of later requests, which have no user.
abbrev pub token_after : ℕ → Token → User → Token
token_after zero token user = jwt token (some user)
token_after (suc n) token user = jwt (token_after n token user) none

-- After a login and any number of later requests, the session has the user's access token and email,
-- and ranks at least as an administrator exactly when the user's role is that of one.
login_role :
    (n : ℕ) (token : Token) (user : User) (email : Option Text)
    → let s = session email (token_after n token user) in
      (s.access_token ≡ some user.access_token)
      × (s.email ≡ some user.email)
      × ((has_at_least (some s) admin ≡ true) ↔ (user.role ≡ codes "admin"))
unfolding jwt session has_at_least role_rank current_role normalize
login_role zero token user email = (refl, refl, ground (arith, ===_iff user.role (codes "admin")))
login_role (suc n) token user email = login_role n token user email
