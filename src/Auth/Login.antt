-- ===== src/Auth/Login.antt =====
-- Who is let in, and what is decoded.
use influence_platform.Prelude.{
  ℕ, suc, zero, ◌+◌, ◌-◌, ◌%◌, ◌≡◌, refl, sym, ap, ◌∙◌, ◌⊎◌, inl, inr, ◌≢◌, ◌↔◌, true, false, [],
  ◌∷◌, ◌++◌, map, Option, none, some, arith, length, length-append, or_else, All, Bool-cases,
  Option-cases, ◌≤◌,
}
use influence_platform.Js.Text.{Text, codes, ◌===◌, truthy}
use influence_platform.Js.Trim.{===_iff}
use influence_platform.Auth.{
  AuthEnvironment, Credentials, LoginResponse, User, FastApiTokenClaims, authorize, is_bypassed,
  or_truthy, user_of_response, user_of, tester, no_claims, no_user, given,
  resolve_content_factory_auth_base_url, pad_payload, base64_unit, repeated,
}

accepted-user_of_response :
    (decode : Text → Option FastApiTokenClaims) (c : Credentials) (r : LoginResponse) (u : User)
    → user_of_response decode c r ≡ some u
    → (r.is_ok ≡ true) × (r.access_token ≡ some u.access_token) × (truthy u.access_token ≡ true)
unfolding user_of_response user_of
accepted-user_of_response decode c r u h = elim (Option-cases r.access_token) [
  | inl e ↦ ground (arith, h, e)
  | inr (t, e) ↦ ground (arith, h, e)
]

user_of_response-given :
    (decode : Text → Option FastApiTokenClaims) (c : Credentials) (r : LoginResponse)
    → r.is_ok ≡ true
    → truthy (or_else r.access_token []) ≡ true
    → (u : User) × (user_of_response decode c r ≡ some u)
unfolding user_of_response
user_of_response-given decode c r h k = (
  user_of c (or_else r.access_token []) (or_else (decode (or_else r.access_token [])) no_claims)
      (or_else r.user no_user),
  rw (h, k) refl,
)

-- A setting, or its default where it is missing or empty.
abbrev pub setting_or : Option Text → Text → Text
setting_or none default = default
setting_or (some []) default = default
setting_or (some (c ∷ s)) default = c ∷ s

-- The bypass is on, and the name and the password are those of the tester.
abbrev pub IsTester : AuthEnvironment → Option Credentials → Type 0
IsTester env none = ⊥
IsTester env (some c) =
    (env.bypass_auth ≡ some (codes "true"))
    × (c.username ≡ setting_or env.test_username (codes "e2e-user"))
    × (c.password ≡ setting_or env.test_password (codes "e2e-pass"))

or_truthy-setting_or :
    (value : Option Text) (default : Text) → or_truthy value default ≡ setting_or value default
or_truthy-setting_or none default = refl
or_truthy-setting_or (some []) default = refl
or_truthy-setting_or (some (c ∷ s)) default = refl

bypass_on : (b : Option Text) → ((or_else b [] === codes "true") ≡ true) ↔ (b ≡ some (codes "true"))
bypass_on none = (λ e. absurd (unfold ◌===◌ in ground (arith, e)), λ e. ground (arith, e))
bypass_on (some b) = (
  λ e. ap some ((===_iff b (codes "true")).0 e),
  λ e. (===_iff b (codes "true")).1 (ground (arith, e)),
)

is_bypassed_iff :
    (env : AuthEnvironment) (credentials : Option Credentials)
    → (is_bypassed env credentials ≡ true) ↔ IsTester env credentials
unfolding is_bypassed
is_bypassed_iff env none = (λ e. absurd (ground (arith, e)), λ e. absurd e)
is_bypassed_iff env (some c) =
    let name = or_truthy-setting_or env.test_username (codes "e2e-user") in
    let word = or_truthy-setting_or env.test_password (codes "e2e-pass") in
    let on = bypass_on env.bypass_auth in
    let same_name = ===_iff c.username (setting_or env.test_username (codes "e2e-user")) in
    let same_word = ===_iff c.password (setting_or env.test_password (codes "e2e-pass")) in
    rw (name, word)
      (
        λ e. (
          on.0 (ground (arith, e)),
          same_name.0 (ground (arith, e)),
          same_word.0 (ground (arith, e)),
        ),
        λ (b, u, p).
            let l = on.1 b in let m = same_name.1 u in let r = same_word.1 p in rw (l, m, r) refl,
      )

module _ (login : Text → Credentials → Option LoginResponse) (env : AuthEnvironment) where
  -- The service's answer to the login.
  abbrev pub answer : Option Credentials → Option LoginResponse
  answer credentials =
      login (resolve_content_factory_auth_base_url env ++ codes "/auth/login") (given credentials)

  -- The service accepts the credentials with a token.
  abbrev pub Accepts : Option Credentials → Type 0
  Accepts credentials =
      (r : LoginResponse) × ((answer credentials ≡ some r)
        × (r.is_ok ≡ true)
        × (truthy (or_else r.access_token []) ≡ true))

  asked :
      (decode : Text → Option FastApiTokenClaims) (credentials : Option Credentials)
      (r : LoginResponse)
      → is_bypassed env credentials ≡ false
      → answer credentials ≡ some r
      → authorize decode login env credentials ≡ user_of_response decode (given credentials) r
  unfolding authorize
  asked decode credentials r e n = rw (e, n) refl

  unanswered :
      (decode : Text → Option FastApiTokenClaims) (credentials : Option Credentials)
      → is_bypassed env credentials ≡ false
      → answer credentials ≡ none
      → authorize decode login env credentials ≡ none
  unfolding authorize
  unanswered decode credentials e n = rw (e, n) refl

  -- Without the bypass, what a login gives is made from an accepting answer, whose token it carries.
  pub authorize_sound :
      (decode : Text → Option FastApiTokenClaims) (credentials : Option Credentials) (u : User)
      → is_bypassed env credentials ≡ false
      → authorize decode login env credentials ≡ some u
      → (r : LoginResponse) × ((answer credentials ≡ some r)
          × (r.is_ok ≡ true)
          × (r.access_token ≡ some u.access_token)
          × (truthy u.access_token ≡ true))
  authorize_sound decode credentials u e h = elim (Option-cases (answer credentials)) [
    | inl n ↦ let none_given = unanswered decode credentials e n in cc
    | inr (r, n) ↦
        let made = sym (asked decode credentials r e n) ∙ h in
        let (ok, same, t) = accepted-user_of_response decode (given credentials) r u made in
        (r, (n, ok, same, t))
  ]

  -- A login succeeds exactly when the bypass is on and the user's name and password are both the
  -- tester's, or the service accepts the credentials with a token.
  pub authorize_iff :
      (decode : Text → Option FastApiTokenClaims) (credentials : Option Credentials)
      → ((u : User) × (authorize decode login env credentials ≡ some u))
        ↔ (IsTester env credentials ⊎ Accepts credentials)
  authorize_iff decode credentials = elim (Bool-cases (is_bypassed env credentials)) [
    | inl e ↦ (
      λ _. inl ((is_bypassed_iff env credentials).0 e),
      λ _. (tester env, unfold authorize in rw e refl),
    )
    | inr e ↦ (
      λ (u, h).
          let (r, (n, ok, same, t)) = authorize_sound decode credentials u e h in
          inr (r, (n, ok, rw same t)),
      λ h. elim h [
        | inl b ↦ let on = (is_bypassed_iff env credentials).1 b in cc
        | inr (r, (n, ok, t)) ↦
            let (u, made) = user_of_response-given decode (given credentials) r ok t in
            (u, asked decode credentials r e n ∙ made)
      ],
    )
  ]

repeated-length : (n c : ℕ) → length (repeated n c) ≡ n
repeated-length zero c = refl
repeated-length (suc n) c = omega (arith, repeated-length n c)

map-length : (p : Text) → length (map base64_unit p) ≡ length p
map-length [] = refl
map-length (c ∷ p) = omega (arith, map-length p)

abbrev pub IsBase64Unit : ℕ → Type 0
IsBase64Unit c = (c ≢ b'-') × (c ≢ b'_')

units-base64 : (p : Text) → All IsBase64Unit (map base64_unit p)
units-base64 [] = tt
units-base64 (c ∷ p) = (ground arith, units-base64 p)

padding-base64 : (n : ℕ) → All IsBase64Unit (repeated n b'=')
padding-base64 zero = tt
padding-base64 (suc n) = (ground arith, padding-base64 n)

All-append :
    (xs ys : Text) → All IsBase64Unit xs → All IsBase64Unit ys → All IsBase64Unit (xs ++ ys)
All-append [] ys h k = k
All-append (x ∷ xs) ys (p, h) k = (p, All-append xs ys h k)

-- What the decoder of base 64 is given has a length that is a multiple of four, at most three units
-- longer than the payload, and neither of the two units of the URL alphabet.
pad_payload_lem :
    (payload : Text)
    → (length (pad_payload payload) % 4 ≡ 0)
      × (length (pad_payload payload) ≤ length payload + 3)
      × All IsBase64Unit (pad_payload payload)
unfolding pad_payload
pad_payload_lem payload =
    let n = (4 - length payload % 4) % 4 in
    let whole = length-append (map base64_unit payload) (repeated n b'=') in
    let first = map-length payload in
    let last = repeated-length n b'=' in
    (
      omega (arith, whole, first, last),
      omega (arith, whole, first, last),
      All-append _ _ (units-base64 payload) (padding-base64 n),
    )
