-- ===== src/Engine/Proxies/Exclusive.antt =====
-- When a proxy has one account at most, and what a link does to it.
use influence_platform.Prelude.{
  ◌≡◌, refl, Bool, true, false, ◌&&◌, List, [], ◌∷◌, Option, any, arith, Bool-cases, inl, inr,
}
use influence_platform.Js.Text.{Text, ◌===◌}
use influence_platform.Js.Trim.{===_iff}
use influence_platform.Engine.Proxies.{AccountLink, ProxyState, is_text, has_others, set_link}

abbrev pub has_link : Text → Text → List AccountLink → Bool
has_link acc p rows = any (λ (r : AccountLink). r.id === acc && is_text r.proxy_id p) rows

-- No account has a proxy that another account has.
abbrev pub IsExclusive : ProxyState → Type 0
IsExclusive s = (acc p : Text) → (has_link acc p s.accounts && has_others p acc s.accounts) ≡ false

has_link-set_link_other :
    (acc x p : Text) (v : Option Text) (rows : List AccountLink)
    → (acc === x) ≡ false
    → has_link x p (set_link acc v rows) ≡ has_link x p rows
has_link-set_link_other acc x p v [] differs = refl
has_link-set_link_other acc x p v (r ∷ rows) differs = ground (
  arith,
  differs,
  ===_iff r.id acc,
  ===_iff r.id x,
  ===_iff acc x,
  has_link-set_link_other acc x p v rows differs,
)

has_link-set_link_same :
    (acc p : Text) (v : Option Text) (rows : List AccountLink)
    → is_text v p ≡ false
    → has_link acc p (set_link acc v rows) ≡ false
has_link-set_link_same acc p v [] differs = refl
has_link-set_link_same acc p v (r ∷ rows) differs =
    ground (arith, differs, has_link-set_link_same acc p v rows differs)

has_others-set_link_same :
    (acc p : Text) (v : Option Text) (rows : List AccountLink)
    → has_others p acc (set_link acc v rows) ≡ has_others p acc rows
has_others-set_link_same acc p v [] = refl
has_others-set_link_same acc p v (r ∷ rows) = ground (arith, has_others-set_link_same acc p v rows)

pub has_others-set_link_other :
    (acc x p : Text) (v : Option Text) (rows : List AccountLink)
    → is_text v p ≡ false
    → has_others p x rows ≡ false
    → has_others p x (set_link acc v rows) ≡ false
has_others-set_link_other acc x p v [] differs free = refl
has_others-set_link_other acc x p v (r ∷ rows) differs free =
    ground (arith, differs, free, has_others-set_link_other acc x p v rows differs)

has_link-has_others :
    (acc x p : Text) (rows : List AccountLink)
    → (acc === x) ≡ false
    → has_others p acc rows ≡ false
    → has_link x p rows ≡ false
has_link-has_others acc x p [] differs free = refl
has_link-has_others acc x p (r ∷ rows) differs free = ground (
  arith,
  differs,
  free,
  ===_iff r.id acc,
  ===_iff r.id x,
  ===_iff acc x,
  has_link-has_others acc x p rows differs,
)

set_link-own :
    (acc p : Text) (v : Option Text) (s t : ProxyState)
    → ((p : Text) → is_text v p ≡ true → has_others p acc s.accounts ≡ false)
    → t.accounts ≡ set_link acc v s.accounts
    → (has_link acc p t.accounts && has_others p acc t.accounts) ≡ false
set_link-own acc p v s t free same = elim (Bool-cases (is_text v p)) [
  | inl given ↦ rw same (ground (arith, has_others-set_link_same acc p v s.accounts, free p given))
  | inr other_proxy ↦
      rw same (ground (arith, has_link-set_link_same acc p v s.accounts other_proxy))
]

-- A link that no other account has keeps the proxies exclusive.
pub set_link-IsExclusive :
    (acc : Text) (v : Option Text) (s t : ProxyState)
    → ((p : Text) → is_text v p ≡ true → has_others p acc s.accounts ≡ false)
    → t.accounts ≡ set_link acc v s.accounts
    → IsExclusive s
    → IsExclusive t
set_link-IsExclusive acc v s t free same ok x p = elim (Bool-cases (acc === x)) [
  | inl e ↦ rw⁻¹ ((===_iff acc x).0 e) (set_link-own acc p v s t free same)
  | inr differs ↦ elim (Bool-cases (is_text v p)) [
    | inl given ↦ rw same (
        ground (
          arith,
          has_link-set_link_other acc x p v s.accounts differs,
          has_link-has_others acc x p s.accounts differs (free p given),
        ))
    | inr other_proxy ↦ rw same (
        ground (
          arith,
          ok x p,
          has_link-set_link_other acc x p v s.accounts differs,
          has_others-set_link_other acc x p v s.accounts other_proxy,
        ))
  ]
]
