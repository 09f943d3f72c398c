-- ===== src/Engine/Proxies/Changes.antt =====
-- What one statement of a call does to the links of the accounts, and to what other calls have tested.
use influence_platform.Prelude.{
  ℕ, zero, suc, ◌+◌, ◌≤◌, ◌≡◌, ◌⊎◌, refl, ap, ◌∙◌, Bool, true, false, not, List, [], ◌∷◌, none,
  some, every, arith, if◌then◌else◌, Bool-cases, inl, inr,
}
use influence_platform.Js.Text.{Text, ◌===◌}
use influence_platform.Js.Trim.{===_iff, ===-refl}
use influence_platform.Engine.Proxies.{
  AccountLink, ProxyState, has_others, set_link, ProxyStage, unlinking, writing, deleting,
  is_refused, link_proxy, delete_proxy, proceed, proceed_at,
}
use influence_platform.Engine.Proxies.Exclusive.{
  IsExclusive, set_link-IsExclusive, has_others-set_link_other,
}

-- A transaction that is about to write the proxy.
abbrev pub writes : Text → ProxyStage → Bool
writes p (writing acc q) = q === p
writes p _ = false

abbrev pub writers : Text → List ProxyStage → ℕ
writers p [] = 0
writers p (h ∷ hs) = if writes p h then suc (writers p hs) else writers p hs

-- What a transaction is about to write is free for it.
abbrev pub is_free : List AccountLink → ProxyStage → Bool
is_free rows (writing acc p) = not (has_others p acc rows)
is_free rows _ = true

-- What a handler of the list does to the links: nothing, one taken away, or one to a proxy that is free
-- and that it was about to write.
abbrev pub Changed : List ProxyStage → List AccountLink → List AccountLink → Type 0
Changed hs rows rows' =
    (rows' ≡ rows)
    ⊎ ((acc : Text) × (rows' ≡ set_link acc none rows))
    ⊎ ((acc : Text) × (p : Text) × (has_others p acc rows ≡ false)
        × (1 ≤ writers p hs)
        × (rows' ≡ set_link acc (some p) rows))

link_proxy-Changed :
    (acc proxy : Text) (s : ProxyState)
    → is_free s.accounts (writing acc proxy) ≡ true
    → Changed (writing acc proxy ∷ []) s.accounts (link_proxy acc proxy s).1.accounts
unfolding link_proxy
link_proxy-Changed acc proxy s free = elim (Bool-cases (is_refused acc proxy s)) [
  | inl e ↦ rw e (inl refl)
  | inr e ↦
      rw e (inr (inr (acc, proxy, ground (arith, free), rw (===-refl proxy) (omega arith), refl)))
]

delete_proxy-accounts : (id : Text) (s : ProxyState) → (delete_proxy id s).1.accounts ≡ s.accounts
unfolding delete_proxy
delete_proxy-accounts id s = ground arith

pub proceed-Changed :
    (h : ProxyStage) (s : ProxyState)
    → is_free s.accounts h ≡ true
    → Changed (h ∷ []) s.accounts (proceed true h s).1.accounts
unfolding proceed
proceed-Changed (unlinking rotating acc) s free = inr (inl (acc, refl))
proceed-Changed (writing acc proxy) s free = link_proxy-Changed acc proxy s free
proceed-Changed (deleting id) s free = inl (delete_proxy-accounts id s)
proceed-Changed h s free = inl refl

Changed-cons :
    (h : ProxyStage) (hs : List ProxyStage) (rows rows' : List AccountLink)
    → Changed hs rows rows'
    → Changed (h ∷ hs) rows rows'
Changed-cons h hs rows rows' (inl same) = inl same
Changed-cons h hs rows rows' (inr (inl one)) = inr (inl one)
Changed-cons h hs rows rows' (inr (inr (acc, p, free, there, same))) =
    inr (inr (acc, p, free, ground (arith, there), same))

Changed-head :
    (h : ProxyStage) (hs : List ProxyStage) (rows rows' : List AccountLink)
    → Changed (h ∷ []) rows rows'
    → Changed (h ∷ hs) rows rows'
Changed-head h hs rows rows' (inl same) = inl same
Changed-head h hs rows rows' (inr (inl one)) = inr (inl one)
Changed-head h hs rows rows' (inr (inr (acc, p, free, there, same))) =
    inr (inr (acc, p, free, ground (arith, there), same))

pub proceed_at-Changed :
    (i : ℕ) (hs : List ProxyStage) (s : ProxyState)
    → every (is_free s.accounts) hs ≡ true
    → Changed hs s.accounts (proceed_at true i hs s).1.accounts
unfolding proceed_at
proceed_at-Changed i [] s free = inl refl
proceed_at-Changed zero (h ∷ hs) s free =
    Changed-head h hs s.accounts _ (proceed-Changed h s (ground (arith, free)))
proceed_at-Changed (suc i) (h ∷ hs) s free =
    Changed-cons h hs s.accounts _ (proceed_at-Changed i hs s (ground (arith, free)))

pub Changed-IsExclusive :
    (hs : List ProxyStage) (s t : ProxyState)
    → Changed hs s.accounts t.accounts
    → IsExclusive s
    → IsExclusive t
Changed-IsExclusive hs s t (inl same) ok = λ acc p. rw same (ok acc p)
Changed-IsExclusive hs s t (inr (inl (acc, same))) ok =
    set_link-IsExclusive acc none s t (λ p e. ground (arith, e)) same ok
Changed-IsExclusive hs s t (inr (inr (acc, p, free, there, same))) ok =
    set_link-IsExclusive acc (some p) s t (λ q e. rw⁻¹ ((===_iff p q).0 e) free) same ok

is_free-unlinked :
    (acc : Text) (rows : List AccountLink) (h : ProxyStage)
    → is_free rows h ≡ true
    → is_free (set_link acc none rows) h ≡ true
is_free-unlinked acc rows (writing x q) free =
    ground (arith, free, has_others-set_link_other acc x q none rows refl)
is_free-unlinked acc rows h free = free

is_free-linked :
    (acc p : Text) (rows : List AccountLink) (h : ProxyStage)
    → writes p h ≡ false
    → is_free rows h ≡ true
    → is_free (set_link acc (some p) rows) h ≡ true
is_free-linked acc p rows (writing x q) differs free = ground (
  arith,
  free,
  differs,
  ===_iff p q,
  ===_iff q p,
  has_others-set_link_other acc x q (some p) rows,
)
is_free-linked acc p rows h differs free = free

-- What other handlers are about to write stays free.
pub Changed-every :
    (ks hs : List ProxyStage) (rows rows' : List AccountLink)
    → Changed ks rows rows'
    → ((p : Text) → writers p ks + writers p hs ≤ 1)
    → every (is_free rows) hs ≡ true
    → every (is_free rows') hs ≡ true
Changed-every ks [] rows rows' changed single free = refl
Changed-every ks (h ∷ hs) rows rows' (inl same) single free =
    ap (λ r. every (is_free r) (h ∷ hs)) same ∙ free
Changed-every ks (h ∷ hs) rows rows' (inr (inl (acc, same))) single free =
    let rest =
      Changed-every ks hs rows rows' (inr (inl (acc, same)))
        (λ p. let one = single p in ground (arith, one)) (ground (arith, free)) in
    let first = is_free-unlinked acc rows h (ground (arith, free)) in
    let moved : is_free rows' h ≡ true = rw same first in rw (moved, rest) refl
Changed-every ks (h ∷ hs) rows rows' (inr (inr (acc, p, own, there, same))) single free =
    let rest =
      Changed-every ks hs rows rows' (inr (inr (acc, p, own, there, same)))
        (λ q. let one = single q in ground (arith, one)) (ground (arith, free)) in
    let one = single p in
    let differs : writes p h ≡ false = ground (arith, one, there) in
    let first = is_free-linked acc p rows h differs (ground (arith, free)) in
    let moved : is_free rows' h ≡ true = rw same first in rw (moved, rest) refl
