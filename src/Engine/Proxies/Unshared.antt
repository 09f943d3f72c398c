-- ===== src/Engine/Proxies/Unshared.antt =====
-- Schedules of the calls under which no two accounts share a proxy.
use influence_platform.Prelude.{
  ℕ, zero, suc, ◌≤◌, ◌≡◌, ◌⊎◌, refl, Bool, true, false, ◌&&◌, not, List, [], ◌∷◌, any, every, arith,
  Bool-cases, inl, inr,
}
use influence_platform.Js.Text.{Text, ◌===◌}
use influence_platform.Js.Trim.{===_iff}
use influence_platform.Engine.Proxies.{
  AccountLink, ProxyState, ProxyOperation, ProxyStage, checking, begin_operation, check_proxy,
  link_proxy, check_deletion, delete_proxy, proceed, break, proceed_at, break_at, ProxyWorld,
  ProxyEvent, calls, proceeds, breaks, step, run,
}
use influence_platform.Engine.Proxies.Exclusive.{IsExclusive}
use influence_platform.Engine.Proxies.Changes.{
  writes, writers, is_free, proceed-Changed, proceed_at-Changed, Changed-IsExclusive, Changed-every,
}

-- The handler at a place is not about to test a proxy that a transaction is about to write.
abbrev pub is_apart_at : ℕ → List ProxyStage → List ProxyStage → Bool
is_apart_at i [] all = true
is_apart_at zero (checking acc p ∷ hs) all = not (any (writes p) all)
is_apart_at zero (h ∷ hs) all = true
is_apart_at (suc i) (h ∷ hs) all = is_apart_at i hs all

abbrev pub is_apart : ProxyEvent → ProxyWorld → Bool
is_apart (proceeds i) w = is_apart_at i w.handlers w.handlers
is_apart _ w = true

-- No transaction tests a proxy while another one is about to write it.
unfoldable pub are_apart : List ProxyEvent → ProxyWorld → Bool
are_apart [] w = true
are_apart (e ∷ es) w = is_apart e w && are_apart es (step true e w)

-- No two accounts share a proxy, every transaction writes a proxy that is free for it, and no two the
-- same.
pub record IsUnshared (w : ProxyWorld) : Type 0 where
  pub exclusive : IsExclusive w.tables
  pub free : every (is_free w.tables.accounts) w.handlers ≡ true
  pub single : (p : Text) → writers p w.handlers ≤ 1

any-writers : (p : Text) (hs : List ProxyStage) → any (writes p) hs ≡ false → writers p hs ≡ 0
any-writers p [] none_writes = refl
any-writers p (h ∷ hs) none_writes = ground (arith, none_writes, any-writers p hs)

-- A handler begins to write a proxy only after its test, which finds the proxy free.
proceed-is_free :
    (h : ProxyStage) (s : ProxyState)
    → is_free (proceed true h s).1.accounts (proceed true h s).0 ≡ true
unfolding proceed check_proxy link_proxy check_deletion delete_proxy
proceed-is_free h s = ground arith

-- Which proxy a handler that goes on may begin to write.
Begun : Text → List ProxyStage → List ProxyStage → List ProxyStage → Type 0
Begun p all hs hs' =
    (writers p hs' ≤ writers p hs)
    ⊎ ((any (writes p) all ≡ false) × (writers p hs' ≤ suc (writers p hs)))

proceed-Begun :
    (p : Text) (all : List ProxyStage) (h : ProxyStage) (hs : List ProxyStage) (s : ProxyState)
    → is_apart_at zero (h ∷ hs) all ≡ true
    → Begun p all (h ∷ hs) ((proceed true h s).0 ∷ hs)
unfolding Begun proceed check_proxy link_proxy check_deletion delete_proxy
proceed-Begun p all (checking acc q) hs s apart = elim (Bool-cases (q === p)) [
  | inl same ↦ rw⁻¹ ((===_iff q p).0 same) (ground (arith, apart))
  | inr differs ↦ ground (arith, differs)
]
proceed-Begun p all h hs s apart = ground arith

proceed_at-Begun :
    (p : Text) (i : ℕ) (all hs : List ProxyStage) (s : ProxyState)
    → is_apart_at i hs all ≡ true
    → Begun p all hs (proceed_at true i hs s).0
unfolding Begun proceed_at
proceed_at-Begun p i all [] s apart = inl (omega arith)
proceed_at-Begun p zero all (h ∷ hs) s apart = proceed-Begun p all h hs s apart
proceed_at-Begun p (suc i) all (h ∷ hs) s apart =
    ground (arith, proceed_at-Begun p i all hs s apart)

proceed_at-every :
    (i : ℕ) (hs : List ProxyStage) (s : ProxyState)
    → ((p : Text) → writers p hs ≤ 1)
    → every (is_free s.accounts) hs ≡ true
    → every (is_free (proceed_at true i hs s).1.accounts) (proceed_at true i hs s).0 ≡ true
unfolding proceed_at
proceed_at-every i [] s single free = refl
proceed_at-every zero (h ∷ hs) s single free =
    let rest =
      Changed-every (h ∷ []) hs s.accounts (proceed true h s).1.accounts
        (proceed-Changed h s (ground (arith, free)))
        (λ p. let one = single p in ground (arith, one)) (ground (arith, free)) in
    rw (proceed-is_free h s, rest) refl
proceed_at-every (suc i) (h ∷ hs) s single free =
    let rest =
      proceed_at-every i hs s (λ p. let one = single p in ground (arith, one))
        (ground (arith, free)) in
    let first =
      Changed-every hs (h ∷ []) s.accounts (proceed_at true i hs s).1.accounts
        (proceed_at-Changed i hs s (ground (arith, free)))
        (λ p. let one = single p in ground (arith, one)) (ground (arith, free)) in
    let moved : is_free (proceed_at true i hs s).1.accounts h ≡ true = ground (arith, first) in
    rw (moved, rest) refl

proceeds-IsUnshared :
    (i : ℕ) (w : ProxyWorld)
    → is_apart_at i w.handlers w.handlers ≡ true
    → IsUnshared w
    → IsUnshared (step true (proceeds i) w)
unfolding step Begun
proceeds-IsUnshared i w apart ok = record {
  exclusive =
      Changed-IsExclusive w.handlers w.tables (proceed_at true i w.handlers w.tables).1
        (proceed_at-Changed i w.handlers w.tables ok.free) ok.exclusive;
  free = proceed_at-every i w.handlers w.tables ok.single ok.free;
  single = λ p.
      let one = ok.single p in
      ground (
        arith,
        one,
        proceed_at-Begun p i w.handlers w.handlers w.tables apart,
        any-writers p w.handlers,
      );
}

break_at-writers :
    (p : Text) (i : ℕ) (hs : List ProxyStage) → writers p (break_at i hs) ≤ writers p hs
unfolding break_at break
break_at-writers p i [] = omega arith
break_at-writers p zero (h ∷ hs) = ground arith
break_at-writers p (suc i) (h ∷ hs) = ground (arith, break_at-writers p i hs)

break_at-every :
    (rows : List AccountLink) (i : ℕ) (hs : List ProxyStage)
    → every (is_free rows) hs ≡ true
    → every (is_free rows) (break_at i hs) ≡ true
unfolding break_at break
break_at-every rows i [] free = refl
break_at-every rows zero (h ∷ hs) free = ground (arith, free)
break_at-every rows (suc i) (h ∷ hs) free = ground (arith, free, break_at-every rows i hs)

calls-IsUnshared :
    (op : ProxyOperation) (w : ProxyWorld) → IsUnshared w → IsUnshared (step true (calls op) w)
unfolding step begin_operation
calls-IsUnshared op w ok = record {
  exclusive = ok.exclusive;
  free = ground (arith, ok.free);
  single = λ p. let one = ok.single p in ground (arith, one);
}

step-IsUnshared :
    (e : ProxyEvent) (w : ProxyWorld)
    → is_apart e w ≡ true
    → IsUnshared w
    → IsUnshared (step true e w)
unfolding step
step-IsUnshared (calls op) w apart ok = calls-IsUnshared op w ok
step-IsUnshared (proceeds i) w apart ok = proceeds-IsUnshared i w apart ok
step-IsUnshared (breaks i) w apart ok = record {
  exclusive = ok.exclusive;
  free = break_at-every w.tables.accounts i w.handlers ok.free;
  single = λ p. let one = ok.single p in omega (arith, one, break_at-writers p i w.handlers);
}

-- With one account for a proxy as the policy, under every schedule of releases, rotations, assignments
-- and deletions, whatever throws, in which no transaction tests a proxy while another one has tested it
-- and has not committed: if no account has the proxy of another one, and every transaction that is about
-- to write a proxy finds it free and is the only one, then so it is after the schedule.
pub run-IsUnshared :
    (es : List ProxyEvent) (w : ProxyWorld)
    → are_apart es w ≡ true
    → IsUnshared w
    → IsUnshared (run true es w)
unfolding run are_apart
run-IsUnshared [] w apart ok = ok
run-IsUnshared (e ∷ es) w apart ok =
    run-IsUnshared es (step true e w) (ground (arith, apart))
      (step-IsUnshared e w (ground (arith, apart)) ok)
