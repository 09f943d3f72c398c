-- ===== src/Engine/Proxies/Tests.antt =====
-- The theorem on the assignment of proxies at work, and the schedule that gives a proxy away twice.
use influence_platform.Prelude.{◌≡◌, refl, true, List, [], ◌∷◌, none, some, arith}
use influence_platform.Js.Text.{Text, codes, ◌===◌}
use influence_platform.Engine.Proxies.{
  AccountLink, Proxy, assigns_specific, ProxyWorld, ProxyEvent, calls, proceeds, step, run,
  begin_operation, proceed_at, proceed, check_proxy, link_proxy,
}
use influence_platform.Engine.Proxies.Unshared.{are_apart, IsUnshared, run-IsUnshared}

abbrev proxy : Text → Proxy
proxy id = record { id = id; is_active = true; assigned_account_id = none }

abbrev unlinked : Text → AccountLink
unlinked id = record { id = id; proxy_id = none }

abbrev two_accounts : ProxyWorld
two_accounts = record {
  tables = record {
    accounts = unlinked (codes "a") ∷ unlinked (codes "b") ∷ [];
    proxies = proxy (codes "p") ∷ proxy (codes "q") ∷ [];
  };
  handlers = [];
}

-- The same proxy for both accounts: the second transaction begins after the first.
abbrev one_by_one : List ProxyEvent
one_by_one =
    calls (assigns_specific (codes "a") (codes "p"))
    ∷ proceeds 0
    ∷ proceeds 0
    ∷ calls (assigns_specific (codes "b") (codes "p"))
    ∷ proceeds 0
    ∷ proceeds 0
    ∷ []

two_accounts-IsUnshared : IsUnshared two_accounts
two_accounts-IsUnshared = record {
  exclusive = λ acc p. ground arith;
  free = refl;
  single = λ p. omega arith;
}

run-IsUnshared_example : IsUnshared (run true one_by_one two_accounts)
unfolding are_apart run step begin_operation proceed_at proceed check_proxy link_proxy ◌===◌
run-IsUnshared_example = run-IsUnshared one_by_one two_accounts refl two_accounts-IsUnshared

-- Both test before either writes.
abbrev together : List ProxyEvent
together =
    calls (assigns_specific (codes "a") (codes "p"))
    ∷ calls (assigns_specific (codes "b") (codes "p"))
    ∷ proceeds 0
    ∷ proceeds 1
    ∷ proceeds 0
    ∷ proceeds 1
    ∷ []

-- Two accounts have the proxy.
shared_proxy :
    (run true together two_accounts).tables.accounts
    ≡ record { id = codes "a"; proxy_id = some (codes "p") }
      ∷ record { id = codes "b"; proxy_id = some (codes "p") }
      ∷ []
unfolding run step begin_operation proceed_at proceed check_proxy link_proxy ◌===◌
shared_proxy = refl
