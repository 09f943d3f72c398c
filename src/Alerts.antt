-- ===== src/Alerts.antt =====
-- The alerts: dashboard/src/lib/alerts.ts. `map[path]` also finds the names that every object
-- inherits; those are `inherited`.
use influence_platform.Prelude.{
  ℕ, ◌+◌, ◌≡◌, refl, inl, inr, ◌≤◌, true, ◌||◌, List, [], ◌∷◌, ◌++◌, Option, none, some, leb, ◌==◌,
  if◌then◌else◌, length, take, length-take, length-append, arith, Bool-cases, any, ap, Any, All,
}
use influence_platform.Js.Text.{Text, codes, ◌===◌, trim, trim_end}
use influence_platform.Js.Trim.{===_iff, trim_end-length}

pub data AlertIcon : Type 0 where
  shield_alert alert_triangle info : AlertIcon

unfoldable pub alert_icon : Text → AlertIcon
alert_icon type =
    if type === codes "ban"
    then shield_alert
    else if type === codes "warning" || type === codes "action_block"
    then alert_triangle
    else info

-- `actionUrl.split("?")[0]`
unfoldable pub before_query : Text → Text
before_query [] = []
before_query (c ∷ s) = if c == b'?' then [] else c ∷ before_query s

pub data ActionKey : Type 0 where
  key : Text → ActionKey
  inherited : Text → ActionKey

abbrev pub action_keys : List (Text × Text)
action_keys =
    (codes "/proxies", codes "proxies")
    ∷ (codes "/queue", codes "queue")
    ∷ (codes "/publications", codes "publications")
    ∷ (codes "/calendar", codes "calendar")
    ∷ (codes "/accounts", codes "accounts")
    ∷ (codes "/account-health", codes "accountHealth")
    ∷ (codes "/generation-studio", codes "generationStudio")
    ∷ (codes "/alerts", codes "alerts")
    ∷ []

-- The properties of `Object.prototype`.
abbrev pub object_names : List Text
object_names =
    codes "constructor"
    ∷ codes "hasOwnProperty"
    ∷ codes "isPrototypeOf"
    ∷ codes "propertyIsEnumerable"
    ∷ codes "toLocaleString"
    ∷ codes "toString"
    ∷ codes "valueOf"
    ∷ codes "__proto__"
    ∷ codes "__defineGetter__"
    ∷ codes "__defineSetter__"
    ∷ codes "__lookupGetter__"
    ∷ codes "__lookupSetter__"
    ∷ []

find_key : Text → List (Text × Text) → Option ActionKey
find_key path [] = if any (λ name. name === path) object_names then some (inherited path) else none
find_key path ((p, k) ∷ rest) = if p === path then some (key k) else find_key path rest

unfoldable pub action_label_key : Text → Option ActionKey
unfolding find_key
action_label_key action_url = find_key (before_query action_url) action_keys

unfoldable pub preview_message : Text → ℕ → Text
preview_message message max_len =
    let trimmed = trim message in
    if leb (length trimmed) max_len then trimmed else trim_end (take max_len trimmed) ++ codes "..."

-- A preview has at most three code units beyond the limit.
preview_bounded :
    (message : Text) (max_len : ℕ) → length (preview_message message max_len) ≤ max_len + 3
unfolding preview_message
preview_bounded message max_len =
    let cut = take max_len (trim message) in
    let short = length-take max_len (trim message) in
    let ended = trim_end-length cut in
    let whole = length-append (trim_end cut) (codes "...") in ground (arith, short, ended, whole)

before_query_cut :
    (path query : Text) → before_query (before_query path ++ b'?' ∷ query) ≡ before_query path
unfolding before_query
before_query_cut [] query = refl
before_query_cut (c ∷ path) query = elim (Bool-cases (c == b'?')) [
  | inl e ↦ rw e refl
  | inr e ↦ rw e (rw e (ap (λ s. c ∷ s) (before_query_cut path query)))
]

-- The query of an action's address does not matter for its label.
label_ignores_query :
    (path query : Text)
    → action_label_key (before_query path ++ b'?' ∷ query) ≡ action_label_key path
unfolding action_label_key
label_ignores_query path query = ap (λ p. find_key p action_keys) (before_query_cut path query)

find_key_sound :
    (path k : Text) (table : List (Text × Text))
    → find_key path table ≡ some (key k)
    → Any (λ e. (e.0 ≡ path) × (e.1 ≡ k)) table
unfolding find_key
find_key_sound path k [] h = ground arith
find_key_sound path k ((p, j) ∷ table) h = elim (Bool-cases (p === path)) [
  | inl e ↦ inl ((===_iff p path).0 e, ground arith)
  | inr e ↦ inr (find_key_sound path k table (ground arith))
]

-- A label comes from the table's entry for the address without its query.
label_sound :
    (url k : Text)
    → action_label_key url ≡ some (key k)
    → Any (λ e. (e.0 ≡ before_query url) × (e.1 ≡ k)) action_keys
unfolding action_label_key
label_sound url k h = find_key_sound (before_query url) k action_keys h

-- A name that misses the table is found on the object itself.
misses-any :
    (names : List Text) (p : Text)
    → All (λ n. find_key n action_keys ≡ some (inherited n)) names
    → any (λ n. n === p) names ≡ true
    → find_key p action_keys ≡ some (inherited p)
misses-any [] p h e = cc
misses-any (n ∷ names) p (m, h) e = elim (Bool-cases (n === p)) [
  | inl same ↦ rw ((===_iff n p).0 same) at m
  | inr other ↦ misses-any names p h (ground arith)
]

object_names-miss : All (λ n. find_key n action_keys ≡ some (inherited n)) object_names
unfolding find_key ◌===◌
object_names-miss = (
  refl,
  (refl, (refl, (refl, (refl, (refl, (refl, (refl, (refl, (refl, (refl, (refl, tt))))))))))),
)

-- An address that, without its query, is the name of a property of every object yields that inherited
-- property, where any other unknown address yields `null`.
inherited_label :
    (url : Text)
    → any (λ name. name === before_query url) object_names ≡ true
    → action_label_key url ≡ some (inherited (before_query url))
unfolding action_label_key
inherited_label url h = misses-any object_names (before_query url) object_names-miss h
