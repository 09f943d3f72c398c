-- ===== src/Js/Text.antt =====
-- JavaScript strings as lists of UTF-16 code units, with the methods that the dashboard calls.
-- `to_lower_case` maps the Latin-1 letters and the two other characters whose lower case holds an
-- ASCII letter (U+0130, U+212A), and leaves the rest: the program compares its results with Latin-1
-- texts only.
use Prim.Native.Char.{code}
use influence_platform.Prelude.{
  ℕ, zero, suc, ◌+◌, ◌-◌, ◌/◌, ◌%◌, String, Bool, true, false, ◌&&◌, ◌||◌, not, List, [], ◌∷◌, ◌++◌,
  reverse, Option, none, some, leb, ltb, ◌==◌, if◌then◌else◌, length, drop,
}

abbrev pub Text : Type 0
Text = List ℕ

-- A literal of the source; all of its characters are in the basic plane.
abbrev pub codes : String → Text
codes String.[] = []
codes (String.◌∷◌ c s) = code c ∷ codes s

infix 50 ◌===◌
unfoldable pub ◌===◌ : Text → Text → Bool
[] === [] = true
[] === (d ∷ t) = false
(c ∷ s) === [] = false
(c ∷ s) === (d ∷ t) = (c == d) && (s === t)

-- A string in a condition: only the empty one is falsy.
abbrev pub truthy : Text → Bool
truthy [] = false
truthy (c ∷ s) = true

-- The same where it may be `null` or `undefined`.
abbrev pub truthy? : Option Text → Bool
truthy? none = false
truthy? (some s) = truthy s

-- WhiteSpace and LineTerminator of the language: what `trim` removes and `\s` matches.
unfoldable pub is_space : ℕ → Bool
is_space c =
    (leb 9 c && leb c 13)
    || (c == 32)
    || (c == 160)
    || (c == 5760)
    || (leb 8192 c && leb c 8202)
    || (c == 8232)
    || (c == 8233)
    || (c == 8239)
    || (c == 8287)
    || (c == 12288)
    || (c == 65279)

unfoldable pub trim_start : Text → Text
trim_start [] = []
trim_start (c ∷ s) = if is_space c then trim_start s else c ∷ s

-- Drops the trailing space, from the right.
unfoldable pub trim_end : Text → Text
trim_end [] = []
trim_end (c ∷ s) =
    let rest = trim_end s in
    elim rest [ [] ↦ if is_space c then [] else c ∷ [] | d ∷ r ↦ c ∷ d ∷ r ]

unfoldable pub trim : Text → Text
unfolding trim_start trim_end is_space
trim s = trim_end (trim_start s)

abbrev pub lower_unit : ℕ → Text
lower_unit c =
    if leb 65 c && leb c 90
    then (c + 32) ∷ []
    else if leb 192 c && leb c 222 && not (c == 215)
    then (c + 32) ∷ []
    else if c == 304
    then 105 ∷ 775 ∷ []
    else if c == 8490
    then 107 ∷ []
    else c ∷ []

unfoldable pub to_lower_case : Text → Text
to_lower_case [] = []
to_lower_case (c ∷ s) = lower_unit c ++ to_lower_case s

unfoldable pub starts_with : Text → Text → Bool
starts_with s [] = true
starts_with [] (d ∷ t) = false
starts_with (c ∷ s) (d ∷ t) = (c == d) && starts_with s t

unfoldable pub includes : Text → Text → Bool
unfolding starts_with
includes [] t = starts_with [] t
includes (c ∷ s) t = starts_with (c ∷ s) t || includes s t

-- What a replacement text stands for: `$$`, `$&`, `` $` `` and `$'` are special.
abbrev expand_dollar : Text → Text → Text → ℕ → Option Text
expand_dollar before found after c =
    if c == b'$'
    then some (b'$' ∷ [])
    else if c == b'&'
    then some found
    else if c == b'`'
    then some before
    else if c == 39
    then some after
    else none

expand : Text → Text → Text → Text → Text
expand before found after [] = []
expand before found after (c ∷ []) = c ∷ []
expand before found after (c ∷ d ∷ r) =
    let plain = c ∷ expand before found after (d ∷ r) in
    let rest = expand before found after r in
    if c == b'$'
    then elim (expand_dollar before found after d) [ none ↦ plain | some t ↦ t ++ rest ]
    else plain

-- `s.replace(found, by)`, with what stands before the place reached, in reverse.
replace_from : Text → Text → Text → Text → Text
replace_from before [] found by =
    if starts_with [] found then expand (reverse before) found [] by else []
replace_from before (c ∷ s) found by =
    let later = c ∷ replace_from (c ∷ before) s found by in
    let after = drop (length found) (c ∷ s) in
    if starts_with (c ∷ s) found then expand (reverse before) found after by ++ after else later

unfoldable pub replace : Text → Text → Text → Text
unfolding replace_from expand starts_with
replace s found by = replace_from [] s found by

unfoldable pub join : Text → List Text → Text
join sep [] = []
join sep (s ∷ []) = s
join sep (s ∷ t ∷ rest) = s ++ sep ++ join sep (t ∷ rest)

-- `String(n)` for a natural number: its decimal digits.
decimal_from : ℕ → ℕ → Text → Text
decimal_from zero n acc = acc
decimal_from (suc f) n acc =
    let digit = b'0' + n % 10 in
    let more = decimal_from f (n / 10) (digit ∷ acc) in if ltb n 10 then digit ∷ acc else more

unfoldable pub decimal : ℕ → Text
unfolding decimal_from
decimal n = decimal_from (suc n) n []

-- `toUpperCase`, for comparisons with ASCII texts: the ASCII letters, and the characters whose upper
-- case consists of ASCII letters (U+00DF, U+0131, U+017F and the ligatures U+FB00 to U+FB06).
abbrev pub upper_unit : ℕ → Text
upper_unit c =
    if leb 97 c && leb c 122
    then (c - 32) ∷ []
    else if c == 223
    then codes "SS"
    else if c == 305
    then codes "I"
    else if c == 383
    then codes "S"
    else if c == 64256
    then codes "FF"
    else if c == 64257
    then codes "FI"
    else if c == 64258
    then codes "FL"
    else if c == 64259
    then codes "FFI"
    else if c == 64260
    then codes "FFL"
    else if c == 64261 || c == 64262
    then codes "ST"
    else c ∷ []

unfoldable pub to_upper_case : Text → Text
to_upper_case [] = []
to_upper_case (c ∷ s) = upper_unit c ++ to_upper_case s
