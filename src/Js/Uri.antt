-- ===== src/Js/Uri.antt =====
-- `encodeURIComponent`, on UTF-16 code units; `none` where it throws.
use influence_platform.Prelude.{
  ℕ, ◌+◌, ◌-◌, ◌*◌, ◌/◌, ◌%◌, Bool, ◌&&◌, ◌||◌, [], ◌∷◌, ◌++◌, Option, none, some, leb, ltb, any,
  ◌==◌, if◌then◌else◌,
}
use influence_platform.Js.Text.{Text, codes}

abbrev is_kept : ℕ → Bool
is_kept c =
    (leb b'0' c && leb c b'9')
    || (leb b'a' c && leb c b'z')
    || (leb b'A' c && leb c b'Z')
    || any (λ d. c == d) (codes "-_.!~*'()")

abbrev hex_digit : ℕ → ℕ
hex_digit d = if ltb d 10 then b'0' + d else (b'A' + d) - 10

abbrev octet : ℕ → Text
octet b = b'%' ∷ hex_digit (b / 16) ∷ hex_digit (b % 16) ∷ []

-- The UTF-8 octets of a code point.
abbrev octets : ℕ → Text
octets p =
    if ltb p 128
    then octet p
    else if ltb p 2048
    then octet (192 + p / 64) ++ octet (128 + p % 64)
    else if ltb p 65536
    then octet (224 + p / 4096) ++ octet (128 + p / 64 % 64) ++ octet (128 + p % 64)
    else octet (240 + p / 262144)
      ++ octet (128 + p / 4096 % 64)
      ++ octet (128 + p / 64 % 64)
      ++ octet (128 + p % 64)

abbrev prepend : Text → Option Text → Option Text
prepend s none = none
prepend s (some t) = some (s ++ t)

abbrev is_high : ℕ → Bool
is_high c = leb 55296 c && ltb c 56320

abbrev is_low : ℕ → Bool
is_low c = leb 56320 c && ltb c 57344

unfoldable pub encode_uri_component : Text → Option Text
encode_uri_component [] = some []
encode_uri_component (c ∷ []) =
    if is_high c || is_low c then none else some (if is_kept c then c ∷ [] else octets c)
encode_uri_component (c ∷ d ∷ s) =
    let after_pair = encode_uri_component s in
    let after_unit = encode_uri_component (d ∷ s) in
    if is_high c && is_low d
    then prepend (octets (65536 + (c - 55296) * 1024 + (d - 56320))) after_pair
    else if is_high c || is_low c
    then none
    else prepend (if is_kept c then c ∷ [] else octets c) after_unit
