-- ===== src/Js/Unknown.antt =====
-- Values of the type `unknown`, as far as the dashboard looks at them.
use influence_platform.Prelude.{ℕ, Bool, true, false, Option, none, some}
use influence_platform.Js.Text.{Text, codes, decimal}

-- `object` carries what `String(x)` returns for it; a number is a natural number.
pub data Unknown : Type 0 where
  undefined null : Unknown
  boolean : Bool → Unknown
  number : ℕ → Unknown
  string : Text → Unknown
  object : Text → Unknown

unfoldable pub to_string : Unknown → Text
unfolding decimal
to_string undefined = codes "undefined"
to_string null = codes "null"
to_string (boolean true) = codes "true"
to_string (boolean false) = codes "false"
to_string (number n) = decimal n
to_string (string s) = s
to_string (object s) = s

-- `x ?? s`
unfoldable pub or_text : Unknown → Text → Unknown
or_text undefined s = string s
or_text null s = string s
or_text x s = x

-- `typeof x === "number"` with the number, and the same for strings.
abbrev pub as_number : Unknown → Option ℕ
as_number (number n) = some n
as_number _ = none

abbrev pub as_string : Unknown → Option Text
as_string (string s) = some s
as_string _ = none
