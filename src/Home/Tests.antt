-- ===== src/Home/Tests.antt =====
-- A rounding of percentages as the home page needs it: halves upwards.
use influence_platform.Prelude.{ℕ, ◌+◌, ◌*◌, ◌/◌, ◌^◌, ◌%◌, ◌≤◌, ◌<◌, ◌≡◌, arith}
use native.Mathlib.Nat.{div-add-mod, mod-lt, mul_assoc}
use influence_platform.Home.{Rounding}

abbrev round_percent : ℕ → ℕ → ℕ
round_percent part whole = (200 * part + whole) / (2 * whole)

near_quotient :
    (whole part q r : ℕ)
    → 2 * whole * q + r ≡ 200 * part + whole
    → r < 2 * whole
    → (2 * (whole * q) ≤ 200 * part + whole) × (200 * part ≤ 2 * (whole * q) + whole)
near_quotient whole part q r h k =
    (omega (arith, mul_assoc 2 whole q), omega (arith, mul_assoc 2 whole q))

round_percent_near :
    (part whole : ℕ)
    → part ≤ whole
    → 0 < whole
    → whole < 2 ^ 40
    → (2 * (whole * round_percent part whole) ≤ 200 * part + whole)
      × (200 * part ≤ 2 * (whole * round_percent part whole) + whole)
round_percent_near part whole h k l =
    near_quotient whole part ((200 * part + whole) / (2 * whole))
      ((200 * part + whole) % (2 * whole)) (div-add-mod (200 * part + whole) (2 * whole))
      (mod-lt (200 * part + whole) (omega arith))

abbrev rounding : Rounding
rounding = record { percent = round_percent; percent_near = round_percent_near }
