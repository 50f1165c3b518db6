-- ===== src/Float.antt =====
-- Python floats. Every finite IEEE double is a whole multiple of 2^-1074, so a finite value is held
-- exactly, as that multiple; 0.0 and -0.0, which no comparison tells apart, are one value.
-- Comparisons, `min` and `max` round nothing and are computed. What an operation rounds to is not
-- code of the plugin: it enters through `Rounding`.
pub mod Order
use afterburner_gassist_plug.Base.{ℕ, String, Option, ◌*◌, ◌^◌, Bool, true, false, if◌then◌else◌}
use afterburner_gassist_plug.Int.{ℤ, pos, abs, ltb_ℤ, leb_ℤ, eqb_ℤ, ◌+ℤ◌, ◌-ℤ◌}

pub data Float : Type 0 where
  fin : ℤ → Float
  inf neg_inf nan : Float

-- the number of units in 1.0
unfoldable pub unit : ℕ
unit = 2 ^ 1074

-- a whole-numbered literal of the source, such as `100.0`
abbrev pub whole : ℕ → Float
whole n = fin (pos (n * unit))

abbrev pub is_finite : Float → Bool
is_finite (fin _) = true
is_finite inf = false
is_finite neg_inf = false
is_finite nan = false

abbrev pub is_nan : Float → Bool
is_nan nan = true
is_nan (fin _) = false
is_nan inf = false
is_nan neg_inf = false

-- `a < b`; `a > b` is `float_lt b a`
abbrev pub float_lt : Float → Float → Bool
float_lt (fin a) (fin b) = ltb_ℤ a b
float_lt (fin a) inf = true
float_lt (fin a) neg_inf = false
float_lt (fin a) nan = false
float_lt inf b = false
float_lt neg_inf (fin b) = true
float_lt neg_inf inf = true
float_lt neg_inf neg_inf = false
float_lt neg_inf nan = false
float_lt nan b = false

-- `a == b`
abbrev pub float_eq : Float → Float → Bool
float_eq (fin a) (fin b) = eqb_ℤ a b
float_eq (fin a) inf = false
float_eq (fin a) neg_inf = false
float_eq (fin a) nan = false
float_eq inf (fin b) = false
float_eq inf inf = true
float_eq inf neg_inf = false
float_eq inf nan = false
float_eq neg_inf (fin b) = false
float_eq neg_inf inf = false
float_eq neg_inf neg_inf = true
float_eq neg_inf nan = false
float_eq nan b = false

-- `a <= b`
abbrev pub float_le : Float → Float → Bool
float_le (fin a) (fin b) = leb_ℤ a b
float_le (fin a) inf = true
float_le (fin a) neg_inf = false
float_le (fin a) nan = false
float_le inf (fin b) = false
float_le inf inf = true
float_le inf neg_inf = false
float_le inf nan = false
float_le neg_inf (fin b) = true
float_le neg_inf inf = true
float_le neg_inf neg_inf = true
float_le neg_inf nan = false
float_le nan b = false

-- Python's two-argument `max` and `min` keep the first argument unless the second is beyond it.
abbrev pub float_max : Float → Float → Float
float_max a b = if float_lt a b then b else a

abbrev pub float_min : Float → Float → Float
float_min a b = if float_lt b a then b else a

-- Python's own number code: what the exact result of an operation on finite numbers, in units, is
-- rounded to, and the conversions `float(int)` (`none` is an `OverflowError`) and `float(str)`
-- (`none` is a `ValueError`).
pub record Rounding : Type 0 where
  pub round : ℤ → Float
  pub product : ℤ → ℤ → Float
  pub quotient : ℤ → ℤ → Float
  pub of_int : ℤ → Option Float
  pub of_text : String → Option Float

module _ (r : Rounding) where
  abbrev pub float_add : Float → Float → Float
  float_add (fin a) (fin b) = r.round (a +ℤ b)
  float_add (fin a) inf = inf
  float_add (fin a) neg_inf = neg_inf
  float_add (fin a) nan = nan
  float_add inf (fin b) = inf
  float_add inf inf = inf
  float_add inf neg_inf = nan
  float_add inf nan = nan
  float_add neg_inf (fin b) = neg_inf
  float_add neg_inf inf = nan
  float_add neg_inf neg_inf = neg_inf
  float_add neg_inf nan = nan
  float_add nan b = nan

  abbrev pub float_neg : Float → Float
  float_neg (fin a) = fin (pos 0 -ℤ a)
  float_neg inf = neg_inf
  float_neg neg_inf = inf
  float_neg nan = nan

  abbrev pub float_sub : Float → Float → Float
  float_sub (fin a) (fin b) = r.round (a -ℤ b)
  float_sub (fin a) inf = neg_inf
  float_sub (fin a) neg_inf = inf
  float_sub (fin a) nan = nan
  float_sub inf (fin b) = inf
  float_sub inf inf = nan
  float_sub inf neg_inf = inf
  float_sub inf nan = nan
  float_sub neg_inf (fin b) = neg_inf
  float_sub neg_inf inf = neg_inf
  float_sub neg_inf neg_inf = nan
  float_sub neg_inf nan = nan
  float_sub nan b = nan

abbrev pub float_abs : Float → Float
float_abs (fin a) = fin (abs a)
float_abs inf = inf
float_abs neg_inf = inf
float_abs nan = nan
