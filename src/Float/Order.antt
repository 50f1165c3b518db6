-- ===== src/Float/Order.antt =====
-- The order of floats: what the comparisons guarantee away from NaN.
use afterburner_gassist_plug.Base.{◌≡◌, true, false, arith}
use afterburner_gassist_plug.Float.{
  Float, fin, inf, neg_inf, nan, is_nan, float_lt, float_le, float_eq,
}

pub le_refl : (a : Float) → is_nan a ≡ false → float_le a a ≡ true
le_refl (fin a) h = ground arith
le_refl inf h = ground arith
le_refl neg_inf h = ground arith
le_refl nan h = ground arith

pub le_trans : (a b c : Float) → float_le a b ≡ true → float_le b c ≡ true → float_le a c ≡ true
le_trans a b c h k = ground arith

pub le_of_lt : (a b : Float) → float_lt a b ≡ true → float_le a b ≡ true
le_of_lt a b h = ground arith

-- Away from NaN a comparison that fails holds the other way round.
pub le_of_not_lt :
    (a b : Float) → is_nan a ≡ false → is_nan b ≡ false → float_lt a b ≡ false → float_le b a ≡ true
le_of_not_lt a b ha hb h = ground arith

pub not_lt_of_le : (a b : Float) → float_le a b ≡ true → float_lt b a ≡ false
not_lt_of_le a b h = ground arith

pub lt_of_le_of_lt :
    (a b c : Float) → float_le a b ≡ true → float_lt b c ≡ true → float_lt a c ≡ true
lt_of_le_of_lt a b c h k = ground arith

pub eq_of_float_eq : (a b : Float) → float_eq a b ≡ true → a ≡ b
eq_of_float_eq a b h = ground arith

pub float_eq_refl : (a : Float) → is_nan a ≡ false → float_eq a a ≡ true
float_eq_refl (fin a) h = ground arith
float_eq_refl inf h = ground arith
float_eq_refl neg_inf h = ground arith
float_eq_refl nan h = ground arith

pub not_nan_of_le : (a b : Float) → float_le a b ≡ true → (is_nan a ≡ false) × (is_nan b ≡ false)
not_nan_of_le a b h = ground arith
