-- ===== src/Services/Optimize/Steps.antt =====
-- One step of the raising loop of `optimize_thermal` (afterburner/services/optimize.py): the next set
-- point before and after it is clamped to a range of percentages.
use afterburner_gassist_plug.Base.{
  ℕ, ◌+◌, ◌*◌, ◌≤◌, ◌<◌, ◌≡◌, ◌∙◌, refl, ap, true, false, arith, Bool-cases, inl, inr, ◌⊎◌, ltb,
}
use Prim.Native.Nat.{min, max}
use afterburner_gassist_plug.Int.{pos, ◌+ℤ◌}
use afterburner_gassist_plug.Float.{float_min, float_max, fin, unit, is_finite, float_le, Rounding}
use afterburner_gassist_plug.Models.{Range, clamp}
use afterburner_gassist_plug.Services.Optimize.{default_config, next_fan}

-- Adding 20 to a value from 0 to 100 is off by less than one: a double is far more exact.
abbrev pub IsAccurate : Rounding → Type 0
IsAccurate rnd =
    (n : ℕ)
    → n ≤ 100 * unit
    → (m : ℕ) × (rnd.round (pos n +ℤ pos (20 * unit)) ≡ fin (pos m))
      × (n + 19 * unit ≤ m)
      × (m ≤ n + 21 * unit)

-- a range of percentages
abbrev pub percent : ℕ → ℕ → Range
percent lo hi = record { min = fin (pos lo); max = fin (pos hi) }

pub unit_pos : 0 < unit
unfolding unit
unit_pos = omega arith

min_pos : (a b : ℕ) → float_min (fin (pos a)) (fin (pos b)) ≡ fin (pos (min a b))
min_pos a b = elim (Bool-cases (ltb (b + 0) (a + 0))) [
  | inl e ↦ rw e (ap (λ n. fin (pos n)) (let l : b < a = ground arith in omega arith))
  | inr e ↦ rw e (ap (λ n. fin (pos n)) (let l : a ≤ b = ground arith in omega arith))
]

max_pos : (a b : ℕ) → float_max (fin (pos a)) (fin (pos b)) ≡ fin (pos (max a b))
max_pos a b = elim (Bool-cases (ltb (a + 0) (b + 0))) [
  | inl e ↦ rw e (ap (λ n. fin (pos n)) (let l : a < b = ground arith in omega arith))
  | inr e ↦ rw e (ap (λ n. fin (pos n)) (let l : b ≤ a = ground arith in omega arith))
]

pub clamp-percent :
    (lo hi n : ℕ) → clamp (percent lo hi) (fin (pos n)) ≡ fin (pos (max lo (min hi n)))
unfolding clamp
clamp-percent lo hi n = ap (float_max (fin (pos lo))) (min_pos hi n) ∙ max_pos lo (min hi n)

-- The next step before clamping: at least 19 points higher, or 100 %, and never more.
pub record Step (rnd : Rounding) (n : ℕ) : Type 0 where
  pub level : ℕ
  pub next : next_fan rnd default_config (fin (pos n)) ≡ fin (pos level)
  pub rises : (n + 19 * unit ≤ level) ⊎ (level ≡ 100 * unit)
  pub bounded : level ≤ 100 * unit

module _ (rnd : Rounding) (accurate : IsAccurate rnd) where
  pub step : (n : ℕ) → n ≤ 100 * unit → Step rnd n
  step n small =
      let (m, e, above, below) = accurate n small in
      record {
        level = min m (100 * unit);
        next = ap (λ x. float_min x (fin (pos (100 * unit)))) e ∙ min_pos m (100 * unit);
        rises = omega arith;
        bounded = omega arith;
      }

  pub next_fan_finite :
      (n : ℕ) → n ≤ 100 * unit → is_finite (next_fan rnd default_config (fin (pos n))) ≡ true
  next_fan_finite n small = let s = step n small in rw (s.next) refl

  -- Clamped to a range that reaches 100 %, the step still rises by one point, or is at 100 %.
  pub step_rises :
      (lo hi n : ℕ) (small : n ≤ 100 * unit)
      → lo ≤ hi
      → 100 * unit ≤ hi
      → (m : ℕ) × (clamp (percent lo hi) (next_fan rnd default_config (fin (pos n))) ≡ fin (pos m))
        × ((n + unit ≤ m) ⊎ (100 * unit ≤ m))
        × (m ≤ hi)
  step_rises lo hi n small h k =
      let s = step n small in
      (
        max lo (min hi s.level),
        ap (clamp (percent lo hi)) s.next ∙ clamp-percent lo hi s.level,
        omega (arith, s.rises, s.bounded),
        omega arith,
      )

  -- Clamped to a range that stops below 100 %, a set point in the range leads to one in the range,
  -- although the step itself was above it.
  pub step_stuck :
      (lo hi n : ℕ) (small : n ≤ 100 * unit)
      → lo ≤ hi
      → hi < 100 * unit
      → n ≤ hi
      → (float_le (next_fan rnd default_config (fin (pos n))) (fin (pos n)) ≡ false)
        × ((m : ℕ) × (clamp (percent lo hi) (next_fan rnd default_config (fin (pos n)))
              ≡ fin (pos m))
            × (m ≤ hi))
  step_stuck lo hi n small h k l =
      let s = step n small in
      let above : n < s.level = omega (arith, s.rises, unit_pos) in
      (
        rw (s.next) (ground arith),
        (
          max lo (min hi s.level),
          ap (clamp (percent lo hi)) s.next ∙ clamp-percent lo hi s.level,
          omega arith,
        ),
      )
