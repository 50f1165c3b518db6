-- ===== src/Safety/FanCurves.antt =====
-- What `validate_fan_curve` lets through.
use afterburner_gassist_plug.Base.{
  ℕ, suc, ◌≤◌, ◌≡◌, refl, inl, inr, ◌⊎◌, if◌then◌else◌, true, false, Option, none, some, [], ◌∷◌,
  arith, length, Bool-cases, ap, ◌∙◌,
}
use afterburner_gassist_plug.Int.{ℤ}
use afterburner_gassist_plug.Float.{Float, neg_inf, is_finite, is_nan, float_lt}
use afterburner_gassist_plug.Exec.{ok, err, ErrorCode, Result-cases}
use afterburner_gassist_plug.Exec.Hoare.{>>=-eq-ok}
use afterburner_gassist_plug.Float.Order.{le_of_not_lt, not_lt_of_le}
use afterburner_gassist_plug.Models.{
  ControlFeature, Range, clamp, contains, inverted, GpuLimits, GpuCapabilities, supports, FanCurve,
  FanCurvePoint,
}
use afterburner_gassist_plug.Interface.{Interface, Host}
use afterburner_gassist_plug.Safety.Capabilities.{Resolution, resolve, max_curve_points}
use afterburner_gassist_plug.Safety.Validator.{
  check_points, check_axes, check_curve, validate_fan_curve,
}
use afterburner_gassist_plug.Safety.Clamping.{IsProper, clamp-contains, clamp_mono}

-- Every point lies in the two axes, and the temperatures do not fall, from `prev` on.
abbrev pub IsSafeCurve : Range → Range → Float → FanCurve → Type 0
IsSafeCurve temps fans prev [] = Unit
IsSafeCurve temps fans prev (p ∷ ps) =
    (contains temps p.temp_c ≡ true)
    × (contains fans p.fan_percent ≡ true)
    × (float_lt p.temp_c prev ≡ false)
    × IsSafeCurve temps fans p.temp_c ps

-- What the loop has done when it has passed a first point.
record Passed (temps fans : Range) (prev : Float) (p : FanCurvePoint) (ps qs : FanCurve)
    : Type 0 where
  rest : FanCurve
  passed_rest : check_points temps fans p.temp_c ps ≡ ok rest
  shape :
      qs ≡ record { temp_c = clamp temps p.temp_c; fan_percent = clamp fans p.fan_percent } ∷ rest
  finite : is_finite p.temp_c ≡ true
  rising : float_lt p.temp_c prev ≡ false

check_points-Passed :
    (temps fans : Range) (prev : Float) (p : FanCurvePoint) (ps : FanCurve) {qs : FanCurve}
    → check_points temps fans prev (p ∷ ps) ≡ ok qs
    → Passed temps fans prev p ps qs
unfolding check_points
check_points-Passed temps fans prev p ps h =
    elim (Result-cases (check_points temps fans p.temp_c ps)) [
      | inl (rest, e) ↦ record {
        rest = rest;
        passed_rest = e;
        shape = ground arith;
        finite = ground arith;
        rising = ground arith;
      }
      | inr (inl (c, e)) ↦ absurd (ground arith)
      | inr (inr e) ↦ absurd (ground arith)
    ]

not_nan_of_finite : (a : Float) → is_finite a ≡ true → is_nan a ≡ false
not_nan_of_finite a h = ground arith

module _ (temps fans : Range) (pt : IsProper temps) (pf : IsProper fans)
    (ut : inverted temps ≡ false) (uf : inverted fans ≡ false) where
  -- clamping keeps the order, so temperatures that rose before still do not fall
  clamp_rising :
      (t prev : Float)
      → is_finite t ≡ true
      → is_nan prev ≡ false
      → float_lt t prev ≡ false
      → float_lt (clamp temps t) (clamp temps prev) ≡ false
  clamp_rising t prev f n h =
      not_lt_of_le (clamp temps prev) (clamp temps t)
        (clamp_mono temps prev t pt ut (le_of_not_lt t prev (not_nan_of_finite t f) n h))

  check_points-IsSafe :
      (prev : Float) (ps : FanCurve) {qs : FanCurve}
      → is_nan prev ≡ false
      → check_points temps fans prev ps ≡ ok qs
      → IsSafeCurve temps fans (clamp temps prev) qs × (length qs ≡ length ps)
  unfolding check_points
  check_points-IsSafe prev [] {qs} n h = let e : [] ≡ qs = cc in rw (← e) (tt, refl)
  check_points-IsSafe prev (p ∷ ps) n h =
      let d = check_points-Passed temps fans prev p ps h in
      let (safe, len) =
        check_points-IsSafe p.temp_c ps (not_nan_of_finite p.temp_c d.finite) d.passed_rest in
      rw (d.shape) (
        (
          clamp-contains temps p.temp_c pt ut,
          clamp-contains fans p.fan_percent pf uf,
          clamp_rising p.temp_c prev d.finite n d.rising,
          safe,
        ),
        ap suc len,
      )

check_axes_inv :
    (t r : Option Range) (ps : FanCurve) {qs : FanCurve}
    → check_axes t r ps ≡ ok qs
    → (temps : Range) × (fans : Range) × (t ≡ some temps)
      × (r ≡ some fans)
      × (inverted temps ≡ false)
      × (inverted fans ≡ false)
      × (check_points temps fans neg_inf ps ≡ ok qs)
unfolding check_axes
check_axes_inv none r ps h = absurd (cc)
check_axes_inv (some temps) none ps h = absurd (cc)
check_axes_inv (some temps) (some fans) ps h =
    (temps, fans, refl, refl, ground arith, ground arith, ground arith)

check_curve_inv :
    (l : GpuLimits) (ps : FanCurve) {qs : FanCurve}
    → check_curve l ps ≡ ok qs
    → (2 ≤ length ps)
      × (length ps ≤ max_curve_points l)
      × (check_axes l.fan_temp_c l.fan_percent ps ≡ ok qs)
unfolding check_curve
check_curve_inv l ps h = ground arith

-- What has been tested when a curve is let through.
record Accepted (caps : GpuCapabilities) (ps qs : FanCurve) : Type 0 where
  temps : Range
  fans : Range
  temp_axis : caps.limits.fan_temp_c ≡ some temps
  fan_axis : caps.limits.fan_percent ≡ some fans
  temp_upright : inverted temps ≡ false
  fan_upright : inverted fans ≡ false
  passed : check_points temps fans neg_inf ps ≡ ok qs
  supported : supports caps ControlFeature.fan_curve ≡ true
  enough : 2 ≤ length ps
  not_many : length ps ≤ max_curve_points caps.limits

curve_inv :
    (caps : GpuCapabilities) (ps : FanCurve) {qs : FanCurve}
    → (if supports caps ControlFeature.fan_curve
        then check_curve caps.limits ps
        else err ErrorCode.unsupported_feature)
      ≡ ok qs
    → Accepted caps ps qs
curve_inv caps ps h = elim (Bool-cases (supports caps ControlFeature.fan_curve)) [
  | inl s ↦
      let (enough, not_many, axes) = check_curve_inv caps.limits ps (rw s at h) in
      let (temps, fans, t, f, ut, uf, passed) =
        check_axes_inv caps.limits.fan_temp_c caps.limits.fan_percent ps axes in
      record {
        temps = temps;
        fans = fans;
        temp_axis = t;
        fan_axis = f;
        temp_upright = ut;
        fan_upright = uf;
        passed = passed;
        supported = s;
        enough = enough;
        not_many = not_many;
      }
  | inr n ↦ absurd (let k = rw n at h in cc)
]

max_curve_points-le : (l : GpuLimits) → max_curve_points l ≤ 32
unfolding max_curve_points
max_curve_points-le l = ground arith

not_lt_neg_inf : (a : Float) → float_lt a neg_inf ≡ false
not_lt_neg_inf a = ground arith

IsSafeCurve-start :
    (temps fans : Range) (prev : Float) (qs : FanCurve)
    → IsSafeCurve temps fans prev qs
    → IsSafeCurve temps fans neg_inf qs
IsSafeCurve-start temps fans prev [] h = tt
IsSafeCurve-start temps fans prev (q ∷ qs) (t, f, r, s) = (t, f, not_lt_neg_inf q.temp_c, s)

module _ {W : Type 0} (i : Interface W) (host : Host W) (timeout : ℕ) where
  -- The two axes that this call resolves have numbers for their ends.
  abbrev pub ReportsProperAxes : ℤ → W → Type 0
  ReportsProperAxes gpu w =
      (res : Resolution) (rng : Range)
      → (resolve i host timeout gpu w).0 ≡ ok res
      → ((res.caps.limits.fan_temp_c ≡ some rng) ⊎ (res.caps.limits.fan_percent ≡ some rng))
      → IsProper rng

  -- Where the ends of the two resolved axes are numbers:
  -- a curve that the validator lets through has as many points as the one asked for, from two up to
  -- the reported maximum (at most 32), every point in the two reported axes, and temperatures that
  -- do not fall. The limits are those resolved in the same call.
  pub validate_fan_curve-safe :
      (gpu : ℤ) (ps qs : FanCurve) (w w' : W)
      → ReportsProperAxes gpu w
      → validate_fan_curve i host timeout gpu ps w ≡ (ok qs, w')
      → (res : Resolution) × (temps : Range) × (fans : Range) × (resolve i host timeout gpu w
          ≡ (ok res, w'))
        × (res.caps.limits.fan_temp_c ≡ some temps)
        × (res.caps.limits.fan_percent ≡ some fans)
        × (supports res.caps ControlFeature.fan_curve ≡ true)
        × (length qs ≡ length ps)
        × (2 ≤ length qs)
        × (length qs ≤ max_curve_points res.caps.limits)
        × (max_curve_points res.caps.limits ≤ 32)
        × IsSafeCurve temps fans neg_inf qs
  unfolding validate_fan_curve
  validate_fan_curve-safe gpu ps qs w w' proper h =
      let (res, w1, r, k) = >>=-eq-ok (resolve i host timeout gpu) _ w h in
      let c = curve_inv res.caps ps (ap (λ o. o.0) k) in
      let pt = proper res c.temps (ap (λ o. o.0) r) (inl c.temp_axis) in
      let pf = proper res c.fans (ap (λ o. o.0) r) (inr c.fan_axis) in
      let (safe, len) =
        check_points-IsSafe c.temps c.fans pt pf c.temp_upright c.fan_upright neg_inf ps refl
          c.passed in
      (
        res,
        c.temps,
        c.fans,
        r ∙ (λ j. (ok res, (k j).1)),
        c.temp_axis,
        c.fan_axis,
        c.supported,
        len,
        omega (arith, len, c.enough),
        omega (arith, len, c.not_many),
        max_curve_points-le res.caps.limits,
        IsSafeCurve-start c.temps c.fans _ qs safe,
      )
