-- ===== src/Safety/Validator.antt =====
-- `TuningValidator` (afterburner/safety/validator.py).
use afterburner_gassist_plug.Base.{
  ℕ, Bool, not, ◌||◌, Option, none, some, [], ◌∷◌, ltb, length, if◌then◌else◌,
}
use afterburner_gassist_plug.Int.{ℤ}
use afterburner_gassist_plug.Float.{Float, neg_inf, is_finite, float_lt, float_eq}
use afterburner_gassist_plug.Exec.{Exec, Result, ok, err, ErrorCode, lift, ◌>>=◌}
use afterburner_gassist_plug.Models.{
  ControlFeature, Range, clamp, inverted, GpuLimits, range_for, GpuCapabilities, supports, FanCurve,
  FanCurvePoint,
}
use afterburner_gassist_plug.Interface.{Interface, Host}
use afterburner_gassist_plug.Safety.Capabilities.{resolve, max_curve_points}

-- `validate_and_clamp`, from the capabilities on: the safe value, and whether it was clamped.
unfoldable pub clamp_in : Option Range → Float → Result (Float × Bool)
clamp_in none requested = err ErrorCode.interface_unavailable
clamp_in (some rng) requested =
    if inverted rng
    then err ErrorCode.interface_unavailable
    else if is_finite requested
    then ok (clamp rng requested, not (float_eq (clamp rng requested) requested))
    else err ErrorCode.invalid_value

unfoldable pub clamp_for : GpuCapabilities → ControlFeature → Float → Result (Float × Bool)
unfolding clamp_in
clamp_for caps feature requested =
    if supports caps feature
    then clamp_in (range_for caps.limits feature) requested
    else err ErrorCode.unsupported_feature

-- The loop over the points: `prev` is the temperature before, -inf at first.
unfoldable pub check_points : Range → Range → Float → FanCurve → Result FanCurve
check_points temps fans prev [] = ok []
check_points temps fans prev (p ∷ ps) =
    let safe : FanCurvePoint = record {
      temp_c = clamp temps p.temp_c;
      fan_percent = clamp fans p.fan_percent;
    } in
    let rest = check_points temps fans p.temp_c ps in
    if not (is_finite p.temp_c) || not (is_finite p.fan_percent)
    then err ErrorCode.invalid_value
    else if float_lt p.temp_c prev
    then err ErrorCode.invalid_value
    else elim rest [ ok qs ↦ ok (safe ∷ qs) | other ↦ other ]

unfoldable pub check_axes : Option Range → Option Range → FanCurve → Result FanCurve
check_axes none fans points = err ErrorCode.interface_unavailable
check_axes (some temps) none points = err ErrorCode.interface_unavailable
check_axes (some temps) (some fans) points =
    if inverted temps || inverted fans
    then err ErrorCode.interface_unavailable
    else check_points temps fans neg_inf points

-- `_validate_fan_curve_against_caps`
unfoldable pub check_curve : GpuLimits → FanCurve → Result FanCurve
unfolding check_axes
check_curve limits points =
    if ltb (length points) 2 || ltb (max_curve_points limits) (length points)
    then err ErrorCode.invalid_value
    else check_axes limits.fan_temp_c limits.fan_percent points

module _ {W : Type 0} (i : Interface W) (host : Host W) (timeout : ℕ) where
  unfoldable pub validate_and_clamp : ℤ → ControlFeature → Float → Exec W (Float × Bool)
  validate_and_clamp gpu feature requested =
      resolve i host timeout gpu >>= λ res. lift (clamp_for res.caps feature requested)

  unfoldable pub validate_fan_curve : ℤ → FanCurve → Exec W FanCurve
  validate_fan_curve gpu points = resolve i host timeout gpu >>= λ res. lift (
      if supports res.caps ControlFeature.fan_curve
      then check_curve res.caps.limits points
      else err ErrorCode.unsupported_feature)
