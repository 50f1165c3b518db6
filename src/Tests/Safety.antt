-- ===== src/Tests/Safety.antt =====
-- The validator, the resolver and the tokens on the bench.
use afterburner_gassist_plug.Base.{
  ◌+◌, ◌≤◌, ◌≡◌, refl, true, false, not, ◌&&◌, some, [], ◌∷◌, arith, length, ltb, leb,
  if◌then◌else◌,
}
use afterburner_gassist_plug.Int.{pos}
use afterburner_gassist_plug.Float.{fin, neg_inf, is_finite, float_eq}
use afterburner_gassist_plug.Dict.{string_eq}
use afterburner_gassist_plug.Exec.{ok, err, ErrorCode}
use afterburner_gassist_plug.Models.{
  InterfaceStatus, ControlFeature, Range, clamp, contains, inverted, range_for, is_ok, supports,
  FanCurve,
}
use afterburner_gassist_plug.Safety.Capabilities.{
  Resolution, resolve, read_only, has_range, gated_supported, max_curve_points,
}
use afterburner_gassist_plug.Safety.Gating.{IsGated, resolve-IsGated, resolve_not_ok, resolve_exact}
use afterburner_gassist_plug.Safety.Validator.{
  clamp_for, clamp_in, validate_and_clamp, validate_fan_curve, check_points, check_curve,
}
use afterburner_gassist_plug.Safety.Clamping.{validate_and_clamp-safe}
use afterburner_gassist_plug.Safety.FanCurves.{IsSafeCurve, validate_fan_curve-safe}
use afterburner_gassist_plug.Safety.Policy.{
  Tokens, issue_confirm_token, validate_token, confirm_token_ttl,
}
use afterburner_gassist_plug.Safety.Tokens.{validate_token-issue, validate_token_once}
use afterburner_gassist_plug.Tests.Bench.{start, caps, bench, silent, host, gpu}

abbrev resolved : Resolution
resolved = record {
  caps = record (caps 3 9) { supported_controls = gated_supported (caps 3 9) };
  timed_out = false;
}

resolve-IsGated_example : IsGated resolved.caps
unfolding resolve
resolve-IsGated_example = resolve-IsGated (bench 3 9 5 1) host 10 gpu start refl

resolve_not_ok_example : resolve silent host 10 gpu start ≡ (
  ok (record {
    caps =
        read_only gpu ""
          (if leb (5 + 10) 5 then InterfaceStatus.unavailable else InterfaceStatus.not_running);
    timed_out = leb (5 + 10) 5;
  }),
  start,
)
resolve_not_ok_example = resolve_not_ok silent host 10 gpu start refl refl refl refl

resolve_exact_example :
    (res : Resolution) × (resolve (bench 3 9 5 1) host 10 gpu start ≡ (ok res, start))
    × (res.caps.limits ≡ (caps 3 9).limits)
    × (supports res.caps ControlFeature.fan_percent ≡ (
        is_ok (caps 3 9).control_interface_status
        && supports (caps 3 9) ControlFeature.fan_percent
        && has_range (range_for (caps 3 9).limits ControlFeature.fan_percent)))
resolve_exact_example =
    resolve_exact (bench 3 9 5 1) host 10 gpu start ControlFeature.fan_percent refl refl refl refl
      refl (omega arith) (omega arith) refl

validate_and_clamp-safe_example :
    (res : Resolution) × (rng : Range) × (resolve (bench 3 9 5 1) host 10 gpu start
      ≡ (ok res, start))
    × (range_for res.caps.limits ControlFeature.fan_percent ≡ some rng)
    × (supports res.caps ControlFeature.fan_percent ≡ true)
    × (is_finite (fin (pos 12)) ≡ true)
    × (fin (pos 9) ≡ clamp rng (fin (pos 12)))
    × (contains rng (fin (pos 9)) ≡ true)
    × (true ≡ not (float_eq (fin (pos 9)) (fin (pos 12))))
unfolding resolve validate_and_clamp clamp_for clamp_in gated_supported inverted clamp
validate_and_clamp-safe_example =
    validate_and_clamp-safe (bench 3 9 5 1) host 10 gpu ControlFeature.fan_percent (fin (pos 12))
      start start (λ res rng e k. ground arith) refl

abbrev curve : FanCurve
curve =
    record { temp_c = fin (pos 30); fan_percent = fin (pos 4) }
    ∷ record { temp_c = fin (pos 60); fan_percent = fin (pos 8) }
    ∷ []

validate_fan_curve-safe_example :
    (res : Resolution) × (temps : Range) × (fans : Range) × (resolve
        (bench 3 9 5 1)
        host
        10
        gpu
        start
      ≡ (ok res, start))
    × (res.caps.limits.fan_temp_c ≡ some temps)
    × (res.caps.limits.fan_percent ≡ some fans)
    × (supports res.caps ControlFeature.fan_curve ≡ true)
    × (length curve ≡ length curve)
    × (2 ≤ length curve)
    × (length curve ≤ max_curve_points res.caps.limits)
    × (max_curve_points res.caps.limits ≤ 32)
    × IsSafeCurve temps fans neg_inf curve
unfolding resolve validate_fan_curve check_curve gated_supported inverted check_points clamp
validate_fan_curve-safe_example =
    validate_fan_curve-safe (bench 3 9 5 1) host 10 gpu curve curve start start
      (λ res rng e k. ground arith) refl

validate_token-issue_example :
    (validate_token 4 "t" (issue_confirm_token 3 "t" "f" (fin (pos 1)) []).1).0 ≡ (
      if ltb (3 + confirm_token_ttl) 4
      then err ErrorCode.confirmation_required
      else ok (issue_confirm_token 3 "t" "f" (fin (pos 1)) []).0)
validate_token-issue_example = validate_token-issue 3 4 "t" "f" (fin (pos 1)) []

abbrev one_token : Tokens
one_token =
    (
      "t",
      record {
        token = "t";
        function = "set_fan_percent";
        safe_value = fin (pos 1);
        expires_at = 9;
      },
    )
    ∷ []

validate_token_once_example :
    (validate_token 5 "t" (validate_token 4 "t" one_token).1).0
    ≡ err ErrorCode.confirmation_required
validate_token_once_example = validate_token_once 4 5 "t" one_token
