-- ===== src/Protocol/Prompt.antt =====
-- What `GAssistPlugin` (afterburner/protocol/plugin.py) reads before it asks for a confirmation, with
-- `TuningOwnershipService.applied_value` (afterburner/services/ownership.py).
use text.Mathlib.Text.{◌==◌}
use afterburner_gassist_plug.Base.{
  ℕ, String, Bool, true, false, Option, none, some, [], ◌∷◌, if◌then◌else◌,
}
use afterburner_gassist_plug.Int.{ℤ}
use afterburner_gassist_plug.Float.{Float, whole, float_le, float_sub, float_abs, Rounding}
use afterburner_gassist_plug.Dict.{string_eq}
use afterburner_gassist_plug.Exec.{Exec, Result, ok, err, crash, ErrorCode, pure, lift, ◌>>=◌, ◌>>◌}
use afterburner_gassist_plug.Value.{
  Value, null, bool, int, float, str, arr, dict, Items, nil, cons, Fields,
}
use afterburner_gassist_plug.Models.{ControlFeature, TuningState, FanCurve, FanCurvePoint}
use afterburner_gassist_plug.Interface.{Interface, Host}
use afterburner_gassist_plug.Integration.Client
use afterburner_gassist_plug.Safety.Validator.{validate_and_clamp, validate_fan_curve}
use afterburner_gassist_plug.Protocol.Args.{get, to_float, require_number}

-- `_SINGLE_VALUE_FEATURE`
abbrev pub single_value_feature : String → Option (ControlFeature × String)
single_value_feature function =
    if function == "set_power_limit"
    then some (ControlFeature.power_limit, "percent")
    else if function == "set_core_offset"
    then some (ControlFeature.core_offset, "offset_mhz")
    else if function == "set_memory_offset"
    then some (ControlFeature.memory_offset, "offset_mhz")
    else if function == "set_fan_percent"
    then some (ControlFeature.fan_percent, "percent")
    else none

-- the attribute of a tuning state that `_FEATURE_STATE_ATTR` names
abbrev pub applied_in : ControlFeature → TuningState → Option Float
applied_in ControlFeature.power_limit t = t.power_limit_pct
applied_in ControlFeature.core_offset t = t.core_offset_mhz
applied_in ControlFeature.memory_offset t = t.memory_offset_mhz
applied_in ControlFeature.fan_percent t = t.fan_percent
applied_in ControlFeature.voltage t = none
applied_in ControlFeature.fan_curve t = none
applied_in ControlFeature.profile_load t = none
applied_in ControlFeature.profile_reset t = none

abbrev pub is_readable : ControlFeature → Bool
is_readable ControlFeature.power_limit = true
is_readable ControlFeature.core_offset = true
is_readable ControlFeature.memory_offset = true
is_readable ControlFeature.fan_percent = true
is_readable ControlFeature.voltage = false
is_readable ControlFeature.fan_curve = false
is_readable ControlFeature.profile_load = false
is_readable ControlFeature.profile_reset = false

module _ {W : Type 0} (i : Interface W) (host : Host W) (timeout : ℕ) (rnd : Rounding)
    (tolerance : Float) where
  abbrev pub tuned : ControlFeature → Result TuningState → Result (Option Float)
  tuned feature (ok t) = ok (applied_in feature t)
  tuned feature (err e) = ok none
  tuned feature crash = crash

  -- `TuningOwnershipService.applied_value`
  unfoldable pub applied_value : ℤ → ControlFeature → Exec W (Option Float)
  applied_value gpu feature =
      if is_readable feature
      then (λ w. let (r, w') = Client.read_tuning_state (some i) gpu w in (tuned feature r, w'))
      else pure none

  abbrev pub no_op_value : Float → Option Float → Option Float
  no_op_value safe none = none
  no_op_value safe (some current) =
      if float_le (float_abs (float_sub rnd current safe)) tolerance then some safe else none

  abbrev pub noop_of : Option (ControlFeature × String) → Fields → ℤ → Exec W (Option Float)
  noop_of none args gpu = pure none
  noop_of (some (feature, key)) args gpu = lift (require_number rnd args key) >>= λ requested.
      validate_and_clamp i host timeout gpu feature requested >>= λ safe.
      applied_value gpu feature >>= λ current. pure (no_op_value safe.0 current)

  -- `_decision_time_noop`
  unfoldable pub decision_time_noop : String → Fields → ℤ → Exec W (Option Float)
  decision_time_noop function args gpu = noop_of (single_value_feature function) args gpu

  abbrev pub pair : Result Float → Result Float → Result FanCurvePoint
  pair (ok temp) (ok fan) = ok (record { temp_c = temp; fan_percent = fan })
  pair (ok temp) (err e) = err e
  pair (ok temp) crash = crash
  pair (err e) other = err e
  pair crash other = crash

  -- a list of one element: its float is taken before the second index fails
  abbrev pub too_short : Result Float → Result FanCurvePoint
  too_short (ok _) = err ErrorCode.invalid_value
  too_short (err e) = err e
  too_short crash = crash

  -- `FanCurvePoint(temp_c=float(p[0]), fan_percent=float(p[1]))`: of a list, or of the characters of a
  -- text. On a dict the index is a missing key, which the handler does not expect.
  abbrev pub point : Value → Result FanCurvePoint
  point null = err ErrorCode.invalid_value
  point (bool _) = err ErrorCode.invalid_value
  point (int _) = err ErrorCode.invalid_value
  point (float _) = err ErrorCode.invalid_value
  point (str String.[]) = err ErrorCode.invalid_value
  point (str (String.◌∷◌ c String.[])) =
      too_short (to_float rnd (some (str (String.◌∷◌ c String.[]))))
  point (str (String.◌∷◌ c (String.◌∷◌ d _))) =
      pair (to_float rnd (some (str (String.◌∷◌ c String.[]))))
        (to_float rnd (some (str (String.◌∷◌ d String.[]))))
  point (arr nil) = err ErrorCode.invalid_value
  point (arr (cons t nil)) = too_short (to_float rnd (some t))
  point (arr (cons t (cons f _))) = pair (to_float rnd (some t)) (to_float rnd (some f))
  point (dict _) = crash

  abbrev pub push : Result FanCurvePoint → Result FanCurve → Result FanCurve
  push (ok p) (ok ps) = ok (p ∷ ps)
  push (ok p) (err e) = err e
  push (ok p) crash = crash
  push (err e) other = err e
  push crash other = crash

  abbrev pub points : Items → Result FanCurve
  points nil = ok []
  points (cons p ps) = push (point p) (points ps)

  abbrev pub curve_of : Option Value → Result FanCurve
  curve_of none = err ErrorCode.invalid_value
  curve_of (some null) = err ErrorCode.invalid_value
  curve_of (some (bool _)) = err ErrorCode.invalid_value
  curve_of (some (int _)) = err ErrorCode.invalid_value
  curve_of (some (float _)) = err ErrorCode.invalid_value
  curve_of (some (str _)) = err ErrorCode.invalid_value
  curve_of (some (arr nil)) = err ErrorCode.invalid_value
  curve_of (some (arr (cons p ps))) = points (cons p ps)
  curve_of (some (dict _)) = err ErrorCode.invalid_value

  -- `_validate_curve`
  unfoldable pub validate_curve : Fields → ℤ → Exec W FanCurve
  validate_curve args gpu =
      lift (curve_of (get "points" args)) >>= λ curve. validate_fan_curve i host timeout gpu curve

  abbrev pub prompt_value_of : Option (ControlFeature × String) → String → Fields → ℤ → Exec W Float
  prompt_value_of (some (feature, key)) function args gpu =
      lift (require_number rnd args key) >>= λ requested.
      validate_and_clamp i host timeout gpu feature requested >>= λ safe. pure safe.0
  prompt_value_of none function args gpu =
      if function == "set_fan_curve"
      then validate_curve args gpu >> pure (whole 0)
      else if function == "optimize_thermal"
      then lift (require_number rnd args "target_c") >> pure (whole 0)
      else pure (whole 0)

  -- `_safe_prompt_value`
  unfoldable pub safe_prompt_value : String → Fields → ℤ → Exec W Float
  safe_prompt_value function args gpu =
      prompt_value_of (single_value_feature function) function args gpu

  -- the read that `_clause` makes for its text
  abbrev pub clause_of : Option (ControlFeature × String) → ℤ → Exec W (Option Float)
  clause_of none gpu = applied_value gpu ControlFeature.fan_percent
  clause_of (some (feature, key)) gpu = applied_value gpu feature
