-- ===== src/Integration/Fake.antt =====
-- `FakeAfterburner` (afterburner/integration/fake.py): Afterburner in memory, with its calls recorded.
use afterburner_gassist_plug.Base.{
  ℕ, ◌+◌, ◌-◌, ◌*◌, String, Bool, true, false, Option, none, some, List, [], ◌∷◌, ◌++◌, map,
  if◌then◌else◌,
}
use afterburner_gassist_plug.Int.{ℤ, pos, negsuc}
use afterburner_gassist_plug.Float.{Float, fin, unit, whole}
use afterburner_gassist_plug.Dict.{Dict, int_eq, nat_eq, lookup, insert}
use afterburner_gassist_plug.Exec.{Exec, ok, err, crash, ErrorCode, pure, or_raise, ◌>>◌}
use afterburner_gassist_plug.Models.{
  InterfaceStatus, ControlFeature, Range, GpuLimits, GpuCapabilities, GpuTelemetry, TuningState,
  FanCurve, Profile, ControlResult,
}
use afterburner_gassist_plug.Interface.{Interface}

-- An exception that a test plants: a `PluginError`, or another one.
pub data Fault : Type 0 where
  plugin : ErrorCode → Fault
  other : Fault

pub record FakeAfterburner : Type 0 where
  pub status : InterfaceStatus
  pub version : Option String
  pub telemetry_by_gpu : Dict ℤ GpuTelemetry
  pub caps_by_gpu : Dict ℤ GpuCapabilities
  pub tuning_by_gpu : Dict ℤ TuningState
  pub profiles : List Profile
  pub read_errors : Dict ℤ Fault
  pub apply_errors : Dict ℤ Fault
  pub telemetry_fail_all : Bool
  pub detect_calls : ℕ
  pub telemetry_calls : Dict ℤ ℕ
  pub applied : List (ℤ × ControlFeature × Float)
  pub applied_fan_curves : List (ℤ × FanCurve)
  pub profile_loads : List ℤ
  pub resets : List ℤ
  pub on_apply_control : Option (ℤ → ControlFeature → Float → ControlResult)
  pub on_apply_fan_curve : Option (ℤ → FanCurve → ControlResult)

abbrev pub Fake : Type 0 → Type 0
Fake A = Exec FakeAfterburner A

abbrev raise_fault : {A : Type 0} → Fault → Fake A
raise_fault (plugin e) w = (err e, w)
raise_fault other w = (crash, w)

abbrev raise_planted : Option Fault → Fake (Unit {0})
raise_planted none = pure tt
raise_planted (some f) = raise_fault f

detect : Fake InterfaceStatus
detect w = (ok w.status, record w { detect_calls = w.detect_calls + 1 })

abbrev status_error : InterfaceStatus → Option ErrorCode
status_error InterfaceStatus.ok = none
status_error InterfaceStatus.not_installed = some ErrorCode.not_installed
status_error InterfaceStatus.not_running = some ErrorCode.not_running
status_error InterfaceStatus.unsupported_version = some ErrorCode.unsupported_version
status_error InterfaceStatus.access_denied = some ErrorCode.access_denied
status_error InterfaceStatus.unavailable = some ErrorCode.interface_unavailable

-- `_ensure_ok`
ensure_ok : Fake (Unit {0})
ensure_ok w = elim (status_error w.status) [ none ↦ (ok tt, w) | some e ↦ (err e, w) ]

count_telemetry : ℤ → Fake (Unit {0})
count_telemetry gpu w =
    let seen : ℕ = elim (lookup gpu w.telemetry_calls) [ none ↦ 0 | some n ↦ n ] in
    (ok tt, record w { telemetry_calls = insert gpu (seen + 1) w.telemetry_calls })

fail_all : Fake (Unit {0})
fail_all w = if w.telemetry_fail_all then (err ErrorCode.comm_failure, w) else (ok tt, w)

read_telemetry : ℤ → Fake GpuTelemetry
unfolding ensure_ok count_telemetry fail_all
read_telemetry gpu =
    ensure_ok
    >> fail_all
    >> (λ w. raise_planted (lookup gpu w.read_errors) w)
    >> count_telemetry gpu
    >> λ w. or_raise (lookup gpu w.telemetry_by_gpu) ErrorCode.unsupported_gpu w

read_all_telemetry : Fake (List GpuTelemetry)
unfolding ensure_ok fail_all
read_all_telemetry = ensure_ok >> fail_all >> λ w. (ok (map (λ e. e.1) w.telemetry_by_gpu), w)

read_capabilities : ℤ → Fake GpuCapabilities
unfolding ensure_ok
read_capabilities gpu =
    ensure_ok >> λ w. or_raise (lookup gpu w.caps_by_gpu) ErrorCode.unsupported_gpu w

read_tuning_state : ℤ → Fake TuningState
unfolding ensure_ok
read_tuning_state gpu =
    ensure_ok >> λ w. or_raise (lookup gpu w.tuning_by_gpu) ErrorCode.unsupported_gpu w

list_profiles : Fake (List Profile)
unfolding ensure_ok
list_profiles = ensure_ok >> λ w. (ok w.profiles, w)

-- the result of a profile load or a reset
abbrev done : ControlFeature → ControlResult
done feature = record {
  feature = feature;
  requested_value = none;
  applied_value = none;
  clamped = false;
  applied = true;
  replaced_value = none;
}

has_profile : ℤ → List Profile → Bool
has_profile p [] = false
has_profile p (q ∷ qs) =
    let rest = has_profile p qs in if int_eq.beq (pos q.id) p then true else rest

load_profile : ℤ → Fake ControlResult
unfolding ensure_ok has_profile
load_profile p =
    ensure_ok
    >> (λ w. raise_planted (lookup (pos 0) w.apply_errors) w)
    >> (λ w. (ok tt, record w { profile_loads = w.profile_loads ++ p ∷ [] }))
    >> λ w. (
      if has_profile p w.profiles
          then ok (done ControlFeature.profile_load)
          else err ErrorCode.invalid_value,
      w,
    )

reset_tuning : ℤ → Fake ControlResult
unfolding ensure_ok
reset_tuning gpu = ensure_ok >> (λ w. raise_planted (lookup gpu w.apply_errors) w) >> λ w.
    (ok (done ControlFeature.profile_reset), record w { resets = w.resets ++ gpu ∷ [] })

apply_control : ℤ → ControlFeature → Float → Fake ControlResult
unfolding ensure_ok
apply_control gpu feature value =
    ensure_ok
    >> (λ w. raise_planted (lookup gpu w.apply_errors) w)
    >> (λ w. (ok tt, record w { applied = w.applied ++ (gpu, feature, value) ∷ [] }))
    >> λ w. (
      ok (elim w.on_apply_control [
        | none ↦ record {
          feature = feature;
          requested_value = some value;
          applied_value = some value;
          clamped = false;
          applied = true;
          replaced_value = none;
        }
        | some f ↦ f gpu feature value
      ]),
      w,
    )

apply_fan_curve : ℤ → FanCurve → Fake ControlResult
unfolding ensure_ok
apply_fan_curve gpu curve =
    ensure_ok
    >> (λ w. raise_planted (lookup gpu w.apply_errors) w)
    >> (λ w. (ok tt, record w { applied_fan_curves = w.applied_fan_curves ++ (gpu, curve) ∷ [] }))
    >> λ w. (
      ok (elim w.on_apply_fan_curve [
        | none ↦ done ControlFeature.fan_curve
        | some f ↦ f gpu curve
      ]),
      w,
    )

unfoldable pub fake : Interface FakeAfterburner
unfolding detect read_telemetry read_all_telemetry read_capabilities read_tuning_state list_profiles
    load_profile reset_tuning apply_control apply_fan_curve
fake = record {
  detect = detect;
  get_version = λ w. (ok w.version, w);
  read_telemetry = read_telemetry;
  read_all_telemetry = read_all_telemetry;
  read_capabilities = read_capabilities;
  read_tuning_state = read_tuning_state;
  list_profiles = list_profiles;
  load_profile = load_profile;
  reset_tuning = reset_tuning;
  apply_control = apply_control;
  apply_fan_curve = apply_fan_curve;
}

-- `-n`, for an `n` that is not zero
unfoldable pub minus : ℕ → Float
unfolding unit
minus n = fin (negsuc (n * unit - 1))

abbrev range : ℕ → ℕ → Option Range
range lo hi = some (record { min = whole lo; max = whole hi })

abbrev range_below : ℕ → ℕ → Option Range
range_below lo hi = some (record { min = minus lo; max = whole hi })

-- `DEFAULT_LIMITS`
abbrev pub default_limits : GpuLimits
default_limits = record {
  power_limit_pct = range 50 118;
  core_offset_mhz = range_below 300 300;
  memory_offset_mhz = range_below 500 1000;
  voltage_mv = range 0 1100;
  fan_percent = range 0 100;
  fan_temp_c = range 30 90;
  fan_curve_max_points = some 2;
}

-- `default_capabilities()`, which offers every feature
abbrev pub default_capabilities : ℤ → String → GpuCapabilities
default_capabilities gpu name = record {
  gpu_index = gpu;
  gpu_name = name;
  supported_controls = λ _. true;
  limits = default_limits;
  control_interface_status = InterfaceStatus.ok;
}
