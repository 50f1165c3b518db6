-- ===== src/Models.antt =====
-- The domain models (afterburner/models.py). Texts that only a user reads (`message`, `summary`,
-- `user_message`, `detail`) are left out; a `frozenset` of features is its membership test.
use afterburner_gassist_plug.Base.{
  ℕ, String, ◌≡◌, ◌↔◌, ◌==◌, Bool, true, false, Option, none, List, arith, if◌then◌else◌,
}
use afterburner_gassist_plug.Int.{ℤ}
use afterburner_gassist_plug.Float.{Float, float_lt, float_le, float_max, float_min}
pub use afterburner_gassist_plug.Exec.{ErrorCode}

pub data InterfaceStatus : Type 0 where
  ok not_installed not_running unsupported_version access_denied unavailable : InterfaceStatus

pub data ControlFeature : Type 0 where
  power_limit core_offset memory_offset voltage fan_percent fan_curve : ControlFeature
  profile_load profile_reset : ControlFeature

-- `status is InterfaceStatus.OK`
abbrev pub is_ok : InterfaceStatus → Bool
is_ok InterfaceStatus.ok = true
is_ok InterfaceStatus.not_installed = false
is_ok InterfaceStatus.not_running = false
is_ok InterfaceStatus.unsupported_version = false
is_ok InterfaceStatus.access_denied = false
is_ok InterfaceStatus.unavailable = false

abbrev ordinal : ControlFeature → ℕ
ordinal ControlFeature.power_limit = 0
ordinal ControlFeature.core_offset = 1
ordinal ControlFeature.memory_offset = 2
ordinal ControlFeature.voltage = 3
ordinal ControlFeature.fan_percent = 4
ordinal ControlFeature.fan_curve = 5
ordinal ControlFeature.profile_load = 6
ordinal ControlFeature.profile_reset = 7

-- `f is g`
abbrev pub same_feature : ControlFeature → ControlFeature → Bool
same_feature f g = ordinal f == ordinal g

pub same_feature_iff : (f g : ControlFeature) → (same_feature f g ≡ true) ↔ (f ≡ g)
same_feature_iff f g = (λ h. ground arith, λ h. ground arith)

pub record Range : Type 0 where
  pub min : Float
  pub max : Float

unfoldable pub clamp : Range → Float → Float
clamp r value = float_max r.min (float_min r.max value)

unfoldable pub contains : Range → Float → Bool
contains r value = if float_le r.min value then float_le value r.max else false

unfoldable pub inverted : Range → Bool
inverted r = float_lt r.max r.min

pub record GpuLimits : Type 0 where
  pub power_limit_pct : Option Range
  pub core_offset_mhz : Option Range
  pub memory_offset_mhz : Option Range
  pub voltage_mv : Option Range
  pub fan_percent : Option Range
  pub fan_temp_c : Option Range
  pub fan_curve_max_points : Option ℕ

-- `GpuLimits()`
abbrev pub no_limits : GpuLimits
no_limits = record {
  power_limit_pct = none;
  core_offset_mhz = none;
  memory_offset_mhz = none;
  voltage_mv = none;
  fan_percent = none;
  fan_temp_c = none;
  fan_curve_max_points = none;
}

abbrev pub range_for : GpuLimits → ControlFeature → Option Range
range_for l ControlFeature.power_limit = l.power_limit_pct
range_for l ControlFeature.core_offset = l.core_offset_mhz
range_for l ControlFeature.memory_offset = l.memory_offset_mhz
range_for l ControlFeature.voltage = l.voltage_mv
range_for l ControlFeature.fan_percent = l.fan_percent
range_for l ControlFeature.fan_curve = none
range_for l ControlFeature.profile_load = none
range_for l ControlFeature.profile_reset = none

pub record GpuCapabilities : Type 0 where
  pub gpu_index : ℤ
  pub gpu_name : String
  pub supported_controls : ControlFeature → Bool
  pub limits : GpuLimits
  pub control_interface_status : InterfaceStatus

abbrev pub supports : GpuCapabilities → ControlFeature → Bool
supports c f = c.supported_controls f

-- `sampled_at` is a wall-clock reading, in ticks.
pub record GpuTelemetry : Type 0 where
  pub gpu_index : ℤ
  pub gpu_name : String
  pub driver_version : Option String
  pub temperature_c : Option Float
  pub hotspot_c : Option Float
  pub utilization_pct : Option Float
  pub core_clock_mhz : Option Float
  pub memory_clock_mhz : Option Float
  pub voltage_mv : Option Float
  pub power_watts : Option Float
  pub power_limit_pct : Option Float
  pub fan_percent : Option Float
  pub fan_rpm : Option Float
  pub memory_used_mb : Option Float
  pub memory_total_mb : Option Float
  pub sampled_at : ℕ
  pub is_stale : Bool

pub data FanMode : Type 0 where
  auto manual curve : FanMode

pub record TuningState : Type 0 where
  pub gpu_index : ℤ
  pub power_limit_pct : Option Float
  pub core_offset_mhz : Option Float
  pub memory_offset_mhz : Option Float
  pub voltage_mv : Option Float
  pub fan_mode : FanMode
  pub fan_percent : Option Float

pub record FanCurvePoint : Type 0 where
  pub temp_c : Float
  pub fan_percent : Float

-- `FanCurve.points`
abbrev pub FanCurve : Type 0
FanCurve = List FanCurvePoint

pub record Profile : Type 0 where
  pub id : ℕ
  pub is_active : Bool

pub record ControlResult : Type 0 where
  pub feature : ControlFeature
  pub requested_value : Option Float
  pub applied_value : Option Float
  pub clamped : Bool
  pub applied : Bool
  pub replaced_value : Option Float

pub data DiagnosisCause : Type 0 where
  thermal power voltage utilization_bottleneck cpu_limited app_behavior : DiagnosisCause
  unknown_insufficient_data : DiagnosisCause
