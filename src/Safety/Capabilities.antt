-- ===== src/Safety/Capabilities.antt =====
-- `HardwareCapabilityResolver` (afterburner/safety/capabilities.py).
use Prim.Native.Nat.{min}
use afterburner_gassist_plug.Base.{
  ℕ, ◌+◌, String, Bool, true, false, not, ◌&&◌, ◌||◌, Option, none, some, leb, if◌then◌else◌,
}
use afterburner_gassist_plug.Int.{ℤ}
use afterburner_gassist_plug.Exec.{Exec, Result, ok, err, crash, ErrorCode, attempt, ◌>>=◌}
use afterburner_gassist_plug.Models.{
  InterfaceStatus, ControlFeature, Range, inverted, GpuLimits, no_limits, range_for,
  GpuCapabilities, supports, same_feature, is_ok,
}
use afterburner_gassist_plug.Interface.{Interface, Host}

abbrev pub default_fan_curve_max_points : ℕ
default_fan_curve_max_points = 2

abbrev pub fan_curve_absolute_max_points : ℕ
fan_curve_absolute_max_points = 32

unfoldable pub status_from_error : ErrorCode → InterfaceStatus
status_from_error ErrorCode.not_installed = InterfaceStatus.not_installed
status_from_error ErrorCode.not_running = InterfaceStatus.not_running
status_from_error ErrorCode.unsupported_version = InterfaceStatus.unsupported_version
status_from_error ErrorCode.access_denied = InterfaceStatus.access_denied
status_from_error ErrorCode.disconnected = InterfaceStatus.not_running
status_from_error ErrorCode.unsupported_gpu = InterfaceStatus.unavailable
status_from_error ErrorCode.interface_unavailable = InterfaceStatus.unavailable
status_from_error ErrorCode.invalid_value = InterfaceStatus.unavailable
status_from_error ErrorCode.comm_failure = InterfaceStatus.unavailable
status_from_error ErrorCode.stale_telemetry = InterfaceStatus.unavailable
status_from_error ErrorCode.unsupported_feature = InterfaceStatus.unavailable
status_from_error ErrorCode.confirmation_required = InterfaceStatus.unavailable

-- `rng is not None and not rng.inverted`
abbrev pub has_range : Option Range → Bool
has_range none = false
has_range (some r) = not (inverted r)

-- `_WRITE_SINGLE_VALUE_FEATURES`
abbrev pub is_single_value : ControlFeature → Bool
is_single_value ControlFeature.power_limit = true
is_single_value ControlFeature.core_offset = true
is_single_value ControlFeature.memory_offset = true
is_single_value ControlFeature.voltage = true
is_single_value ControlFeature.fan_percent = true
is_single_value ControlFeature.fan_curve = false
is_single_value ControlFeature.profile_load = false
is_single_value ControlFeature.profile_reset = false

-- The reported number of curve points, two where it is missing, and never over 32.
unfoldable pub max_curve_points : GpuLimits → ℕ
max_curve_points l = elim l.fan_curve_max_points [
  | none ↦ min default_fan_curve_max_points fan_curve_absolute_max_points
  | some n ↦ min n fan_curve_absolute_max_points
]

curve_supported : GpuCapabilities → Bool
unfolding max_curve_points
curve_supported caps =
    supports caps ControlFeature.fan_curve
    && leb 2 (max_curve_points caps.limits)
    && has_range caps.limits.fan_temp_c
    && has_range caps.limits.fan_percent

is_profile : ControlFeature → Bool
is_profile ControlFeature.profile_load = true
is_profile ControlFeature.profile_reset = true
is_profile ControlFeature.power_limit = false
is_profile ControlFeature.core_offset = false
is_profile ControlFeature.memory_offset = false
is_profile ControlFeature.voltage = false
is_profile ControlFeature.fan_percent = false
is_profile ControlFeature.fan_curve = false

-- The features that the reports back, the control interface apart.
unfoldable pub backed : GpuCapabilities → ControlFeature → Bool
unfolding curve_supported is_profile
backed caps f =
    (is_single_value f && supports caps f && has_range (range_for caps.limits f))
    || (same_feature f ControlFeature.fan_curve && curve_supported caps)
    || (is_profile f && supports caps f)

-- `_gated_supported`: without a working control interface every write feature is taken out again.
unfoldable pub gated_supported : GpuCapabilities → ControlFeature → Bool
unfolding backed
gated_supported caps f = if is_ok caps.control_interface_status then backed caps f else false

abbrev pub read_only : ℤ → String → InterfaceStatus → GpuCapabilities
read_only gpu name status = record {
  gpu_index = gpu;
  gpu_name = name;
  supported_controls = λ _. false;
  limits = no_limits;
  control_interface_status = status;
}

-- What one `resolve` leaves: its value, and the attribute `last_timed_out`.
pub record Resolution : Type 0 where
  pub caps : GpuCapabilities
  pub timed_out : Bool

module _ {W : Type 0} (i : Interface W) (host : Host W) (timeout : ℕ) where
  -- the second timeout test, after the capabilities were read or could not be
  abbrev pub after_read : ℤ → ℕ → Result GpuCapabilities → Exec W Resolution
  after_read gpu start (ok caps) w =
      let (later, w') = host.clock w in
      if leb (start + timeout) later
      then (
        ok (record {
          caps = read_only gpu caps.gpu_name InterfaceStatus.unavailable;
          timed_out = true;
        }),
        w',
      )
      else (
        ok (record {
          caps = record caps { supported_controls = gated_supported caps };
          timed_out = false;
        }),
        w',
      )
  after_read gpu start (err e) w =
      (ok (record { caps = read_only gpu "" (status_from_error e); timed_out = false }), w)
  after_read gpu start crash w =
      (ok (record { caps = read_only gpu "" InterfaceStatus.unavailable; timed_out = false }), w)

  abbrev pub after_detect : ℤ → ℕ → InterfaceStatus → Exec W Resolution
  after_detect gpu start status w =
      let (t, w') = host.clock w in
      if leb (start + timeout) t
      then (
        ok (record { caps = read_only gpu "" InterfaceStatus.unavailable; timed_out = true }),
        w',
      )
      else if is_ok status
      then (attempt (i.read_capabilities gpu) >>= after_read gpu start) w'
      else (ok (record { caps = read_only gpu "" status; timed_out = false }), w')

  unfoldable pub resolve : ℤ → Exec W Resolution
  resolve gpu w = let (start, w') = host.clock w in (i.detect >>= after_detect gpu start) w'
