-- ===== src/Integration/Adapters.antt =====
-- `UnavailableAfterburner` (afterburner/integration/fallback.py), which answers without an Afterburner,
-- and `CombinedAfterburner` (afterburner/integration/combined.py), which joins the monitoring and the
-- control adapter.
pub mod Degraded
use afterburner_gassist_plug.Exec.{ErrorCode, pure, raise}
use afterburner_gassist_plug.Base.{none}
use afterburner_gassist_plug.Models.{InterfaceStatus}
use afterburner_gassist_plug.Interface.{Interface}

-- the code of `_STATUS_MESSAGE`, with the default of `_raise`
abbrev pub status_code : InterfaceStatus → ErrorCode
status_code InterfaceStatus.ok = ErrorCode.interface_unavailable
status_code InterfaceStatus.not_installed = ErrorCode.not_installed
status_code InterfaceStatus.not_running = ErrorCode.not_running
status_code InterfaceStatus.unsupported_version = ErrorCode.unsupported_version
status_code InterfaceStatus.access_denied = ErrorCode.access_denied
status_code InterfaceStatus.unavailable = ErrorCode.interface_unavailable

module _ {W : Type 0} where
  unfoldable pub unavailable : InterfaceStatus → Interface W
  unavailable status = record {
    detect = pure status;
    get_version = pure none;
    read_telemetry = λ gpu. raise (status_code status);
    read_all_telemetry = raise (status_code status);
    read_capabilities = λ gpu. raise (status_code status);
    read_tuning_state = λ gpu. raise (status_code status);
    list_profiles = raise (status_code status);
    load_profile = λ p. raise (status_code status);
    reset_tuning = λ gpu. raise (status_code status);
    apply_control = λ gpu f v. raise (status_code status);
    apply_fan_curve = λ gpu c. raise (status_code status);
  }

  unfoldable pub combined : Interface W → Interface W → Interface W
  combined monitoring control = record {
    detect = monitoring.detect;
    get_version = monitoring.get_version;
    read_telemetry = monitoring.read_telemetry;
    read_all_telemetry = monitoring.read_all_telemetry;
    read_capabilities = control.read_capabilities;
    read_tuning_state = control.read_tuning_state;
    list_profiles = raise ErrorCode.interface_unavailable;
    load_profile = λ p. raise ErrorCode.interface_unavailable;
    reset_tuning = control.reset_tuning;
    apply_control = control.apply_control;
    apply_fan_curve = control.apply_fan_curve;
  }
