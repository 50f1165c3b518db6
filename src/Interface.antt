-- ===== src/Interface.antt =====
-- `AfterburnerInterface` (afterburner/integration/interface.py), the boundary to MSI Afterburner:
-- every method may raise. The clocks and `sleep`, which the services take as arguments, stand beside
-- it as `Host`. Monotonic and wall-clock readings are whole ticks.
use afterburner_gassist_plug.Base.{ℕ, String, Option, List}
use afterburner_gassist_plug.Int.{ℤ}
use afterburner_gassist_plug.Float.{Float}
use afterburner_gassist_plug.Exec.{Exec}
use afterburner_gassist_plug.Models.{
  InterfaceStatus, ControlFeature, GpuCapabilities, GpuTelemetry, TuningState, FanCurve, Profile,
  ControlResult,
}

pub record Interface (W : Type 0) : Type 0 where
  pub detect : Exec W InterfaceStatus
  pub get_version : Exec W (Option String)
  pub read_telemetry : ℤ → Exec W GpuTelemetry
  pub read_all_telemetry : Exec W (List GpuTelemetry)
  pub read_capabilities : ℤ → Exec W GpuCapabilities
  pub read_tuning_state : ℤ → Exec W TuningState
  pub list_profiles : Exec W (List Profile)
  pub load_profile : ℤ → Exec W ControlResult
  pub reset_tuning : ℤ → Exec W ControlResult
  pub apply_control : ℤ → ControlFeature → Float → Exec W ControlResult
  pub apply_fan_curve : ℤ → FanCurve → Exec W ControlResult

pub record Host (W : Type 0) : Type 0 where
  pub clock : W → ℕ × W
  pub now : W → ℕ × W
  pub sleep : ℕ → W → W
