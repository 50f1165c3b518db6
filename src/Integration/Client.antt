-- ===== src/Integration/Client.antt =====
-- `AfterburnerClient` (afterburner/integration/client.py): every failure of the adapter becomes a
-- typed error.
use afterburner_gassist_plug.Base.{String, ◌≢◌, Option, none, some, List}
use afterburner_gassist_plug.Int.{ℤ}
use afterburner_gassist_plug.Float.{Float}
use afterburner_gassist_plug.Exec.{Exec, Result, ok, err, crash, ErrorCode, pure, raise}
use afterburner_gassist_plug.Models.{
  InterfaceStatus, ControlFeature, GpuCapabilities, GpuTelemetry, TuningState, FanCurve, Profile,
  ControlResult,
}
use afterburner_gassist_plug.Interface.{Interface}

abbrev pub typed : {A : Type 0} → Result A → Result A
typed (ok a) = ok a
typed (err e) = err e
typed crash = err ErrorCode.comm_failure

-- `_guard`; the services wrap their operations in the same handler, `_typed`.
abbrev pub guard : {W A : Type 0} → Exec W A → Exec W A
guard m w = (typed (m w).0, (m w).1)

module _ {W : Type 0} where
  -- `self._interface()`, then the guarded call of one of its methods
  abbrev call : {A : Type 0} → Option (Interface W) → (Interface W → Exec W A) → Exec W A
  call none f = raise ErrorCode.interface_unavailable
  call (some i) f = guard (f i)

  unfoldable pub detect : Option (Interface W) → Exec W InterfaceStatus
  detect none = pure InterfaceStatus.not_installed
  detect (some i) = guard i.detect

  unfoldable pub get_version : Option (Interface W) → Exec W (Option String)
  get_version none = pure none
  get_version (some i) = guard i.get_version

  unfoldable pub read_telemetry : Option (Interface W) → ℤ → Exec W GpuTelemetry
  read_telemetry c gpu = call c (λ i. i.read_telemetry gpu)

  unfoldable pub read_all_telemetry : Option (Interface W) → Exec W (List GpuTelemetry)
  read_all_telemetry c = call c (λ i. i.read_all_telemetry)

  unfoldable pub read_capabilities : Option (Interface W) → ℤ → Exec W GpuCapabilities
  read_capabilities c gpu = call c (λ i. i.read_capabilities gpu)

  unfoldable pub read_tuning_state : Option (Interface W) → ℤ → Exec W TuningState
  read_tuning_state c gpu = call c (λ i. i.read_tuning_state gpu)

  unfoldable pub list_profiles : Option (Interface W) → Exec W (List Profile)
  list_profiles c = call c (λ i. i.list_profiles)

  unfoldable pub apply_control :
      Option (Interface W) → ℤ → ControlFeature → Float → Exec W ControlResult
  apply_control c gpu feature value = call c (λ i. i.apply_control gpu feature value)

  unfoldable pub apply_fan_curve : Option (Interface W) → ℤ → FanCurve → Exec W ControlResult
  apply_fan_curve c gpu curve = call c (λ i. i.apply_fan_curve gpu curve)

  unfoldable pub load_profile : Option (Interface W) → ℤ → Exec W ControlResult
  load_profile c profile_id = call c (λ i. i.load_profile profile_id)

  unfoldable pub reset_tuning : Option (Interface W) → ℤ → Exec W ControlResult
  reset_tuning c gpu = call c (λ i. i.reset_tuning gpu)

-- A guarded call never ends in an exception that is not typed.
pub guard_total : {W A : Type 0} (m : Exec W A) (w : W) → (guard m w).0 ≢ crash
guard_total m w = not_crash (m w).0
  where
    not_crash : {A : Type 0} (r : Result A) → typed r ≢ crash
    not_crash (ok a) h = cc
    not_crash (err e) h = cc
    not_crash crash h = cc
