-- ===== src/Integration/Adapters/Degraded.antt =====
-- Without an Afterburner every write is refused (afterburner/integration/fallback.py, combined.py).
use afterburner_gassist_plug.Base.{ℕ, ◌≡◌, false, arith}
use afterburner_gassist_plug.Int.{ℤ}
use afterburner_gassist_plug.Float.{Float}
use afterburner_gassist_plug.Exec.{ok, err, ErrorCode}
use afterburner_gassist_plug.Models.{InterfaceStatus, ControlFeature, is_ok}
use afterburner_gassist_plug.Interface.{Interface, Host}
use afterburner_gassist_plug.Safety.Capabilities.{resolve}
use afterburner_gassist_plug.Safety.Validator.{clamp_for, validate_and_clamp}
use afterburner_gassist_plug.Integration.Adapters.{unavailable, combined}

module _ {W : Type 0} (host : Host W) (timeout : ℕ) where
  -- Behind the interface that stands in for a missing Afterburner, whatever status it reports, every
  -- value of every control is refused by the validator as unsupported.
  pub validate_and_clamp-unavailable :
      (status : InterfaceStatus) (gpu : ℤ) (f : ControlFeature) (v : Float) (w : W)
      → (validate_and_clamp (unavailable status) host timeout gpu f v w).0
        ≡ err ErrorCode.unsupported_feature
  unfolding validate_and_clamp resolve unavailable clamp_for
  validate_and_clamp-unavailable status gpu f v w = ground arith

  -- While the monitoring adapter does not report OK, the validator refuses every value of every
  -- control as unsupported, without a call of the control adapter.
  pub validate_and_clamp-combined :
      (monitoring control : Interface W) (gpu : ℤ) (f : ControlFeature) (v : Float) (w w' : W)
      (status : InterfaceStatus)
      → monitoring.detect (host.clock w).1 ≡ (ok status, w')
      → is_ok status ≡ false
      → validate_and_clamp (combined monitoring control) host timeout gpu f v w
        ≡ (err ErrorCode.unsupported_feature, (host.clock w').1)
  unfolding validate_and_clamp resolve combined clamp_for
  validate_and_clamp-combined monitoring control gpu f v w w' status d k = ground arith
