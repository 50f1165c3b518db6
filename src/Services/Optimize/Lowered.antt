-- ===== src/Services/Optimize/Lowered.antt =====
-- What a success of `optimize_quiet` (afterburner/services/optimize.py) has done and read.
use afterburner_gassist_plug.Base.{ℕ, ◌≡◌, true, Option, some, []}
use afterburner_gassist_plug.Int.{ℤ}
use afterburner_gassist_plug.Float.{Float, is_finite, float_le, float_sub, Rounding}
use afterburner_gassist_plug.Exec.{ok}
use afterburner_gassist_plug.Models.{ControlFeature, ControlResult, GpuTelemetry}
use afterburner_gassist_plug.Interface.{Interface, Host}
use afterburner_gassist_plug.Integration.Client
use afterburner_gassist_plug.Services.Calls.{Calls}
use afterburner_gassist_plug.Services.Optimize.{
  Config, current_fan_setpoint, validate_fan, fan_only_result,
}

module _ {W : Type 0} (i : Interface W) (host : Host W) (timeout : ℕ) (rnd : Rounding)
    (cfg : Config) (gpu : ℤ) where
  -- A reading of the temperature `x`, taken after calls from `start` that wrote nothing, left `w'`.
  pub record IsRead (start : W) (x : Float) (w' : W) : Type 0 where
    pub at : W
    pub telemetry : GpuTelemetry
    pub unwritten : Calls i host gpu start [] at
    pub read : i.read_telemetry gpu at ≡ (ok telemetry, w')
    pub shown : telemetry.temperature_c ≡ some x
    pub finite : is_finite x ≡ true

  -- The calls of a successful run from `w`, one after the other: nothing is written until the fan's set
  -- point is read; that less the reduction is validated; what the validator gave is written, as the only
  -- write; and after calls that write nothing the last call is a reading at or below the limit.
  pub record IsLowered (w w' : W) (r : ControlResult) : Type 0 where
    pub at_start : W
    pub after_set_point : W
    pub after_check : W
    pub after_write : W
    pub current : Float
    pub safe : Float
    pub temperature : Float
    pub answer : ControlResult
    pub unwritten : Calls i host gpu w [] at_start
    pub measured : current_fan_setpoint (some i) gpu at_start ≡ (ok (some current), after_set_point)
    pub checked :
        validate_fan
          (some i)
          host
          timeout
          gpu
          (float_sub rnd current cfg.reduction_pts)
          after_set_point
        ≡ (ok safe, after_check)
    pub written :
        i.apply_control gpu ControlFeature.fan_percent safe after_check ≡ (ok answer, after_write)
    pub read : IsRead after_write temperature w'
    pub cool : float_le temperature cfg.quiet_temp_limit_c ≡ true
    pub reported : r ≡ fan_only_result safe true

  module _ (start : W) where
    -- a reading that has just been taken
    abbrev Polled : Option Float → W → Type 0
    Polled t w = Calls i host gpu start [] w × ((x : Float) → t ≡ some x → IsRead start x w)

    -- a success with the written value, on a reading at or below the limit
    abbrev IsCool : Float → ControlResult → W → Type 0
    IsCool safe r w' =
        (x : Float) × IsRead start x w'
        × (float_le x cfg.quiet_temp_limit_c ≡ true)
        × (r ≡ fan_only_result safe true)
