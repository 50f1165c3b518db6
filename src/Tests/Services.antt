-- ===== src/Tests/Services.antt =====
-- The optimisers, the cache of readings and the diagnosis on the bench.
use afterburner_gassist_plug.Base.{
  ◌+◌, ◌*◌, ◌<◌, ◌≡◌, ◌≢◌, inl, refl, true, not, ◌&&◌, none, some, [], ◌∷◌, arith, ltb,
}
use afterburner_gassist_plug.Int.{pos}
use afterburner_gassist_plug.Float.{fin, unit, whole}
use afterburner_gassist_plug.Value.{float}
use afterburner_gassist_plug.Dict.{int_eq, lookup}
use afterburner_gassist_plug.Exec.{Result, ok}
use afterburner_gassist_plug.Models.{inverted, clamp}
use afterburner_gassist_plug.Integration.Client
use afterburner_gassist_plug.Safety.Capabilities.{resolve, gated_supported}
use afterburner_gassist_plug.Safety.Validator.{validate_and_clamp, clamp_for, clamp_in}
use afterburner_gassist_plug.Services.Optimize.{
  Config, default_config, optimize_quiet, optimize_thermal, thermal_loop, validate_target,
  current_fan_setpoint, read_temp, validate_fan,
}
use afterburner_gassist_plug.Services.Optimize.FanOnly.{
  FanFrame, optimize_quiet-fan_only, optimize_thermal-fan_only,
}
use afterburner_gassist_plug.Services.Optimize.Verified.{optimize_thermal-verified}
use afterburner_gassist_plug.Services.Optimize.Termination.{optimize_thermal_ends}
use afterburner_gassist_plug.Services.Optimize.Steps.{percent}
use afterburner_gassist_plug.Services.Optimize.Divergence.{thermal_loop_diverges}
use afterburner_gassist_plug.Services.Telemetry.{Entry, Telemetry, flag, get_status}
use afterburner_gassist_plug.Services.Telemetry.Cache.{get_status-flag}
use afterburner_gassist_plug.Services.Diagnostics.{Format, diagnose_reading}
use afterburner_gassist_plug.Services.Diagnostics.Causes.{allows, diagnose_reading-allows}
use afterburner_gassist_plug.Tests.Bench.{
  Bench, start, exact, exact-IsAccurate, telemetry, bench, host, gpu,
}

-- nothing has been reset
abbrev Unreset : Bench → Type 0
Unreset w = w.resets ≡ 0

frame : FanFrame (bench 3 9 5 1) host 10 exact default_config Unreset gpu (percent 3 9)
frame = record {
  reads = record {
    on_clock = λ w h. h;
    on_detect = λ w h. h;
    on_capabilities = λ w h. h;
    fits = λ w caps h e r k. ground arith;
    fits_none = λ r k. absurd (cc);
  };
  proper = (refl, refl);
  on_sleep = λ n w h. h;
  on_telemetry = λ w h. h;
  on_tuning_state = λ w h. h;
  on_fan = λ v w c h. h;
}

optimize_quiet-fan_only_example :
    Unreset (optimize_quiet (some (bench 3 9 5 1)) host 10 exact default_config gpu start).1
optimize_quiet-fan_only_example =
    optimize_quiet-fan_only (bench 3 9 5 1) host 10 exact default_config frame start refl

optimize_thermal-fan_only_example :
    Unreset
      (optimize_thermal
        (some (bench 3 9 5 1))
        host
        10
        exact
        default_config
        4
        gpu
        (float (whole 50))
        start).1
optimize_thermal-fan_only_example =
    optimize_thermal-fan_only (bench 3 9 5 1) host 10 exact default_config frame 4
      (float (whole 50)) start refl

-- small limits, and no pause between readings
abbrev small : Config
small = record {
  quiet_temp_limit_c = fin (pos 9);
  reduction_pts = fin (pos 1);
  fan_step_pts = fin (pos 2);
  target_min_c = fin (pos 0);
  target_max_c = fin (pos 9);
  verify_timeout = 1;
  read_interval = 0;
}

-- the temperature, which the reading rounds up, is below 9
abbrev Cool : Bench → Type 0
Cool w = w.temp < 9

optimize_thermal-verified_example : Cool start
unfolding optimize_thermal validate_target Client.read_telemetry read_temp
optimize_thermal-verified_example =
    optimize_thermal-verified (bench 3 9 5 1) host 10 exact small gpu 4 (float (fin (pos 9)))
      (fin (pos 9)) Cool start start (λ w t x e k n l. ground arith) refl refl

optimize_thermal_ends_example :
    ((optimize_thermal
        (some (bench 0 (100 * unit) 5 1))
        host
        10
        exact
        default_config
        102
        gpu
        (float (whole 50))
        start).0
      ≢ ok none)
    × ((optimize_thermal
          (some (bench 0 (100 * unit) 5 1))
          host
          10
          exact
          default_config
          102
          gpu
          (float (whole 50))
          start).0
        ≢ Result.crash)
unfolding unit current_fan_setpoint Client.read_tuning_state
optimize_thermal_ends_example =
    optimize_thermal_ends (bench 0 (100 * unit) 5 1) host 10 exact exact-IsAccurate gpu 0
      (100 * unit) (omega arith) 102 (float (whole 50)) start (λ w caps e r k. ground arith) refl
      (λ w. (5, refl, omega arith)) (omega arith)

thermal_loop_diverges_example :
    (thermal_loop
      (some (bench 0 9 5 1))
      host
      10
      exact
      default_config
      6
      gpu
      (fin (pos 0))
      (fin (pos 9))
      (some (fin (pos 3)))
      start).0
    ≡ ok none
unfolding unit read_temp Client.read_telemetry validate_fan validate_and_clamp resolve clamp_for
    clamp_in gated_supported inverted clamp Client.apply_control
thermal_loop_diverges_example =
    thermal_loop_diverges (bench 0 9 5 1) host 10 exact gpu 0 9 (fin (pos 0)) 6 9
      (some (fin (pos 3))) start (λ v w f. ground arith) (λ v w. tt) (λ w. ground arith)
      exact-IsAccurate (omega arith) (omega arith) (omega arith) refl

abbrev entry : Entry
entry = record { reading = telemetry 3; polled_at = 4 }

abbrev warm : Telemetry Bench
warm = record { world = start; cache = (gpu, entry) ∷ []; last_attempt = []; poll_count = 1 }

get_status-flag_example : get_status (bench 3 9 5 1) host 2 1 9 gpu warm ≡ (
  ok (flag entry.reading (not (ltb 5 (4 + 2)) && ltb (4 + 9) 5)),
  record warm { world = start },
)
unfolding lookup
get_status-flag_example =
    get_status-flag (bench 3 9 5 1) host 2 1 9 gpu warm entry refl (inl (omega arith))

abbrev form : Format
form = record { fixed = λ n x. "4.0"; general = λ x. "3" }

diagnose_reading-allows_example :
    allows exact form
      (fin (pos 1))
      (fin (pos 3))
      30
      8
      (telemetry 4)
      (diagnose_reading exact form (fin (pos 1)) (fin (pos 3)) 30 8 (telemetry 4)).cause
    ≡ true
diagnose_reading-allows_example =
    diagnose_reading-allows exact form (fin (pos 1)) (fin (pos 3)) 30 8 (telemetry 4)
