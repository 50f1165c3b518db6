-- ===== src/Tests/Bench.antt =====
-- A small Afterburner for the tests: one GPU whose temperature falls by `drop` with each write.
use afterburner_gassist_plug.Base.{ℕ, suc, ◌+◌, ◌-◌, ◌*◌, true, false, none, some, [], arith}
use afterburner_gassist_plug.Int.{ℤ, pos, ◌+ℤ◌}
use afterburner_gassist_plug.Float.{fin, unit, Rounding}
use afterburner_gassist_plug.Exec.{ok, err, ErrorCode}
use afterburner_gassist_plug.Models.{
  InterfaceStatus, ControlFeature, GpuLimits, GpuCapabilities, GpuTelemetry, TuningState, FanMode,
  ControlResult,
}
use afterburner_gassist_plug.Interface.{Interface, Host}
use afterburner_gassist_plug.Services.Optimize.Steps.{IsAccurate, percent}

pub record Bench : Type 0 where
  pub temp : ℕ
  pub writes : ℕ
  pub resets : ℕ

abbrev pub start : Bench
start = record { temp = 2; writes = 0; resets = 0 }

-- arithmetic on exact numbers
abbrev pub exact : Rounding
exact = record {
  round = fin;
  product = λ a b. fin a;
  quotient = λ a b. fin a;
  of_int = λ n. some (fin n);
  of_text = λ s. none;
}

pub exact-IsAccurate : IsAccurate exact
unfolding ◌+ℤ◌ unit
exact-IsAccurate n h = (n + 20 * unit, ground arith, omega arith, omega arith)

abbrev pub limits : ℕ → ℕ → GpuLimits
limits lo hi = record {
  power_limit_pct = none;
  core_offset_mhz = none;
  memory_offset_mhz = none;
  voltage_mv = none;
  fan_percent = some (percent lo hi);
  fan_temp_c = some (percent 0 100);
  fan_curve_max_points = some 8;
}

abbrev pub caps : ℕ → ℕ → GpuCapabilities
caps lo hi = record {
  gpu_index = pos 0;
  gpu_name = "bench";
  supported_controls = λ _. true;
  limits = limits lo hi;
  control_interface_status = InterfaceStatus.ok;
}

abbrev pub telemetry : ℕ → GpuTelemetry
telemetry temp = record {
  gpu_index = pos 0;
  gpu_name = "bench";
  driver_version = none;
  temperature_c = some (fin (pos (suc temp)));
  hotspot_c = none;
  utilization_pct = some (fin (pos 0));
  core_clock_mhz = some (fin (pos 1));
  memory_clock_mhz = none;
  voltage_mv = none;
  power_watts = none;
  power_limit_pct = none;
  fan_percent = none;
  fan_rpm = none;
  memory_used_mb = none;
  memory_total_mb = none;
  sampled_at = 0;
  is_stale = false;
}

abbrev pub tuning : ℕ → TuningState
tuning fan = record {
  gpu_index = pos 0;
  power_limit_pct = none;
  core_offset_mhz = none;
  memory_offset_mhz = none;
  voltage_mv = none;
  fan_mode = FanMode.auto;
  fan_percent = some (fin (pos fan));
}

abbrev pub result : ControlFeature → ControlResult
result f = record {
  feature = f;
  requested_value = none;
  applied_value = none;
  clamped = false;
  applied = true;
  replaced_value = none;
}

abbrev pub bench : ℕ → ℕ → ℕ → ℕ → Interface Bench
bench lo hi fan drop = record {
  detect = λ w. (ok InterfaceStatus.ok, w);
  get_version = λ w. (ok none, w);
  read_telemetry = λ gpu w. (ok (telemetry w.temp), w);
  read_all_telemetry = λ w. (ok [], w);
  read_capabilities = λ gpu w. (ok (caps lo hi), w);
  read_tuning_state = λ gpu w. (ok (tuning fan), w);
  list_profiles = λ w. (ok [], w);
  load_profile = λ p w. (ok (result ControlFeature.profile_load), w);
  reset_tuning =
      λ gpu w. (ok (result ControlFeature.profile_reset), record w { resets = suc w.resets });
  apply_control =
      λ gpu f v w. (ok (result f), record w { temp = w.temp - drop; writes = suc w.writes });
  apply_fan_curve =
      λ gpu c w. (ok (result ControlFeature.fan_curve), record w { writes = suc w.writes });
}

-- a bench that reports no running Afterburner
abbrev pub silent : Interface Bench
silent = record (bench 3 9 5 1) { detect = λ w. (ok InterfaceStatus.not_running, w) }

-- a bench whose readings fail
abbrev pub broken : Interface Bench
broken = record (bench 3 9 5 1) { read_telemetry = λ gpu w. (err ErrorCode.comm_failure, w) }

abbrev pub host : Host Bench
host = record { clock = λ w. (5, w); now = λ w. (7, w); sleep = λ n w. w }

abbrev pub gpu : ℤ
gpu = pos 0
