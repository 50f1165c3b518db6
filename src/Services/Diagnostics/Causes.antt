-- ===== src/Services/Diagnostics/Causes.antt =====
-- The cause that `DiagnosticsService` infers (afterburner/services/diagnostics.py).
use afterburner_gassist_plug.Base.{
  ℕ, ◌+◌, ◌≡◌, Bool, true, false, not, ◌&&◌, arith, ltb, if◌then◌else◌,
}
use afterburner_gassist_plug.Float.{Float, Rounding}
use afterburner_gassist_plug.Models.{DiagnosisCause, GpuTelemetry}
use afterburner_gassist_plug.Services.Diagnostics.{
  Format, missing_or_non_finite, vram_pressed, is_thermal, is_pinned, is_power, is_voltage, is_idle,
  classify, diagnose_reading,
}

-- The three essential fields are present and finite, and the reading is neither flagged nor too old.
abbrev pub trusted : ℕ → ℕ → GpuTelemetry → Bool
trusted stale_after now t =
    not (missing_or_non_finite t.temperature_c)
    && (not (missing_or_non_finite t.utilization_pct)
        && (not (missing_or_non_finite t.core_clock_mhz)
            && (not t.is_stale && not (ltb (t.sampled_at + stale_after) now))))

module _ (rnd : Rounding) (form : Format) (vram_pressure_ratio thermal_limit_c : Float) where
  -- What a trusted reading shows where a cause is named.
  abbrev pub shows : DiagnosisCause → GpuTelemetry → Bool
  shows DiagnosisCause.thermal t = is_thermal rnd form vram_pressure_ratio thermal_limit_c t
  shows DiagnosisCause.power t =
      not (is_thermal rnd form vram_pressure_ratio thermal_limit_c t)
      && is_power rnd form vram_pressure_ratio thermal_limit_c t
  shows DiagnosisCause.voltage t =
      not (is_thermal rnd form vram_pressure_ratio thermal_limit_c t)
      && (not (is_power rnd form vram_pressure_ratio thermal_limit_c t)
          && is_voltage rnd form vram_pressure_ratio thermal_limit_c t)
  shows DiagnosisCause.utilization_bottleneck t =
      not (is_thermal rnd form vram_pressure_ratio thermal_limit_c t)
      && (is_pinned rnd form vram_pressure_ratio thermal_limit_c t
          && (not (is_power rnd form vram_pressure_ratio thermal_limit_c t)
              && not (is_voltage rnd form vram_pressure_ratio thermal_limit_c t)))
  shows DiagnosisCause.cpu_limited t =
      not (is_thermal rnd form vram_pressure_ratio thermal_limit_c t)
      && (is_idle rnd form vram_pressure_ratio thermal_limit_c t
          && not (
              vram_pressed rnd form vram_pressure_ratio thermal_limit_c t.memory_used_mb
                t.memory_total_mb))
  shows DiagnosisCause.app_behavior t =
      not (is_thermal rnd form vram_pressure_ratio thermal_limit_c t)
      && (is_idle rnd form vram_pressure_ratio thermal_limit_c t
          && vram_pressed rnd form vram_pressure_ratio thermal_limit_c t.memory_used_mb
              t.memory_total_mb)
  shows DiagnosisCause.unknown_insufficient_data t =
      not (is_thermal rnd form vram_pressure_ratio thermal_limit_c t)
      && (not (is_idle rnd form vram_pressure_ratio thermal_limit_c t)
          && not (is_pinned rnd form vram_pressure_ratio thermal_limit_c t))

  abbrev is_unknown : DiagnosisCause → Bool
  is_unknown DiagnosisCause.unknown_insufficient_data = true
  is_unknown DiagnosisCause.thermal = false
  is_unknown DiagnosisCause.power = false
  is_unknown DiagnosisCause.voltage = false
  is_unknown DiagnosisCause.utilization_bottleneck = false
  is_unknown DiagnosisCause.cpu_limited = false
  is_unknown DiagnosisCause.app_behavior = false

  -- The verdict that a reading allows: an untrusted one allows only "unknown".
  abbrev pub allows : ℕ → ℕ → GpuTelemetry → DiagnosisCause → Bool
  allows stale_after now t c = if trusted stale_after now t then shows c t else is_unknown c

  classify-shows :
      (t : GpuTelemetry)
      → shows (classify rnd form vram_pressure_ratio thermal_limit_c t).cause t ≡ true
  unfolding classify
  classify-shows t = ground arith

  -- The cause of a diagnosis is one that its reading allows: an untrusted reading (an essential field
  -- missing or not finite, flagged stale, or too old) gives "unknown", and a trusted one a cause whose
  -- own test holds and whose more urgent causes are excluded.
  pub diagnose_reading-allows :
      (stale_after now : ℕ) (t : GpuTelemetry)
      → allows stale_after now t
          (diagnose_reading rnd form vram_pressure_ratio thermal_limit_c stale_after now t).cause
        ≡ true
  unfolding diagnose_reading
  diagnose_reading-allows stale_after now t = let shown = classify-shows t in ground arith
