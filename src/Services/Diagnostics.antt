-- ===== src/Services/Diagnostics.antt =====
-- `DiagnosticsService` (afterburner/services/diagnostics.py). An item of evidence is kept as the fields
-- that it names and the texts of its numbers, as Python formats them; the words around them are left out.
pub mod Causes
pub mod Quoting
use afterburner_gassist_plug.Base.{
  ℕ, ◌+◌, ◌*◌, String, Bool, true, false, not, ◌&&◌, ◌||◌, Option, none, some, List, [], ◌∷◌, ◌++◌,
  ltb, is_some, if◌then◌else◌,
}
use afterburner_gassist_plug.Int.{ℤ, pos}
use afterburner_gassist_plug.Float.{
  Float, fin, inf, neg_inf, nan, whole, unit, is_finite, float_lt, float_le, float_eq, Rounding,
}
use afterburner_gassist_plug.Exec.{Result, ok, err, crash, ErrorCode}
use afterburner_gassist_plug.Models.{DiagnosisCause, GpuTelemetry}

pub data Field : Type 0 where
  temperature_c fan_percent utilization_pct power_limit_pct power_watts voltage_mv : Field
  memory_used_mb memory_total_mb core_clock_mhz : Field

-- Python's `{x:.nf}` and `{x:g}`
pub record Format : Type 0 where
  pub fixed : ℕ → Float → String
  pub general : Float → String

pub data Evidence : Type 0 where
  -- a field and its value
  reading : Field → String → Evidence
  -- a field, its value and the limit that it has reached
  at_limit : Field → String → String → Evidence
  -- a field and its value, the field that bounds it and its value, and the percentage
  part_of : Field → String → Field → String → String → Evidence
  missing_fields : List Field → Evidence
  flagged_stale : Evidence
  too_old : ℕ → Evidence
  sampled : ℕ → Evidence
  read_failed : ErrorCode → Evidence
  no_limiter : Evidence

-- Confidence in hundredths.
pub record Diagnosis : Type 0 where
  pub cause : DiagnosisCause
  pub confidence : ℕ
  pub evidence : List Evidence

abbrev pub unknown : List Evidence → Diagnosis
unknown items = record {
  cause = DiagnosisCause.unknown_insufficient_data;
  confidence = 20;
  evidence = items;
}

abbrev pub result : DiagnosisCause → ℕ → List Evidence → Diagnosis
result cause confidence items = record { cause = cause; confidence = confidence; evidence = items }

-- `_missing_or_non_finite`
abbrev pub missing_or_non_finite : Option Float → Bool
missing_or_non_finite none = true
missing_or_non_finite (some x) = not (is_finite x)

-- The essential fields that cannot be trusted, in order.
abbrev pub missing : GpuTelemetry → List Field
missing t =
    (if missing_or_non_finite t.temperature_c then temperature_c ∷ [] else [])
    ++ ((if missing_or_non_finite t.utilization_pct then utilization_pct ∷ [] else [])
        ++ (if missing_or_non_finite t.core_clock_mhz then core_clock_mhz ∷ [] else []))

-- `_fmt`, with its digits
abbrev pub fmt : Format → ℕ → Option Float → String
fmt form digits none = "unavailable"
fmt form digits (some x) = form.fixed digits x

-- an item that is there where the value is not `None`
abbrev pub item : Format → ℕ → Field → Option Float → List Evidence
item form digits f none = []
item form digits f (some x) = reading f (form.fixed digits x) ∷ []

-- `value is not None and value >= bound`, and the other tests of `_classify`
abbrev pub at_least : Float → Option Float → Bool
at_least bound none = false
at_least bound (some x) = float_le bound x

abbrev pub at_most : Float → Option Float → Bool
at_most bound none = false
at_most bound (some x) = float_le x bound

abbrev pub below : Float → Option Float → Bool
below bound none = false
below bound (some x) = float_lt x bound

-- `a / b` for a `b` that is not zero
unfoldable pub divide : Rounding → Float → Float → Float
divide r (fin a) (fin b) = r.quotient a b
divide r (fin a) inf = fin (pos 0)
divide r (fin a) neg_inf = fin (pos 0)
divide r (fin a) nan = nan
divide r inf (fin b) = if float_lt (fin b) (whole 0) then neg_inf else inf
divide r inf inf = nan
divide r inf neg_inf = nan
divide r inf nan = nan
divide r neg_inf (fin b) = if float_lt (fin b) (whole 0) then inf else neg_inf
divide r neg_inf inf = nan
divide r neg_inf neg_inf = nan
divide r neg_inf nan = nan
divide r nan b = nan

module _ (rnd : Rounding) (form : Format) (vram_pressure_ratio thermal_limit_c : Float) where
  -- `mem_ratio is not None and mem_ratio >= VRAM_PRESSURE_RATIO`
  abbrev pub vram_pressed : Option Float → Option Float → Bool
  vram_pressed none total = false
  vram_pressed (some used) none = false
  vram_pressed (some used) (some total) =
      not (float_eq total (whole 0)) && float_le vram_pressure_ratio (divide rnd used total)

  abbrev pub is_thermal : GpuTelemetry → Bool
  is_thermal t = at_least thermal_limit_c t.temperature_c

  abbrev pub is_pinned : GpuTelemetry → Bool
  is_pinned t = at_least (whole 95) t.utilization_pct

  abbrev pub is_power : GpuTelemetry → Bool
  is_power t = is_pinned t && at_most (whole 100) t.power_limit_pct && is_some t.power_watts

  abbrev pub is_voltage : GpuTelemetry → Bool
  is_voltage t = is_pinned t && at_least (whole 1100) t.voltage_mv

  abbrev pub is_idle : GpuTelemetry → Bool
  is_idle t = below (whole 60) t.utilization_pct

  -- `mem_ratio * 100`
  abbrev pub per_cent : Float → Float
  per_cent (fin a) = rnd.product a (pos (100 * unit))
  per_cent inf = inf
  per_cent neg_inf = neg_inf
  per_cent nan = nan

  -- the evidence of `mem_ratio`
  abbrev pub memory_item : Option Float → Option Float → List Evidence
  memory_item none total = []
  memory_item (some used) none = []
  memory_item (some used) (some total) =
      part_of memory_used_mb (form.fixed 0 used) memory_total_mb (form.fixed 0 total)
        (form.fixed 0 (per_cent (divide rnd used total)))
      ∷ []

  -- the diagnoses of `_classify`
  abbrev pub thermal_found : GpuTelemetry → Diagnosis
  thermal_found t = result DiagnosisCause.thermal 80 (
      at_limit temperature_c (fmt form 1 t.temperature_c) (form.general thermal_limit_c)
      ∷ item form 1 fan_percent t.fan_percent)

  abbrev pub power_found : GpuTelemetry → Diagnosis
  power_found t = result DiagnosisCause.power 55 (
      reading utilization_pct (fmt form 1 t.utilization_pct)
      ∷ reading power_limit_pct (fmt form 1 t.power_limit_pct)
      ∷ reading power_watts (fmt form 1 t.power_watts)
      ∷ [])

  abbrev pub voltage_found : GpuTelemetry → Diagnosis
  voltage_found t = result DiagnosisCause.voltage 50 (
      reading utilization_pct (fmt form 1 t.utilization_pct)
      ∷ reading voltage_mv (fmt form 1 t.voltage_mv)
      ∷ [])

  abbrev pub memory_found : GpuTelemetry → Diagnosis
  memory_found t = result DiagnosisCause.app_behavior 50 (
      reading utilization_pct (fmt form 1 t.utilization_pct)
      ∷ memory_item t.memory_used_mb t.memory_total_mb)

  abbrev pub cpu_found : GpuTelemetry → Diagnosis
  cpu_found t = result DiagnosisCause.cpu_limited 45 (
      reading utilization_pct (fmt form 1 t.utilization_pct)
      ∷ item form 0 core_clock_mhz t.core_clock_mhz)

  abbrev pub gpu_found : GpuTelemetry → Diagnosis
  gpu_found t = result DiagnosisCause.utilization_bottleneck 60 (
      reading utilization_pct (fmt form 1 t.utilization_pct)
      ∷ item form 0 core_clock_mhz t.core_clock_mhz)

  abbrev pub none_found : GpuTelemetry → Diagnosis
  none_found t = unknown (
      item form 1 temperature_c t.temperature_c
      ++ (item form 1 utilization_pct t.utilization_pct ++ no_limiter ∷ []))

  unfoldable pub classify : GpuTelemetry → Diagnosis
  unfolding divide
  classify t =
      if is_thermal t
      then thermal_found t
      else if is_power t
      then power_found t
      else if is_voltage t
      then voltage_found t
      else if is_idle t
      then (if vram_pressed t.memory_used_mb t.memory_total_mb then memory_found t else cpu_found t)
      else if is_pinned t
      then gpu_found t
      else none_found t

  -- `diagnose_performance`, on what `get_status` answered: `now` is read only where no field is missing.
  unfoldable pub diagnose_reading : ℕ → ℕ → GpuTelemetry → Diagnosis
  diagnose_reading stale_after now t = elim (missing t) [
    | f ∷ fs ↦ unknown (missing_fields (f ∷ fs) ∷ sampled t.sampled_at ∷ [])
    | [] ↦
        if t.is_stale
        then unknown (flagged_stale ∷ [])
        else if ltb (t.sampled_at + stale_after) now
        then unknown (too_old stale_after ∷ sampled t.sampled_at ∷ [])
        else classify t
  ]

  unfoldable pub diagnose : ℕ → ℕ → Result GpuTelemetry → Result Diagnosis
  unfolding diagnose_reading
  diagnose stale_after now (ok t) = ok (diagnose_reading stale_after now t)
  diagnose stale_after now (err e) = ok (unknown (read_failed e ∷ []))
  diagnose stale_after now crash = crash
