-- ===== src/Services/Diagnostics/Quoting.antt =====
-- The evidence of a diagnosis (afterburner/services/diagnostics.py).
use afterburner_gassist_plug.Base.{
  ℕ, ◌≤◌, ◌≡◌, true, List, [], ◌∷◌, is_some, String, Option, none, some,
}
use afterburner_gassist_plug.Float.{Float, Rounding, float_le}
use afterburner_gassist_plug.Models.{GpuTelemetry}
use afterburner_gassist_plug.Services.Diagnostics.{
  Format, fmt, divide, per_cent, at_limit, part_of, missing_or_non_finite, Field, temperature_c,
  fan_percent, utilization_pct, power_limit_pct, power_watts, voltage_mv, memory_used_mb,
  memory_total_mb, core_clock_mhz, Evidence, reading, missing_fields, flagged_stale, too_old,
  sampled, read_failed, no_limiter, Diagnosis,
}

abbrev pub field : Field → GpuTelemetry → Option Float
field temperature_c t = t.temperature_c
field fan_percent t = t.fan_percent
field utilization_pct t = t.utilization_pct
field power_limit_pct t = t.power_limit_pct
field power_watts t = t.power_watts
field voltage_mv t = t.voltage_mv
field memory_used_mb t = t.memory_used_mb
field memory_total_mb t = t.memory_total_mb
field core_clock_mhz t = t.core_clock_mhz

module _ (rnd : Rounding) (form : Format) (vram_pressure_ratio thermal_limit_c : Float)
    (stale_after : ℕ) where
  -- The text is the value of the field, which the reading has, to some number of digits.
  abbrev pub IsQuoted : GpuTelemetry → Field → String → Type 0
  IsQuoted t f s = (is_some (field f t) ≡ true) × ((digits : ℕ) × (s ≡ fmt form digits (field f t)))

  abbrev pub AreMissing : GpuTelemetry → List Field → Type 0
  AreMissing t [] = Unit {0}
  AreMissing t (f ∷ fs) = (missing_or_non_finite (field f t) ≡ true) × AreMissing t fs

  -- `p` is the percentage that the value `o` is of the value `q`, and is at the pressure ratio.
  abbrev pub IsPart : Option Float → Option Float → String → Type 0
  IsPart none q p = Unit {0}
  IsPart (some x) none p = Unit {0}
  IsPart (some x) (some y) p =
      (p ≡ form.fixed 0 (per_cent rnd form vram_pressure_ratio thermal_limit_c (divide rnd x y)))
      × (float_le vram_pressure_ratio (divide rnd x y) ≡ true)

  -- the reading's value of the field is at the limit
  abbrev pub IsAtLimit : Option Float → Type 0
  IsAtLimit none = Unit {0}
  IsAtLimit (some x) = float_le thermal_limit_c x ≡ true

  -- What an item of evidence says is so.
  abbrev pub IsTrue : GpuTelemetry → Evidence → Type 0
  IsTrue t (reading f s) = IsQuoted t f s
  IsTrue t (at_limit f s l) =
      IsQuoted t f s × (l ≡ form.general thermal_limit_c) × IsAtLimit (field f t)
  IsTrue t (part_of f s g l p) = IsQuoted t f s × IsQuoted t g l × IsPart (field f t) (field g t) p
  IsTrue t (missing_fields fs) = AreMissing t fs
  IsTrue t flagged_stale = t.is_stale ≡ true
  IsTrue t (too_old n) = n ≡ stale_after
  IsTrue t (sampled n) = n ≡ t.sampled_at
  IsTrue t (read_failed e) = Unit {0}
  IsTrue t no_limiter = Unit {0}

  abbrev pub AreTrue : GpuTelemetry → List Evidence → Type 0
  AreTrue t [] = Unit {0}
  AreTrue t (e ∷ es) = IsTrue t e × AreTrue t es

  -- a diagnosis whose evidence is so, with a confidence between 20 and 80 hundredths
  pub record Honest (t : GpuTelemetry) (d : Diagnosis) : Type 0 where
    pub evidence_true : AreTrue t d.evidence
    pub low : 20 ≤ d.confidence
    pub high : d.confidence ≤ 80
