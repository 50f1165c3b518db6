-- ===== src/Monitor/Sample.antt =====
-- `telemetry_from_snapshot` (afterburner/integration/mahm.py): one reading of a GPU from the sources that
-- Afterburner samples for it.
use text.Mathlib.Text.{◌==◌ as str_eq}
use afterburner_gassist_plug.Base.{
  ℕ, zero, suc, ◌*◌, String, false, not, Option, none, some, List, [], ◌∷◌, ltb, ◌||◌, ◌==◌,
  if◌then◌else◌,
}
use afterburner_gassist_plug.Int.{ℤ, pos, negsuc}
use afterburner_gassist_plug.Float.{Float, whole, is_finite, float_abs, float_le, Rounding, unit}
use afterburner_gassist_plug.Exec.{Result, ok, err, ErrorCode}
use afterburner_gassist_plug.Models.{GpuTelemetry}
use afterburner_gassist_plug.Monitor.Parse.{MahmEntry, MahmGpu, MahmSnapshot}

-- the literal 1.0e30, as the double that it denotes
abbrev pub unavailable_threshold : Float
unavailable_threshold = whole 1000000000000000019884624838656

unfoldable pub available : Float → Option Float
available x =
    if not (is_finite x) || float_le unavailable_threshold (float_abs x) then none else some x

-- `next((e for e in gpu.entries if e.src_id == src_id), None)`
unfoldable pub find_source : ℕ → List MahmEntry → Option MahmEntry
find_source id [] = none
find_source id (e ∷ rest) = if e.src_id == id then some e else find_source id rest

-- the value of a field: of the first of its sources that the GPU has, available or not
unfoldable pub sensor : List ℕ → List MahmEntry → Option Float
sensor [] entries = none
sensor (id ∷ ids) entries =
    let later = sensor ids entries in
    elim (find_source id entries) [ none ↦ later | some e ↦ available e.value ]

-- `a or b`
abbrev pub or_text : String → String → String
or_text a b = if str_eq a "" then b else a

abbrev pub nth : ℕ → List MahmGpu → Option MahmGpu
nth n [] = none
nth zero (g ∷ gs) = some g
nth (suc n) (g ∷ gs) = nth n gs

abbrev pub gpu_of : ℤ → List MahmGpu → Option MahmGpu
gpu_of (pos n) gpus = nth n gpus
gpu_of (negsuc _) gpus = none

-- `number` is the text of an index; `now` the wall-clock reading
module _ (rnd : Rounding) (number : ℤ → String) (now : ℕ) where
  unfoldable pub sample : ℤ → MahmGpu → GpuTelemetry
  sample index g = record {
    gpu_index = index;
    gpu_name = or_text g.device (or_text g.family (or_text g.gpu_id (number index)));
    driver_version = if str_eq g.driver "" then none else some g.driver;
    temperature_c = sensor (0 ∷ []) g.entries;
    hotspot_c = none;
    utilization_pct = sensor (48 ∷ []) g.entries;
    core_clock_mhz = sensor (32 ∷ []) g.entries;
    memory_clock_mhz = sensor (34 ∷ []) g.entries;
    voltage_mv = sensor (64 ∷ []) g.entries;
    power_watts = sensor (97 ∷ []) g.entries;
    power_limit_pct = sensor (113 ∷ []) g.entries;
    fan_percent = sensor (16 ∷ 18 ∷ 20 ∷ []) g.entries;
    fan_rpm = sensor (17 ∷ 19 ∷ 21 ∷ []) g.entries;
    memory_used_mb = sensor (49 ∷ []) g.entries;
    memory_total_mb =
        if ltb 0 g.mem_amount_kb
        then some (rnd.quotient (pos (g.mem_amount_kb * unit)) (pos (1024 * unit)))
        else none;
    sampled_at = now;
    is_stale = false;
  }

  unfoldable pub telemetry_from_snapshot : MahmSnapshot → ℤ → Result GpuTelemetry
  telemetry_from_snapshot s index = elim (gpu_of index s.gpus) [
    | none ↦ err ErrorCode.unsupported_gpu
    | some g ↦ ok (sample index g)
  ]
