-- ===== src/Tests/Monitor.antt =====
-- The monitoring adapter on a region with one source and one GPU.
use afterburner_gassist_plug.Base.{ℕ, ◌+◌, ◌≤◌, ◌≡◌, refl, arith, List, String, some, ◌↔◌}
use afterburner_gassist_plug.Int.{ℤ, pos}
use afterburner_gassist_plug.Models.{GpuTelemetry}
use afterburner_gassist_plug.Float.{whole, unit}
use afterburner_gassist_plug.Control.Words.{Region, put32, u32}
use afterburner_gassist_plug.Monitor.Parse.{
  mahm_signature, mahm_version, header_size, header_of, MahmSnapshot, snapshot_of, gpu_at, entry_at,
  entries_from, gpus_from, parse_mahm, float_of_bits, validate, check_header, region_end,
  gpu_offset,
}
use afterburner_gassist_plug.Monitor.Sample.{
  sample, sensor, available, find_source, telemetry_from_snapshot,
}
use afterburner_gassist_plug.Monitor.Reading.{IsReading, telemetry_from_snapshot-IsReading}
use afterburner_gassist_plug.Monitor.View.{snapshot_from_map, snapshot_from_map-parse_mahm}
use afterburner_gassist_plug.Exec.{ok}
use afterburner_gassist_plug.Tests.Bench.{exact}
use afterburner_gassist_plug.Monitor.Bounds.{validate-inside, gpu, element_start, element_size}

abbrev region : Region
region = put32 0 mahm_signature (
    put32 4 mahm_version (
      put32 8 32 (
        put32 12 1 (
          put32 16 1324 (
            put32 24 1
              (put32 1332 1115815936 (put32 28 1304 (record { size = 2660; byte = λ _. 0 }))))))))

validate-inside_example :
    (header_size ≤ element_start (header_of region) (gpu 0))
    × (element_start (header_of region) (gpu 0) + element_size (gpu 0) ≤ region.size)
unfolding put32 u32 validate check_header region_end gpu_offset
validate-inside_example = validate-inside region (gpu 0) refl (omega arith)

abbrev no_text : List ℕ → String
no_text _ = ""

abbrev no_number : ℤ → String
no_number _ = "GPU"

abbrev snapshot : MahmSnapshot
snapshot = snapshot_of no_text region (header_of region)

abbrev reading : GpuTelemetry
reading = sample exact no_number 7 (pos 0) (gpu_at no_text region snapshot.sources 0 1356)

-- 65 degrees
temperature_read : reading.temperature_c ≡ some (whole 65)
unfolding sample sensor available find_source gpu_at entries_from entry_at float_of_bits put32 u32
    unit
temperature_read = refl

telemetry_from_snapshot-IsReading_example :
    (i : ℕ) × (pos 0 ≡ pos i) × IsReading snapshot.sources i reading
unfolding put32 u32 validate check_header region_end gpu_offset parse_mahm telemetry_from_snapshot
    gpus_from entries_from
telemetry_from_snapshot-IsReading_example =
    telemetry_from_snapshot-IsReading no_text exact no_number 7 region (pos 0) snapshot reading refl
      refl

snapshot_from_map-parse_mahm_example :
    snapshot_from_map no_text region ≡ ok snapshot ↔ parse_mahm no_text region ≡ ok snapshot
snapshot_from_map-parse_mahm_example = snapshot_from_map-parse_mahm no_text region snapshot
