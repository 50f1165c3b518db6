-- ===== src/Monitor/Reading.antt =====
-- The readings of one GPU and the sources sampled for it (afterburner/integration/mahm.py).
use afterburner_gassist_plug.Base.{
  ℕ, zero, suc, ◌+◌, ◌*◌, ◌≡◌, refl, ap, true, inl, inr, Option, none, some, List, [], ◌∷◌, filter,
  arith, String, ◌==◌, Bool-cases, ◌∙◌, sym, subst,
}
use afterburner_gassist_plug.Int.{pos, negsuc}
use afterburner_gassist_plug.Float.{Float, Rounding}
use afterburner_gassist_plug.Exec.{Result, ok, err, crash, ErrorCode}
use afterburner_gassist_plug.Int.{ℤ}
use afterburner_gassist_plug.Dict.{elem, nat_eq}
use afterburner_gassist_plug.Models.{GpuTelemetry}
use afterburner_gassist_plug.Control.Words.{Region}
use afterburner_gassist_plug.Monitor.Parse.{
  MahmHeader, MahmEntry, MahmGpu, MahmSnapshot, gpus_from, gpu_at, parse_mahm, gpu_offset, validate,
  header_of, snapshot_of, parsed,
}
use afterburner_gassist_plug.Monitor.Sample.{
  find_source, sensor, nth, sample, telemetry_from_snapshot,
}
use afterburner_gassist_plug.Monitor.Sources.{IsShown, IsSampled, sensor-IsSampled}

abbrev pub entry_number : ℕ → List MahmEntry → Option MahmEntry
entry_number n [] = none
entry_number zero (e ∷ es) = some e
entry_number (suc n) (e ∷ es) = entry_number n es

-- Nothing, or the value of one of the entries `sources`, which is of GPU `i` and has one of the ids.
abbrev pub IsFrom : List MahmEntry → ℕ → List ℕ → Option Float → Type 0
IsFrom sources i ids none = Unit
IsFrom sources i ids (some x) =
    (n : ℕ) × (e : MahmEntry) × (entry_number n sources ≡ some e)
    × (e.gpu ≡ i)
    × (elem e.src_id ids ≡ true)
    × (e.value ≡ x)
    × IsShown x

-- each number of a reading that comes from a source
abbrev pub IsReading : List MahmEntry → ℕ → GpuTelemetry → Type 0
IsReading sources i t =
    IsFrom sources i (0 ∷ []) t.temperature_c
    × IsFrom sources i (48 ∷ []) t.utilization_pct
    × IsFrom sources i (32 ∷ []) t.core_clock_mhz
    × IsFrom sources i (34 ∷ []) t.memory_clock_mhz
    × IsFrom sources i (64 ∷ []) t.voltage_mv
    × IsFrom sources i (97 ∷ []) t.power_watts
    × IsFrom sources i (113 ∷ []) t.power_limit_pct
    × IsFrom sources i (16 ∷ 18 ∷ 20 ∷ []) t.fan_percent
    × IsFrom sources i (17 ∷ 19 ∷ 21 ∷ []) t.fan_rpm
    × IsFrom sources i (49 ∷ []) t.memory_used_mb

-- `e` is one of the entries, of GPU `i`, with the id
abbrev IsSourceOf : ℕ → ℕ → List MahmEntry → MahmEntry → Type 0
IsSourceOf i id sources e =
    (n : ℕ) × (entry_number n sources ≡ some e) × (e.gpu ≡ i) × (e.src_id ≡ id)

IsSourceOf-cons :
    (i id : ℕ) (x : MahmEntry) (xs : List MahmEntry) (e : MahmEntry)
    → IsSourceOf i id xs e
    → IsSourceOf i id (x ∷ xs) e
IsSourceOf-cons i id x xs e (n, at, g, s) = (suc n, at, g, s)

find_source-filter :
    (i id : ℕ) (sources : List MahmEntry) (e : MahmEntry)
    → find_source id (filter (λ x. x.gpu == i) sources) ≡ some e
    → IsSourceOf i id sources e
unfolding find_source
find_source-filter i id [] e h = absurd (cc)
find_source-filter i id (x ∷ xs) e h =
    let later = IsSourceOf-cons i id x xs e in
    let rest = find_source-filter i id xs e in
    elim (Bool-cases (x.gpu == i)) [
      | inl g ↦ elim (Bool-cases (x.src_id == id)) [
        | inl s ↦ (zero, ground arith, ground arith, ground arith)
        | inr s ↦ later (rest (ground arith))
      ]
      | inr g ↦ later (rest (ground arith))
    ]

sensor-IsFrom :
    (sources : List MahmEntry) (i : ℕ) (ids : List ℕ)
    → IsFrom sources i ids (sensor ids (filter (λ x. x.gpu == i) sources))
sensor-IsFrom sources i ids =
    from (sensor ids (filter (λ x. x.gpu == i) sources))
      (sensor-IsSampled ids (filter (λ x. x.gpu == i) sources))
  where
    from :
        (o : Option Float)
        → IsSampled ids (filter (λ x. x.gpu == i) sources) o
        → IsFrom sources i ids o
    from none h = tt
    from (some x) (id, e, m, f, v, shown) =
        let (n, at, g, s) = find_source-filter i id sources e f in
        (n, e, at, g, ap (λ k. elem k ids) s ∙ m, v, shown)

-- the GPUs of a snapshot have the entries that name them
module _ (decode : List ℕ → String) (r : Region) (h : MahmHeader) (sources : List MahmEntry) where
  nth-gpus_from :
      (j k n : ℕ) (g : MahmGpu)
      → nth k (gpus_from decode r h sources j n) ≡ some g
      → g.entries ≡ filter (λ x. x.gpu == j + k) sources
  unfolding gpus_from gpu_at
  nth-gpus_from j k zero g e = absurd (cc)
  nth-gpus_from j zero (suc n) g e =
      let found : gpu_at decode r sources j (gpu_offset h + j * h.gpu_entry_bytes) ≡ g = cc in
      let same : j ≡ j + 0 = omega arith in
      sym (ap (λ (x : MahmGpu). x.entries) found) ∙ ap (λ m. filter (λ x. x.gpu == m) sources) same
  nth-gpus_from j (suc k) (suc n) g e =
      let same : j + 1 + k ≡ j + suc k = omega arith in
      nth-gpus_from (j + 1) k n g e ∙ ap (λ m. filter (λ x. x.gpu == m) sources) same

sample-IsReading :
    (rnd : Rounding) (number : ℤ → String) (now : ℕ) (index : ℤ) (g : MahmGpu)
    (sources : List MahmEntry) (i : ℕ)
    → g.entries ≡ filter (λ x. x.gpu == i) sources
    → IsReading sources i (sample rnd number now index g)
unfolding sample
sample-IsReading rnd number now index g sources i h =
    let field : (ids : List ℕ) → IsFrom sources i ids (sensor ids g.entries) = λ ids.
      subst (λ es. IsFrom sources i ids (sensor ids es)) (sym h) (sensor-IsFrom sources i ids) in
    (field _, field _, field _, field _, field _, field _, field _, field _, field _, field _)

parsed-lem :
    (decode : List ℕ → String) (o : Result (Unit {0})) (a s : MahmSnapshot)
    → parsed decode o a ≡ ok s
    → a ≡ s
parsed-lem decode (ok _) a s h = cc
parsed-lem decode (err e) a s h = absurd (cc)
parsed-lem decode crash a s h = absurd (cc)

module _ (decode : List ℕ → String) (rnd : Rounding) (number : ℤ → String) (now : ℕ) where
  read-IsReading :
      (r : Region) (i : ℕ) (s : MahmSnapshot) (t : GpuTelemetry) (o : Option MahmGpu)
      → snapshot_of decode r (header_of r) ≡ s
      → nth i s.gpus ≡ o
      → ◌≡◌ {A = Result GpuTelemetry}
          (elim o [
            | none ↦ err ErrorCode.unsupported_gpu
            | some g ↦ ok (sample rnd number now (pos i) g)
          ])
          (ok t)
      → IsReading s.sources i t
  read-IsReading r i s t none h k e = absurd (cc)
  read-IsReading r i s t (some g) h k e =
      let all = s.sources in
      let found : nth i (gpus_from decode r (header_of r) all 0 (header_of r).num_gpu_entries)
          ≡ some g =
        subst
          (λ x.
            nth i (gpus_from decode r (header_of r) x.sources 0 (header_of r).num_gpu_entries)
            ≡ some g)
          h (ap (λ x. nth i x.gpus) h ∙ k) in
      let own = nth-gpus_from decode r (header_of r) all 0 i _ g found in
      let zeros : 0 + i ≡ i = omega arith in
      let made : sample rnd number now (pos i) g ≡ t = cc in
      subst (IsReading all i) made (
        sample-IsReading rnd number now (pos i) g all i
          (own ∙ ap (λ m. filter (λ x. x.gpu == m) all) zeros))

  -- For every region that parses and every index for which its snapshot gives a reading: the index is a
  -- number `i`, not negative, and each sampled number of the reading is missing, or the value, finite and
  -- below the mark for one that is not available, of an entry of the snapshot that names GPU `i` and has
  -- one of the source ids of that number.
  pub telemetry_from_snapshot-IsReading :
      (r : Region) (index : ℤ) (s : MahmSnapshot) (t : GpuTelemetry)
      → parse_mahm decode r ≡ ok s
      → telemetry_from_snapshot rnd number now s index ≡ ok t
      → (i : ℕ) × (index ≡ pos i) × IsReading s.sources i t
  unfolding parse_mahm telemetry_from_snapshot
  telemetry_from_snapshot-IsReading r (pos i) s t p e =
      (i, refl, read-IsReading r i s t (nth i s.gpus) (parsed-lem decode (validate r) _ s p) refl e)
  telemetry_from_snapshot-IsReading r (negsuc n) s t p e = absurd (cc)
