-- ===== src/Monitor/Bounds.antt =====
-- The bounds of the entries of the monitoring region (afterburner/integration/mahm.py).
use native.Mathlib.Nat.{mul-le-mul_right}
use afterburner_gassist_plug.Base.{
  ℕ, suc, ◌+◌, ◌*◌, ◌≤◌, ◌<◌, ◌≡◌, refl, ap, ltb, arith, if◌then◌else◌,
}
use afterburner_gassist_plug.Exec.{Result, ok, err, crash, ErrorCode}
use afterburner_gassist_plug.Control.Words.{Region}
use afterburner_gassist_plug.Monitor.Parse.{
  MahmHeader, header_of, check_table, then_check, gpu_offset, region_end, check_header, validate,
  entry_size, gpu_entry_size, header_size,
}

check_table-lem :
    (count declared bound : ℕ) {u : Unit {0}}
    → check_table count declared bound ≡ ok u
    → 1 ≤ count
    → declared ≡ bound
check_table-lem count declared bound h k = ground arith

then_check-lem : (a b : Result (Unit {0})) → then_check a b ≡ ok tt → (a ≡ ok tt) × (b ≡ ok tt)
then_check-lem (ok _) b h = (refl, h)
then_check-lem (err e) b h = absurd (cc)
then_check-lem crash b h = absurd (cc)

end_check :
    (size last : ℕ)
    → ◌≡◌ {A = Result (Unit {0})}
        (if ltb size last then err ErrorCode.interface_unavailable else ok tt)
        (ok tt)
    → last ≤ size
end_check size last h = ground arith

-- the checks of the tables and of the end
abbrev tail_checks : ℕ → MahmHeader → Result (Unit {0})
tail_checks size h = then_check (check_table h.num_entries h.entry_bytes entry_size) (
    then_check (check_table h.num_gpu_entries h.gpu_entry_bytes gpu_entry_size)
      (if ltb size (region_end h) then err ErrorCode.interface_unavailable else ok tt))

check_header-lem :
    (size : ℕ) (h : MahmHeader)
    → check_header size h ≡ ok tt
    → (header_size ≤ h.header_bytes) × (tail_checks size h ≡ ok tt)
unfolding check_header
check_header-lem size h e = (ground arith, ground arith)

tail_checks-lem :
    (size : ℕ) (h : MahmHeader)
    → tail_checks size h ≡ ok tt
    → (check_table h.num_entries h.entry_bytes entry_size ≡ ok tt)
      × (check_table h.num_gpu_entries h.gpu_entry_bytes gpu_entry_size ≡ ok tt)
      × (region_end h ≤ size)
tail_checks-lem size h tail =
    let (sources, rest) =
      then_check-lem (check_table h.num_entries h.entry_bytes entry_size) _ tail in
    let (gpus, fits) =
      then_check-lem (check_table h.num_gpu_entries h.gpu_entry_bytes gpu_entry_size) _ rest in
    (sources, gpus, end_check size (region_end h) fits)

-- A header that passes the checks declares an end inside the region.
pub check_header-end :
    (size : ℕ) (h : MahmHeader) → check_header size h ≡ ok tt → region_end h ≤ size
check_header-end size h e =
    let (low, tail) = check_header-lem size h e in
    let (sources, gpus, fits) = tail_checks-lem size h tail in fits

-- an element of a table
table_inside :
    (count declared bound i start size : ℕ)
    → (1 ≤ count → declared ≡ bound)
    → start + count * declared ≤ size
    → i < count
    → start + i * declared + bound ≤ size
table_inside count declared bound i start size same fits lt =
    let e : declared ≡ bound = same (omega arith) in
    let one : i * declared ≡ i * bound = ap (λ k. i * k) e in
    let all : count * declared ≡ count * bound = ap (λ k. count * k) e in
    let next : suc i * bound ≤ count * bound = mul-le-mul_right bound lt in omega arith

-- What the parser reads: a sampled source or a GPU, by its number.
pub data Element : Type 0 where
  source : ℕ → Element
  gpu : ℕ → Element

-- the header counts it
abbrev pub IsElement : MahmHeader → Element → Type 0
IsElement h (source i) = i < h.num_entries
IsElement h (gpu i) = i < h.num_gpu_entries

abbrev pub element_start : MahmHeader → Element → ℕ
element_start h (source i) = h.header_bytes + i * h.entry_bytes
element_start h (gpu i) = gpu_offset h + i * h.gpu_entry_bytes

abbrev pub element_size : Element → ℕ
element_size (source i) = entry_size
element_size (gpu i) = gpu_entry_size

-- Once the checks have passed, each source and each GPU that the header counts lies, as a whole, behind
-- the header and inside the region, so no access to a field of it is out of bounds.
pub validate-inside :
    (r : Region) (k : Element)
    → validate r ≡ ok tt
    → IsElement (header_of r) k
    → (header_size ≤ element_start (header_of r) k)
      × (element_start (header_of r) k + element_size k ≤ r.size)
unfolding validate region_end gpu_offset
validate-inside r k e m =
    let h = header_of r in
    let checked : check_header r.size h ≡ ok tt = ground arith in
    let (low, tail) = check_header-lem r.size h checked in
    let (sources, gpus, last) = tail_checks-lem r.size h tail in inside k m low sources gpus last
  where
    inside :
        (k : Element)
        → IsElement (header_of r) k
        → header_size ≤ (header_of r).header_bytes
        → check_table (header_of r).num_entries (header_of r).entry_bytes entry_size ≡ ok tt
        → check_table (header_of r).num_gpu_entries (header_of r).gpu_entry_bytes gpu_entry_size
          ≡ ok tt
        → region_end (header_of r) ≤ r.size
        → (header_size ≤ element_start (header_of r) k)
          × (element_start (header_of r) k + element_size k ≤ r.size)
    inside (source i) lt low sources gpus last =
        let h = header_of r in
        (
          omega arith,
          table_inside h.num_entries h.entry_bytes entry_size i h.header_bytes r.size
              (check_table-lem h.num_entries h.entry_bytes entry_size sources) (omega arith) lt,
        )
    inside (gpu i) lt low sources gpus last =
        let h = header_of r in
        (
          omega arith,
          table_inside h.num_gpu_entries h.gpu_entry_bytes gpu_entry_size i (gpu_offset h) r.size
              (check_table-lem h.num_gpu_entries h.gpu_entry_bytes gpu_entry_size gpus) last lt,
        )
