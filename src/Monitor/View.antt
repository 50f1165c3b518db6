-- ===== src/Monitor/View.antt =====
-- `_snapshot_from_map` (afterburner/integration/mahm.py): the region that is copied from the mapped view,
-- cut to its declared end and parsed.
use afterburner_gassist_plug.Base.{
  ℕ, zero, suc, ◌+◌, ◌*◌, ◌≤◌, ◌≡◌, refl, ap, false, not, String, List, ◌∷◌, ltb, ◌||◌, ◌==◌,
  if◌then◌else◌, arith, ◌∙◌, sym, ◌↔◌,
}
use afterburner_gassist_plug.Exec.{Result, ok, err, crash, ErrorCode}
use afterburner_gassist_plug.Control.Words.{Region, u32}
use afterburner_gassist_plug.Monitor.Bounds.{check_header-end}
use afterburner_gassist_plug.Monitor.Parse.{
  MahmHeader, MahmEntry, MahmGpu, MahmSnapshot, mahm_signature, mahm_dead_signature, max_entries,
  max_gpu_entries, header_size, header_of, region_end, gpu_offset, check_header, validate, entry_at,
  entries_from, gpu_at, gpus_from, snapshot_of, parsed, parse_mahm,
}

-- the checks of the header in the view
unfoldable pub check_view : ℕ → MahmHeader → Result (Unit {0})
check_view size h =
    if h.signature == mahm_dead_signature
    then err ErrorCode.not_running
    else if not (h.signature == mahm_signature)
    then err ErrorCode.interface_unavailable
    else if ltb max_entries h.num_entries || ltb max_gpu_entries h.num_gpu_entries
    then err ErrorCode.interface_unavailable
    else if ltb size (region_end h)
    then err ErrorCode.interface_unavailable
    else ok tt

-- the declared end, and the size of a header where it is less
unfoldable pub view_end : MahmHeader → ℕ
view_end h = if ltb (region_end h) header_size then header_size else region_end h

-- `region[:n]`
abbrev pub cut : Region → ℕ → Region
cut r n = record { size = n; byte = r.byte }

-- the size counts in the last check only
check_header-size :
    (a b : ℕ) (h : MahmHeader)
    → region_end h ≤ a
    → region_end h ≤ b
    → check_header a h ≡ check_header b h
unfolding check_header
check_header-size a b h la lb =
    let p : ltb a (region_end h) ≡ false = ground arith in
    let q : ltb b (region_end h) ≡ false = ground arith in rw (p, q)

view_end-covers : (h : MahmHeader) → (header_size ≤ view_end h) × (region_end h ≤ view_end h)
unfolding view_end
view_end-covers h = (ground arith, ground arith)

validate-cut :
    (r : Region)
    → header_size ≤ r.size
    → region_end (header_of r) ≤ r.size
    → validate (cut r (view_end (header_of r))) ≡ validate r
unfolding validate check_header u32
validate-cut r low fits =
    let n = view_end (header_of r) in
    let (a, b) = view_end-covers (header_of r) in
    let p : ltb n header_size ≡ false = ground arith in
    let q : ltb r.size header_size ≡ false = ground arith in
    let same = check_header-size n r.size (header_of r) b fits in rw (p, q, same)

-- what passes the checks passes those of the view, which leave the declared end inside it
check_header-view :
    (size : ℕ) (h : MahmHeader)
    → check_header size h ≡ ok tt
    → region_end h ≤ size
    → check_view size h ≡ ok tt
unfolding check_header check_view
check_header-view size h e fits = ground arith

check_view-validate :
    (r : Region)
    → validate r ≡ ok tt
    → (header_size ≤ r.size) × (check_view r.size (header_of r) ≡ ok tt)
unfolding validate
check_view-validate r e =
    let passed : check_header r.size (header_of r) ≡ ok tt = ground arith in
    let fits = check_header-end r.size (header_of r) passed in
    (ground arith, check_header-view r.size (header_of r) passed fits)

check_view-end : (size : ℕ) (h : MahmHeader) → check_view size h ≡ ok tt → region_end h ≤ size
unfolding check_view
check_view-end size h e = ground arith

module _ (decode : List ℕ → String) where
  unfoldable pub parse_cut : Result (Unit {0}) → Region → Result MahmSnapshot
  parse_cut (ok _) r = parse_mahm decode (cut r (view_end (header_of r)))
  parse_cut (err e) r = err e
  parse_cut crash r = crash

  unfoldable pub snapshot_from_map : Region → Result MahmSnapshot
  snapshot_from_map r =
      if ltb r.size header_size
      then err ErrorCode.interface_unavailable
      else parse_cut (check_view r.size (header_of r)) r

  entries_from-cut :
      (r : Region) (n : ℕ) (h : MahmHeader) (i k : ℕ)
      → entries_from decode (cut r n) h i k ≡ entries_from decode r h i k
  unfolding entries_from entry_at u32
  entries_from-cut r n h i zero = refl
  entries_from-cut r n h i (suc k) =
      ap (λ es. entry_at decode r (h.header_bytes + i * h.entry_bytes) ∷ es)
        (entries_from-cut r n h (i + 1) k)

  gpus_from-cut :
      (r : Region) (n : ℕ) (h : MahmHeader) (sources : List MahmEntry) (i k : ℕ)
      → gpus_from decode (cut r n) h sources i k ≡ gpus_from decode r h sources i k
  unfolding gpus_from gpu_at u32
  gpus_from-cut r n h sources i zero = refl
  gpus_from-cut r n h sources i (suc k) =
      ap (λ es. gpu_at decode r sources i (gpu_offset h + i * h.gpu_entry_bytes) ∷ es)
        (gpus_from-cut r n h sources (i + 1) k)

  snapshot_with : MahmHeader → List MahmEntry → List MahmGpu → MahmSnapshot
  snapshot_with h sources gpus = record {
    version = h.version;
    header_bytes = h.header_bytes;
    last_poll_unix = h.time;
    gpus = gpus;
    sources = sources;
  }

  snapshot_of-cut :
      (r : Region) (n : ℕ) (h : MahmHeader)
      → snapshot_of decode (cut r n) h ≡ snapshot_of decode r h
  unfolding snapshot_with
  snapshot_of-cut r n h =
      ap (snapshot_with h _) (gpus_from-cut r n h _ 0 h.num_gpu_entries)
      ∙ ap (λ es. snapshot_with h es (gpus_from decode r h es 0 h.num_gpu_entries))
          (entries_from-cut r n h 0 h.num_entries)

  parse_mahm-cut :
      (r : Region)
      → header_size ≤ r.size
      → region_end (header_of r) ≤ r.size
      → parse_mahm decode (cut r (view_end (header_of r))) ≡ parse_mahm decode r
  unfolding parse_mahm u32
  parse_mahm-cut r low fits =
      ap (λ c. parsed decode c (snapshot_of decode (cut r (view_end (header_of r))) (header_of r)))
        (validate-cut r low fits)
      ∙ ap (parsed decode (validate r)) (snapshot_of-cut r (view_end (header_of r)) (header_of r))

  parsed-ok : (o : Result (Unit {0})) (a s : MahmSnapshot) → parsed decode o a ≡ ok s → o ≡ ok tt
  parsed-ok (ok _) a s h = refl
  parsed-ok (err e) a s h = absurd (cc)
  parsed-ok crash a s h = absurd (cc)

  parse_cut-ok :
      (o : Result (Unit {0})) (r : Region) (s : MahmSnapshot)
      → parse_cut o r ≡ ok s
      → (o ≡ ok tt) × (parse_mahm decode (cut r (view_end (header_of r))) ≡ ok s)
  unfolding parse_cut
  parse_cut-ok (ok _) r s h = (refl, h)
  parse_cut-ok (err e) r s h = absurd (cc)
  parse_cut-ok crash r s h = absurd (cc)

  -- For every view and every snapshot: `_snapshot_from_map`, which checks the header of the view, cuts the
  -- view to the declared end and parses what is left, gives that snapshot exactly if `parse_mahm` gives it
  -- for the whole view.
  pub snapshot_from_map-parse_mahm :
      (r : Region) (s : MahmSnapshot) → snapshot_from_map r ≡ ok s ↔ parse_mahm decode r ≡ ok s
  unfolding snapshot_from_map parse_cut parse_mahm
  snapshot_from_map-parse_mahm r s = (to, from)
    where
      to : snapshot_from_map r ≡ ok s → parse_mahm decode r ≡ ok s
      to e =
          let low : header_size ≤ r.size = ground arith in
          let run : parse_cut (check_view r.size (header_of r)) r ≡ ok s = ground arith in
          let (seen, cutted) = parse_cut-ok (check_view r.size (header_of r)) r s run in
          let fits = check_view-end r.size (header_of r) seen in
          sym (parse_mahm-cut r low fits) ∙ cutted

      from : parse_mahm decode r ≡ ok s → snapshot_from_map r ≡ ok s
      from e =
          let valid = parsed-ok (validate r) _ s e in
          let (low, seen) = check_view-validate r valid in
          let fits = check_view-end r.size (header_of r) seen in
          let big : ltb r.size header_size ≡ false = ground arith in
          rw (big, seen) (parse_mahm-cut r low fits ∙ e)
