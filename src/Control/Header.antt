-- ===== src/Control/Header.antt =====
-- The checks of the control region's header (afterburner/integration/macm.py:
-- `validate_control_region`, `_entry_offset`) and the access to one field of a GPU entry.
use afterburner_gassist_plug.Base.{
  ℕ, suc, ◌+◌, ◌*◌, ◌≤◌, ◌≡◌, ap, not, arith, ltb, leb, ◌&&◌, ◌==◌, if◌then◌else◌,
}
use afterburner_gassist_plug.Int.{ℤ, pos, negsuc}
use afterburner_gassist_plug.Exec.{ErrorCode, Result, ok, err}
use afterburner_gassist_plug.Control.Words.{Region, u32, i32, put32, bits}
use afterburner_gassist_plug.Control.Layout.{
  Field, offset, is_signed, gpu_entry_size, header_size, signature_at, version_at, header_size_at,
  num_gpu_entries_at, gpu_entry_size_at, master_gpu_at, flags_at, command_at,
}

abbrev pub macm_signature : ℕ
macm_signature = 1296122701

abbrev pub macm_dead_signature : ℕ
macm_dead_signature = 57005

abbrev pub macm_version_min : ℕ
macm_version_min = 131072

abbrev pub macm_version_max_exclusive : ℕ
macm_version_max_exclusive = 196608

abbrev pub max_gpu_entries : ℕ
max_gpu_entries = 1024

pub record ParsedControl : Type 0 where
  pub version : ℕ
  pub header_bytes : ℕ
  pub num_gpu_entries : ℕ
  pub entry_bytes : ℕ
  pub master_gpu : ℕ
  pub flag_word : ℕ
  pub command : ℕ

abbrev pub parsed_of : Region → ParsedControl
parsed_of r = record {
  version = u32 r version_at;
  header_bytes = u32 r header_size_at;
  num_gpu_entries = u32 r num_gpu_entries_at;
  entry_bytes = u32 r gpu_entry_size_at;
  master_gpu = u32 r master_gpu_at;
  flag_word = u32 r flags_at;
  command = u32 r command_at;
}

unfoldable pub validate_control_region : Region → Result ParsedControl
validate_control_region r =
    if ltb r.size header_size
    then err ErrorCode.interface_unavailable
    else if u32 r signature_at == macm_dead_signature
    then err ErrorCode.disconnected
    else if not (u32 r signature_at == macm_signature)
    then err ErrorCode.interface_unavailable
    else if not (
        leb macm_version_min (u32 r version_at)
        && ltb (u32 r version_at) macm_version_max_exclusive)
    then err ErrorCode.unsupported_version
    else if ltb (u32 r header_size_at) header_size
    then err ErrorCode.interface_unavailable
    else if ltb max_gpu_entries (u32 r num_gpu_entries_at)
    then err ErrorCode.interface_unavailable
    else if ltb 0 (u32 r num_gpu_entries_at) && (u32 r gpu_entry_size_at == 0)
    then err ErrorCode.interface_unavailable
    else if ltb 0 (u32 r num_gpu_entries_at) && not (u32 r gpu_entry_size_at == gpu_entry_size)
    then err ErrorCode.unsupported_version
    else if ltb r.size (u32 r header_size_at + u32 r num_gpu_entries_at * u32 r gpu_entry_size_at)
    then err ErrorCode.interface_unavailable
    else ok (parsed_of r)

unfoldable pub entry_offset : ParsedControl → ℤ → Result ℕ
entry_offset p (pos i) =
    if leb p.num_gpu_entries i
    then err ErrorCode.unsupported_gpu
    else ok (p.header_bytes + i * p.entry_bytes)
entry_offset p (negsuc _) = err ErrorCode.unsupported_gpu

-- `int(getattr(entry, name))`, for an entry that starts at `base`
unfoldable pub get_field : Region → ℕ → Field → ℤ
get_field r base f =
    if is_signed f then i32 (u32 r (base + offset f)) else pos (u32 r (base + offset f))

-- `setattr(entry, name, value)`
unfoldable pub set_field : ℕ → Field → ℤ → Region → Region
set_field base f z r = put32 (base + offset f) (bits z) r

pub validate_lem :
    (r : Region) (p : ParsedControl)
    → validate_control_region r ≡ ok p
    → (header_size ≤ p.header_bytes)
      × (p.header_bytes + p.num_gpu_entries * p.entry_bytes ≤ r.size)
      × (1 ≤ p.num_gpu_entries → p.entry_bytes ≡ gpu_entry_size)
unfolding validate_control_region
validate_lem r p h = (ground arith, ground arith, λ k. ground arith)

-- For a region that passes the checks and a GPU index that passes `_entry_offset`, the GPU's whole
-- entry lies behind the header and inside the region, so no access to a field of it is out of bounds.
pub entry_offset-inside :
    (r : Region) (p : ParsedControl) (gpu : ℤ) (base : ℕ)
    → validate_control_region r ≡ ok p
    → entry_offset p gpu ≡ ok base
    → (header_size ≤ base) × (base + gpu_entry_size ≤ r.size)
unfolding entry_offset
entry_offset-inside r p (pos i) base h k =
    let (a, b, c) = validate_lem r p h in
    let lt : suc i ≤ p.num_gpu_entries = ground arith in
    let e : p.entry_bytes ≡ gpu_entry_size = c (omega arith) in
    let at : base ≡ p.header_bytes + i * p.entry_bytes = ground arith in
    let one : i * p.entry_bytes ≡ i * gpu_entry_size = ap (λ k. i * k) e in
    let all : p.num_gpu_entries * p.entry_bytes ≡ p.num_gpu_entries * gpu_entry_size =
      ap (λ k. p.num_gpu_entries * k) e in
    (omega arith, omega arith)
entry_offset-inside r p (negsuc i) base h k = absurd (cc)
