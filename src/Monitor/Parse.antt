-- ===== src/Monitor/Parse.antt =====
-- `parse_mahm` (afterburner/integration/mahm.py): the checks of the monitoring region and the entries in
-- it. `decode` turns the bytes of a text into a text and strips it.
use afterburner_gassist_plug.Base.{
  ℕ, zero, suc, ◌+◌, ◌*◌, ◌/◌, ◌%◌, ◌^◌, String, not, List, [], ◌∷◌, filter, ltb, ◌&&◌, ◌||◌, ◌==◌,
  if◌then◌else◌,
}
use afterburner_gassist_plug.Int.{ℤ, pos, sub_ℕ}
use afterburner_gassist_plug.Float.{Float, fin, inf, neg_inf, nan}
use afterburner_gassist_plug.Exec.{Result, ok, err, crash, ErrorCode}
use afterburner_gassist_plug.Control.Words.{Region, u32, i32}
use afterburner_gassist_plug.Control.Read.{text_bytes}

abbrev pub mahm_signature : ℕ
mahm_signature = 1296123981

abbrev pub mahm_dead_signature : ℕ
mahm_dead_signature = 57005

abbrev pub mahm_version : ℕ
mahm_version = 131072

abbrev pub max_entries : ℕ
max_entries = 65536

abbrev pub max_gpu_entries : ℕ
max_gpu_entries = 1024

-- the sizes of the structures
abbrev pub header_size : ℕ
header_size = 32

abbrev pub entry_size : ℕ
entry_size = 5 * 260 + 24

abbrev pub gpu_entry_size : ℕ
gpu_entry_size = 5 * 260 + 4

pub record MahmHeader : Type 0 where
  pub signature : ℕ
  pub version : ℕ
  pub header_bytes : ℕ
  pub num_entries : ℕ
  pub entry_bytes : ℕ
  pub time : ℤ
  pub num_gpu_entries : ℕ
  pub gpu_entry_bytes : ℕ

abbrev pub header_of : Region → MahmHeader
header_of r = record {
  signature = u32 r 0;
  version = u32 r 4;
  header_bytes = u32 r 8;
  num_entries = u32 r 12;
  entry_bytes = u32 r 16;
  time = i32 (u32 r 20);
  num_gpu_entries = u32 r 24;
  gpu_entry_bytes = u32 r 28;
}

-- A table of entries: a count and a declared size, against the size of the structure.
abbrev pub check_table : ℕ → ℕ → ℕ → Result (Unit {0})
check_table count declared bound =
    if ltb 0 count && (declared == 0)
    then err ErrorCode.interface_unavailable
    else if ltb 0 count && not (declared == bound)
    then err ErrorCode.unsupported_version
    else ok tt

abbrev pub then_check : Result (Unit {0}) → Result (Unit {0}) → Result (Unit {0})
then_check (ok _) r = r
then_check (err e) r = err e
then_check crash r = crash

unfoldable pub gpu_offset : MahmHeader → ℕ
gpu_offset h = h.header_bytes + h.num_entries * h.entry_bytes

unfoldable pub region_end : MahmHeader → ℕ
region_end h = gpu_offset h + h.num_gpu_entries * h.gpu_entry_bytes

-- the checks of the words of the header, for a region of `size` bytes
unfoldable pub check_header : ℕ → MahmHeader → Result (Unit {0})
check_header size h =
    if h.signature == mahm_dead_signature
    then err ErrorCode.not_running
    else if not (h.signature == mahm_signature)
    then err ErrorCode.interface_unavailable
    else if not (h.version == mahm_version)
    then err ErrorCode.unsupported_version
    else if ltb h.header_bytes header_size
    then err ErrorCode.interface_unavailable
    else if ltb max_entries h.num_entries || ltb max_gpu_entries h.num_gpu_entries
    then err ErrorCode.interface_unavailable
    else then_check (check_table h.num_entries h.entry_bytes entry_size) (
        then_check (check_table h.num_gpu_entries h.gpu_entry_bytes gpu_entry_size)
          (if ltb size (region_end h) then err ErrorCode.interface_unavailable else ok tt))

unfoldable pub validate : Region → Result (Unit {0})
validate r =
    if ltb r.size header_size
    then err ErrorCode.interface_unavailable
    else check_header r.size (header_of r)

-- the number of a 32-bit float, exactly: the units of a double are 2^-1074
unfoldable pub float_of_bits : ℕ → Float
float_of_bits v =
    let fraction = v % 2 ^ 23 in
    let exponent = v / 2 ^ 23 % 256 in
    let size =
      if exponent == 0 then fraction * 2 ^ 925 else (2 ^ 23 + fraction) * 2 ^ (924 + exponent) in
    if exponent == 255
    then (if fraction == 0 then (if ltb v (2 ^ 31) then inf else neg_inf) else nan)
    else if ltb v (2 ^ 31)
    then fin (pos size)
    else fin (sub_ℕ 0 size)

pub record MahmEntry : Type 0 where
  pub name : String
  pub units : String
  pub value : Float
  pub flags : ℕ
  pub gpu : ℕ
  pub src_id : ℕ

pub record MahmGpu : Type 0 where
  pub index : ℕ
  pub gpu_id : String
  pub family : String
  pub device : String
  pub driver : String
  pub bios : String
  pub mem_amount_kb : ℕ
  pub entries : List MahmEntry

pub record MahmSnapshot : Type 0 where
  pub version : ℕ
  pub header_bytes : ℕ
  pub last_poll_unix : ℤ
  pub gpus : List MahmGpu
  pub sources : List MahmEntry

module _ (decode : List ℕ → String) where
  -- `_cstr` of a field of 260 bytes
  abbrev pub cstr : Region → ℕ → String
  cstr r o = decode (text_bytes 260 r.byte o)

  unfoldable pub entry_at : Region → ℕ → MahmEntry
  entry_at r start = record {
    name = cstr r start;
    units = cstr r (start + 260);
    value = float_of_bits (u32 r (start + 1300));
    flags = u32 r (start + 1312);
    gpu = u32 r (start + 1316);
    src_id = u32 r (start + 1320);
  }

  -- the entries from number `i`, `n` of them
  unfoldable pub entries_from : Region → MahmHeader → ℕ → ℕ → List MahmEntry
  entries_from r h i zero = []
  entries_from r h i (suc n) =
      entry_at r (h.header_bytes + i * h.entry_bytes) ∷ entries_from r h (i + 1) n

  unfoldable pub gpu_at : Region → List MahmEntry → ℕ → ℕ → MahmGpu
  gpu_at r sources i start = record {
    index = i;
    gpu_id = cstr r start;
    family = cstr r (start + 260);
    device = cstr r (start + 520);
    driver = cstr r (start + 780);
    bios = cstr r (start + 1040);
    mem_amount_kb = u32 r (start + 1300);
    entries = filter (λ e. e.gpu == i) sources;
  }

  unfoldable pub gpus_from : Region → MahmHeader → List MahmEntry → ℕ → ℕ → List MahmGpu
  gpus_from r h sources i zero = []
  gpus_from r h sources i (suc n) =
      gpu_at r sources i (gpu_offset h + i * h.gpu_entry_bytes) ∷ gpus_from r h sources (i + 1) n

  abbrev pub snapshot_of : Region → MahmHeader → MahmSnapshot
  snapshot_of r h =
      let sources = entries_from r h 0 h.num_entries in
      record {
        version = h.version;
        header_bytes = h.header_bytes;
        last_poll_unix = h.time;
        gpus = gpus_from r h sources 0 h.num_gpu_entries;
        sources = sources;
      }

  abbrev pub parsed : Result (Unit {0}) → MahmSnapshot → Result MahmSnapshot
  parsed (ok _) s = ok s
  parsed (err e) s = err e
  parsed crash s = crash

  unfoldable pub parse_mahm : Region → Result MahmSnapshot
  parse_mahm r = parsed (validate r) (snapshot_of r (header_of r))
