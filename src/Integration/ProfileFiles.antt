-- ===== src/Integration/ProfileFiles.antt =====
-- `ProfileFileReader` (afterburner/integration/profiles.py): the read-only scan of the Profiles
-- directory. The text methods of Python and the files are parameters.
pub mod Slots
use text.Mathlib.Text.{◌==◌ as str_eq, starts_with}
use afterburner_gassist_plug.Base.{
  ℕ, String, Bool, true, false, not, Option, none, some, List, [], ◌∷◌, ◌&&◌, ◌||◌, ltb, length,
  filter, is_some, if◌then◌else◌,
}
use afterburner_gassist_plug.Exec.{Exec, Result, ok, pure}
use afterburner_gassist_plug.Dict.{Dict, lookup, insert, nat_eq, string_eq}

pub data ProfileSourceState : Type 0 where
  available no_gpu_file ambiguous_gpu_file no_directory unparseable : ProfileSourceState

pub record ProfileSlotInfo : Type 0 where
  pub slot : ℕ
  pub values : Dict String String
  pub format_version : Option String
  pub marker_present : Bool

abbrev pub is_populated : Dict String String → Bool
is_populated [] = false
is_populated (_ ∷ _) = true

-- `ProfileSlotInfo.present`
abbrev pub present : ProfileSlotInfo → Bool
present s = is_populated s.values

pub record ProfilesSnapshot : Type 0 where
  pub state : ProfileSourceState
  pub slots : List ProfileSlotInfo
  pub startup_values : Dict String String
  pub startup_present : Bool

-- Python's text methods: `splitlines`, `strip`, `line[1:line.find("]")]` (`none` where there is no
-- bracket), and `partition("=")` (`none` where there is no `=`).
pub record TextMethods : Type 0 where
  pub splitlines : String → List String
  pub strip : String → String
  pub bracketed : String → Option String
  pub partition : String → Option (String × String)

abbrev pub Sections : Type 0
Sections = Dict String (Dict String String)

-- The local variables of `_parse_ini`.
pub record Parse : Type 0 where
  pub sections : Sections
  pub current : Option String

abbrev pub or_empty : {K V : Type 0} → Option (Dict K V) → Dict K V
or_empty none = []
or_empty (some d) = d

-- `sections.setdefault(name, {})`
abbrev pub set_default : String → Sections → Sections
set_default name sections =
    if is_some (lookup name sections) then sections else insert name [] sections

abbrev is_skipped : String → Bool
is_skipped line =
    str_eq line "" || (starts_with line ";" || (starts_with line "#" || starts_with line "/"))

module _ (text : TextMethods) where
  abbrev pub open_section : Option String → Parse → Parse
  open_section none p = record p { current = none }
  open_section (some name) p = record {
    sections = set_default (text.strip name) p.sections;
    current = some (text.strip name);
  }

  -- `sections[current][key] = value`
  abbrev pub set_value : String → String → String → Parse → Parse
  set_value name key value p = record p {
    sections = insert name (insert key value (or_empty (lookup name p.sections))) p.sections;
  }

  abbrev pub take_pair : Option String → Option (String × String) → Parse → Parse
  take_pair current none p = p
  take_pair none (some pair) p = p
  take_pair (some name) (some (key, value)) p =
      if str_eq (text.strip key) "" then p else set_value name (text.strip key) (text.strip value) p

  unfoldable pub parse_line : String → Parse → Parse
  parse_line raw p =
      let line = text.strip raw in
      if is_skipped line
      then p
      else if starts_with line "["
      then open_section (text.bracketed line) p
      else take_pair p.current (text.partition line) p

  unfoldable pub parse_lines : List String → Parse → Parse
  parse_lines [] p = p
  parse_lines (raw ∷ rest) p = parse_lines rest (parse_line raw p)

  unfoldable pub parse_ini : String → Sections
  parse_ini source =
      (parse_lines (text.splitlines source) (record { sections = []; current = none })).sections

-- the pairs of a section but `Format` and the empty values
abbrev is_setting : String × String → Bool
is_setting (key, value) = not (str_eq key "Format") && not (str_eq value "")

-- `_extract_startup`
unfoldable pub extract_startup : Sections → Dict String String
extract_startup sections = filter is_setting (or_empty (lookup "Startup" sections))

-- `_SLOT_SECTION_RE`
abbrev pub slot_number : String → Option ℕ
slot_number name =
    if str_eq name "Profile1"
    then some 1
    else if str_eq name "Profile2"
    then some 2
    else if str_eq name "Profile3"
    then some 3
    else if str_eq name "Profile4"
    then some 4
    else if str_eq name "Profile5"
    then some 5
    else none

-- What `_extract_slots` keeps of a number: its settings and the first `Format`.
pub record Found : Type 0 where
  pub settings : Dict String String
  pub format : Option String

abbrev pub or_new : Option String → Option Found → Found
or_new format none = record { settings = []; format = format }
or_new format (some f) = f

unfoldable pub insert_all : Dict String String → Dict String String → Dict String String
insert_all [] d = d
insert_all ((key, value) ∷ rest) d = insert_all rest (insert key value d)

-- one section of the loop
abbrev pub add_section : Option ℕ → Dict String String → Dict ℕ Found → Dict ℕ Found
add_section none body found = found
add_section (some n) body found =
    let f = or_new (lookup "Format" body) (lookup n found) in
    insert n (record f { settings = insert_all (filter is_setting body) f.settings }) found

unfoldable pub add_sections : Sections → Dict ℕ Found → Dict ℕ Found
add_sections [] found = found
add_sections ((name, body) ∷ rest) found =
    add_sections rest (add_section (slot_number name) body found)

abbrev pub slot_of : (ℕ → Bool) → ℕ → Option Found → List ProfileSlotInfo → List ProfileSlotInfo
slot_of markers n none rest = rest
slot_of markers n (some f) rest =
    (record {
      slot = n;
      values = f.settings;
      format_version = f.format;
      marker_present = markers n;
    })
    ∷ rest

-- `for number in sorted(by_number)`, through the numbers that a key can be
unfoldable pub sorted_slots : (ℕ → Bool) → Dict ℕ Found → List ℕ → List ProfileSlotInfo
sorted_slots markers found [] = []
sorted_slots markers found (n ∷ rest) =
    slot_of markers n (lookup n found) (sorted_slots markers found rest)

unfoldable pub extract_slots : Sections → (ℕ → Bool) → List ProfileSlotInfo
extract_slots sections markers =
    sorted_slots markers (add_sections sections []) (1 ∷ 2 ∷ 3 ∷ 4 ∷ 5 ∷ [])

-- The directory: whether it is one, its `.cfg` files in order (`none` is an `OSError`), the text of a
-- file (`none` where it cannot be read or decoded); the names that `_VEN_FILE_RE` and
-- `_MARKER_FILE_RE` match, and `Path.stem`.
pub record Directory (W : Type 0) : Type 0 where
  pub is_dir : W → Bool × W
  pub cfg_files : W → Option (List String) × W
  pub read_text : String → W → Option String × W
  pub is_gpu_file : String → Bool
  pub marker_number : String → Option ℕ
  pub stem : String → String

abbrev pub empty_snapshot : ProfileSourceState → ProfilesSnapshot
empty_snapshot state = record {
  state = state;
  slots = [];
  startup_values = [];
  startup_present = false;
}

abbrev pub sole_file : List String → Option String
sole_file [] = none
sole_file (f ∷ []) = some f
sole_file (_ ∷ _ ∷ _) = none

module _ {W : Type 0} (dir : Directory W) (text : TextMethods) (gpu_id : Option String) where
  unfoldable pub find_stem : String → List String → Option String
  find_stem wanted [] = none
  find_stem wanted (f ∷ rest) = if str_eq (dir.stem f) wanted then some f else find_stem wanted rest

  -- `_attribute`
  abbrev pub attribute : Option String → List String → Option String
  attribute none files = sole_file files
  attribute (some wanted) files = find_stem wanted files

  abbrev has_number : ℕ → Option ℕ → Bool
  has_number n none = false
  has_number n (some m) = nat_eq.beq m n

  abbrev pub markers : List String → ℕ → Bool
  markers files n = not (ltb (length (filter (λ f. has_number n (dir.marker_number f)) files)) 1)

  abbrev pub parsed : (ℕ → Bool) → Option String → ProfilesSnapshot
  parsed marker none = empty_snapshot unparseable
  parsed marker (some source) =
      let sections = parse_ini text source in
      record {
        state = available;
        slots = extract_slots sections marker;
        startup_values = extract_startup sections;
        startup_present = is_populated (extract_startup sections);
      }

  abbrev pub read_attributed : List String → List String → Option String → Exec W ProfilesSnapshot
  read_attributed files gpu_files none =
      pure (empty_snapshot (if ltb 1 (length gpu_files) then ambiguous_gpu_file else no_gpu_file))
  read_attributed files gpu_files (some f) =
      λ w. let (source, w1) = dir.read_text f w in (ok (parsed (markers files) source), w1)

  abbrev pub read_listed : Option (List String) → Exec W ProfilesSnapshot
  read_listed none = pure (empty_snapshot unparseable)
  read_listed (some files) =
      let gpu_files = filter dir.is_gpu_file files in
      read_attributed files gpu_files (attribute gpu_id gpu_files)

  unfoldable pub read : Exec W ProfilesSnapshot
  read w =
      let (there, w1) = dir.is_dir w in
      let (files, w2) = dir.cfg_files w1 in
      if there then read_listed files w2 else (ok (empty_snapshot no_directory), w1)
