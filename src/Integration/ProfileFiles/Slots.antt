-- ===== src/Integration/ProfileFiles/Slots.antt =====
-- The slots that the profile reader finds (afterburner/integration/profiles.py).
use afterburner_gassist_plug.Base.{
  ℕ, ◌<◌, ◌≡◌, refl, arith, Bool, true, false, String, Option, none, some, List, [], ◌∷◌, filter,
  ◌==◌, if◌then◌else◌,
}
use afterburner_gassist_plug.Exec.{ok}
use afterburner_gassist_plug.Exec.Hoare.{Ensures, Ensures-if, Ensures-of-ok}
use afterburner_gassist_plug.Dict.{Dict, lookup, nat_eq}
use afterburner_gassist_plug.Integration.ProfileFiles.{
  ProfileSlotInfo, ProfilesSnapshot, present, Found, Sections, slot_of, sorted_slots, extract_slots,
  Directory, TextMethods, parsed, read_attributed, read_listed, read, is_populated, parse_ini,
}

-- No two slots of a list have one number.
abbrev pub AreDistinct : List ProfileSlotInfo → Type 0
AreDistinct [] = Unit
AreDistinct (s ∷ rest) = (filter (λ t. t.slot == s.slot) rest ≡ []) × AreDistinct rest

abbrev IsAbove : ℕ → List ℕ → Type 0
IsAbove m [] = Unit
IsAbove m (n ∷ rest) = (m < n) × IsAbove m rest

abbrev IsAscending : List ℕ → Type 0
IsAscending [] = Unit
IsAscending (n ∷ rest) = IsAbove n rest × IsAscending rest

in_front :
    (b : Bool) (s : ProfileSlotInfo) (slots : List ProfileSlotInfo)
    → filter (λ t. t.slot == s.slot) slots ≡ []
    → AreDistinct slots
    → AreDistinct (if b then s ∷ slots else slots)
in_front true s slots u d = (u, d)
in_front false s slots u d = d

module _ (marker : ℕ → Bool) (found : Dict ℕ Found) where
  -- a slot of another number in front
  other_slot :
      (m n : ℕ) (o : Option Found) (rest : List ProfileSlotInfo)
      → m < n
      → filter (λ t. t.slot == m) (filter present rest) ≡ []
      → filter (λ t. t.slot == m) (filter present (slot_of marker n o rest)) ≡ []
  other_slot m n none rest lt h = h
  other_slot m n (some f) rest lt h = ground (arith, h)

  none_below :
      (m : ℕ) (ns : List ℕ)
      → IsAbove m ns
      → filter (λ t. t.slot == m) (filter present (sorted_slots marker found ns)) ≡ []
  unfolding sorted_slots
  none_below m [] a = refl
  none_below m (n ∷ rest) (lt, a) =
      other_slot m n (lookup n found) (sorted_slots marker found rest) lt (none_below m rest a)

  slot_in_front :
      (n : ℕ) (o : Option Found) (rest : List ProfileSlotInfo)
      → filter (λ t. t.slot == n) (filter present rest) ≡ []
      → AreDistinct (filter present rest)
      → AreDistinct (filter present (slot_of marker n o rest))
  slot_in_front n none rest u d = d
  slot_in_front n (some f) rest u d = in_front (is_populated f.settings) _ (filter present rest) u d

  sorted_slots-AreDistinct :
      (ns : List ℕ) → IsAscending ns → AreDistinct (filter present (sorted_slots marker found ns))
  unfolding sorted_slots
  sorted_slots-AreDistinct [] a = tt
  sorted_slots-AreDistinct (n ∷ rest) (above, a) =
      slot_in_front n (lookup n found) (sorted_slots marker found rest) (none_below n rest above)
        (sorted_slots-AreDistinct rest a)

pub extract_slots-AreDistinct :
    (sections : Sections) (marker : ℕ → Bool)
    → AreDistinct (filter present (extract_slots sections marker))
unfolding extract_slots
extract_slots-AreDistinct sections marker =
    sorted_slots-AreDistinct marker _ (1 ∷ 2 ∷ 3 ∷ 4 ∷ 5 ∷ []) ascending
  where
    ascending : IsAscending (1 ∷ 2 ∷ 3 ∷ 4 ∷ 5 ∷ [])
    ascending = (
      (omega arith, (omega arith, (omega arith, (omega arith, tt)))),
      (
        (omega arith, (omega arith, (omega arith, tt))),
        ((omega arith, (omega arith, tt)), ((omega arith, tt), (tt, tt))),
      ),
    )

module _ {W : Type 0} (dir : Directory W) (text : TextMethods) (gpu_id : Option String) where
  abbrev Distinct : ProfilesSnapshot → W → Type 0
  Distinct s _ = AreDistinct (filter present s.slots)

  parsed-Distinct :
      (marker : ℕ → Bool) (source : Option String)
      → AreDistinct (filter present (parsed dir text gpu_id marker source).slots)
  parsed-Distinct marker none = tt
  parsed-Distinct marker (some source) = extract_slots-AreDistinct (parse_ini text source) marker

  attributed-Distinct :
      (files gpu_files : List String) (o : Option String) (w : W)
      → Ensures Distinct (λ _. Unit {0}) (read_attributed dir text gpu_id files gpu_files o w)
  attributed-Distinct files gpu_files none w = tt
  attributed-Distinct files gpu_files (some f) w = parsed-Distinct _ (dir.read_text f w).0

  listed-Distinct :
      (o : Option (List String)) (w : W)
      → Ensures Distinct (λ _. Unit {0}) (read_listed dir text gpu_id o w)
  listed-Distinct none w = tt
  listed-Distinct (some files) w = attributed-Distinct files _ _ w

  -- Whatever snapshot the reader returns, its present slots have different numbers.
  pub read-AreDistinct :
      (w : W) (snapshot : ProfilesSnapshot)
      → (read dir text gpu_id w).0 ≡ ok snapshot
      → AreDistinct (filter present snapshot.slots)
  unfolding read
  read-AreDistinct w snapshot h =
      let (there, w1) = dir.is_dir w in
      let (files, w2) = dir.cfg_files w1 in
      Ensures-of-ok Distinct (λ _. Unit) (read dir text gpu_id w)
        (Ensures-if Distinct (λ _. Unit) there _ _ (λ _. listed-Distinct files w2) (λ _. tt)) h
