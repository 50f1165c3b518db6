-- ===== src/Services/Profiles/Listing.antt =====
-- The list of profiles (afterburner/services/profiles.py).
use afterburner_gassist_plug.Base.{
  ℕ, suc, ◌≤◌, not, ◌≡◌, refl, ap, subst, true, false, Bool, String, Option, none, some, List, [],
  ◌∷◌, filter, length, arith, ◌==◌, if◌then◌else◌,
}
use afterburner_gassist_plug.Int.{ℤ}
use afterburner_gassist_plug.Float.{Float, Rounding}
use afterburner_gassist_plug.Exec.{Exec, ok, pure, ErrorCode}
use afterburner_gassist_plug.Exec.Hoare.{
  Ensures, Ensures-bind, Ensures-lift, Ensures-branch, Ensures-raise_if, Ensures-eq,
}
use afterburner_gassist_plug.Models.{Profile}
use afterburner_gassist_plug.Interface.{Interface, Host}
use afterburner_gassist_plug.Integration.Client
use afterburner_gassist_plug.Services.Profiles.Applied.{guard-Ensures}
use afterburner_gassist_plug.Integration.ProfileFiles.{
  ProfilesSnapshot, ProfileSlotInfo, Directory, TextMethods, read,
}
use afterburner_gassist_plug.Integration.ProfileFiles.Slots.{AreDistinct, read-AreDistinct}
use afterburner_gassist_plug.Services.Profiles.{
  present_slots, is_empty, is_readable, read_snapshot, active_slot, list_slots, mark_active,
  get_profiles,
}

-- The profiles that are marked as active.
abbrev pub actives : List Profile → List Profile
actives ps = filter (λ p. p.is_active) ps

numbered_le :
    (n : ℕ) (slots : List ProfileSlotInfo)
    → AreDistinct slots
    → length (filter (λ t. t.slot == n) slots) ≤ 1
numbered_le n [] d = omega arith
numbered_le n (s ∷ rest) (u, d) =
    choose s (filter (λ t. t.slot == n) rest) (s.slot == n)
      (λ e.
        let p : s.slot ≡ n = ground arith in
        ap length (subst (λ m. filter (λ t. t.slot == m) rest ≡ []) p u))
      (numbered_le n rest d)
  where
    choose :
        (x : ProfileSlotInfo) (xs : List ProfileSlotInfo) (b : Bool)
        → (b ≡ true → length xs ≡ 0)
        → length xs ≤ 1
        → length (if b then x ∷ xs else xs) ≤ 1
    choose x xs true h k = let e = h refl in omega arith
    choose x xs false h k = k

same_length :
    {A B : Type 0} (b : Bool) (x : A) (y : B) (xs : List A) (ys : List B)
    → length xs ≡ length ys
    → length (if b then x ∷ xs else xs) ≡ length (if b then y ∷ ys else ys)
same_length true x y xs ys h = ap suc h
same_length false x y xs ys h = h

module _ {W : Type 0} (rnd : Rounding) (int_of_text : String → Option ℤ) (tolerance : Float)
    (reader : Exec W ProfilesSnapshot) (host : Host W) (timeout : ℕ)
    (client : Option (Interface W)) where
  actives-list_slots :
      (a : ProfileSlotInfo) (slots : List ProfileSlotInfo)
      → length
          (actives (list_slots rnd int_of_text tolerance reader host timeout client slots (some a)))
        ≡ length (filter (λ t. t.slot == a.slot) slots)
  actives-list_slots a [] = refl
  actives-list_slots a (s ∷ rest) =
      same_length (s.slot == a.slot) _ s _ _ (actives-list_slots a rest)

  one_active :
      (o : Option ProfileSlotInfo) (slots : List ProfileSlotInfo)
      → AreDistinct slots
      → length (actives (list_slots rnd int_of_text tolerance reader host timeout client slots o))
        ≤ 1
  one_active none [] d = omega arith
  one_active none (s ∷ rest) (_, d) = one_active none rest d
  one_active (some a) slots d = rw (actives-list_slots a slots) (numbered_le a.slot slots d)

  abbrev HasOneActive : List Profile → W → Type 0
  HasOneActive ps _ = length (actives ps) ≤ 1

  mark_active-HasOneActive :
      (gpu : ℤ) (slots : List ProfileSlotInfo) (w : W)
      → AreDistinct slots
      → Ensures HasOneActive
          (λ _. Unit {0})
          (mark_active rnd int_of_text tolerance reader host timeout client gpu slots w)
  mark_active-HasOneActive gpu slots w d =
      Ensures-lift HasOneActive (λ _. Unit)
        (active_slot rnd int_of_text tolerance reader host timeout client slots
          (Client.read_tuning_state client gpu w).0)
        _ _ tt (λ active _. one_active active slots d)

  read_snapshot-AreDistinct :
      (w : W)
      → ((snapshot : ProfilesSnapshot)
          → (reader w).0 ≡ ok snapshot
          → AreDistinct (present_slots snapshot))
      → Ensures
          (λ s _. AreDistinct (present_slots s))
          (λ _. Unit {0})
          (read_snapshot rnd int_of_text tolerance reader host timeout w)
  unfolding read_snapshot
  read_snapshot-AreDistinct w h =
      Ensures-bind _ (λ s _. AreDistinct (present_slots s)) (λ _. Unit) reader _ w
        (Ensures-eq (reader w))
        (λ s w1 e.
          Ensures-raise_if _ _ (not (is_readable s.state)) ErrorCode.interface_unavailable _ w1 tt
            (λ _. h s (λ j. (e j).0)))

  -- Where the reader gives each slot a number of its own, `get_profiles` marks one profile at most as
  -- active, whatever the files hold and whatever tuning state is read.
  pub get_profiles-one_active :
      (gpu : ℤ) (w : W)
      → ((snapshot : ProfilesSnapshot)
          → (reader w).0 ≡ ok snapshot
          → AreDistinct (present_slots snapshot))
      → Ensures
          (λ ps _. length (actives ps) ≤ 1)
          (λ _. Unit {0})
          (get_profiles rnd int_of_text tolerance reader host timeout client gpu w)
  unfolding get_profiles
  get_profiles-one_active gpu w distinct = guard-Ensures HasOneActive _ (
      Ensures-bind (λ s _. AreDistinct (present_slots s)) HasOneActive (λ _. Unit)
        (read_snapshot rnd int_of_text tolerance reader host timeout) _ w
        (read_snapshot-AreDistinct w distinct)
        (λ s w1 d.
          Ensures-branch HasOneActive (λ _. Unit) (is_empty (present_slots s)) (pure []) _ w1
            (λ _. omega arith) (λ _. mark_active-HasOneActive gpu (present_slots s) w1 d)))

-- Over the reader of the profile files, `get_profiles` marks one profile at most as active, whatever the
-- directory and its files hold, and whatever tuning state is read.
pub get_profiles_over_files :
    {W : Type 0} (rnd : Rounding) (int_of_text : String → Option ℤ) (tolerance : Float)
    (dir : Directory W) (text : TextMethods) (gpu_id : Option String) (host : Host W) (timeout : ℕ)
    (client : Option (Interface W)) (gpu : ℤ) (w : W)
    → Ensures
        (λ ps _. length (actives ps) ≤ 1)
        (λ _. Unit {0})
        (get_profiles rnd int_of_text tolerance (read dir text gpu_id) host timeout client gpu w)
get_profiles_over_files rnd int_of_text tolerance dir text gpu_id host timeout client gpu w =
    get_profiles-one_active rnd int_of_text tolerance (read dir text gpu_id) host timeout client gpu
      w (read-AreDistinct dir text gpu_id w)
