-- ===== src/Services/Profiles.antt =====
-- `ProfileManager` (afterburner/services/profiles.py): the list of profiles with the active one, and
-- loading and restoring a stored profile. The reader of the profile files is a call that returns a
-- snapshot. The notices are text and left out.
pub mod Writes
pub mod Applied
pub mod Verified
pub mod Listing
use text.Mathlib.Text.{◌==◌ as str_eq}
use afterburner_gassist_plug.Base.{
  ℕ, ◌+◌, ◌*◌, ◌^◌, String, Bool, true, false, not, Option, none, some, List, [], ◌∷◌, ◌++◌, map,
  filter, leb, ◌&&◌, ◌||◌, ◌==◌, if◌then◌else◌,
}
use afterburner_gassist_plug.Int.{ℤ, pos, negsuc, eqb_ℤ}
use afterburner_gassist_plug.Float.{
  Float, fin, inf, neg_inf, nan, whole, is_finite, float_lt, float_le, float_abs, float_sub,
  Rounding,
}
use afterburner_gassist_plug.Exec.{
  Exec, Result, ok, err, crash, ErrorCode, pure, raise, lift, attempt, raise_if, or_raise, continue,
  ◌>>=◌, ◌>>◌,
}
use afterburner_gassist_plug.Dict.{Dict, lookup, string_eq}
use afterburner_gassist_plug.Value.{Value, null, bool, int, float, str, arr, dict}
use afterburner_gassist_plug.Models.{
  ControlFeature, ControlResult, GpuCapabilities, TuningState, Profile, is_ok, supports,
}
use afterburner_gassist_plug.Interface.{Interface, Host}
use afterburner_gassist_plug.Integration.ProfileFiles.{
  ProfileSourceState, available, no_gpu_file, ambiguous_gpu_file, no_directory, unparseable,
  ProfileSlotInfo, ProfilesSnapshot, present,
}
use afterburner_gassist_plug.Integration.Client.{guard, apply_control, read_tuning_state}
use afterburner_gassist_plug.Safety.Capabilities.{Resolution, resolve}
use afterburner_gassist_plug.Safety.Validator.{validate_and_clamp}

-- the literal 0.001, as the double that it denotes
unfoldable pub milli : Float
milli = fin (pos (4611686018427388 * 2 ^ 1012))

-- `_MAPPED_KEYS`
pub record MappedKey : Type 0 where
  pub key : String
  pub feature : ControlFeature
  pub scale : Float

abbrev pub mapped_keys : List MappedKey
mapped_keys =
    record { key = "PowerLimit"; feature = ControlFeature.power_limit; scale = whole 1 }
    ∷ record { key = "CoreClkBoost"; feature = ControlFeature.core_offset; scale = milli }
    ∷ record { key = "MemClkBoost"; feature = ControlFeature.memory_offset; scale = milli }
    ∷ []

-- `_FEATURE_STATE_ATTR`, for the features that a profile applies; `_state_value` is the same by key
abbrev pub state_value : ControlFeature → TuningState → Option Float
state_value ControlFeature.power_limit s = s.power_limit_pct
state_value ControlFeature.core_offset s = s.core_offset_mhz
state_value ControlFeature.memory_offset s = s.memory_offset_mhz
state_value ControlFeature.fan_percent s = s.fan_percent
state_value ControlFeature.voltage s = none
state_value ControlFeature.fan_curve s = none
state_value ControlFeature.profile_load s = none
state_value ControlFeature.profile_reset s = none

-- `_require_valid_id`: the id of a slot, of an argument of any type
unfoldable pub valid_id : Value → Option ℕ
valid_id (int (pos n)) = if leb 1 n && leb n 5 then some n else none
valid_id (int (negsuc _)) = none
valid_id null = none
valid_id (bool _) = none
valid_id (float _) = none
valid_id (str _) = none
valid_id (arr _) = none
valid_id (dict _) = none

abbrev pub is_readable : ProfileSourceState → Bool
is_readable available = true
is_readable no_gpu_file = true
is_readable no_directory = false
is_readable ambiguous_gpu_file = false
is_readable unparseable = false

-- the outcome of a comparison in `_slot_matches`: not stored, equal, or not
pub data Compared : Type 0 where
  absent equal unequal : Compared

-- `next((s for s in snapshot.slots if s.slot == profile_id and s.present), None)`
unfoldable pub find_slot : ℕ → List ProfileSlotInfo → Option ProfileSlotInfo
find_slot n [] = none
find_slot n (s ∷ rest) = if (s.slot == n) && present s then some s else find_slot n rest

-- `[s for s in snapshot.slots if s.present]`
abbrev pub present_slots : ProfilesSnapshot → List ProfileSlotInfo
present_slots snapshot = filter present snapshot.slots

-- the only element of a list
abbrev pub sole : {A : Type 0} → List A → Option A
sole [] = none
sole (a ∷ []) = some a
sole (_ ∷ _ ∷ _) = none

abbrev pub is_empty : {A : Type 0} → List A → Bool
is_empty [] = true
is_empty (_ ∷ _) = false

-- `int_of_text` is `int(str)`.
module _ (rnd : Rounding) (int_of_text : String → Option ℤ) (tolerance : Float) where
  -- the product with a finite positive number
  abbrev pub times : Float → Float → Float
  times (fin a) (fin b) = rnd.product a b
  times (fin a) inf = inf
  times (fin a) neg_inf = neg_inf
  times (fin a) nan = nan
  times inf b = inf
  times neg_inf b = neg_inf
  times nan b = nan

  abbrev pub is_one : Option ℤ → Bool
  is_one none = false
  is_one (some n) = eqb_ℤ n (pos 1)

  -- `_fan_mode_is_fixed`, where the key is there
  abbrev pub is_fixed : Option String → Bool
  is_fixed none = false
  is_fixed (some raw) = is_one (int_of_text raw)

  abbrev pub distance : Float → Float → Float
  distance a b = float_abs (float_sub rnd a b)

  -- `_check`
  abbrev pub check_number : Option Float → Float → Option Float → Compared
  check_number none scale current = unequal
  check_number (some x) scale none = unequal
  check_number (some x) scale (some current) =
      if float_le (distance current (times x scale)) tolerance then equal else unequal

  abbrev pub check_key : Option String → Float → Option Float → Compared
  check_key none scale current = absent
  check_key (some raw) scale current = check_number (rnd.of_text raw) scale current

  -- the loop over the mapped keys; `none` is that a key differs, else whether one was compared
  unfoldable pub match_keys : Dict String String → TuningState → List MappedKey → Bool → Option Bool
  match_keys values state [] found = some found
  match_keys values state (k ∷ rest) found =
      let same = match_keys values state rest true in
      let skipped = match_keys values state rest found in
      elim (check_key (lookup k.key values) k.scale (state_value k.feature state)) [
        | absent ↦ skipped
        | equal ↦ same
        | unequal ↦ none
      ]

  abbrev pub match_speed : Option Float → Option Float → Bool
  match_speed none stored = false
  match_speed (some current) none = false
  match_speed (some current) (some stored) = not (float_lt tolerance (distance current stored))

  abbrev pub match_fan : Dict String String → TuningState → Option String → Bool → Bool
  match_fan values state none found = found
  match_fan values state (some speed) found =
      if is_fixed (lookup "FanMode" values)
      then match_speed state.fan_percent (rnd.of_text speed)
      else found

  unfoldable pub slot_matches : TuningState → ProfileSlotInfo → Bool
  slot_matches state slot = elim (match_keys slot.values state mapped_keys false) [
    | none ↦ false
    | some found ↦ match_fan slot.values state (lookup "FanSpeed" slot.values) found
  ]

  -- `matches`
  abbrev pub matching : TuningState → List ProfileSlotInfo → List ProfileSlotInfo
  matching state slots = filter (slot_matches state) slots

  -- one comparison of `_verify_applied`
  abbrev pub confirmed : Option Float → Float → Bool
  confirmed none safe = false
  confirmed (some current) safe = not (float_lt tolerance (distance current safe))

  unfoldable pub all_confirmed : TuningState → List (ControlFeature × Float) → Bool
  all_confirmed state [] = true
  all_confirmed state ((feature, safe) ∷ rest) =
      confirmed (state_value feature state) safe && all_confirmed state rest

  abbrev result : ControlFeature → ControlResult
  result feature = record {
    feature = feature;
    requested_value = none;
    applied_value = none;
    clamped = false;
    applied = true;
    replaced_value = none;
  }

  module _ {W : Type 0} (reader : Exec W ProfilesSnapshot) (host : Host W) (timeout : ℕ) where
    unfoldable pub read_snapshot : Exec W ProfilesSnapshot
    read_snapshot = reader >>= λ s.
        raise_if (not (is_readable s.state)) ErrorCode.interface_unavailable >> pure s

    module _ (client : Option (Interface W)) where
      -- `_resolve_control`; the interface comes with it, since the manager has a resolver only then
      abbrev pub resolve_with : Option (Interface W) → ℤ → Exec W (Interface W × GpuCapabilities)
      resolve_with none gpu = raise ErrorCode.interface_unavailable
      resolve_with (some i) gpu = resolve i host timeout gpu >>= λ r.
          raise_if (not (is_ok r.caps.control_interface_status)) ErrorCode.interface_unavailable
          >> (raise_if (not (supports r.caps ControlFeature.profile_load))
                ErrorCode.interface_unavailable
              >> pure (i, r.caps))

      unfoldable pub resolve_control : ℤ → Exec W (Interface W × GpuCapabilities)
      resolve_control gpu = resolve_with client gpu

    module _ (i : Interface W) (gpu : ℤ) (caps : GpuCapabilities) where
      -- the end of `_apply_one`; a value that the validator refuses is skipped
      abbrev pub apply_checked :
          ControlFeature
          → List (ControlFeature × Float)
          → Result (Float × Bool)
          → Exec W (List (ControlFeature × Float))
      apply_checked feature applied (ok (safe, _)) =
          apply_control (some i) gpu feature safe >> pure (applied ++ (feature, safe) ∷ [])
      apply_checked feature applied (err _) = pure applied
      apply_checked feature applied crash = lift crash

      unfoldable pub apply_one :
          ControlFeature
          → Float
          → List (ControlFeature × Float)
          → Exec W (List (ControlFeature × Float))
      apply_one feature value applied =
          if supports caps feature
          then (attempt (validate_and_clamp i host timeout gpu feature value)
              >>= apply_checked feature applied)
          else pure applied

      -- a stored number, times its scale, where it is one and finite
      abbrev pub apply_number :
          ControlFeature
          → Float
          → Option Float
          → List (ControlFeature × Float)
          → Exec W (List (ControlFeature × Float))
      apply_number feature scale none applied = pure applied
      apply_number feature scale (some x) applied =
          if is_finite x then apply_one feature (times x scale) applied else pure applied

      abbrev pub apply_stored :
          ControlFeature
          → Float
          → Option String
          → List (ControlFeature × Float)
          → Exec W (List (ControlFeature × Float))
      apply_stored feature scale none applied = pure applied
      apply_stored feature scale (some raw) applied =
          apply_number feature scale (rnd.of_text raw) applied

      unfoldable pub apply_keys :
          Dict String String
          → List MappedKey
          → List (ControlFeature × Float)
          → Exec W (List (ControlFeature × Float))
      apply_keys values [] applied = pure applied
      apply_keys values (k ∷ rest) applied =
          apply_stored k.feature k.scale (lookup k.key values) applied >>= apply_keys values rest

      abbrev pub apply_fan_number :
          Option Float → List (ControlFeature × Float) → Exec W (List (ControlFeature × Float))
      apply_fan_number none applied = pure applied
      apply_fan_number (some x) applied =
          if is_finite x then apply_one ControlFeature.fan_percent x applied else pure applied

      abbrev pub apply_fan :
          Dict String String
          → Option String
          → List (ControlFeature × Float)
          → Exec W (List (ControlFeature × Float))
      apply_fan values none applied = pure applied
      apply_fan values (some speed) applied =
          if is_fixed (lookup "FanMode" values)
          then apply_fan_number (rnd.of_text speed) applied
          else pure applied

      unfoldable pub apply_slot : ProfileSlotInfo → Exec W (List (ControlFeature × Float))
      apply_slot slot =
          apply_keys slot.values mapped_keys []
          >>= apply_fan slot.values (lookup "FanSpeed" slot.values)

      -- the outcome of the read-back in `_verify_applied`
      abbrev pub verify_state :
          List (ControlFeature × Float) → Result TuningState → Exec W (Unit {0})
      verify_state applied (ok state) =
          raise_if (not (all_confirmed state applied)) ErrorCode.comm_failure
      verify_state applied (err _) = raise ErrorCode.comm_failure
      verify_state applied crash = lift crash

      unfoldable pub verify_applied : List (ControlFeature × Float) → Exec W (Unit {0})
      verify_applied applied = attempt (read_tuning_state (some i) gpu) >>= verify_state applied

      -- what `_load_profile` and `_reset_profile` do with the slot they chose
      unfoldable pub apply_and_verify : ControlFeature → ProfileSlotInfo → Exec W ControlResult
      apply_and_verify feature slot = apply_slot slot >>= λ applied.
          raise_if (is_empty applied) ErrorCode.interface_unavailable
          >> (verify_applied applied >> pure (result feature))

    module _ (client : Option (Interface W)) where
      unfoldable pub load_profile : ℤ → Value → Exec W ControlResult
      load_profile gpu profile_id = guard (
          or_raise (valid_id profile_id) ErrorCode.invalid_value >>= λ n.
          read_snapshot >>= λ snapshot.
          or_raise (find_slot n snapshot.slots) ErrorCode.invalid_value >>= λ slot.
          resolve_control client gpu >>= λ ic.
          apply_and_verify ic.0 gpu ic.1 ControlFeature.profile_load slot)

      -- the read of the applied state, in which a typed error is an unavailable interface
      abbrev pub state_or_unavailable : Result TuningState → Exec W TuningState
      state_or_unavailable (ok state) = pure state
      state_or_unavailable (err _) = raise ErrorCode.interface_unavailable
      state_or_unavailable crash = lift crash

      unfoldable pub reset_profile : ℤ → Exec W ControlResult
      reset_profile gpu = guard (
          resolve_control client gpu >>= λ ic. read_snapshot >>= λ snapshot.
          raise_if (is_empty (present_slots snapshot)) ErrorCode.invalid_value
          >> (attempt (read_tuning_state client gpu) >>= λ read.
              state_or_unavailable read >>= λ state.
              or_raise (sole (matching state (present_slots snapshot))) ErrorCode.invalid_value
              >>= λ slot. apply_and_verify ic.0 gpu ic.1 ControlFeature.profile_reset slot))

      -- the id of the active profile, for the outcome of the read-back
      abbrev pub active_slot :
          List ProfileSlotInfo → Result TuningState → Result (Option ProfileSlotInfo)
      active_slot slots (ok state) = ok (sole (matching state slots))
      active_slot slots (err _) = ok none
      active_slot slots crash = crash

      abbrev pub is_active_slot : Option ProfileSlotInfo → ProfileSlotInfo → Bool
      is_active_slot none s = false
      is_active_slot (some a) s = s.slot == a.slot

      abbrev pub list_slots : List ProfileSlotInfo → Option ProfileSlotInfo → List Profile
      list_slots slots active =
          map (λ s. record { id = s.slot; is_active = is_active_slot active s }) slots

      -- the part of `_get_profiles` where a slot is present
      abbrev pub mark_active : ℤ → List ProfileSlotInfo → Exec W (List Profile)
      mark_active gpu slots = attempt (read_tuning_state client gpu) >>= λ read.
          lift (active_slot slots read) >>= λ active. pure (list_slots slots active)

      unfoldable pub get_profiles : ℤ → Exec W (List Profile)
      get_profiles gpu = guard (
          read_snapshot >>= λ snapshot.
          if is_empty (present_slots snapshot)
          then pure []
          else mark_active gpu (present_slots snapshot))

    abbrev pub auto_apply : Result ProfilesSnapshot → Result (Option Bool)
    auto_apply (ok s) = ok (elim s.state [ available ↦ some s.startup_present | _ ↦ none ])
    auto_apply (err _) = ok none
    auto_apply crash = crash

    unfoldable pub startup_auto_apply : Exec W (Option Bool)
    startup_auto_apply = attempt reader >>= λ r. lift (auto_apply r)
