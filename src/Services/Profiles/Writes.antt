-- ===== src/Services/Profiles/Writes.antt =====
-- What loading a profile writes (afterburner/services/profiles.py).
use afterburner_gassist_plug.Base.{
  ℕ, ◌≡◌, refl, sym, subst, true, false, Bool, String, Option, none, some, List, [], ◌∷◌, not,
}
use afterburner_gassist_plug.Int.{ℤ}
use afterburner_gassist_plug.Float.{Float, is_finite, Rounding}
use afterburner_gassist_plug.Dict.{Dict, lookup, string_eq}
use afterburner_gassist_plug.Value.{Value}
use afterburner_gassist_plug.Exec.{Exec, Result, ok, err, crash, ErrorCode, pure, attempt, raise_if}
use afterburner_gassist_plug.Exec.Hoare.{
  Ensures, Ensures-bind, Ensures-or_raise, Ensures-raise_if, Ensures-branch, Keeps, Keeps-bind,
  Keeps-of-world, world-of-Keeps, Ensures-weaken,
}
use afterburner_gassist_plug.Models.{
  ControlFeature, GpuCapabilities, TuningState, Range, contains, clamp, is_ok, supports,
}
use afterburner_gassist_plug.Interface.{Interface, Host}
use afterburner_gassist_plug.Integration.Client
use afterburner_gassist_plug.Safety.Capabilities.{resolve}
use afterburner_gassist_plug.Safety.Clamping.{IsProper}
use afterburner_gassist_plug.Safety.Validator.{validate_and_clamp}
use afterburner_gassist_plug.Safety.Frame.{
  ReadFrame, Reports, resolve-Resolved, validate_and_clamp-Validated,
}
use afterburner_gassist_plug.Integration.ProfileFiles.{ProfilesSnapshot, ProfileSlotInfo}
use afterburner_gassist_plug.Services.Profiles.{
  MappedKey, mapped_keys, valid_id, find_slot, is_empty, is_fixed, is_readable, read_snapshot,
  resolve_control, apply_checked, apply_one, apply_number, apply_stored, apply_keys,
  apply_fan_number, apply_fan, apply_slot, verify_state, verify_applied, all_confirmed,
  apply_and_verify, load_profile,
}

-- the controls that a profile can set
abbrev pub is_stored : ControlFeature → Bool
is_stored ControlFeature.power_limit = true
is_stored ControlFeature.core_offset = true
is_stored ControlFeature.memory_offset = true
is_stored ControlFeature.fan_percent = true
is_stored ControlFeature.voltage = false
is_stored ControlFeature.fan_curve = false
is_stored ControlFeature.profile_load = false
is_stored ControlFeature.profile_reset = false

module _ {W : Type 0} (rnd : Rounding) (int_of_text : String → Option ℤ) (tolerance : Float)
    (reader : Exec W ProfilesSnapshot) (host : Host W) (timeout : ℕ) where
  -- `P` outlives the reader, every read of the interface, and every write of a stored control with a
  -- value in its range; `rng` gives the only range that is reported of each control.
  pub record ProfileFrame (i : Interface W) (P : W → Type 0) (gpu : ℤ)
      (rng : ControlFeature → Range) : Type 0 where
    pub reads : (f : ControlFeature) → ReadFrame i host timeout P (Reports f (rng f)) gpu
    pub proper : (f : ControlFeature) → IsProper (rng f)
    pub on_reader : (w : W) → P w → P (reader w).1
    pub on_tuning_state : (w : W) → P w → P (i.read_tuning_state gpu w).1
    pub on_write :
        (f : ControlFeature) (v : Float) (w : W)
        → is_stored f ≡ true
        → contains (rng f) v ≡ true
        → P w
        → P (i.apply_control gpu f v w).1

  module _ (i : Interface W) {P : W → Type 0} {gpu : ℤ} {rng : ControlFeature → Range}
      (frame : ProfileFrame i P gpu rng) where
    abbrev Applied : Type 0
    Applied = List (ControlFeature × Float)

    apply_one-Keeps :
        (caps : GpuCapabilities) (f : ControlFeature) (v : Float) (applied : Applied) (w : W)
        → is_stored f ≡ true
        → P w
        → Keeps P (apply_one rnd int_of_text tolerance reader host timeout i gpu caps f v applied w)
    unfolding apply_one Client.apply_control
    apply_one-Keeps caps f v applied w s h =
        Ensures-branch (λ _. P) P (supports caps f) _ (pure applied) w
          (λ _.
            Ensures-bind (λ r w'. P w' × IsChecked r) (λ _. P) P
              (attempt (validate_and_clamp i host timeout gpu f v)) _ w
              (checked (validate_and_clamp i host timeout gpu f v w) (
                validate_and_clamp-Validated i host timeout f (rng f) (frame.proper f)
                  (frame.reads f) v w h))
              (λ r w' k. write r w' k.0 k.1))
          (λ _. h)
      where
        IsChecked : Result (Float × Bool) → Type 0
        IsChecked (ok (safe, _)) = contains (rng f) safe ≡ true
        IsChecked (err _) = Unit
        IsChecked crash = Unit

        checked :
            (o : Result (Float × Bool) × W)
            → Ensures
                (λ out w'. P w' × (contains (rng f) out.0 ≡ true) × (out.0 ≡ clamp (rng f) v))
                P
                o
            → P o.1 × IsChecked o.0
        checked (ok out, w') (a, b, c) = (a, b)
        checked (err e, w') a = (a, tt)
        checked (crash, w') a = (a, tt)

        write :
            (r : Result (Float × Bool)) (w' : W)
            → P w'
            → IsChecked r
            → Keeps P (
                apply_checked rnd int_of_text tolerance reader host timeout i gpu caps f applied r
                  w')
        write (ok (safe, _)) w' k c =
            Keeps-bind P (Client.apply_control (some i) gpu f safe) _ w'
              (Keeps-of-world P (Client.apply_control (some i) gpu f safe w')
                (frame.on_write f safe w' s c k))
              (λ _ w'' k. k)
        write (err e) w' k c = k
        write crash w' k c = k

    apply_number-Keeps :
        (caps : GpuCapabilities) (f : ControlFeature) (scale : Float) (o : Option Float)
        (applied : Applied) (w : W)
        → is_stored f ≡ true
        → P w
        → Keeps P (
            apply_number rnd int_of_text tolerance reader host timeout i gpu caps f scale o applied
              w)
    apply_number-Keeps caps f scale none applied w s h = h
    apply_number-Keeps caps f scale (some x) applied w s h =
        Ensures-branch (λ _. P) P (is_finite x) _ (pure applied) w
          (λ _. apply_one-Keeps caps f _ applied w s h) (λ _. h)

    apply_stored-Keeps :
        (caps : GpuCapabilities) (f : ControlFeature) (scale : Float) (o : Option String)
        (applied : Applied) (w : W)
        → is_stored f ≡ true
        → P w
        → Keeps P (
            apply_stored rnd int_of_text tolerance reader host timeout i gpu caps f scale o applied
              w)
    apply_stored-Keeps caps f scale none applied w s h = h
    apply_stored-Keeps caps f scale (some raw) applied w s h =
        apply_number-Keeps caps f scale (rnd.of_text raw) applied w s h

    abbrev AreStored : List MappedKey → Type 0
    AreStored [] = Unit
    AreStored (k ∷ rest) = (is_stored k.feature ≡ true) × AreStored rest

    apply_keys-Keeps :
        (caps : GpuCapabilities) (values : Dict String String) (keys : List MappedKey)
        (applied : Applied) (w : W)
        → AreStored keys
        → P w
        → Keeps P (
            apply_keys rnd int_of_text tolerance reader host timeout i gpu caps values keys applied
              w)
    unfolding apply_keys
    apply_keys-Keeps caps values [] applied w s h = h
    apply_keys-Keeps caps values (k ∷ rest) applied w (s, more) h =
        Keeps-bind P
          (apply_stored rnd int_of_text tolerance reader host timeout i gpu caps k.feature k.scale
            (lookup k.key values) applied)
          _ w (apply_stored-Keeps caps k.feature k.scale (lookup k.key values) applied w s h)
          (λ applied' w' h'. apply_keys-Keeps caps values rest applied' w' more h')

    apply_fan_number-Keeps :
        (caps : GpuCapabilities) (o : Option Float) (applied : Applied) (w : W)
        → P w
        → Keeps P
            (apply_fan_number rnd int_of_text tolerance reader host timeout i gpu caps o applied w)
    apply_fan_number-Keeps caps none applied w h = h
    apply_fan_number-Keeps caps (some x) applied w h =
        Ensures-branch (λ _. P) P (is_finite x) _ (pure applied) w
          (λ _. apply_one-Keeps caps ControlFeature.fan_percent x applied w refl h) (λ _. h)

    apply_fan-Keeps :
        (caps : GpuCapabilities) (values : Dict String String) (o : Option String)
        (applied : Applied) (w : W)
        → P w
        → Keeps P
            (apply_fan rnd int_of_text tolerance reader host timeout i gpu caps values o applied w)
    apply_fan-Keeps caps values none applied w h = h
    apply_fan-Keeps caps values (some speed) applied w h =
        Ensures-branch (λ _. P) P (is_fixed rnd int_of_text tolerance (lookup "FanMode" values)) _
          (pure applied) w (λ _. apply_fan_number-Keeps caps (rnd.of_text speed) applied w h)
          (λ _. h)

    verify_state-Keeps :
        (caps : GpuCapabilities) (applied : Applied) (r : Result TuningState) (w : W)
        → P w
        → Keeps P
            (verify_state rnd int_of_text tolerance reader host timeout i gpu caps applied r w)
    verify_state-Keeps caps applied (ok state) w h =
        Keeps-of-world P
          (raise_if (not (all_confirmed rnd int_of_text tolerance state applied))
            ErrorCode.comm_failure w)
          h
    verify_state-Keeps caps applied (err e) w h = h
    verify_state-Keeps caps applied crash w h = h

    apply_and_verify-Keeps :
        (caps : GpuCapabilities) (feature : ControlFeature) (slot : ProfileSlotInfo) (w : W)
        → P w
        → Keeps P (
            apply_and_verify rnd int_of_text tolerance reader host timeout i gpu caps feature slot
              w)
    unfolding apply_and_verify apply_slot verify_applied Client.read_tuning_state
    apply_and_verify-Keeps caps feature slot w h =
        Keeps-bind P (apply_slot rnd int_of_text tolerance reader host timeout i gpu caps slot) _ w
          (Keeps-bind P
            (apply_keys rnd int_of_text tolerance reader host timeout i gpu caps slot.values
              mapped_keys [])
            _ w (apply_keys-Keeps caps slot.values mapped_keys [] w (refl, (refl, (refl, tt))) h)
            (λ applied w' h'.
              apply_fan-Keeps caps slot.values (lookup "FanSpeed" slot.values) applied w' h'))
          (λ applied w' h'.
            Ensures-raise_if _ _ (is_empty applied) ErrorCode.interface_unavailable _ w' h' (λ _.
              Keeps-bind P
                (verify_applied rnd int_of_text tolerance reader host timeout i gpu caps applied) _
                w'
                (Keeps-bind P (attempt (Client.read_tuning_state (some i) gpu)) _ w'
                  (frame.on_tuning_state w' h') (λ r w2 k. verify_state-Keeps caps applied r w2 k))
                (λ _ w2 k. k)))

    -- the interface that comes with the capabilities is the client's
    resolve_control-lem :
        (w : W)
        → P w
        → Ensures
            (λ ic w'. (ic.0 ≡ i) × P w')
            P
            (resolve_control rnd int_of_text tolerance reader host timeout (some i) gpu w)
    unfolding resolve_control
    resolve_control-lem w h =
        Ensures-bind (λ _. P) (λ ic w'. (ic.0 ≡ i) × P w') P (resolve i host timeout gpu) _ w
          (Ensures-weaken _ (λ _. P) P (resolve i host timeout gpu w) (λ r w' k. k.0)
            (resolve-Resolved i host timeout (frame.reads ControlFeature.power_limit) w h))
          (λ r w' k.
            Ensures-raise_if _ _ (not (is_ok r.caps.control_interface_status))
              ErrorCode.interface_unavailable _ w' k
              (λ _.
                Ensures-raise_if _ _ (not (supports r.caps ControlFeature.profile_load))
                  ErrorCode.interface_unavailable _ w' k (λ _. (refl, k))))

    apply_resolved-Keeps :
        (ic : Interface W × GpuCapabilities) (feature : ControlFeature) (slot : ProfileSlotInfo)
        (w : W)
        → ic.0 ≡ i
        → P w
        → Keeps P (
            apply_and_verify rnd int_of_text tolerance reader host timeout ic.0 gpu ic.1 feature
              slot w)
    apply_resolved-Keeps (j, caps) feature slot w e h =
        subst
          (λ j. Keeps P (
            apply_and_verify rnd int_of_text tolerance reader host timeout j gpu caps feature slot
              w))
          (sym e) (apply_and_verify-Keeps caps feature slot w h)

    read_snapshot-Keeps :
        (w : W) → P w → Keeps P (read_snapshot rnd int_of_text tolerance reader host timeout w)
    unfolding read_snapshot
    read_snapshot-Keeps w h =
        Keeps-bind P reader _ w (Keeps-of-world P (reader w) (frame.on_reader w h)) (λ s w' k.
          Ensures-raise_if _ _ (not (is_readable s.state)) ErrorCode.interface_unavailable _ w' k
            (λ _. k))

    -- Whatever the profile reader, the reads of the interface and every write of a power limit, clock
    -- offset or fan percentage within the range reported for it keep, `load_profile` keeps, for an id of
    -- any type and however it ends: it makes no other write, whatever the profile file holds.
    pub load_profile-Keeps :
        (profile_id : Value) (w : W)
        → P w
        → P (load_profile rnd int_of_text tolerance reader host timeout (some i) gpu profile_id w).1
    unfolding load_profile
    load_profile-Keeps profile_id w h = world-of-Keeps P _ (
        Ensures-or_raise _ _ (valid_id profile_id) ErrorCode.invalid_value _ w h (λ n _.
          Keeps-bind P (read_snapshot rnd int_of_text tolerance reader host timeout) _ w
            (read_snapshot-Keeps w h)
            (λ snapshot w1 h1.
              Ensures-or_raise _ _ (find_slot n snapshot.slots) ErrorCode.invalid_value _ w1 h1
                (λ slot _.
                  Ensures-bind (λ ic w'. (ic.0 ≡ i) × P w') (λ _. P) P
                    (resolve_control rnd int_of_text tolerance reader host timeout (some i) gpu) _
                    w1 (resolve_control-lem w1 h1)
                    (λ ic w2 k.
                      apply_resolved-Keeps ic ControlFeature.profile_load slot w2 k.0 k.1)))))
