-- ===== src/Services/Profiles/Applied.antt =====
-- What applying a profile's values writes (afterburner/services/profiles.py).
use afterburner_gassist_plug.Base.{ℕ, ◌≡◌, Bool, String, Option, none, some, List, [], ◌∷◌}
use afterburner_gassist_plug.Int.{ℤ}
use afterburner_gassist_plug.Float.{Float, Rounding, is_finite}
use afterburner_gassist_plug.Dict.{Dict, lookup, string_eq}
use afterburner_gassist_plug.Exec.{Exec, Result, ok, err, crash, pure, attempt}
use afterburner_gassist_plug.Exec.Hoare.{
  Ensures, Ensures-bind, Ensures-branch, Ensures-eq, Keeps-of-world, world-of-Keeps,
}
use afterburner_gassist_plug.Models.{ControlFeature, GpuCapabilities, supports}
use afterburner_gassist_plug.Interface.{Interface, Host}
use afterburner_gassist_plug.Integration.Client
use afterburner_gassist_plug.Integration.Client.{typed}
use afterburner_gassist_plug.Safety.Capabilities.{resolve}
use afterburner_gassist_plug.Safety.Validator.{validate_and_clamp}
use afterburner_gassist_plug.Safety.Frame.{ReadFrame, resolve-Resolved}
use afterburner_gassist_plug.Integration.ProfileFiles.{ProfilesSnapshot, ProfileSlotInfo}
use afterburner_gassist_plug.Services.Calls.{
  Calls, clock_read, detected, capabilities_read, control_written,
}
use afterburner_gassist_plug.Services.Profiles.{
  MappedKey, mapped_keys, is_fixed, apply_checked, apply_one, apply_number, apply_stored,
  apply_keys, apply_fan_number, apply_fan, apply_slot,
}

-- a handler that types the error
pub guard-Ensures :
    {W A : Type 0} (P : A → W → Type 0) (o : Result A × W)
    → Ensures P (λ _. Unit {0}) o
    → Ensures P (λ _. Unit) (typed o.0, o.1)
guard-Ensures P (ok a, w) h = h
guard-Ensures P (err e, w) h = tt
guard-Ensures P (crash, w) h = tt

pub typed-inv :
    {W A : Type 0} (o : Result A × W) (a : A) (w : W)
    → ◌≡◌ {A = Result A × W} (typed o.0, o.1) (ok a, w)
    → o ≡ (ok a, w)
typed-inv (ok b, w1) a w h = h
typed-inv (err e, w1) a w h = absurd (cc)
typed-inv (crash, w1) a w h = absurd (cc)

module _ {W : Type 0} (rnd : Rounding) (int_of_text : String → Option ℤ) (tolerance : Float)
    (reader : Exec W ProfilesSnapshot) (host : Host W) (timeout : ℕ) (i : Interface W)
    (gpu : ℤ) where
  -- `P` outlives the reads of the resolver.
  pub calls-ReadFrame :
      (w : W) (xs : List (ControlFeature × Float))
      → ReadFrame i host timeout (Calls i host gpu w xs) (λ _. Unit {0}) gpu
  calls-ReadFrame w xs = record {
    on_clock = λ w1 h. clock_read xs w1 h;
    on_detect = λ w1 h. detected xs w1 h;
    on_capabilities = λ w1 h. capabilities_read xs w1 h;
    fits = λ w1 caps h e. tt;
    fits_none = tt;
  }

  module _ (start : W) where
    abbrev Applied : Type 0
    Applied = List (ControlFeature × Float)

    -- the writes so far are those in the list
    abbrev pub IsWritten : Applied → W → Type 0
    IsWritten xs w = Calls i host gpu start xs w

    apply_checked-IsWritten :
        (caps : GpuCapabilities) (f : ControlFeature) (applied : Applied)
        (r : Result (Float × Bool)) (w : W)
        → IsWritten applied w
        → Ensures IsWritten
            (λ _. Unit {0})
            (apply_checked rnd int_of_text tolerance reader host timeout i gpu caps f applied r w)
    unfolding Client.apply_control
    apply_checked-IsWritten caps f applied (ok (safe, b)) w h =
        Ensures-bind _ _ (λ _. Unit) (Client.apply_control (some i) gpu f safe) _ w
          (Ensures-eq (Client.apply_control (some i) gpu f safe w))
          (λ r w1 e.
            control_written applied f safe r w w1 h
              (typed-inv (i.apply_control gpu f safe w) r w1 e))
    apply_checked-IsWritten caps f applied (err e) w h = h
    apply_checked-IsWritten caps f applied crash w h = tt

    apply_one-IsWritten :
        (caps : GpuCapabilities) (f : ControlFeature) (v : Float) (applied : Applied) (w : W)
        → IsWritten applied w
        → Ensures IsWritten
            (λ _. Unit {0})
            (apply_one rnd int_of_text tolerance reader host timeout i gpu caps f v applied w)
    unfolding apply_one validate_and_clamp
    apply_one-IsWritten caps f v applied w h =
        Ensures-branch IsWritten (λ _. Unit) (supports caps f) _ (pure applied) w
          (λ _.
            Ensures-bind (λ _. IsWritten applied) IsWritten (λ _. Unit)
              (attempt (validate_and_clamp i host timeout gpu f v)) _ w
              (world-of-Keeps (IsWritten applied) (validate_and_clamp i host timeout gpu f v w) (
                Ensures-bind (λ _ w1. IsWritten applied w1 × Unit {0}) (λ _. IsWritten applied)
                  (IsWritten applied) (resolve i host timeout gpu) _ w
                  (resolve-Resolved i host timeout (calls-ReadFrame start applied) w h)
                  (λ res w1 k. Keeps-of-world (IsWritten applied) _ k.0)))
              (λ r w1 k. apply_checked-IsWritten caps f applied r w1 k))
          (λ _. h)

    apply_number-IsWritten :
        (caps : GpuCapabilities) (f : ControlFeature) (scale : Float) (o : Option Float)
        (applied : Applied) (w : W)
        → IsWritten applied w
        → Ensures IsWritten
            (λ _. Unit {0})
            (apply_number rnd int_of_text tolerance reader host timeout i gpu caps f scale o applied
              w)
    apply_number-IsWritten caps f scale none applied w h = h
    apply_number-IsWritten caps f scale (some x) applied w h =
        Ensures-branch IsWritten (λ _. Unit) (is_finite x) _ (pure applied) w
          (λ _. apply_one-IsWritten caps f _ applied w h) (λ _. h)

    apply_stored-IsWritten :
        (caps : GpuCapabilities) (f : ControlFeature) (scale : Float) (o : Option String)
        (applied : Applied) (w : W)
        → IsWritten applied w
        → Ensures IsWritten
            (λ _. Unit {0})
            (apply_stored rnd int_of_text tolerance reader host timeout i gpu caps f scale o applied
              w)
    apply_stored-IsWritten caps f scale none applied w h = h
    apply_stored-IsWritten caps f scale (some raw) applied w h =
        apply_number-IsWritten caps f scale (rnd.of_text raw) applied w h

    apply_keys-IsWritten :
        (caps : GpuCapabilities) (values : Dict String String) (keys : List MappedKey)
        (applied : Applied) (w : W)
        → IsWritten applied w
        → Ensures IsWritten
            (λ _. Unit {0})
            (apply_keys rnd int_of_text tolerance reader host timeout i gpu caps values keys applied
              w)
    unfolding apply_keys
    apply_keys-IsWritten caps values [] applied w h = h
    apply_keys-IsWritten caps values (k ∷ rest) applied w h =
        Ensures-bind IsWritten IsWritten (λ _. Unit)
          (apply_stored rnd int_of_text tolerance reader host timeout i gpu caps k.feature k.scale
            (lookup k.key values) applied)
          _ w (apply_stored-IsWritten caps k.feature k.scale (lookup k.key values) applied w h)
          (λ more w1 k1. apply_keys-IsWritten caps values rest more w1 k1)

    apply_fan_number-IsWritten :
        (caps : GpuCapabilities) (o : Option Float) (applied : Applied) (w : W)
        → IsWritten applied w
        → Ensures IsWritten
            (λ _. Unit {0})
            (apply_fan_number rnd int_of_text tolerance reader host timeout i gpu caps o applied w)
    apply_fan_number-IsWritten caps none applied w h = h
    apply_fan_number-IsWritten caps (some x) applied w h =
        Ensures-branch IsWritten (λ _. Unit) (is_finite x) _ (pure applied) w
          (λ _. apply_one-IsWritten caps ControlFeature.fan_percent x applied w h) (λ _. h)

    apply_fan-IsWritten :
        (caps : GpuCapabilities) (values : Dict String String) (o : Option String)
        (applied : Applied) (w : W)
        → IsWritten applied w
        → Ensures IsWritten
            (λ _. Unit {0})
            (apply_fan rnd int_of_text tolerance reader host timeout i gpu caps values o applied w)
    apply_fan-IsWritten caps values none applied w h = h
    apply_fan-IsWritten caps values (some speed) applied w h =
        Ensures-branch IsWritten (λ _. Unit)
          (is_fixed rnd int_of_text tolerance (lookup "FanMode" values)) _ (pure applied) w
          (λ _. apply_fan_number-IsWritten caps (rnd.of_text speed) applied w h) (λ _. h)

    pub apply_slot-IsWritten :
        (caps : GpuCapabilities) (slot : ProfileSlotInfo) (w : W)
        → IsWritten [] w
        → Ensures IsWritten
            (λ _. Unit {0})
            (apply_slot rnd int_of_text tolerance reader host timeout i gpu caps slot w)
    unfolding apply_slot
    apply_slot-IsWritten caps slot w h =
        Ensures-bind IsWritten IsWritten (λ _. Unit)
          (apply_keys rnd int_of_text tolerance reader host timeout i gpu caps slot.values
            mapped_keys [])
          _ w (apply_keys-IsWritten caps slot.values mapped_keys [] w h)
          (λ applied w1 k. apply_fan-IsWritten caps slot.values _ applied w1 k)
