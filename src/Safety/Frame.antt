-- ===== src/Safety/Frame.antt =====
-- What a resolve and a validation leave of the world, and what they say of the limits.
use afterburner_gassist_plug.Base.{ℕ, ◌+◌, ◌≡◌, refl, sym, ap, subst, ◌∙◌, Bool, true, some, leb}
use afterburner_gassist_plug.Int.{ℤ}
use afterburner_gassist_plug.Float.{Float}
use afterburner_gassist_plug.Exec.{Result, ok, err, crash}
use afterburner_gassist_plug.Exec.Hoare.{Ensures, Ensures-if, Ensures-bind, Keeps-of-world}
use afterburner_gassist_plug.Models.{
  InterfaceStatus, ControlFeature, Range, clamp, contains, GpuLimits, no_limits, range_for,
  GpuCapabilities, is_ok,
}
use afterburner_gassist_plug.Interface.{Interface, Host}
use afterburner_gassist_plug.Safety.Capabilities.{Resolution, resolve, after_read, after_detect}
use afterburner_gassist_plug.Safety.Validator.{clamp_for, validate_and_clamp}
use afterburner_gassist_plug.Safety.Clamping.{IsProper, clamp-contains, clamp_for-IsSafe}

module _ {W : Type 0} (i : Interface W) (host : Host W) (timeout : ℕ) where
  -- `P` outlives the reads of the resolver, and the limits that are read satisfy `Fits`.
  pub record ReadFrame (P : W → Type 0) (Fits : GpuLimits → Type 0) (gpu : ℤ) : Type 0 where
    pub on_clock : (w : W) → P w → P (host.clock w).1
    pub on_detect : (w : W) → P w → P (i.detect w).1
    pub on_capabilities : (w : W) → P w → P (i.read_capabilities gpu w).1
    pub fits :
        (w : W) (caps : GpuCapabilities)
        → P w
        → (i.read_capabilities gpu w).0 ≡ ok caps
        → Fits caps.limits
    pub fits_none : Fits no_limits

  module _ {P : W → Type 0} {Fits : GpuLimits → Type 0} {gpu : ℤ}
      (frame : ReadFrame P Fits gpu) where
    abbrev Resolved : Resolution → W → Type 0
    Resolved res w = P w × Fits res.caps.limits

    after_read-Resolved :
        (start : ℕ) (r : Result GpuCapabilities) (w : W)
        → P w
        → ((caps : GpuCapabilities) → r ≡ ok caps → Fits caps.limits)
        → Ensures Resolved P (after_read i host timeout gpu start r w)
    after_read-Resolved start (ok caps) w h fit =
        Ensures-if Resolved P (leb (start + timeout) (host.clock w).0) _ _
          (λ _. (frame.on_clock w h, frame.fits_none)) (λ _. (frame.on_clock w h, fit caps refl))
    after_read-Resolved start (err e) w h fit = (h, frame.fits_none)
    after_read-Resolved start crash w h fit = (h, frame.fits_none)

    after_detect-Resolved :
        (start : ℕ) (status : InterfaceStatus) (w : W)
        → P w
        → Ensures Resolved P (after_detect i host timeout gpu start status w)
    after_detect-Resolved start status w h =
        let (t, w') = host.clock w in
        let h' = frame.on_clock w h in
        Ensures-if Resolved P (leb (start + timeout) t) _ _ (λ _. (h', frame.fits_none))
          (λ _.
            Ensures-if Resolved P (is_ok status) _ _
              (λ _.
                after_read-Resolved start (i.read_capabilities gpu w').0
                  (i.read_capabilities gpu w').1 (frame.on_capabilities w' h')
                  (λ caps e. frame.fits w' caps h' e))
              (λ _. (h', frame.fits_none)))

    pub resolve-Resolved :
        (w : W)
        → P w
        → Ensures (λ res w'. P w' × Fits res.caps.limits) P (resolve i host timeout gpu w)
    unfolding resolve
    resolve-Resolved w h =
        let (start, w') = host.clock w in
        let h' = frame.on_clock w h in
        Ensures-bind (λ _. P) Resolved P i.detect (after_detect i host timeout gpu start) w'
          (Keeps-of-world P (i.detect w') (frame.on_detect w' h'))
          (λ s w'' k. after_detect-Resolved start s w'' k)

-- The only range reported for `f` is `rng`.
abbrev pub Reports : ControlFeature → Range → GpuLimits → Type 0
Reports f rng l = (r : Range) → range_for l f ≡ some r → r ≡ rng

module _ {W : Type 0} (i : Interface W) (host : Host W) (timeout : ℕ) where
  module _ {P : W → Type 0} {gpu : ℤ} (f : ControlFeature) (rng : Range) (proper : IsProper rng)
      (frame : ReadFrame i host timeout P (Reports f rng) gpu) where
    clamp_for-Validated :
        (caps : GpuCapabilities) (v : Float) (w : W)
        → P w
        → Reports f rng caps.limits
        → Ensures
            (λ out w'. P w' × (contains rng out.0 ≡ true) × (out.0 ≡ clamp rng v))
            P
            (clamp_for caps f v, w)
    clamp_for-Validated caps v w h fit = go (clamp_for caps f v) refl
      where
        go :
            (r : Result (Float × Bool))
            → clamp_for caps f v ≡ r
            → Ensures {A = Float × Bool}
                (λ out w'. P w' × (contains rng out.0 ≡ true) × (out.0 ≡ clamp rng v))
                P
                (r, w)
        go (ok (v', clamped)) e =
            let safe = clamp_for-IsSafe caps f v e in
            (
              h,
              ap (contains rng) safe.value
                  ∙ subst (λ r. contains r (clamp safe.rng v) ≡ true) (fit safe.rng safe.reported)
                      (clamp-contains safe.rng v
                        (subst IsProper (sym (fit safe.rng safe.reported)) proper) safe.upright),
              safe.value ∙ ap (λ r. clamp r v) (fit safe.rng safe.reported),
            )
        go (err e') e = h
        go crash e = h

    -- A validated value lies in the range that is reported, and is the one asked for, clamped.
    pub validate_and_clamp-Validated :
        (v : Float) (w : W)
        → P w
        → Ensures
            (λ out w'. P w' × (contains rng out.0 ≡ true) × (out.0 ≡ clamp rng v))
            P
            (validate_and_clamp i host timeout gpu f v w)
    unfolding validate_and_clamp
    validate_and_clamp-Validated v w h =
        Ensures-bind (λ res w'. P w' × Reports f rng res.caps.limits)
          (λ out w'. P w' × (contains rng out.0 ≡ true) × (out.0 ≡ clamp rng v)) P
          (resolve i host timeout gpu) _ w (resolve-Resolved i host timeout frame w h)
          (λ res w' k. clamp_for-Validated res.caps v w' k.0 k.1)
