-- ===== src/Safety/Clamping.antt =====
-- What the validator lets through, against the reported range (afterburner/safety/validator.py).
use afterburner_gassist_plug.Base.{
  ℕ, ◌≡◌, refl, inl, inr, Bool, true, false, not, Option, none, some, arith, ap, ◌∙◌, Bool-cases,
}
use afterburner_gassist_plug.Float.{Float, is_finite, is_nan, float_le, float_eq}
use afterburner_gassist_plug.Exec.{Result, ok, err, crash, ErrorCode}
use afterburner_gassist_plug.Exec.Hoare.{>>=-eq-ok}
use afterburner_gassist_plug.Models.{
  ControlFeature, Range, clamp, contains, inverted, GpuCapabilities, supports, range_for,
}
use afterburner_gassist_plug.Int.{ℤ}
use afterburner_gassist_plug.Interface.{Interface, Host}
use afterburner_gassist_plug.Safety.Capabilities.{Resolution, resolve, has_range}
use afterburner_gassist_plug.Safety.Validator.{clamp_for, clamp_in, validate_and_clamp}

-- The ends of a range are numbers.
abbrev pub IsProper : Range → Type 0
IsProper r = (is_nan r.min ≡ false) × (is_nan r.max ≡ false)

-- Whatever is clamped, NaN included, the result lies in a proper range that is not inverted.
pub clamp-contains :
    (r : Range) (v : Float) → IsProper r → inverted r ≡ false → contains r (clamp r v) ≡ true
unfolding clamp contains inverted
clamp-contains r v p h = ground arith

-- A value that lies in the range is left as it is.
pub clamp_inside : (r : Range) (v : Float) → contains r v ≡ true → clamp r v ≡ v
unfolding clamp contains
clamp_inside r v h = ground arith

-- Clamping keeps the order of two values.
pub clamp_mono :
    (r : Range) (u v : Float)
    → IsProper r
    → inverted r ≡ false
    → float_le u v ≡ true
    → float_le (clamp r u) (clamp r v) ≡ true
unfolding clamp inverted
clamp_mono r u v p h k = ground arith

-- What a value that was let through is.
pub record IsSafe (caps : GpuCapabilities) (f : ControlFeature) (requested safe : Float)
    (clamped : Bool) : Type 0 where
  pub rng : Range
  pub reported : range_for caps.limits f ≡ some rng
  pub upright : inverted rng ≡ false
  pub supported : supports caps f ≡ true
  pub finite : is_finite requested ≡ true
  pub value : safe ≡ clamp rng requested
  pub flag : clamped ≡ not (float_eq safe requested)

clamp_in-IsSafe :
    (caps : GpuCapabilities) (f : ControlFeature) (o : Option Range) (requested : Float)
    {safe : Float} {clamped : Bool}
    → range_for caps.limits f ≡ o
    → supports caps f ≡ true
    → clamp_in o requested ≡ ok (safe, clamped)
    → IsSafe caps f requested safe clamped
unfolding clamp_in
clamp_in-IsSafe caps f none requested e s h = absurd (cc)
clamp_in-IsSafe caps f (some rng) requested e s h = record {
  rng = rng;
  reported = e;
  upright = ground arith;
  supported = s;
  finite = ground arith;
  value = ground arith;
  flag = ground arith;
}

pub clamp_for-IsSafe :
    (caps : GpuCapabilities) (f : ControlFeature) (requested : Float) {safe : Float}
    {clamped : Bool}
    → clamp_for caps f requested ≡ ok (safe, clamped)
    → IsSafe caps f requested safe clamped
unfolding clamp_for
clamp_for-IsSafe caps f requested h = elim (Bool-cases (supports caps f)) [
  | inl s ↦ clamp_in-IsSafe caps f (range_for caps.limits f) requested refl s (rw s at h)
  | inr n ↦ absurd (let k = rw n at h in cc)
]

-- The outcome of a request, from its tests: an unsupported feature, no usable range and a value that
-- is not finite are refused, in this order, and all else is let through, clamped.
abbrev pub expected_error : Bool → Bool → Bool → Option ErrorCode
expected_error false ranged finite = some ErrorCode.unsupported_feature
expected_error true false finite = some ErrorCode.interface_unavailable
expected_error true true false = some ErrorCode.invalid_value
expected_error true true true = none

abbrev pub error_of : {A : Type 0} → Result A → Option ErrorCode
error_of (ok _) = none
error_of (err e) = some e
error_of crash = none

clamp_in_error :
    (o : Option Range) (requested : Float)
    → error_of (clamp_in o requested) ≡ expected_error true (has_range o) (is_finite requested)
unfolding clamp_in
clamp_in_error none requested = refl
clamp_in_error (some rng) requested = ground arith

-- A request is refused as `unsupported_feature` if the feature is not supported, else as
-- `interface_unavailable` if no range that is not inverted is reported, else as `invalid_value` if
-- the value is not finite, and is let through in every other case.
pub clamp_for_error :
    (caps : GpuCapabilities) (f : ControlFeature) (requested : Float)
    → error_of (clamp_for caps f requested)
      ≡ expected_error (supports caps f) (has_range (range_for caps.limits f)) (is_finite requested)
unfolding clamp_for
clamp_for_error caps f requested = elim (Bool-cases (supports caps f)) [
  | inl s ↦ rw s (clamp_in_error (range_for caps.limits f) requested)
  | inr n ↦ rw n
]

module _ {W : Type 0} (i : Interface W) (host : Host W) (timeout : ℕ) where
  -- The range that this call resolves for `f` has numbers for its ends.
  abbrev pub ReportsProper : ℤ → ControlFeature → W → Type 0
  ReportsProper gpu f w =
      (res : Resolution) (rng : Range)
      → (resolve i host timeout gpu w).0 ≡ ok res
      → range_for res.caps.limits f ≡ some rng
      → IsProper rng

  -- Where the ends of the resolved range are numbers:
  -- a value that the validator lets through was asked of a supported feature with a reported range
  -- that is not inverted, was finite, and has been clamped to that range: it lies in it, and the
  -- flag tells whether it differs from the request. The limits are those resolved in the same call.
  pub validate_and_clamp-safe :
      (gpu : ℤ) (f : ControlFeature) (requested : Float) (w w' : W) {safe : Float} {clamped : Bool}
      → ReportsProper gpu f w
      → validate_and_clamp i host timeout gpu f requested w ≡ (ok (safe, clamped), w')
      → (res : Resolution) × (rng : Range) × (resolve i host timeout gpu w ≡ (ok res, w'))
        × (range_for res.caps.limits f ≡ some rng)
        × (supports res.caps f ≡ true)
        × (is_finite requested ≡ true)
        × (safe ≡ clamp rng requested)
        × (contains rng safe ≡ true)
        × (clamped ≡ not (float_eq safe requested))
  unfolding validate_and_clamp
  validate_and_clamp-safe gpu f requested w w' p h =
      let (res, w1, r, k) = >>=-eq-ok (resolve i host timeout gpu) _ w h in
      let safe = clamp_for-IsSafe res.caps f requested (ap (λ o. o.0) k) in
      (
        res,
        safe.rng,
        r ∙ (λ j. (ok res, (k j).1)),
        safe.reported,
        safe.supported,
        safe.finite,
        safe.value,
        ap (contains safe.rng) safe.value
            ∙ clamp-contains safe.rng requested (p res safe.rng (ap (λ o. o.0) r) safe.reported)
                safe.upright,
        safe.flag,
      )
