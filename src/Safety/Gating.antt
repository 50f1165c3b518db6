-- ===== src/Safety/Gating.antt =====
-- What a resolved capability set promises, on every path through the resolver.
use afterburner_gassist_plug.Base.{
  ℕ, ◌+◌, ◌≡◌, refl, ◌<◌, ◌&&◌, true, false, some, arith, leb, inl, inr, Bool-cases, if◌then◌else◌,
}
use afterburner_gassist_plug.Int.{ℤ}
use afterburner_gassist_plug.Exec.{continue, attempt, Result, ok, err, crash}
use afterburner_gassist_plug.Exec.Hoare.{
  Ensures, Ensures-of-ok, Ensures-if, Ensures-bind, any_Ensures,
}
use afterburner_gassist_plug.Models.{
  InterfaceStatus, ControlFeature, Range, inverted, GpuCapabilities, supports, range_for, is_ok,
}
use afterburner_gassist_plug.Interface.{Interface, Host}
use afterburner_gassist_plug.Safety.Capabilities.{
  gated_supported, after_read, after_detect, resolve, is_single_value, Resolution, read_only,
  has_range,
}

-- A feature that is supported is backed by what Afterburner reported.
pub record IsGated (c : GpuCapabilities) : Type 0 where
  pub needs_interface :
      (f : ControlFeature) → supports c f ≡ true → c.control_interface_status ≡ InterfaceStatus.ok
  pub needs_range :
      (f : ControlFeature)
      → is_single_value f ≡ true
      → supports c f ≡ true
      → (r : Range) × (range_for c.limits f ≡ some r) × (inverted r ≡ false)
  pub needs_axes :
      supports c ControlFeature.fan_curve ≡ true
      → (t r : Range) × (c.limits.fan_temp_c ≡ some t)
        × (c.limits.fan_percent ≡ some r)
        × (inverted t ≡ false)
        × (inverted r ≡ false)

read_only-IsGated :
    (c : GpuCapabilities) → ((f : ControlFeature) → supports c f ≡ false) → IsGated c
read_only-IsGated c nothing = record {
  needs_interface = λ f h. absurd (cc (nothing f, h));
  needs_range = λ f s h. absurd (cc (nothing f, h));
  needs_axes = λ h. absurd (cc (nothing ControlFeature.fan_curve, h));
}

gated_interface :
    (c : GpuCapabilities) (f : ControlFeature)
    → gated_supported c f ≡ true
    → c.control_interface_status ≡ InterfaceStatus.ok
unfolding gated_supported
gated_interface c f h = ground arith

gated_range :
    (c : GpuCapabilities) (f : ControlFeature)
    → is_single_value f ≡ true
    → gated_supported c f ≡ true
    → (r : Range) × (range_for c.limits f ≡ some r) × (inverted r ≡ false)
unfolding gated_supported
gated_range c f s h = ground arith

gated_single :
    (c : GpuCapabilities) (f : ControlFeature)
    → is_single_value f ≡ true
    → gated_supported c f
      ≡ (is_ok c.control_interface_status && supports c f && has_range (range_for c.limits f))
unfolding gated_supported
gated_single c f h = ground arith

gated_axes :
    (c : GpuCapabilities)
    → gated_supported c ControlFeature.fan_curve ≡ true
    → (t r : Range) × (c.limits.fan_temp_c ≡ some t)
      × (c.limits.fan_percent ≡ some r)
      × (inverted t ≡ false)
      × (inverted r ≡ false)
unfolding gated_supported
gated_axes c h = ground arith

gated_supported-IsGated :
    (c : GpuCapabilities) → IsGated (record c { supported_controls = gated_supported c })
gated_supported-IsGated c = record {
  needs_interface = gated_interface c;
  needs_range = gated_range c;
  needs_axes = gated_axes c;
}

module _ {W : Type 0} (i : Interface W) (host : Host W) (timeout : ℕ) where
  abbrev Gated : Resolution → W → Type 0
  Gated res w = IsGated res.caps

  after_read-IsGated :
      (gpu : ℤ) (start : ℕ) (r : Result GpuCapabilities) (w : W)
      → Ensures Gated (λ _. Unit) (after_read i host timeout gpu start r w)
  after_read-IsGated gpu start (ok caps) w =
      Ensures-if Gated (λ _. Unit) (leb (start + timeout) (host.clock w).0) _ _
        (λ _. read_only-IsGated _ (λ f. refl)) (λ _. gated_supported-IsGated caps)
  after_read-IsGated gpu start (err e) w = read_only-IsGated _ (λ f. refl)
  after_read-IsGated gpu start crash w = read_only-IsGated _ (λ f. refl)

  after_detect-IsGated :
      (gpu : ℤ) (start : ℕ) (status : InterfaceStatus) (w : W)
      → Ensures Gated (λ _. Unit) (after_detect i host timeout gpu start status w)
  after_detect-IsGated gpu start status w =
      Ensures-if Gated (λ _. Unit) (leb (start + timeout) (host.clock w).0) _ _
        (λ _. read_only-IsGated _ (λ f. refl))
        (λ _.
          Ensures-if Gated (λ _. Unit) (is_ok status) _ _ (λ _. after_read-IsGated gpu start _ _)
            (λ _. read_only-IsGated _ (λ f. refl)))

  -- Every capability set that `resolve` returns is gated, whatever the interface and the clock do:
  -- a supported feature comes with a working control interface, a single-value feature with a
  -- reported range that is not inverted, and a fan curve with both of its axes.
  pub resolve-IsGated :
      (gpu : ℤ) (w : W) {res : Resolution}
      → (resolve i host timeout gpu w).0 ≡ ok res
      → IsGated res.caps
  unfolding resolve
  resolve-IsGated gpu w =
      let (start, w') = host.clock w in
      Ensures-of-ok Gated (λ _. Unit) _
        (Ensures-bind (λ _ _. Unit) Gated (λ _. Unit) i.detect
          (after_detect i host timeout gpu start) w' (any_Ensures (i.detect w'))
          (λ s w'' _. after_detect-IsGated gpu start s w''))

  -- When detection answers anything but OK, the capabilities are not read and nothing is supported;
  -- the status is the one detected, or `unavailable` where the timeout has run out.
  pub resolve_not_ok :
      (gpu : ℤ) (w : W) {start t : ℕ} {w1 w2 w3 : W} {status : InterfaceStatus}
      → host.clock w ≡ (start, w1)
      → i.detect w1 ≡ (ok status, w2)
      → host.clock w2 ≡ (t, w3)
      → is_ok status ≡ false
      → resolve i host timeout gpu w ≡ (
        ok (record {
          caps =
              read_only gpu ""
                (if leb (start + timeout) t then InterfaceStatus.unavailable else status);
          timed_out = leb (start + timeout) t;
        }),
        w3,
      )
  unfolding resolve
  resolve_not_ok gpu w {start} {t} c d c' k = elim (Bool-cases (leb (start + timeout) t)) [
    | inl late ↦ rw (c, d, c', late, continue)
    | inr early ↦ rw (c, d, c', early, k, continue)
  ]

  -- If detection answers OK and both readings come in time, a single-value control is offered
  -- exactly when the control interface works and the feature is advertised with a sane range; the
  -- limits passed on are the reported ones.
  pub resolve_exact :
      (gpu : ℤ) (w : W) {start t t' : ℕ} {w1 w2 w3 w4 w5 : W} {caps : GpuCapabilities}
      (f : ControlFeature)
      → host.clock w ≡ (start, w1)
      → i.detect w1 ≡ (ok InterfaceStatus.ok, w2)
      → host.clock w2 ≡ (t, w3)
      → i.read_capabilities gpu w3 ≡ (ok caps, w4)
      → host.clock w4 ≡ (t', w5)
      → t < start + timeout
      → t' < start + timeout
      → is_single_value f ≡ true
      → (res : Resolution) × (resolve i host timeout gpu w ≡ (ok res, w5))
        × (res.caps.limits ≡ caps.limits)
        × (supports res.caps f ≡ (
            is_ok caps.control_interface_status
            && supports caps f
            && has_range (range_for caps.limits f)))
  unfolding resolve
  resolve_exact gpu w {start} {t} {t'} {caps = caps} f c d c' r c'' early early' single =
      let e : leb (start + timeout) t ≡ false = ground arith in
      let e' : leb (start + timeout) t' ≡ false = ground arith in
      (
        record {
          caps = record caps { supported_controls = gated_supported caps };
          timed_out = false;
        },
        rw (c, d, c', e, r, c'', e', continue, after_read, attempt),
        refl,
        gated_single caps f single,
      )
