-- ===== src/Services/Optimize/Divergence.antt =====
-- A fan range that stops below 100 % keeps the loop of `optimize_thermal` running: once the set point
-- is at the top of the range, the next step still lies above it, is clamped back to it, and is written
-- again, for as long as the GPU reads over the target.
use afterburner_gassist_plug.Base.{
  ℕ, zero, suc, ◌*◌, ◌≤◌, ◌<◌, ◌≡◌, ◌∙◌, refl, sym, subst, ap, true, false, Option, none, some,
  arith,
}
use afterburner_gassist_plug.Int.{ℤ, pos}
use afterburner_gassist_plug.Float.{Float, fin, unit, is_finite, float_le, Rounding}
use afterburner_gassist_plug.Exec.{Result, ok, err, crash, pure}
use afterburner_gassist_plug.Exec.Hoare.{Ensures, Ensures-branch, Ensures-bind}
use afterburner_gassist_plug.Models.{clamp}
use afterburner_gassist_plug.Interface.{Interface, Host}
use afterburner_gassist_plug.Services.Optimize.{
  default_config, thermal_loop, next_fan, over, validate_fan, set_fan, read_temp, poll_loop,
  poll_temp_at_or_below, at_or_below, attempts, pause,
}
use afterburner_gassist_plug.Services.Optimize.Steps.{
  IsAccurate, percent, next_fan_finite, step_stuck,
}

-- The call returns, and its value satisfies `P`.
abbrev pub Returns : {W A : Type 0} → (A → Type 0) → Result A × W → Type 0
Returns P o = Ensures (λ a _. P a) (λ _. ⊥) o

module _ {W : Type 0} (i : Interface W) (host : Host W) (timeout : ℕ) (rnd : Rounding) (gpu : ℤ)
    (lo hi : ℕ) (target : Float) where
  -- Every validation of a finite value answers with the value clamped to `lo` to `hi`.
  abbrev pub AlwaysValid : Type 0
  AlwaysValid =
      (v : Float) (w : W)
      → is_finite v ≡ true
      → Returns (λ safe. safe ≡ clamp (percent lo hi) v)
          (validate_fan (some i) host timeout gpu v w)

  -- Every write of the fan goes through.
  abbrev pub AlwaysWritable : Type 0
  AlwaysWritable = (v : Float) (w : W) → Returns (λ _. Unit) (set_fan (some i) gpu v w)

  -- Every reading is over the target.
  abbrev pub AlwaysHot : Type 0
  AlwaysHot = (w : W) → Returns (λ t. over target t ≡ true) (read_temp (some i) gpu w)

  over-not_below : (t : Option Float) → over target t ≡ true → at_or_below target t ≡ false
  over-not_below none h = absurd (cc)
  over-not_below (some x) h = ground arith

  abbrev IsHot : Option Float → W → Type 0
  IsHot t w = over target t ≡ true

  poll_loop-IsHot :
      AlwaysHot
      → (n : ℕ) (t : Option Float) (w : W) → over target t ≡ true
      → Ensures IsHot (λ _. ⊥) (poll_loop (some i) host default_config n gpu target t w)
  unfolding poll_loop
  poll_loop-IsHot hot zero t w h = h
  poll_loop-IsHot hot (suc n) t w h =
      Ensures-bind IsHot IsHot (λ _. ⊥) (read_temp (some i) gpu) _
        (pause (some i) host default_config w).1 (hot (pause (some i) host default_config w).1)
        (λ t' w' k.
          Ensures-branch IsHot (λ _. ⊥) (at_or_below target t') (pure t')
            (poll_loop (some i) host default_config n gpu target t') w' (λ _. k)
            (λ _. poll_loop-IsHot hot n t' w' k))

  poll-IsHot :
      AlwaysHot
      → (t : Option Float) (w : W) → over target t ≡ true
      → Ensures IsHot (λ _. ⊥) (poll_temp_at_or_below (some i) host default_config gpu target t w)
  unfolding poll_temp_at_or_below
  poll-IsHot hot t w h =
      Ensures-branch IsHot (λ _. ⊥) (at_or_below target t) (pure t)
        (poll_loop (some i) host default_config (attempts (some i) host default_config) gpu target
          t)
        w (λ _. h) (λ _. poll_loop-IsHot hot (attempts (some i) host default_config) t w h)

  abbrev OutOfFuel : Option (Float × Option Float) → W → Type 0
  OutOfFuel o w = o ≡ none

  thermal_loop-OutOfFuel :
      AlwaysValid
      → AlwaysWritable
      → AlwaysHot
      → IsAccurate rnd
      → lo ≤ hi
      → hi < 100 * unit
      → (fuel n : ℕ) (t : Option Float) (w : W) → n ≤ hi
      → over target t ≡ true
      → Ensures OutOfFuel
          (λ _. ⊥)
          (thermal_loop (some i) host timeout rnd default_config fuel gpu target (fin (pos n)) t w)
  unfolding thermal_loop
  thermal_loop-OutOfFuel valid writable hot acc lh low zero n t w h over_target = refl
  thermal_loop-OutOfFuel valid writable hot acc lh low (suc fuel) n t w h over_target =
      let (climbs, q) = step_stuck rnd acc lo hi n (omega arith) lh low h in
      Ensures-branch OutOfFuel (λ _. ⊥) (over target t) _ _ w
        (λ _.
          Ensures-branch OutOfFuel (λ _. ⊥)
            (float_le (next_fan rnd default_config (fin (pos n))) (fin (pos n))) _ _ w
            (λ stops. absurd (cc (climbs, stops)))
            (λ _.
              Ensures-bind
                (λ safe _. safe ≡ clamp (percent lo hi) (next_fan rnd default_config (fin (pos n))))
                OutOfFuel (λ _. ⊥)
                (validate_fan (some i) host timeout gpu (next_fan rnd default_config (fin (pos n))))
                _ w
                (valid (next_fan rnd default_config (fin (pos n))) w
                  (next_fan_finite rnd acc n (omega arith)))
                (λ safe w1 c.
                  Ensures-bind (λ _ _. Unit) OutOfFuel (λ _. ⊥) (set_fan (some i) gpu safe) _ w1
                    (writable safe w1)
                    (λ _ w2 _.
                      Ensures-bind IsHot OutOfFuel (λ _. ⊥)
                        (poll_temp_at_or_below (some i) host default_config gpu target t)
                        (thermal_loop (some i) host timeout rnd default_config fuel gpu target safe)
                        w2 (poll-IsHot hot t w2 over_target)
                        (λ t' w3 o.
                          subst
                            (λ current.
                              Ensures OutOfFuel (λ _. ⊥)
                                (thermal_loop (some i) host timeout rnd default_config fuel gpu
                                  target current t' w3))
                            (sym (c ∙ q.1))
                            (thermal_loop-OutOfFuel valid writable hot acc lh low fuel q.0 t' w3 q.2
                              o))))))
        (λ cool. absurd (cc (over_target, cool)))

  ok-of-Returns :
      {A : Type 0} (a : A) (o : Result A × W) → Ensures (λ b _. b ≡ a) (λ _. ⊥) o → o.0 ≡ ok a
  ok-of-Returns a (ok b, w) h = ap ok h
  ok-of-Returns a (err e, w) h = absurd h
  ok-of-Returns a (crash, w) h = absurd h

  -- Where the fan range ends below 100 %, every validation of a finite value and every fan
  -- write succeeds and every
  -- reading is over the target, no amount of fuel is enough: the loop never ends.
  pub thermal_loop_diverges :
      (fuel n : ℕ) (t : Option Float) (w : W)
      → AlwaysValid
      → AlwaysWritable
      → AlwaysHot
      → IsAccurate rnd
      → lo ≤ hi
      → hi < 100 * unit
      → n ≤ hi
      → over target t ≡ true
      → (thermal_loop (some i) host timeout rnd default_config fuel gpu target (fin (pos n)) t w).0
        ≡ ok none
  thermal_loop_diverges fuel n t w valid writable hot acc lh low h o =
      ok-of-Returns none _ (thermal_loop-OutOfFuel valid writable hot acc lh low fuel n t w h o)
