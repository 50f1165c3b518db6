-- ===== src/Services/Optimize/Verified.antt =====
-- The successes of `optimize_thermal` (afterburner/services/optimize.py) and the readings behind them.
use afterburner_gassist_plug.Base.{ℕ, zero, suc, ◌≡◌, refl, true, false, Option, none, some, arith}
use afterburner_gassist_plug.Int.{ℤ}
use afterburner_gassist_plug.Float.{Float, is_finite, is_nan, float_le, Rounding}
use mathlib.Core.Path.{subst₂}
use afterburner_gassist_plug.Value.{Value}
use afterburner_gassist_plug.Exec.{
  Exec, Result, ok, err, crash, ErrorCode, pure, lift, or_raise, continue, ◌>>=◌,
}
use afterburner_gassist_plug.Exec.Hoare.{Ensures, Ensures-branch, Ensures-bind, any_Ensures}
use afterburner_gassist_plug.Models.{GpuTelemetry, ControlResult}
use afterburner_gassist_plug.Interface.{Interface, Host}
use afterburner_gassist_plug.Integration.Client
use afterburner_gassist_plug.Integration.Client.{typed}
use afterburner_gassist_plug.Services.Optimize.{
  Config, read_temp, current_fan_setpoint, finite_part, validate_fan, poll_loop,
  poll_temp_at_or_below, at_or_below, attempts, set_fan, thermal_loop, thermal_verdict,
  thermal_from, optimize_thermal, next_fan, over, or_zero, validate_target, pause,
}

pub not_nan_of_finite : (a : Float) → is_finite a ≡ true → is_nan a ≡ false
not_nan_of_finite a h = ground arith

pub finite_part-inv :
    (o : Option Float) (x : Float) → finite_part o ≡ some x → (o ≡ some x) × (is_finite x ≡ true)
finite_part-inv none x h = absurd (cc)
finite_part-inv (some y) x h = ground arith

-- from the outcome inside the `_typed` handler to the outcome of the whole
pub typed-ok :
    {W A : Type 0} (P : A → W → Type 0) (o : Result A × W) {a : A} {w : W}
    → Ensures P (λ _. Unit) o
    → ◌≡◌ {A = Result A × W} (typed o.0, o.1) (ok a, w)
    → P a w
typed-ok P (ok b, w') {a} {w} h e = let p : b ≡ a = cc in let q : w' ≡ w = cc in subst₂ P p q h
typed-ok P (err c, w') h e = absurd (cc)
typed-ok P (crash, w') h e = absurd (cc)

module _ {W : Type 0} (i : Interface W) (host : Host W) (timeout : ℕ) (rnd : Rounding)
    (cfg : Config) (gpu : ℤ) where
  -- `Cool` is whatever a finite reading of at most `target` shows of the world that it leaves.
  abbrev pub Shows : Float → (W → Type 0) → Type 0
  Shows target Cool =
      (w : W) (t : GpuTelemetry) (x : Float)
      → (i.read_telemetry gpu w).0 ≡ ok t
      → t.temperature_c ≡ some x
      → is_finite x ≡ true
      → float_le x target ≡ true
      → Cool (i.read_telemetry gpu w).1

  module _ (target : Float) (Cool : W → Type 0) (shows : Shows target Cool) where
    -- a reading that has just been taken in the world at hand
    abbrev Trusted : Option Float → W → Type 0
    Trusted t w =
        (x : Float) → t ≡ some x → (is_finite x ≡ true) × (float_le x target ≡ true → Cool w)

    read_temp-Trusted : (w : W) → Ensures Trusted (λ _. Unit) (read_temp (some i) gpu w)
    unfolding read_temp Client.read_telemetry
    read_temp-Trusted w = go (i.read_telemetry gpu w).0 refl
      where
        go :
            (r : Result GpuTelemetry)
            → (i.read_telemetry gpu w).0 ≡ r
            → Ensures Trusted
                (λ _. Unit)
                ((lift (typed r) >>= λ t. pure (finite_part t.temperature_c))
                  (i.read_telemetry gpu w).1)
        go (ok t) e = λ x k.
            let (k1, k2) = finite_part-inv t.temperature_c x k in (k2, λ le. shows w t x e k1 k2 le)
        go (err c) e = tt
        go crash e = tt

    poll_loop-Trusted :
        (n : ℕ) (t : Option Float) (w : W)
        → Trusted t w
        → Ensures Trusted (λ _. Unit) (poll_loop (some i) host cfg n gpu target t w)
    unfolding poll_loop
    poll_loop-Trusted zero t w h = h
    poll_loop-Trusted (suc n) t w h =
        Ensures-bind Trusted Trusted (λ _. Unit) (read_temp (some i) gpu) _
          (pause (some i) host cfg w).1 (read_temp-Trusted (pause (some i) host cfg w).1)
          (λ t' w' k.
            Ensures-branch Trusted (λ _. Unit) (at_or_below target t') (pure t')
              (poll_loop (some i) host cfg n gpu target t') w' (λ _. k)
              (λ _. poll_loop-Trusted n t' w' k))

    poll-Trusted :
        (t : Option Float) (w : W)
        → Trusted t w
        → Ensures Trusted (λ _. Unit) (poll_temp_at_or_below (some i) host cfg gpu target t w)
    unfolding poll_temp_at_or_below
    poll-Trusted t w h =
        Ensures-branch Trusted (λ _. Unit) (at_or_below target t) (pure t)
          (poll_loop (some i) host cfg (attempts (some i) host cfg) gpu target t) w (λ _. h)
          (λ _. poll_loop-Trusted (attempts (some i) host cfg) t w h)

    -- Nothing is known of a world that was written to, but a reading over the target claims nothing.
    over-Trusted : (t : Option Float) (w w' : W) → over target t ≡ true → Trusted t w → Trusted t w'
    over-Trusted none w w' o h x e = absurd (cc)
    over-Trusted (some y) w w' o h x e =
        ((h x e).0, λ le. absurd (let z : y ≡ x = cc in ground arith))

    -- what the loop ends with, unless the fuel ran out
    abbrev Ended : Option (Float × Option Float) → W → Type 0
    Ended none w = Unit
    Ended (some (current, t)) w = Trusted t w

    thermal_loop-Ended :
        (fuel : ℕ) (current : Float) (t : Option Float) (w : W)
        → Trusted t w
        → Ensures Ended
            (λ _. Unit)
            (thermal_loop (some i) host timeout rnd cfg fuel gpu target current t w)
    unfolding thermal_loop
    thermal_loop-Ended zero current t w h = tt
    thermal_loop-Ended (suc fuel) current t w h =
        Ensures-branch Ended (λ _. Unit) (over target t) _ _ w
          (λ hot.
            Ensures-branch Ended (λ _. Unit) (float_le (next_fan rnd cfg current) current) _ _ w
              (λ _. h)
              (λ _.
                Ensures-bind (λ _ _. Unit) Ended (λ _. Unit)
                  (validate_fan (some i) host timeout gpu (next_fan rnd cfg current)) _ w
                  (any_Ensures _)
                  (λ safe w1 _.
                    Ensures-bind (λ _ _. Unit) Ended (λ _. Unit) (set_fan (some i) gpu safe) _ w1
                      (any_Ensures _)
                      (λ _ w2 _.
                        Ensures-bind Trusted Ended (λ _. Unit)
                          (poll_temp_at_or_below (some i) host cfg gpu target t)
                          (thermal_loop (some i) host timeout rnd cfg fuel gpu target safe) w2
                          (poll-Trusted t w2 (over-Trusted t w w2 hot h))
                          (λ t' w3 k. thermal_loop-Ended fuel safe t' w3 k)))))
          (λ _. h)

    abbrev Claimed : Option ControlResult → W → Type 0
    Claimed none w = Unit
    Claimed (some r) w = Cool w

    thermal_verdict-Claimed :
        (o : Option (Float × Option Float)) (w : W)
        → Ended o w
        → Ensures Claimed (λ _. Unit) (thermal_verdict (some i) host timeout rnd cfg target o w)
    thermal_verdict-Claimed none w h = tt
    thermal_verdict-Claimed (some (current, none)) w h = tt
    thermal_verdict-Claimed (some (current, some x)) w h =
        Ensures-branch Claimed (λ _. Unit) (float_le x target) _ _ w (λ le. (h x refl).1 le)
          (λ _. tt)

    still_hot :
        (x : Float) (w w' : W)
        → float_le x target ≡ false
        → Trusted (some x) w
        → Trusted (some x) w'
    still_hot x w w' hot h y e = ((h y e).0, λ le. absurd (let z : x ≡ y = cc in ground arith))

    thermal_from-Claimed :
        (fuel : ℕ) (x : Float) (w : W)
        → Trusted (some x) w
        → Ensures Claimed
            (λ _. Unit)
            (thermal_from (some i) host timeout rnd cfg fuel gpu target x w)
    thermal_from-Claimed fuel x w h =
        Ensures-branch Claimed (λ _. Unit) (float_le x target) _ _ w (λ le. (h x refl).1 le)
          (λ hot.
            Ensures-bind (λ _ _. Unit) Claimed (λ _. Unit) (current_fan_setpoint (some i) gpu) _ w
              (any_Ensures _)
              (λ fan w1 _.
                Ensures-bind Ended Claimed (λ _. Unit)
                  (thermal_loop (some i) host timeout rnd cfg fuel gpu target (or_zero fan)
                    (some x))
                  (thermal_verdict (some i) host timeout rnd cfg target) w1
                  (thermal_loop-Ended fuel (or_zero fan) (some x) w1 (still_hot x w w1 hot h))
                  thermal_verdict-Claimed))

    abbrev Asked : Float → W → Type 0
    Asked x w = Trusted (some x) w

    or_raise-Asked :
        (o : Option Float) (e : ErrorCode) (w : W)
        → Trusted o w
        → Ensures Asked (λ _. Unit) (or_raise o e w)
    or_raise-Asked none e w h = tt
    or_raise-Asked (some x) e w h = h

    asked_temp :
        {B : Type 0} (Q : B → W → Type 0) (f : Float → Exec W B) (w : W)
        → ((x : Float) (w' : W) → Trusted (some x) w' → Ensures Q (λ _. Unit) (f x w'))
        → Ensures Q
            (λ _. Unit)
            ((read_temp (some i) gpu >>= λ t. or_raise t ErrorCode.interface_unavailable >>= f) w)
    asked_temp Q f w k =
        Ensures-bind Trusted Q (λ _. Unit) (read_temp (some i) gpu) _ w (read_temp-Trusted w)
          (λ t w1 h.
            Ensures-bind Asked Q (λ _. Unit) (or_raise t ErrorCode.interface_unavailable) f w1
              (or_raise-Asked t ErrorCode.interface_unavailable w1 h) k)

  -- When `optimize_thermal` claims success, with or without a change, a reading has shown that the
  -- temperature is at or below the target, and nothing has been done since.
  pub optimize_thermal-verified :
      (fuel : ℕ) (target_c : Value) (target : Float) (Cool : W → Type 0) (w w' : W)
      {r : ControlResult}
      → Shows target Cool
      → validate_target rnd cfg target_c ≡ ok target
      → optimize_thermal (some i) host timeout rnd cfg fuel gpu target_c w ≡ (ok (some r), w')
      → Cool w'
  unfolding optimize_thermal
  optimize_thermal-verified fuel target_c target Cool w w' shows v h =
      typed-ok (Claimed target Cool shows) _
        (rw (v, continue)
          (asked_temp target Cool shows (Claimed target Cool shows) _ w
            (λ x w1 k. thermal_from-Claimed target Cool shows fuel x w1 k)))
        h
