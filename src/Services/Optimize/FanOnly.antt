-- ===== src/Services/Optimize/FanOnly.antt =====
-- The optimisers write nothing but the fan, and nothing out of its range.
use afterburner_gassist_plug.Base.{
  ℕ, zero, suc, ◌≡◌, true, Option, none, some, ◌==◌, Bool-cases, inl, inr,
}
use afterburner_gassist_plug.Int.{ℤ}
use afterburner_gassist_plug.Float.{Float, float_lt, float_le, float_sub, Rounding}
use afterburner_gassist_plug.Value.{Value}
use afterburner_gassist_plug.Exec.{
  Exec, Result, ok, err, crash, ErrorCode, pure, lift, attempt, or_raise, ◌>>=◌,
}
use afterburner_gassist_plug.Exec.Hoare.{
  Ensures-branch, Ensures-bind, Keeps, Keeps-bind, Keeps-of-world, world-of-Keeps, Keeps-attempt,
}
use afterburner_gassist_plug.Models.{
  ControlFeature, Range, clamp, contains, TuningState, ControlResult,
}
use afterburner_gassist_plug.Interface.{Interface, Host}
use afterburner_gassist_plug.Integration.Client
use afterburner_gassist_plug.Integration.Client.{typed}
use afterburner_gassist_plug.Safety.Clamping.{IsProper}
use afterburner_gassist_plug.Safety.Validator.{validate_and_clamp}
use afterburner_gassist_plug.Safety.Frame.{ReadFrame, Reports, validate_and_clamp-Validated}
use afterburner_gassist_plug.Services.Optimize.{
  Config, read_temp, current_fan_setpoint, measured_fan, from_state, finite_part, validate_fan,
  poll_loop, poll_temp_at_or_below, at_or_below, attempts, restore_fan, swallow, or_measured,
  set_fan, quiet_verdict, quiet_lower, quiet_from, optimize_quiet, thermal_loop, thermal_verdict,
  thermal_from, optimize_thermal, next_fan, over, or_zero, validate_target, pause,
}

module _ {W : Type 0} (i : Interface W) (host : Host W) (timeout : ℕ) (rnd : Rounding)
    (cfg : Config) where
  -- `P` outlives every read and every write of the fan with a value in `rng`; nothing is asked of the
  -- other writes. `rng` is the only fan range that is reported.
  pub record FanFrame (P : W → Type 0) (gpu : ℤ) (rng : Range) : Type 0 where
    pub reads : ReadFrame i host timeout P (Reports ControlFeature.fan_percent rng) gpu
    pub proper : IsProper rng
    pub on_sleep : (n : ℕ) (w : W) → P w → P (host.sleep n w)
    pub on_telemetry : (w : W) → P w → P (i.read_telemetry gpu w).1
    pub on_tuning_state : (w : W) → P w → P (i.read_tuning_state gpu w).1
    pub on_fan :
        (v : Float) (w : W)
        → contains rng v ≡ true
        → P w
        → P (i.apply_control gpu ControlFeature.fan_percent v w).1

  module _ {P : W → Type 0} {gpu : ℤ} {rng : Range} (frame : FanFrame P gpu rng) where
    read_temp-Keeps : (w : W) → P w → Keeps P (read_temp (some i) gpu w)
    unfolding read_temp Client.read_telemetry
    read_temp-Keeps w h =
        Keeps-bind P (Client.read_telemetry (some i) gpu) _ w
          (Keeps-of-world P (Client.read_telemetry (some i) gpu w) (frame.on_telemetry w h))
          (λ t w' k. k)

    measured_fan-Keeps : (w : W) → P w → Keeps P (measured_fan (some i) gpu w)
    unfolding Client.read_telemetry
    measured_fan-Keeps w h =
        Keeps-bind P (Client.read_telemetry (some i) gpu) _ w
          (Keeps-of-world P (Client.read_telemetry (some i) gpu w) (frame.on_telemetry w h))
          (λ t w' k. k)

    or_measured-Keeps : (o : Option Float) (w : W) → P w → Keeps P (or_measured (some i) gpu o w)
    or_measured-Keeps none w h = measured_fan-Keeps w h
    or_measured-Keeps (some fan) w h = h

    from_state-Keeps :
        (r : Result TuningState) (w : W) → P w → Keeps P (from_state (some i) gpu r w)
    from_state-Keeps (ok state) w h = or_measured-Keeps (finite_part state.fan_percent) w h
    from_state-Keeps (err e) w h = measured_fan-Keeps w h
    from_state-Keeps crash w h = h

    setpoint-Keeps : (w : W) → P w → Keeps P (current_fan_setpoint (some i) gpu w)
    unfolding current_fan_setpoint Client.read_tuning_state
    setpoint-Keeps w h =
        Keeps-bind P (attempt (Client.read_tuning_state (some i) gpu)) (from_state (some i) gpu) w
          (frame.on_tuning_state w h) (λ r w' k. from_state-Keeps r w' k)

    set_fan-Keeps :
        (v : Float) (w : W) → contains rng v ≡ true → P w → Keeps P (set_fan (some i) gpu v w)
    unfolding Client.apply_control
    set_fan-Keeps v w e h = Keeps-of-world P (set_fan (some i) gpu v w) (frame.on_fan v w e h)

    -- a validated value, and then what is done with it
    validate_fan-then :
        {A : Type 0} (v : Float) (f : Float → Exec W A) (w : W)
        → P w
        → ((safe : Float) (w' : W) → contains rng safe ≡ true → P w' → Keeps P (f safe w'))
        → Keeps P ((validate_fan (some i) host timeout gpu v >>= f) w)
    unfolding validate_fan
    validate_fan-then v f w h k =
        Ensures-bind (λ safe w'. (contains rng safe ≡ true) × P w') (λ _. P) P
          (validate_fan (some i) host timeout gpu v) f w
          (Ensures-bind (λ out w'. P w' × (contains rng out.0 ≡ true) × (out.0 ≡ clamp rng v))
            (λ safe w'. (contains rng safe ≡ true) × P w') P
            (validate_and_clamp i host timeout gpu ControlFeature.fan_percent v)
            (λ safe. pure safe.0) w
            (validate_and_clamp-Validated i host timeout ControlFeature.fan_percent rng frame.proper
              frame.reads v w h)
            (λ out w' q. (q.1, q.0)))
          (λ safe w' q. k safe w' q.0 q.1)

    swallow-Keeps : (r : Result ControlResult) (w : W) → P w → Keeps P (swallow (some i) r w)
    swallow-Keeps (ok r) w k = k
    swallow-Keeps (err e) w k = k
    swallow-Keeps crash w k = k

    restore_fan-Keeps :
        (fan : Float) (w : W) → P w → Keeps P (restore_fan (some i) host timeout gpu fan w)
    unfolding restore_fan
    restore_fan-Keeps fan w h =
        Keeps-bind P (attempt (validate_fan (some i) host timeout gpu fan >>= set_fan (some i) gpu))
          (swallow (some i)) w
          (Keeps-attempt P (validate_fan (some i) host timeout gpu fan >>= set_fan (some i) gpu) w (
            validate_fan-then fan (set_fan (some i) gpu) w h
              (λ safe w' e k. set_fan-Keeps safe w' e k)))
          swallow-Keeps

    pause-world : (w : W) → P w → P (pause (some i) host cfg w).1
    pause-world w h = elim (Bool-cases (cfg.read_interval == 0)) [
      | inl e ↦ rw e h
      | inr e ↦ rw e (frame.on_sleep cfg.read_interval w h)
    ]

    poll_loop-Keeps :
        (n : ℕ) (target : Float) (t : Option Float) (w : W)
        → P w
        → Keeps P (poll_loop (some i) host cfg n gpu target t w)
    unfolding poll_loop
    poll_loop-Keeps zero target t w h = h
    poll_loop-Keeps (suc n) target t w h =
        Keeps-bind P (read_temp (some i) gpu) _ (pause (some i) host cfg w).1
          (read_temp-Keeps (pause (some i) host cfg w).1 (pause-world w h))
          (λ t' w' k.
            Ensures-branch (λ _. P) P (at_or_below target t') (pure t')
              (poll_loop (some i) host cfg n gpu target t') w' (λ _. k)
              (λ _. poll_loop-Keeps n target t' w' k))

    poll-Keeps :
        (target : Float) (t : Option Float) (w : W)
        → P w
        → Keeps P (poll_temp_at_or_below (some i) host cfg gpu target t w)
    unfolding poll_temp_at_or_below
    poll-Keeps target t w h = elim (Bool-cases (at_or_below target t)) [
      | inl e ↦ rw e h
      | inr e ↦ rw e (poll_loop-Keeps (attempts (some i) host cfg) target t w h)
    ]

    quiet_verdict-Keeps :
        (current safe : Float) (t : Option Float) (w : W)
        → P w
        → Keeps P (quiet_verdict (some i) host timeout rnd cfg gpu current safe t w)
    quiet_verdict-Keeps current safe none w h =
        Keeps-bind P (restore_fan (some i) host timeout gpu current) _ w
          (restore_fan-Keeps current w h) (λ _ w' k. k)
    quiet_verdict-Keeps current safe (some t) w h =
        Ensures-branch (λ _. P) P (float_lt cfg.quiet_temp_limit_c t) _ _ w
          (λ _.
            Keeps-bind P (restore_fan (some i) host timeout gpu current) _ w
              (restore_fan-Keeps current w h) (λ _ w' k. k))
          (λ _. h)

    quiet_lower-Keeps :
        (current : Float) (w : W)
        → P w
        → Keeps P (quiet_lower (some i) host timeout rnd cfg gpu current w)
    quiet_lower-Keeps current w h =
        Ensures-branch (λ _. P) P (float_lt current cfg.reduction_pts) _ _ w (λ _. h)
          (λ _. validate_fan-then (float_sub rnd current cfg.reduction_pts) _ w h (λ safe w' e k.
            Keeps-bind P (set_fan (some i) gpu safe) _ w' (set_fan-Keeps safe w' e k) (λ _ w2 k2.
              Keeps-bind P (poll_temp_at_or_below (some i) host cfg gpu cfg.quiet_temp_limit_c none)
                _ w2 (poll-Keeps cfg.quiet_temp_limit_c none w2 k2)
                (quiet_verdict-Keeps current safe))))

    or_raise-then :
        {A B : Type 0} (o : Option A) (e : ErrorCode) (f : A → Exec W B) (w : W)
        → P w
        → ((a : A) → Keeps P (f a w))
        → Keeps P ((or_raise o e >>= f) w)
    or_raise-then none e f w h k = h
    or_raise-then (some a) e f w h k = k a

    quiet_from-Keeps :
        (t : Float) (w : W) → P w → Keeps P (quiet_from (some i) host timeout rnd cfg gpu t w)
    quiet_from-Keeps t w h =
        Ensures-branch (λ _. P) P (float_lt cfg.quiet_temp_limit_c t) _ _ w (λ _. h)
          (λ _.
            Keeps-bind P (current_fan_setpoint (some i) gpu) _ w (setpoint-Keeps w h) (λ fan w' k.
              or_raise-then fan ErrorCode.interface_unavailable _ w' k
                (λ current. quiet_lower-Keeps current w' k)))

    -- Whatever survives every read and every fan write with a value in the reported range survives
    -- `optimize_quiet`, however it ends: it makes no other write.
    pub optimize_quiet-fan_only :
        (w : W) → P w → P (optimize_quiet (some i) host timeout rnd cfg gpu w).1
    unfolding optimize_quiet
    optimize_quiet-fan_only w h = world-of-Keeps P _ (
        Keeps-bind P (read_temp (some i) gpu) _ w (read_temp-Keeps w h) (λ t w' k.
          or_raise-then t ErrorCode.interface_unavailable _ w' k
            (λ temp. quiet_from-Keeps temp w' k)))

    thermal_loop-Keeps :
        (fuel : ℕ) (target current : Float) (t : Option Float) (w : W)
        → P w
        → Keeps P (thermal_loop (some i) host timeout rnd cfg fuel gpu target current t w)
    unfolding thermal_loop
    thermal_loop-Keeps zero target current t w h = h
    thermal_loop-Keeps (suc fuel) target current t w h =
        Ensures-branch (λ _. P) P (over target t) _ _ w
          (λ _.
            Ensures-branch (λ _. P) P (float_le (next_fan rnd cfg current) current) _ _ w (λ _. h)
              (λ _. validate_fan-then (next_fan rnd cfg current) _ w h (λ safe w' e k.
                Keeps-bind P (set_fan (some i) gpu safe) _ w' (set_fan-Keeps safe w' e k)
                  (λ _ w2 k2.
                    Keeps-bind P (poll_temp_at_or_below (some i) host cfg gpu target t)
                      (thermal_loop (some i) host timeout rnd cfg fuel gpu target safe) w2
                      (poll-Keeps target t w2 k2)
                      (λ t' w3 k3. thermal_loop-Keeps fuel target safe t' w3 k3)))))
          (λ _. h)

    thermal_verdict-Keeps :
        (target : Float) (o : Option (Float × Option Float)) (w : W)
        → P w
        → Keeps P (thermal_verdict (some i) host timeout rnd cfg target o w)
    thermal_verdict-Keeps target none w h = h
    thermal_verdict-Keeps target (some (current, t)) w h =
        Ensures-branch (λ _. P) P (at_or_below target t) _ _ w (λ _. h) (λ _. h)

    thermal_from-Keeps :
        (fuel : ℕ) (target t : Float) (w : W)
        → P w
        → Keeps P (thermal_from (some i) host timeout rnd cfg fuel gpu target t w)
    thermal_from-Keeps fuel target t w h =
        Ensures-branch (λ _. P) P (float_le t target) _ _ w (λ _. h)
          (λ _.
            Keeps-bind P (current_fan_setpoint (some i) gpu) _ w (setpoint-Keeps w h) (λ fan w' k.
              Keeps-bind P
                (thermal_loop (some i) host timeout rnd cfg fuel gpu target (or_zero fan) (some t))
                (thermal_verdict (some i) host timeout rnd cfg target) w'
                (thermal_loop-Keeps fuel target (or_zero fan) (some t) w' k)
                (thermal_verdict-Keeps target)))

    target-then :
        {B : Type 0} (r : Result Float) (f : Float → Exec W B) (w : W)
        → P w
        → ((a : Float) → Keeps P (f a w))
        → Keeps P ((lift r >>= f) w)
    target-then (ok a) f w h k = k a
    target-then (err e) f w h k = h
    target-then crash f w h k = h

    -- Whatever survives every read and every fan write with a value in the reported range survives
    -- `optimize_thermal`, however it ends and whatever the target is: it makes no other write.
    pub optimize_thermal-fan_only :
        (fuel : ℕ) (target_c : Value) (w : W)
        → P w
        → P (optimize_thermal (some i) host timeout rnd cfg fuel gpu target_c w).1
    unfolding optimize_thermal
    optimize_thermal-fan_only fuel target_c w h = world-of-Keeps P _ (
        target-then (validate_target rnd cfg target_c) _ w h (λ target.
          Keeps-bind P (read_temp (some i) gpu) _ w (read_temp-Keeps w h) (λ t w' k.
            or_raise-then t ErrorCode.interface_unavailable _ w' k
              (λ temp. thermal_from-Keeps fuel target temp w' k))))
