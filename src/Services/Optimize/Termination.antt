-- ===== src/Services/Optimize/Termination.antt =====
-- When the raising loop of `optimize_thermal` ends. Each round adds 20 points, so it ends within 102
-- rounds where the fan range reaches 100 %, and never where the range stops below 100 % and the GPU
-- stays hot: the clamped set point does not move, but the unclamped next step still lies above it.
use afterburner_gassist_plug.Base.{
  ℕ, zero, suc, ◌+◌, ◌*◌, ◌≤◌, ◌<◌, ◌≡◌, ◌≢◌, ◌∙◌, refl, sym, subst, true, Option, none, some,
  arith,
}
use afterburner_gassist_plug.Int.{ℤ, pos}
use afterburner_gassist_plug.Float.{Float, fin, unit, float_le, Rounding}
use afterburner_gassist_plug.Value.{Value}
use afterburner_gassist_plug.Exec.{Result, ok, err, crash, ErrorCode, pure, lift, or_raise}
use afterburner_gassist_plug.Exec.Hoare.{Ensures, Ensures-branch, Ensures-bind, any_Ensures}
use afterburner_gassist_plug.Models.{
  ControlFeature, clamp, contains, GpuCapabilities, ControlResult,
}
use afterburner_gassist_plug.Interface.{Interface, Host}
use afterburner_gassist_plug.Integration.Client.{typed}
use afterburner_gassist_plug.Safety.Validator.{validate_and_clamp}
use afterburner_gassist_plug.Safety.Frame.{ReadFrame, Reports, validate_and_clamp-Validated}
use afterburner_gassist_plug.Services.Optimize.{
  default_config, thermal_loop, next_fan, over, validate_fan, set_fan, poll_temp_at_or_below,
  or_zero, current_fan_setpoint, optimize_thermal, thermal_from, thermal_verdict, validate_target,
  read_temp, at_or_below,
}
use afterburner_gassist_plug.Services.Optimize.Steps.{IsAccurate, percent, step, step_rises}

typed_ended :
    {W A : Type 0} (o : Result (Option A) × W)
    → Ensures (λ a _. a ≢ none) (λ _. Unit) o
    → (typed o.0 ≢ ok none) × (typed o.0 ≢ crash)
typed_ended (ok a, w) h = (λ e. h (let p : a ≡ none = cc in p), λ e. cc)
typed_ended (err c, w) h = (λ e. cc, λ e. cc)
typed_ended (crash, w) h = (λ e. cc, λ e. cc)

module _ {W : Type 0} (i : Interface W) (host : Host W) (timeout : ℕ) (rnd : Rounding)
    (accurate : IsAccurate rnd) (gpu : ℤ) (lo hi : ℕ) (upright : lo ≤ hi) where
  -- Whenever the capabilities can be read, `lo` to `hi` is the only fan range that they report.
  abbrev pub ReportsFan : Type 0
  ReportsFan =
      (w : W) (caps : GpuCapabilities)
      → (i.read_capabilities gpu w).0 ≡ ok caps
      → Reports ControlFeature.fan_percent (percent lo hi) caps.limits

  any_frame :
      ReportsFan
      → ReadFrame i host timeout
          (λ _. Unit {0})
          (Reports ControlFeature.fan_percent (percent lo hi))
          gpu
  any_frame ranges = record {
    on_clock = λ w h. tt;
    on_detect = λ w h. tt;
    on_capabilities = λ w h. tt;
    fits = λ w caps h e. ranges w caps e;
    fits_none = λ r e. absurd (cc);
  }

  abbrev Clamped : Float → Float → W → Type 0
  Clamped v safe w = safe ≡ clamp (percent lo hi) v

  validate_fan-Clamped :
      ReportsFan
      → (v : Float) (w : W)
      → Ensures (Clamped v) (λ _. Unit) (validate_fan (some i) host timeout gpu v w)
  unfolding validate_fan
  validate_fan-Clamped ranges v w =
      Ensures-bind
        (λ out w'.
          Unit {0} × (contains (percent lo hi) out.0 ≡ true) × (out.0 ≡ clamp (percent lo hi) v))
        (Clamped v) (λ _. Unit) (validate_and_clamp i host timeout gpu ControlFeature.fan_percent v)
        (λ safe. pure safe.0) w
        (validate_and_clamp-Validated i host timeout ControlFeature.fan_percent (percent lo hi)
          (refl, refl) (any_frame ranges) v w tt)
        (λ out w' q. q.2)

  abbrev HasEnded : Option (Float × Option Float) → W → Type 0
  HasEnded o w = o ≢ none

  -- At 100 % the loop ends.
  at_ceiling :
      (n : ℕ)
      → n ≡ 100 * unit
      → float_le (next_fan rnd default_config (fin (pos n))) (fin (pos n)) ≡ true
  at_ceiling n e =
      let s = step rnd accurate n (omega arith) in rw (s.next) (let b = s.bounded in ground arith)

  thermal_loop_ends :
      ReportsFan
      → hi ≡ 100 * unit
      → (fuel m n : ℕ) (target : Float) (t : Option Float) (w : W) → m < fuel
      → n ≤ 100 * unit
      → 100 * unit ≤ n + m * unit
      → Ensures HasEnded
          (λ _. Unit)
          (thermal_loop (some i) host timeout rnd default_config fuel gpu target (fin (pos n)) t w)
  unfolding thermal_loop
  thermal_loop_ends ranges full zero m n target t w less small near = absurd (omega arith)
  thermal_loop_ends ranges full (suc fuel) zero n target t w less small near =
      Ensures-branch HasEnded (λ _. Unit) (over target t) _ _ w
        (λ _.
          Ensures-branch HasEnded (λ _. Unit)
            (float_le (next_fan rnd default_config (fin (pos n))) (fin (pos n))) _ _ w (λ _ e. cc)
            (λ below. absurd (cc (at_ceiling n (omega arith), below))))
        (λ _ e. cc)
  thermal_loop_ends ranges full (suc fuel) (suc m) n target t w less small near =
      let (k, safe_eq, rises, bound) =
        step_rises rnd accurate lo hi n small upright (omega arith) in
      Ensures-branch HasEnded (λ _. Unit) (over target t) _ _ w
        (λ _.
          Ensures-branch HasEnded (λ _. Unit)
            (float_le (next_fan rnd default_config (fin (pos n))) (fin (pos n))) _ _ w (λ _ e. cc)
            (λ _.
              Ensures-bind (Clamped (next_fan rnd default_config (fin (pos n)))) HasEnded
                (λ _. Unit)
                (validate_fan (some i) host timeout gpu (next_fan rnd default_config (fin (pos n))))
                _ w (validate_fan-Clamped ranges (next_fan rnd default_config (fin (pos n))) w)
                (λ safe w1 c.
                  Ensures-bind (λ _ _. Unit) HasEnded (λ _. Unit) (set_fan (some i) gpu safe) _ w1
                    (any_Ensures _)
                    (λ _ w2 _.
                      Ensures-bind (λ _ _. Unit) HasEnded (λ _. Unit)
                        (poll_temp_at_or_below (some i) host default_config gpu target t)
                        (thermal_loop (some i) host timeout rnd default_config fuel gpu target safe)
                        w2 (any_Ensures _)
                        (λ t' w3 _.
                          subst
                            (λ current.
                              Ensures HasEnded (λ _. Unit)
                                (thermal_loop (some i) host timeout rnd default_config fuel gpu
                                  target current t' w3))
                            (sym (c ∙ safe_eq))
                            (thermal_loop_ends ranges full fuel m k target t' w3 (omega arith)
                              (omega arith) (omega (arith, rises))))))))
        (λ _ e. cc)

  abbrev PercentSetpoint : Option Float → W → Type 0
  PercentSetpoint fan w = (n : ℕ) × (or_zero fan ≡ fin (pos n)) × (n ≤ 100 * unit)

  abbrev Answered : Option ControlResult → W → Type 0
  Answered o w = o ≢ none

  thermal_verdict_ends :
      (target : Float) (o : Option (Float × Option Float)) (w : W)
      → o ≢ none
      → Ensures Answered
          (λ _. Unit)
          (thermal_verdict (some i) host timeout rnd default_config target o w)
  thermal_verdict_ends target none w h = absurd (h refl)
  thermal_verdict_ends target (some (current, t)) w h =
      Ensures-branch Answered (λ _. Unit) (at_or_below target t) _ _ w (λ _ e. cc) (λ _. tt)

  thermal_from_ends :
      ReportsFan
      → hi ≡ 100 * unit
      → ((w' : W) → Ensures PercentSetpoint (λ _. Unit) (current_fan_setpoint (some i) gpu w'))
      → (fuel : ℕ) (target x : Float) (w : W) → 102 ≤ fuel
      → Ensures Answered
          (λ _. Unit)
          (thermal_from (some i) host timeout rnd default_config fuel gpu target x w)
  thermal_from_ends ranges full setpoint fuel target x w enough =
      Ensures-branch Answered (λ _. Unit) (float_le x target) _ _ w (λ _ e. cc)
        (λ _.
          Ensures-bind PercentSetpoint Answered (λ _. Unit) (current_fan_setpoint (some i) gpu) _ w
            (setpoint w)
            (λ fan w1 q.
              Ensures-bind HasEnded Answered (λ _. Unit)
                (thermal_loop (some i) host timeout rnd default_config fuel gpu target (or_zero fan)
                  (some x))
                (thermal_verdict (some i) host timeout rnd default_config target) w1
                (subst
                  (λ current.
                    Ensures HasEnded (λ _. Unit)
                      (thermal_loop (some i) host timeout rnd default_config fuel gpu target current
                        (some x) w1))
                  (sym q.1)
                  (thermal_loop_ends ranges full fuel 100 q.0 target (some x) w1 (omega arith) q.2
                    (omega arith)))
                (thermal_verdict_ends target)))

  -- Where the reported fan range ends at 100 % and the set point that is read is a percentage, 102
  -- rounds are enough fuel: `optimize_thermal` always ends, with a result or a typed error.
  pub optimize_thermal_ends :
      (fuel : ℕ) (target_c : Value) (w : W)
      → ReportsFan
      → hi ≡ 100 * unit
      → ((w' : W) → Ensures PercentSetpoint (λ _. Unit) (current_fan_setpoint (some i) gpu w'))
      → 102 ≤ fuel
      → let outcome =
          (optimize_thermal (some i) host timeout rnd default_config fuel gpu target_c w).0 in
        (outcome ≢ ok none) × (outcome ≢ crash)
  unfolding optimize_thermal
  optimize_thermal_ends fuel target_c w ranges full setpoint enough = typed_ended _ (
      Ensures-bind (λ _ _. Unit) Answered (λ _. Unit)
        (lift (validate_target rnd default_config target_c)) _ w (any_Ensures _)
        (λ target w1 _.
          Ensures-bind (λ _ _. Unit) Answered (λ _. Unit) (read_temp (some i) gpu) _ w1
            (any_Ensures _)
            (λ t w2 _.
              Ensures-bind (λ _ _. Unit) Answered (λ _. Unit)
                (or_raise t ErrorCode.interface_unavailable)
                (thermal_from (some i) host timeout rnd default_config fuel gpu target) w2
                (any_Ensures _)
                (λ x w3 _. thermal_from_ends ranges full setpoint fuel target x w3 enough))))
