-- ===== src/Services/Optimize.antt =====
-- `OptimizeService` (afterburner/services/optimize.py). The raising loop of `optimize_thermal` takes
-- fuel; `none` means that the fuel ran out.
pub mod FanOnly
pub mod Verified
pub mod Lowered
pub mod Steps
pub mod Termination
pub mod Divergence
use afterburner_gassist_plug.Base.{
  ℕ, zero, suc, ◌*◌, ◌/◌, ◌==◌, Bool, true, false, not, ◌&&◌, Option, none, some, if◌then◌else◌,
}
use Prim.Native.Nat.{max}
use afterburner_gassist_plug.Int.{ℤ}
use afterburner_gassist_plug.Float.{
  Float, whole, is_finite, float_lt, float_le, float_min, float_add, float_sub, Rounding,
}
use afterburner_gassist_plug.Value.{Value, null, bool, int, float, str, arr, dict}
use afterburner_gassist_plug.Exec.{
  Exec, Result, ok, err, crash, ErrorCode, pure, raise, lift, attempt, raise_if, or_raise, ◌>>=◌,
  ◌>>◌,
}
use afterburner_gassist_plug.Models.{ControlFeature, TuningState, ControlResult}
use afterburner_gassist_plug.Interface.{Interface, Host}
use afterburner_gassist_plug.Integration.Client
use afterburner_gassist_plug.Integration.Client.{guard}
use afterburner_gassist_plug.Safety.Validator.{validate_and_clamp}
use afterburner_gassist_plug.Safety.Policy.{second}

pub record Config : Type 0 where
  pub quiet_temp_limit_c : Float
  pub reduction_pts : Float
  pub fan_step_pts : Float
  pub target_min_c : Float
  pub target_max_c : Float
  pub verify_timeout : ℕ
  pub read_interval : ℕ

abbrev pub default_config : Config
default_config = record {
  quiet_temp_limit_c = whole 83;
  reduction_pts = whole 10;
  fan_step_pts = whole 20;
  target_min_c = whole 40;
  target_max_c = whole 95;
  verify_timeout = 30 * second;
  read_interval = second;
}

-- A reading that is present and finite.
abbrev pub finite_part : Option Float → Option Float
finite_part none = none
finite_part (some x) = if is_finite x then some x else none

-- `temp is not None and temp <= target`
abbrev pub at_or_below : Float → Option Float → Bool
at_or_below target none = false
at_or_below target (some t) = float_le t target

-- `temp is not None and temp > target`
abbrev pub over : Float → Option Float → Bool
over target none = false
over target (some t) = float_lt target t

abbrev pub fan_only_result : Float → Bool → ControlResult
fan_only_result fan_value applied = record {
  feature = ControlFeature.fan_percent;
  requested_value = if applied then some fan_value else none;
  applied_value = if applied then some fan_value else none;
  clamped = false;
  applied = applied;
  replaced_value = none;
}

module _ (rnd : Rounding) (cfg : Config) where
  check_target : Float → Result Float
  check_target value =
      if not (is_finite value)
      then err ErrorCode.invalid_value
      else if float_le cfg.target_min_c value && float_le value cfg.target_max_c
      then ok value
      else err ErrorCode.invalid_value

  -- `_validate_target`
  unfoldable pub validate_target : Value → Result Float
  unfolding check_target
  validate_target (int z) = elim (rnd.of_int z) [ none ↦ crash | some x ↦ check_target x ]
  validate_target (float x) = check_target x
  validate_target null = err ErrorCode.invalid_value
  validate_target (bool b) = err ErrorCode.invalid_value
  validate_target (str s) = err ErrorCode.invalid_value
  validate_target (arr xs) = err ErrorCode.invalid_value
  validate_target (dict fs) = err ErrorCode.invalid_value

abbrev pub fan_ceiling : Float
fan_ceiling = whole 100

-- `self._current_fan_setpoint(gpu_index) or 0.0`
abbrev pub or_zero : Option Float → Float
or_zero none = whole 0
or_zero (some fan) = fan

abbrev pub next_fan : Rounding → Config → Float → Float
next_fan rnd cfg current_fan = float_min (float_add rnd current_fan cfg.fan_step_pts) fan_ceiling

module _ {W : Type 0} (c : Option (Interface W)) where
  unfoldable pub read_temp : ℤ → Exec W (Option Float)
  read_temp gpu = Client.read_telemetry c gpu >>= λ t. pure (finite_part t.temperature_c)

  abbrev pub measured_fan : ℤ → Exec W (Option Float)
  measured_fan gpu = Client.read_telemetry c gpu >>= λ t. pure (finite_part t.fan_percent)

  abbrev pub or_measured : ℤ → Option Float → Exec W (Option Float)
  or_measured gpu none = measured_fan gpu
  or_measured gpu (some fan) = pure (some fan)

  -- The applied set point if the state can be read and holds one, else the measured speed.
  abbrev pub from_state : ℤ → Result TuningState → Exec W (Option Float)
  from_state gpu (ok state) = or_measured gpu (finite_part state.fan_percent)
  from_state gpu (err e) = measured_fan gpu
  from_state gpu crash = lift crash

  unfoldable pub current_fan_setpoint : ℤ → Exec W (Option Float)
  current_fan_setpoint gpu = attempt (Client.read_tuning_state c gpu) >>= from_state gpu

  abbrev pub set_fan : ℤ → Float → Exec W ControlResult
  set_fan gpu value = Client.apply_control c gpu ControlFeature.fan_percent value

  -- Best effort: a `PluginError` of the restore is dropped.
  abbrev pub swallow : Result ControlResult → Exec W (Unit {0})
  swallow (ok r) = pure tt
  swallow (err e) = pure tt
  swallow crash = lift crash

module _ {W : Type 0} (c : Option (Interface W)) (host : Host W) (timeout : ℕ) where
  abbrev pub validate_with : Option (Interface W) → ℤ → Float → Exec W Float
  validate_with none gpu value = raise ErrorCode.interface_unavailable
  validate_with (some i) gpu value =
      validate_and_clamp i host timeout gpu ControlFeature.fan_percent value >>= λ safe. pure safe.0

  unfoldable pub validate_fan : ℤ → Float → Exec W Float
  validate_fan = validate_with c

  unfoldable pub restore_fan : ℤ → Float → Exec W (Unit {0})
  restore_fan gpu fan = attempt (validate_fan gpu fan >>= set_fan c gpu) >>= swallow c

module _ {W : Type 0} (c : Option (Interface W)) (host : Host W) (cfg : Config) where
  -- `time.sleep(read_interval_s)`, where an interval is configured
  abbrev pause : Exec W (Unit {0})
  pause w = (ok tt, if cfg.read_interval == 0 then w else host.sleep cfg.read_interval w)

  -- The readings that are left, and the last one.
  unfoldable pub poll_loop : ℕ → ℤ → Float → Option Float → Exec W (Option Float)
  poll_loop zero gpu target measured = pure measured
  poll_loop (suc n) gpu target measured =
      pause
      >> (read_temp c gpu >>= λ t.
          if at_or_below target t then pure t else poll_loop n gpu target t)

  abbrev pub attempts : ℕ
  attempts = if cfg.read_interval == 0 then 1 else max 1 (cfg.verify_timeout / cfg.read_interval)

  unfoldable pub poll_temp_at_or_below : ℤ → Float → Option Float → Exec W (Option Float)
  poll_temp_at_or_below gpu target initial =
      if at_or_below target initial then pure initial else poll_loop attempts gpu target initial

module _ {W : Type 0} (c : Option (Interface W)) (host : Host W) (timeout : ℕ) (rnd : Rounding)
    (cfg : Config) where
  -- The end of `_optimize_quiet`, from the read-back on.
  abbrev pub quiet_verdict : ℤ → Float → Float → Option Float → Exec W ControlResult
  quiet_verdict gpu current_fan safe_fan none =
      restore_fan c host timeout gpu current_fan >> raise ErrorCode.unsupported_feature
  quiet_verdict gpu current_fan safe_fan (some measured) =
      if float_lt cfg.quiet_temp_limit_c measured
      then (restore_fan c host timeout gpu current_fan >> raise ErrorCode.unsupported_feature)
      else pure (fan_only_result safe_fan true)

  abbrev pub quiet_lower : ℤ → Float → Exec W ControlResult
  quiet_lower gpu current_fan =
      if float_lt current_fan cfg.reduction_pts
      then raise ErrorCode.unsupported_feature
      else (validate_fan c host timeout gpu (float_sub rnd current_fan cfg.reduction_pts)
          >>= λ safe_fan.
              set_fan c gpu safe_fan
              >> (poll_temp_at_or_below c host cfg gpu cfg.quiet_temp_limit_c none
                  >>= quiet_verdict gpu current_fan safe_fan))

  abbrev pub quiet_from : ℤ → Float → Exec W ControlResult
  quiet_from gpu temp =
      if float_lt cfg.quiet_temp_limit_c temp
      then raise ErrorCode.unsupported_feature
      else (current_fan_setpoint c gpu >>= λ fan.
          or_raise fan ErrorCode.interface_unavailable >>= quiet_lower gpu)

  unfoldable pub optimize_quiet : ℤ → Exec W ControlResult
  optimize_quiet gpu =
      guard (
        read_temp c gpu >>= λ temp.
        or_raise temp ErrorCode.interface_unavailable >>= quiet_from gpu)

  -- The `while` loop: the fan set point and the temperature that it ends with.
  unfoldable pub thermal_loop :
      ℕ → ℤ → Float → Float → Option Float → Exec W (Option (Float × Option Float))
  thermal_loop zero gpu target current_fan temp = pure none
  thermal_loop (suc fuel) gpu target current_fan temp =
      if over target temp
      then (if float_le (next_fan rnd cfg current_fan) current_fan
          then pure (some (current_fan, temp))
          else (validate_fan c host timeout gpu (next_fan rnd cfg current_fan) >>= λ safe_fan.
              set_fan c gpu safe_fan
              >> (poll_temp_at_or_below c host cfg gpu target temp
                  >>= thermal_loop fuel gpu target safe_fan)))
      else pure (some (current_fan, temp))

  abbrev pub thermal_verdict : Float → Option (Float × Option Float) → Exec W (Option ControlResult)
  thermal_verdict target none = pure none
  thermal_verdict target (some (current_fan, temp)) =
      if at_or_below target temp
      then pure (some (fan_only_result current_fan true))
      else raise ErrorCode.unsupported_feature

  abbrev pub thermal_from : ℕ → ℤ → Float → Float → Exec W (Option ControlResult)
  thermal_from fuel gpu target temp =
      if float_le temp target
      then pure (some (fan_only_result target false))
      else (current_fan_setpoint c gpu >>= λ fan.
          thermal_loop fuel gpu target (or_zero fan) (some temp) >>= thermal_verdict target)

  unfoldable pub optimize_thermal : ℕ → ℤ → Value → Exec W (Option ControlResult)
  optimize_thermal fuel gpu target_c = guard (
      lift (validate_target rnd cfg target_c) >>= λ target. read_temp c gpu >>= λ temp.
      or_raise temp ErrorCode.interface_unavailable >>= thermal_from fuel gpu target)
