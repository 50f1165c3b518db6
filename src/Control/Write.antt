-- ===== src/Control/Write.antt =====
-- The writes into a GPU entry (afterburner/integration/macm.py): `apply_control_to_region` and
-- `reset_control_region` on an injected region, and `write_words`, which copies the words they list
-- onto the mapped region. The region is the state of a call, so it comes back beside an error too.
pub mod Within
pub mod ApplyFrame
pub mod ResetFrame
pub mod CopyBack
pub mod Stored
use afterburner_gassist_plug.Base.{
  ℕ, suc, ◌+◌, ◌-◌, ◌*◌, ◌/◌, ◌%◌, ◌^◌, Bool, true, false, not, Option, none, some, List, [], ◌∷◌,
  ◌++◌, ltb, ◌&&◌, ◌||◌, ◌==◌, if◌then◌else◌,
}
use afterburner_gassist_plug.Int.{ℤ, pos, negsuc, pos_part, neg_part, sub_ℕ, eqb_ℤ}
use afterburner_gassist_plug.Float.{
  Float, fin, inf, neg_inf, nan, unit, Rounding, float_sub, float_abs, float_le, float_lt,
}
use afterburner_gassist_plug.Exec.{
  Exec, Result, ok, crash, ErrorCode, pure, lift, raise_if, or_raise, ◌>>=◌, ◌>>◌,
}
use afterburner_gassist_plug.Models.{ControlFeature, same_feature}
use afterburner_gassist_plug.Control.Words.{Region, u32, put32, inside}
use afterburner_gassist_plug.Control.Layout.{
  Field, offset, ControlSpec, control_specs, spec_of, command_at,
}
use afterburner_gassist_plug.Control.Header.{
  validate_control_region, entry_offset, get_field, set_field,
}

abbrev pub command_flush : ℕ
command_flush = 11206657

abbrev pub is_empty : List ℕ → Bool
is_empty [] = true
is_empty (_ ∷ _) = false

-- `AppliedOutcome`: `applied` is false for "noop".
pub record AppliedOutcome : Type 0 where
  pub applied : Bool
  pub replaced : Option Float
  pub word_offsets : List ℕ

abbrev pub noop : AppliedOutcome
noop = record { applied = false; replaced = none; word_offsets = [] }

-- an integer in the units of a float
abbrev pub units : ℤ → ℤ
units z = sub_ℕ (pos_part z * unit) (neg_part z * unit)

-- the whole number nearest to `m` units, the even one of two
abbrev pub half_even : ℕ → ℕ
half_even m =
    if ltb (2 * (m % unit)) unit
    then m / unit
    else if ltb unit (2 * (m % unit))
    then suc (m / unit)
    else m / unit + m / unit % 2

-- `int(round(x))`
unfoldable pub int_round : Float → Result ℤ
int_round (fin (pos m)) = ok (pos (half_even m))
int_round (fin (negsuc m)) = ok (sub_ℕ 0 (half_even (suc m)))
int_round inf = crash
int_round neg_inf = crash
int_round nan = crash

-- bit `k` of a word
abbrev pub bit_set : ℕ → ℕ → Bool
bit_set k v = v / 2 ^ k % 2 == 1

-- `entry.dwFlags & spec.flag`
unfoldable pub gated : Region → ℕ → ControlSpec → Bool
gated r base s = bit_set s.gate (u32 r (base + offset Field.flags))

-- `entry.dwFanFlagsCur & FAN_FLAG_AUTO`
unfoldable pub fan_auto : Region → ℕ → Bool
fan_auto r base = bit_set 0 (u32 r (base + offset Field.fan_flags_cur))

-- `entry.dwFanFlagsCur &= ~FAN_FLAG_AUTO`
unfoldable pub clear_fan_auto : Region → ℕ → Region
clear_fan_auto r base =
    let v = u32 r (base + offset Field.fan_flags_cur) in
    put32 (base + offset Field.fan_flags_cur) (v - v % 2) r

-- `header.dwCommand = FLUSH`
unfoldable pub flush : Region → Region
flush r = put32 command_at command_flush r

-- What `reset_control_region` holds between two controls: the region and its local variables.
pub record ResetState : Type 0 where
  pub region : Region
  pub changed_offsets : List ℕ
  pub fan_reset : Bool

module _ (rnd : Rounding) where
  unfoldable pub to_model_units : ℤ → ControlSpec → Float
  to_model_units z s = rnd.quotient (units z) (units (pos s.scale))

  unfoldable pub to_field_units : Float → ControlSpec → Result ℤ
  to_field_units (fin v) s = int_round (rnd.product v (units (pos s.scale)))
  to_field_units inf s = crash
  to_field_units neg_inf s = crash
  to_field_units nan s = crash

  -- the value of a field, in model units
  unfoldable pub model_value : Region → ℕ → ControlSpec → Field → Float
  model_value r base s f = to_model_units (get_field r base f) s

  -- The setting is there already: within the tolerance, and a fan not on automatic.
  unfoldable pub already_set : Region → ℕ → ControlSpec → Float → Float → Bool
  already_set r base s value tolerance =
      float_le (float_abs (float_sub rnd (model_value r base s s.cur) value)) tolerance
      && (not (same_feature s.feature ControlFeature.fan_percent) || not (fan_auto r base))

  -- the store of the new value: the field, for a fan its automatic bit, and the command last
  unfoldable pub write_value : ControlSpec → ℕ → ℤ → Exec Region AppliedOutcome
  write_value s base z r =
      let old = some (model_value r base s s.cur) in
      let r1 = set_field base s.cur z r in
      if same_feature s.feature ControlFeature.fan_percent
      then (
        ok record {
          applied = true;
          replaced = old;
          word_offsets =
              (base + offset s.cur) ∷ (base + offset Field.fan_flags_cur) ∷ command_at ∷ [];
        },
        flush (clear_fan_auto r1 base),
      )
      else (
        ok record {
          applied = true;
          replaced = old;
          word_offsets = (base + offset s.cur) ∷ command_at ∷ [];
        },
        flush r1,
      )

  unfoldable pub apply_field : ControlSpec → ℕ → Float → Float → Exec Region AppliedOutcome
  apply_field s base value tolerance r =
      if already_set r base s value tolerance
      then (ok noop, r)
      else (lift (to_field_units value s) >>= write_value s base) r

  unfoldable pub apply_control_to_region :
      ℤ → ControlFeature → Float → Float → Exec Region AppliedOutcome
  apply_control_to_region gpu feature value tolerance r =
      (lift (validate_control_region r) >>= λ p.
      or_raise (spec_of feature) ErrorCode.unsupported_feature >>= λ s.
      lift (entry_offset p gpu) >>= λ base.
      raise_if (not (gated r base s)) ErrorCode.unsupported_feature
      >> apply_field s base value tolerance)
        r

  -- the difference from the default, beyond the tolerance
  unfoldable pub off_default : Region → ℕ → ControlSpec → Float → Bool
  off_default r base s tolerance =
      float_lt tolerance
        (float_abs (float_sub rnd (model_value r base s s.cur) (model_value r base s s.default)))

  unfoldable pub reset_value : ℕ → Float → ControlSpec → ResetState → ResetState
  reset_value base tolerance s st =
      if off_default st.region base s tolerance
      then record st {
        region = set_field base s.cur (get_field st.region base s.default) st.region;
        changed_offsets = st.changed_offsets ++ (base + offset s.cur) ∷ [];
      }
      else st

  -- `entry.dwFanFlagsCur = entry.dwFanFlagsDef`, where they differ
  unfoldable pub reset_fan : ℕ → ControlSpec → ResetState → ResetState
  reset_fan base s st =
      let cur = get_field st.region base Field.fan_flags_cur in
      let default = get_field st.region base Field.fan_flags_def in
      if same_feature s.feature ControlFeature.fan_percent && not (eqb_ℤ cur default)
      then record st {
        region = set_field base Field.fan_flags_cur default st.region;
        fan_reset = true;
      }
      else st

  -- one control of the loop
  unfoldable pub reset_step : ℕ → Float → ControlSpec → ResetState → ResetState
  reset_step base tolerance s st =
      if gated st.region base s then reset_fan base s (reset_value base tolerance s st) else st

  unfoldable pub reset_loop : ℕ → Float → List ControlSpec → ResetState → ResetState
  reset_loop base tolerance [] st = st
  reset_loop base tolerance (s ∷ rest) st =
      reset_loop base tolerance rest (reset_step base tolerance s st)

  unfoldable pub reset_finish : ℕ → ResetState → Result AppliedOutcome × Region
  reset_finish base st =
      let fan = if st.fan_reset then (base + offset Field.fan_flags_cur) ∷ [] else [] in
      if is_empty st.changed_offsets && not st.fan_reset then (ok noop, st.region) else (
        ok record {
          applied = true;
          replaced = none;
          word_offsets = st.changed_offsets ++ fan ++ command_at ∷ [];
        },
        flush st.region,
      )

  unfoldable pub reset_control_region : ℤ → Float → Exec Region AppliedOutcome
  reset_control_region gpu tolerance r =
      (lift (validate_control_region r) >>= λ p. lift (entry_offset p gpu) >>= λ base. λ r.
          reset_finish base (
            reset_loop base tolerance control_specs
              (record { region = r; changed_offsets = []; fan_reset = false })))
        r

-- `RtlMoveMemory(addr + offset, data[offset : offset + 4], 4)`
unfoldable pub copy32 : ℕ → Region → Region → Region
copy32 o src r = record r { byte = λ p. if inside o p then src.byte p else r.byte p }

unfoldable pub write_words : List ℕ → Region → Region → Region
write_words [] src r = r
write_words (o ∷ os) src r = write_words os src (copy32 o src r)
