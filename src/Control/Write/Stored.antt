-- ===== src/Control/Write/Stored.antt =====
-- What `apply_control_to_region` leaves in the region (afterburner/integration/macm.py).
use afterburner_gassist_plug.Base.{
  ℕ, ◌+◌, ◌-◌, ◌%◌, ◌^◌, ◌≤◌, ◌≡◌, ◌⊎◌, inl, inr, refl, ◌∙◌, true, false, some, arith,
}
use afterburner_gassist_plug.Int.{ℤ}
use afterburner_gassist_plug.Float.{Float, Rounding}
use afterburner_gassist_plug.Models.{ControlFeature, same_feature}
use afterburner_gassist_plug.Exec.{ok}
use afterburner_gassist_plug.Exec.Hoare.{Ensures-if, Returns}
use afterburner_gassist_plug.Control.Layout.{
  Field, offset, ControlSpec, spec_of, command_at, header_size, power_limit_spec, core_offset_spec,
  memory_offset_spec, voltage_spec, fan_percent_spec,
}
use afterburner_gassist_plug.Control.Header.{
  ParsedControl, validate_control_region, entry_offset, entry_offset-inside, set_field,
}
use afterburner_gassist_plug.Control.Words.{Region, u32, bits, bits-lt, u32-put32, u32-put32_other}
use afterburner_gassist_plug.Control.Write.{
  gated, fan_auto, clear_fan_auto, flush, to_field_units, already_set, write_value, apply_field,
  apply_control_to_region, command_flush,
}

-- The field holds the bits of `z`, the command is FLUSH, and for a fan the automatic bit is clear.
abbrev pub IsStored : ControlSpec → ℕ → ℤ → Region → Type 0
IsStored s base z r' =
    (u32 r' (base + offset s.cur) ≡ bits z)
    × (u32 r' command_at ≡ command_flush)
    × (same_feature s.feature ControlFeature.fan_percent ≡ true → fan_auto r' base ≡ false)

u32-set_field :
    (base : ℕ) (f : Field) (z : ℤ) (r : Region)
    → u32 (set_field base f z r) (base + offset f) ≡ bits z
unfolding set_field
u32-set_field base f z r =
    let lt = bits-lt z in u32-put32 r (base + offset f) (bits z) ∙ (omega arith)

u32-flush : (o : ℕ) (r : Region) → header_size ≤ o → u32 (flush r) o ≡ u32 r o
unfolding flush
u32-flush o r h = u32-put32_other r command_at o command_flush (inl h)

command-flush : (r : Region) → u32 (flush r) command_at ≡ command_flush
unfolding flush
command-flush r = u32-put32 r command_at command_flush

u32-clear_fan_auto :
    (base o : ℕ) (r : Region)
    → (base + offset Field.fan_flags_cur) + 4 ≤ o ⊎ o + 4 ≤ base + offset Field.fan_flags_cur
    → u32 (clear_fan_auto r base) o ≡ u32 r o
unfolding clear_fan_auto
u32-clear_fan_auto base o r h = u32-put32_other r (base + offset Field.fan_flags_cur) o _ h

u32-cleared :
    (base : ℕ) (r : Region)
    → let v = u32 r (base + offset Field.fan_flags_cur) in
      u32 (clear_fan_auto r base) (base + offset Field.fan_flags_cur) ≡ (v - v % 2) % 2 ^ 32
unfolding clear_fan_auto
u32-cleared base r = u32-put32 r _ _

fan_auto-clear_fan_auto :
    (base : ℕ) (r : Region) → fan_auto (flush (clear_fan_auto r base)) base ≡ false
unfolding fan_auto
fan_auto-clear_fan_auto base r =
    let o = base + offset Field.fan_flags_cur in
    let v = u32 r o in
    let a = u32-flush o (clear_fan_auto r base) (omega arith) in
    let b = u32-cleared base r in ground arith

-- Every control's field lies apart from the fan's flags.
cur-apart :
    (feature : ControlFeature) (s : ControlSpec)
    → spec_of feature ≡ some s
    → (s.feature ≡ feature) × (60 ≤ offset s.cur ⊎ offset s.cur + 4 ≤ 56)
cur-apart ControlFeature.power_limit s h =
    let e : power_limit_spec ≡ s = cc in rw (← e) (refl, inl (omega arith))
cur-apart ControlFeature.core_offset s h =
    let e : core_offset_spec ≡ s = cc in rw (← e) (refl, inl (omega arith))
cur-apart ControlFeature.memory_offset s h =
    let e : memory_offset_spec ≡ s = cc in rw (← e) (refl, inl (omega arith))
cur-apart ControlFeature.voltage s h =
    let e : voltage_spec ≡ s = cc in rw (← e) (refl, inl (omega arith))
cur-apart ControlFeature.fan_percent s h =
    let e : fan_percent_spec ≡ s = cc in rw (← e) (refl, inr (omega arith))
cur-apart ControlFeature.fan_curve s h = absurd (cc)
cur-apart ControlFeature.profile_load s h = absurd (cc)
cur-apart ControlFeature.profile_reset s h = absurd (cc)

apart :
    (base : ℕ) {o : ℕ} → 60 ≤ o ⊎ o + 4 ≤ 56 → (base + 56) + 4 ≤ base + o ⊎ base + o + 4 ≤ base + 56
apart base (inl h) = inl (omega arith)
apart base (inr h) = inr (omega arith)

module _ (rnd : Rounding) where
  write_value-IsStored :
      (s : ControlSpec) (base : ℕ) (z : ℤ) (r : Region)
      → header_size ≤ base
      → 60 ≤ offset s.cur ⊎ offset s.cur + 4 ≤ 56
      → Returns (λ a r'. (a.applied ≡ true) × IsStored s base z r') (write_value rnd s base z r)
  unfolding write_value
  write_value-IsStored s base z r h k =
      let r1 = set_field base s.cur z r in
      let r2 = clear_fan_auto r1 base in
      let o = base + offset s.cur in
      let old = u32-set_field base s.cur z r in
      Ensures-if _ _ (same_feature s.feature ControlFeature.fan_percent) _ _
        (λ e. (
          refl,
          (
            u32-flush o r2 (omega arith) ∙ u32-clear_fan_auto base o r1 (apart base k) ∙ old,
            command-flush r2,
            λ _. fan_auto-clear_fan_auto base r1,
          ),
        ))
        (λ e. (refl, (u32-flush o r1 (omega arith) ∙ old, command-flush r1, λ e'. absurd (cc))))

  -- For a region that passes the checks, a GPU it has, a control that is a field and whose flag is set,
  -- a value that is not there already and that converts to the whole number `z`:
  -- `apply_control_to_region` returns an applied outcome; in the region it leaves, the control's field
  -- holds the 32 bits of `z`, the command is FLUSH and the automatic bit of a fan is clear.
  pub apply_control_to_region-IsStored :
      (gpu : ℤ) (feature : ControlFeature) (value tolerance : Float) (r : Region)
      (p : ParsedControl) (s : ControlSpec) (base : ℕ) (z : ℤ)
      → validate_control_region r ≡ ok p
      → spec_of feature ≡ some s
      → entry_offset p gpu ≡ ok base
      → gated r base s ≡ true
      → already_set rnd r base s value tolerance ≡ false
      → to_field_units rnd value s ≡ ok z
      → Returns
          (λ a r'. (a.applied ≡ true) × IsStored s base z r')
          (apply_control_to_region rnd gpu feature value tolerance r)
  unfolding apply_control_to_region apply_field
  apply_control_to_region-IsStored gpu feature value tolerance r p s base z v f e g n u =
      let (low, _) = entry_offset-inside r p gpu base v e in
      rw (v, f, e, g, n, u) (write_value-IsStored s base z r low (cur-apart feature s f).1)
