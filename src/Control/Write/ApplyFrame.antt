-- ===== src/Control/Write/ApplyFrame.antt =====
-- What `apply_control_to_region` changes (afterburner/integration/macm.py).
use afterburner_gassist_plug.Base.{ℕ, ◌≡◌, refl, not, ◌++◌}
use afterburner_gassist_plug.Int.{ℤ}
use afterburner_gassist_plug.Float.{Float, Rounding}
use afterburner_gassist_plug.Models.{ControlFeature, same_feature}
use afterburner_gassist_plug.Exec.{ErrorCode}
use afterburner_gassist_plug.Exec.Hoare.{
  Ensures, Ensures-if, Ensures-lift, Ensures-or_raise, Ensures-raise_if,
}
use afterburner_gassist_plug.Control.Layout.{ControlSpec, spec_of}
use afterburner_gassist_plug.Control.Header.{validate_control_region, entry_offset, set_field}
use afterburner_gassist_plug.Control.Words.{Region}
use afterburner_gassist_plug.Control.Write.{
  gated, clear_fan_auto, flush, to_field_units, already_set, write_value, apply_field,
  apply_control_to_region,
}
use afterburner_gassist_plug.Control.Write.Within.{
  IsWithin, IsWithin-trans, set_field-IsWithin, flush-IsWithin, clear_fan_auto-IsWithin,
  value_words, fan_words, command_words,
}

module _ (rnd : Rounding) where
  write_value-IsWithin :
      (s : ControlSpec) (base : ℕ) (z : ℤ) (r : Region)
      → Ensures (λ a. IsWithin a.word_offsets r) (λ r'. r' ≡ r) (write_value rnd s base z r)
  unfolding write_value
  write_value-IsWithin s base z r =
      let r1 = set_field base s.cur z r in
      let r2 = clear_fan_auto r1 base in
      let one = set_field-IsWithin base s.cur z r in
      let two =
        IsWithin-trans (fan_words base) command_words r1 r2 (flush r2)
          (clear_fan_auto-IsWithin r1 base) (flush-IsWithin r2) in
      Ensures-if _ _ (same_feature s.feature ControlFeature.fan_percent) _ _
        (λ _.
          IsWithin-trans (value_words base s) (fan_words base ++ command_words) r r1 (flush r2) one
            two)
        (λ _.
          IsWithin-trans (value_words base s) command_words r r1 (flush r1) one (flush-IsWithin r1))

  apply_field-IsWithin :
      (s : ControlSpec) (base : ℕ) (value tolerance : Float) (r : Region)
      → Ensures
          (λ a. IsWithin a.word_offsets r)
          (λ r'. r' ≡ r)
          (apply_field rnd s base value tolerance r)
  unfolding apply_field
  apply_field-IsWithin s base value tolerance r =
      Ensures-if _ _ (already_set rnd r base s value tolerance) _ _ (λ _. (refl, λ p _. refl))
        (λ _.
          Ensures-lift _ _ (to_field_units rnd value s) _ r refl
            (λ z _. write_value-IsWithin s base z r))

  pub apply_control_to_region-IsWithin :
      (gpu : ℤ) (feature : ControlFeature) (value tolerance : Float) (r : Region)
      → Ensures
          (λ a. IsWithin a.word_offsets r)
          (λ r'. r' ≡ r)
          (apply_control_to_region rnd gpu feature value tolerance r)
  unfolding apply_control_to_region
  apply_control_to_region-IsWithin gpu feature value tolerance r =
      Ensures-lift _ _ (validate_control_region r) _ r refl (λ p _.
        Ensures-or_raise _ _ (spec_of feature) ErrorCode.unsupported_feature _ r refl (λ s _.
          Ensures-lift _ _ (entry_offset p gpu) _ r refl (λ base _.
            Ensures-raise_if _ _ (not (gated r base s)) ErrorCode.unsupported_feature _ r refl
              (λ _. apply_field-IsWithin s base value tolerance r))))
