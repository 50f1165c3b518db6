-- ===== src/Control/Write/ResetFrame.antt =====
-- What `reset_control_region` changes (afterburner/integration/macm.py).
use afterburner_gassist_plug.Base.{
  ℕ, ◌≡◌, refl, subst, ◌∙◌, Bool, true, false, not, List, [], ◌∷◌, ◌++◌, ◌&&◌, if◌then◌else◌,
}
use afterburner_gassist_plug.Int.{ℤ, eqb_ℤ}
use afterburner_gassist_plug.Float.{Float, Rounding}
use afterburner_gassist_plug.Models.{ControlFeature, same_feature}
use afterburner_gassist_plug.Exec.Hoare.{Ensures, Ensures-if, Ensures-lift}
use afterburner_gassist_plug.Control.Layout.{Field, ControlSpec, control_specs}
use afterburner_gassist_plug.Control.Header.{validate_control_region, entry_offset, get_field}
use afterburner_gassist_plug.Control.Words.{Region}
use afterburner_gassist_plug.Control.Write.{
  is_empty, ResetState, gated, flush, off_default, reset_value, reset_fan, reset_step, reset_loop,
  reset_finish, reset_control_region,
}
use afterburner_gassist_plug.Control.Write.Within.{
  IsWithin, IsWithin-trans, IsWithin-weaken, touched-++_swap, touched-++_idem, set_field-IsWithin,
  flush-IsWithin, value_words, fan_words, command_words,
}

-- the words that the loop of a reset has listed so far
abbrev reset_words : ℕ → ResetState → List ℕ
reset_words base st = st.changed_offsets ++ (if st.fan_reset then fan_words base else [])

nothing_listed :
    (os fan : List ℕ) (b : Bool)
    → (is_empty os && not b) ≡ true
    → os ++ (if b then fan else []) ≡ []
nothing_listed [] fan true h = absurd (cc)
nothing_listed [] fan false h = refl
nothing_listed (o ∷ os) fan b h = absurd (cc)

-- either of two states
if-lem :
    (P : ResetState → Type 0) (b : Bool) (st' st : ResetState)
    → P st'
    → P st
    → P (if b then st' else st)
if-lem P true st' st h k = h
if-lem P false st' st h k = k

module _ (rnd : Rounding) (base : ℕ) (tolerance : Float) (r : Region) where
  -- the region so far differs in the listed words at most
  abbrev IsCovered : ResetState → Type 0
  IsCovered st = IsWithin (reset_words base st) r st.region

  reset_value-IsCovered :
      (s : ControlSpec) (st : ResetState)
      → IsCovered st
      → IsCovered (reset_value rnd base tolerance s st)
  unfolding reset_value
  reset_value-IsCovered s st h =
      let fan = if st.fan_reset then fan_words base else [] in
      let new = value_words base s in
      if-lem IsCovered (off_default rnd st.region base s tolerance) _ st
        (IsWithin-weaken (reset_words base st ++ new) ((st.changed_offsets ++ new) ++ fan) r _
          (λ p k. touched-++_swap st.changed_offsets fan new p ∙ k)
          (IsWithin-trans (reset_words base st) new r st.region _ h
            (set_field-IsWithin base s.cur _ st.region)))
        h

  reset_fan-IsCovered :
      (s : ControlSpec) (st : ResetState) → IsCovered st → IsCovered (reset_fan rnd base s st)
  unfolding reset_fan
  reset_fan-IsCovered s st h =
      let fan = if st.fan_reset then fan_words base else [] in
      if-lem IsCovered
        (same_feature s.feature ControlFeature.fan_percent
          && not (
              eqb_ℤ (get_field st.region base Field.fan_flags_cur)
                (get_field st.region base Field.fan_flags_def)))
        _ st
        (IsWithin-weaken (reset_words base st ++ fan_words base)
          (st.changed_offsets ++ fan_words base) r _
          (λ p k. touched-++_idem st.changed_offsets (fan_words base) st.fan_reset p ∙ k)
          (IsWithin-trans (reset_words base st) (fan_words base) r st.region _ h
            (set_field-IsWithin base Field.fan_flags_cur _ st.region)))
        h

  reset_step-IsCovered :
      (s : ControlSpec) (st : ResetState)
      → IsCovered st
      → IsCovered (reset_step rnd base tolerance s st)
  unfolding reset_step
  reset_step-IsCovered s st h =
      if-lem IsCovered (gated st.region base s) _ st
        (reset_fan-IsCovered s _ (reset_value-IsCovered s st h)) h

  reset_loop-IsCovered :
      (ss : List ControlSpec) (st : ResetState)
      → IsCovered st
      → IsCovered (reset_loop rnd base tolerance ss st)
  unfolding reset_loop
  reset_loop-IsCovered [] st h = h
  reset_loop-IsCovered (s ∷ ss) st h = reset_loop-IsCovered ss _ (reset_step-IsCovered s st h)

  reset_finish-IsWithin :
      (st : ResetState)
      → IsCovered st
      → Ensures (λ a. IsWithin a.word_offsets r) (λ r'. r' ≡ r) (reset_finish rnd base st)
  unfolding reset_finish
  reset_finish-IsWithin st h =
      Ensures-if _ _ (is_empty st.changed_offsets && not st.fan_reset) _ _
        (λ e.
          subst (λ os. IsWithin os r st.region)
            (nothing_listed st.changed_offsets (fan_words base) st.fan_reset e) h)
        (λ _.
          IsWithin-trans (reset_words base st) command_words r st.region (flush st.region) h
            (flush-IsWithin st.region))

module _ (rnd : Rounding) where
  pub reset_control_region-IsWithin :
      (gpu : ℤ) (tolerance : Float) (r : Region)
      → Ensures
          (λ a. IsWithin a.word_offsets r)
          (λ r'. r' ≡ r)
          (reset_control_region rnd gpu tolerance r)
  unfolding reset_control_region
  reset_control_region-IsWithin gpu tolerance r =
      Ensures-lift _ _ (validate_control_region r) _ r refl (λ p _.
        Ensures-lift _ _ (entry_offset p gpu) _ r refl (λ base _.
          reset_finish-IsWithin rnd base tolerance r _
            (reset_loop-IsCovered rnd base tolerance r control_specs _ (refl, λ p _. refl))))
