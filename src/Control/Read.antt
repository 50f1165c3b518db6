-- ===== src/Control/Read.antt =====
-- What the plugin reads from a GPU entry (afterburner/integration/macm.py): the capabilities and the
-- applied tuning. The region is a snapshot.
use afterburner_gassist_plug.Base.{
  ℕ, zero, suc, ◌+◌, String, Bool, false, Option, some, List, [], ◌∷◌, ◌&&◌, ◌||◌, ◌==◌, not,
  if◌then◌else◌,
}
use afterburner_gassist_plug.Int.{ℤ}
use afterburner_gassist_plug.Float.{Float, Rounding}
use afterburner_gassist_plug.Exec.{Result, ok, err, crash}
use afterburner_gassist_plug.Models.{
  ControlFeature, same_feature, Range, inverted, GpuLimits, no_limits, GpuCapabilities,
  InterfaceStatus, TuningState, FanMode,
}
use afterburner_gassist_plug.Control.Words.{Region}
use afterburner_gassist_plug.Control.Layout.{
  ControlSpec, control_specs, power_limit_spec, core_offset_spec, memory_offset_spec, voltage_spec,
  fan_percent_spec, vf_curve_size,
}
use afterburner_gassist_plug.Control.Header.{validate_control_region, entry_offset}
use afterburner_gassist_plug.Control.Write.{gated, fan_auto, model_value}

-- the first bytes of `n`, up to a zero byte: `raw.split(b"\x00", 1)[0]`
abbrev pub text_bytes : ℕ → (ℕ → ℕ) → ℕ → List ℕ
text_bytes zero byte o = []
text_bytes (suc n) byte o =
    let rest = text_bytes n byte (o + 1) in if byte o == 0 then [] else byte o ∷ rest

-- the offset of `szGpuId` in an entry, and its length
abbrev pub gpu_id_at : ℕ
gpu_id_at = 276 + vf_curve_size

abbrev pub gpu_id_size : ℕ
gpu_id_size = 260

-- `with` the limit of one control replaced
abbrev pub with_limit : ControlFeature → Range → GpuLimits → GpuLimits
with_limit ControlFeature.power_limit r l = record l { power_limit_pct = some r }
with_limit ControlFeature.core_offset r l = record l { core_offset_mhz = some r }
with_limit ControlFeature.memory_offset r l = record l { memory_offset_mhz = some r }
with_limit ControlFeature.voltage r l = record l { voltage_mv = some r }
with_limit ControlFeature.fan_percent r l = record l { fan_percent = some r }
with_limit ControlFeature.fan_curve r l = l
with_limit ControlFeature.profile_load r l = l
with_limit ControlFeature.profile_reset r l = l

-- the local variables of the loop over the controls
pub record Found : Type 0 where
  pub supported : ControlFeature → Bool
  pub limits : GpuLimits

-- a step that reads the header and finds the entry
abbrev pub with_entry : {A : Type 0} → Region → ℤ → (ℕ → A) → Result A
with_entry r gpu f = elim (validate_control_region r) [
  | ok p ↦ elim (entry_offset p gpu) [ ok base ↦ ok (f base) | err e ↦ err e | crash ↦ crash ]
  | err e ↦ err e
  | crash ↦ crash
]

-- `decode` turns the bytes of the identifier into a text and strips it.
module _ (rnd : Rounding) (decode : List ℕ → String) where
  -- `_range_for`
  unfoldable pub reported_range : Region → ℕ → ControlSpec → Range
  reported_range r base s = record {
    min = model_value rnd r base s s.minimum;
    max = model_value rnd r base s s.maximum;
  }

  unfoldable pub add_control : Region → ℕ → ControlSpec → Found → Found
  add_control r base s st =
      let range = reported_range r base s in
      if gated r base s && not (inverted range)
      then record {
        supported = λ f. same_feature f s.feature || st.supported f;
        limits = with_limit s.feature range st.limits;
      }
      else st

  unfoldable pub find_controls : Region → ℕ → List ControlSpec → Found → Found
  find_controls r base [] st = st
  find_controls r base (s ∷ rest) st = find_controls r base rest (add_control r base s st)

  unfoldable pub capabilities_at : Region → ℤ → ℕ → GpuCapabilities
  capabilities_at r gpu base =
      let st =
        find_controls r base control_specs
          (record { supported = λ _. false; limits = no_limits }) in
      record {
        gpu_index = gpu;
        gpu_name = decode (text_bytes gpu_id_size r.byte (base + gpu_id_at));
        supported_controls = λ f.
            same_feature f ControlFeature.profile_reset
            || same_feature f ControlFeature.profile_load
            || st.supported f;
        limits = st.limits;
        control_interface_status = InterfaceStatus.ok;
      }

  unfoldable pub build_capabilities_from_region : Region → ℤ → Result GpuCapabilities
  build_capabilities_from_region r gpu = with_entry r gpu (capabilities_at r gpu)

module _ (rnd : Rounding) where
  -- the current value of a control
  abbrev current : Region → ℕ → ControlSpec → Option Float
  current r base s = some (model_value rnd r base s s.cur)

  unfoldable pub tuning_state_from_region : Region → ℤ → Result TuningState
  tuning_state_from_region r gpu = with_entry r gpu (λ base. record {
    gpu_index = gpu;
    power_limit_pct = current r base power_limit_spec;
    core_offset_mhz = current r base core_offset_spec;
    memory_offset_mhz = current r base memory_offset_spec;
    voltage_mv = current r base voltage_spec;
    fan_mode = if fan_auto r base then FanMode.auto else FanMode.manual;
    fan_percent = current r base fan_percent_spec;
  })
