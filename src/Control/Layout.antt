-- ===== src/Control/Layout.antt =====
-- The layout of the control region (afterburner/integration/macm.py): the scalar fields of a GPU entry
-- in the order of the structure, each four bytes long, and the fields that a control names.
use afterburner_gassist_plug.Base.{
  ℕ, ◌+◌, ◌*◌, Bool, true, false, Option, none, some, List, [], ◌∷◌,
}
use afterburner_gassist_plug.Models.{ControlFeature}

pub data Field : Type 0 where
  flags core_clock_cur core_clock_min core_clock_max core_clock_def shader_clock_cur : Field
  shader_clock_min shader_clock_max shader_clock_def memory_clock_cur memory_clock_min : Field
  memory_clock_max memory_clock_def fan_speed_cur fan_flags_cur fan_speed_min : Field
  fan_speed_max fan_speed_def fan_flags_def core_voltage_cur core_voltage_min : Field
  core_voltage_max core_voltage_def memory_voltage_cur memory_voltage_min : Field
  memory_voltage_max memory_voltage_def aux_voltage_cur aux_voltage_min aux_voltage_max : Field
  aux_voltage_def core_voltage_boost_cur core_voltage_boost_min core_voltage_boost_max : Field
  core_voltage_boost_def memory_voltage_boost_cur memory_voltage_boost_min : Field
  memory_voltage_boost_max memory_voltage_boost_def aux_voltage_boost_cur : Field
  aux_voltage_boost_min aux_voltage_boost_max aux_voltage_boost_def power_limit_cur : Field
  power_limit_min power_limit_max power_limit_def core_clock_boost_cur : Field
  core_clock_boost_min core_clock_boost_max core_clock_boost_def memory_clock_boost_cur : Field
  memory_clock_boost_min memory_clock_boost_max memory_clock_boost_def thermal_limit_cur : Field
  thermal_limit_min thermal_limit_max thermal_limit_def thermal_prioritize_cur : Field
  thermal_prioritize_def aux2_voltage_cur aux2_voltage_min aux2_voltage_max : Field
  aux2_voltage_def aux2_voltage_boost_cur aux2_voltage_boost_min aux2_voltage_boost_max : Field
  aux2_voltage_boost_def : Field

-- `getattr(MACM_SHARED_MEMORY_GPU_ENTRY, name).offset`
abbrev pub offset : Field → ℕ
offset Field.flags = 0
offset Field.core_clock_cur = 4
offset Field.core_clock_min = 8
offset Field.core_clock_max = 12
offset Field.core_clock_def = 16
offset Field.shader_clock_cur = 20
offset Field.shader_clock_min = 24
offset Field.shader_clock_max = 28
offset Field.shader_clock_def = 32
offset Field.memory_clock_cur = 36
offset Field.memory_clock_min = 40
offset Field.memory_clock_max = 44
offset Field.memory_clock_def = 48
offset Field.fan_speed_cur = 52
offset Field.fan_flags_cur = 56
offset Field.fan_speed_min = 60
offset Field.fan_speed_max = 64
offset Field.fan_speed_def = 68
offset Field.fan_flags_def = 72
offset Field.core_voltage_cur = 76
offset Field.core_voltage_min = 80
offset Field.core_voltage_max = 84
offset Field.core_voltage_def = 88
offset Field.memory_voltage_cur = 92
offset Field.memory_voltage_min = 96
offset Field.memory_voltage_max = 100
offset Field.memory_voltage_def = 104
offset Field.aux_voltage_cur = 108
offset Field.aux_voltage_min = 112
offset Field.aux_voltage_max = 116
offset Field.aux_voltage_def = 120
offset Field.core_voltage_boost_cur = 124
offset Field.core_voltage_boost_min = 128
offset Field.core_voltage_boost_max = 132
offset Field.core_voltage_boost_def = 136
offset Field.memory_voltage_boost_cur = 140
offset Field.memory_voltage_boost_min = 144
offset Field.memory_voltage_boost_max = 148
offset Field.memory_voltage_boost_def = 152
offset Field.aux_voltage_boost_cur = 156
offset Field.aux_voltage_boost_min = 160
offset Field.aux_voltage_boost_max = 164
offset Field.aux_voltage_boost_def = 168
offset Field.power_limit_cur = 172
offset Field.power_limit_min = 176
offset Field.power_limit_max = 180
offset Field.power_limit_def = 184
offset Field.core_clock_boost_cur = 188
offset Field.core_clock_boost_min = 192
offset Field.core_clock_boost_max = 196
offset Field.core_clock_boost_def = 200
offset Field.memory_clock_boost_cur = 204
offset Field.memory_clock_boost_min = 208
offset Field.memory_clock_boost_max = 212
offset Field.memory_clock_boost_def = 216
offset Field.thermal_limit_cur = 220
offset Field.thermal_limit_min = 224
offset Field.thermal_limit_max = 228
offset Field.thermal_limit_def = 232
offset Field.thermal_prioritize_cur = 236
offset Field.thermal_prioritize_def = 240
offset Field.aux2_voltage_cur = 244
offset Field.aux2_voltage_min = 248
offset Field.aux2_voltage_max = 252
offset Field.aux2_voltage_def = 256
offset Field.aux2_voltage_boost_cur = 260
offset Field.aux2_voltage_boost_min = 264
offset Field.aux2_voltage_boost_max = 268
offset Field.aux2_voltage_boost_def = 272

-- whether the field is a `c_int32`
abbrev pub is_signed : Field → Bool
is_signed Field.flags = false
is_signed Field.core_clock_cur = false
is_signed Field.core_clock_min = false
is_signed Field.core_clock_max = false
is_signed Field.core_clock_def = false
is_signed Field.shader_clock_cur = false
is_signed Field.shader_clock_min = false
is_signed Field.shader_clock_max = false
is_signed Field.shader_clock_def = false
is_signed Field.memory_clock_cur = false
is_signed Field.memory_clock_min = false
is_signed Field.memory_clock_max = false
is_signed Field.memory_clock_def = false
is_signed Field.fan_speed_cur = false
is_signed Field.fan_flags_cur = false
is_signed Field.fan_speed_min = false
is_signed Field.fan_speed_max = false
is_signed Field.fan_speed_def = false
is_signed Field.fan_flags_def = false
is_signed Field.core_voltage_cur = false
is_signed Field.core_voltage_min = false
is_signed Field.core_voltage_max = false
is_signed Field.core_voltage_def = false
is_signed Field.memory_voltage_cur = false
is_signed Field.memory_voltage_min = false
is_signed Field.memory_voltage_max = false
is_signed Field.memory_voltage_def = false
is_signed Field.aux_voltage_cur = false
is_signed Field.aux_voltage_min = false
is_signed Field.aux_voltage_max = false
is_signed Field.aux_voltage_def = false
is_signed Field.core_voltage_boost_cur = true
is_signed Field.core_voltage_boost_min = true
is_signed Field.core_voltage_boost_max = true
is_signed Field.core_voltage_boost_def = true
is_signed Field.memory_voltage_boost_cur = true
is_signed Field.memory_voltage_boost_min = true
is_signed Field.memory_voltage_boost_max = true
is_signed Field.memory_voltage_boost_def = true
is_signed Field.aux_voltage_boost_cur = true
is_signed Field.aux_voltage_boost_min = true
is_signed Field.aux_voltage_boost_max = true
is_signed Field.aux_voltage_boost_def = true
is_signed Field.power_limit_cur = true
is_signed Field.power_limit_min = true
is_signed Field.power_limit_max = true
is_signed Field.power_limit_def = true
is_signed Field.core_clock_boost_cur = true
is_signed Field.core_clock_boost_min = true
is_signed Field.core_clock_boost_max = true
is_signed Field.core_clock_boost_def = true
is_signed Field.memory_clock_boost_cur = true
is_signed Field.memory_clock_boost_min = true
is_signed Field.memory_clock_boost_max = true
is_signed Field.memory_clock_boost_def = true
is_signed Field.thermal_limit_cur = true
is_signed Field.thermal_limit_min = true
is_signed Field.thermal_limit_max = true
is_signed Field.thermal_limit_def = true
is_signed Field.thermal_prioritize_cur = false
is_signed Field.thermal_prioritize_def = false
is_signed Field.aux2_voltage_cur = false
is_signed Field.aux2_voltage_min = false
is_signed Field.aux2_voltage_max = false
is_signed Field.aux2_voltage_def = false
is_signed Field.aux2_voltage_boost_cur = true
is_signed Field.aux2_voltage_boost_min = true
is_signed Field.aux2_voltage_boost_max = true
is_signed Field.aux2_voltage_boost_def = true

-- three words, 256 points of three words, two words, four power tuples, a word, four thermal tuples
abbrev pub vf_curve_size : ℕ
vf_curve_size = 12 + 256 * 12 + 8 + 4 * 16 + 4 + 4 * 16

-- `ctypes.sizeof(MACM_SHARED_MEMORY_GPU_ENTRY)`: the scalar fields, the curve and the identifier
abbrev pub gpu_entry_size : ℕ
gpu_entry_size = 276 + vf_curve_size + 260

-- `ctypes.sizeof(MACM_SHARED_MEMORY_HEADER)`
abbrev pub header_size : ℕ
header_size = 36

-- the offsets of the header's words
abbrev pub signature_at : ℕ
signature_at = 0

abbrev pub version_at : ℕ
version_at = 4

abbrev pub header_size_at : ℕ
header_size_at = 8

abbrev pub num_gpu_entries_at : ℕ
num_gpu_entries_at = 12

abbrev pub gpu_entry_size_at : ℕ
gpu_entry_size_at = 16

abbrev pub master_gpu_at : ℕ
master_gpu_at = 20

abbrev pub flags_at : ℕ
flags_at = 24

abbrev pub command_at : ℕ
command_at = 32

-- `ControlSpec`; the gate is the number of its bit in `dwFlags`, and the scale is a whole number.
pub record ControlSpec : Type 0 where
  pub feature : ControlFeature
  pub gate : ℕ
  pub cur : Field
  pub minimum : Field
  pub maximum : Field
  pub default : Field
  pub scale : ℕ

abbrev pub power_limit_spec : ControlSpec
power_limit_spec = record {
  feature = ControlFeature.power_limit;
  gate = 10;
  cur = Field.power_limit_cur;
  minimum = Field.power_limit_min;
  maximum = Field.power_limit_max;
  default = Field.power_limit_def;
  scale = 1;
}

abbrev pub core_offset_spec : ControlSpec
core_offset_spec = record {
  feature = ControlFeature.core_offset;
  gate = 11;
  cur = Field.core_clock_boost_cur;
  minimum = Field.core_clock_boost_min;
  maximum = Field.core_clock_boost_max;
  default = Field.core_clock_boost_def;
  scale = 1000;
}

abbrev pub memory_offset_spec : ControlSpec
memory_offset_spec = record {
  feature = ControlFeature.memory_offset;
  gate = 12;
  cur = Field.memory_clock_boost_cur;
  minimum = Field.memory_clock_boost_min;
  maximum = Field.memory_clock_boost_max;
  default = Field.memory_clock_boost_def;
  scale = 1000;
}

abbrev pub voltage_spec : ControlSpec
voltage_spec = record {
  feature = ControlFeature.voltage;
  gate = 4;
  cur = Field.core_voltage_cur;
  minimum = Field.core_voltage_min;
  maximum = Field.core_voltage_max;
  default = Field.core_voltage_def;
  scale = 1;
}

abbrev pub fan_percent_spec : ControlSpec
fan_percent_spec = record {
  feature = ControlFeature.fan_percent;
  gate = 3;
  cur = Field.fan_speed_cur;
  minimum = Field.fan_speed_min;
  maximum = Field.fan_speed_max;
  default = Field.fan_speed_def;
  scale = 1;
}

-- `_CONTROL_SPECS`, in the order of the dict
abbrev pub control_specs : List ControlSpec
control_specs =
    power_limit_spec ∷ core_offset_spec ∷ memory_offset_spec ∷ voltage_spec ∷ fan_percent_spec ∷ []

-- `_CONTROL_SPECS.get(feature)`
abbrev pub spec_of : ControlFeature → Option ControlSpec
spec_of ControlFeature.power_limit = some power_limit_spec
spec_of ControlFeature.core_offset = some core_offset_spec
spec_of ControlFeature.memory_offset = some memory_offset_spec
spec_of ControlFeature.voltage = some voltage_spec
spec_of ControlFeature.fan_percent = some fan_percent_spec
spec_of ControlFeature.fan_curve = none
spec_of ControlFeature.profile_load = none
spec_of ControlFeature.profile_reset = none
