-- ===== src/Tests/Profiles.antt =====
-- The profile manager on the bench, over a directory with one file.
use afterburner_gassist_plug.Base.{◌≡◌, ◌≤◌, refl, true, false, none, some, [], ◌∷◌, length, arith}
use afterburner_gassist_plug.Int.{pos, ◌-ℤ◌}
use afterburner_gassist_plug.Float.{unit, fin, whole, Rounding}
use afterburner_gassist_plug.Value.{int}
use afterburner_gassist_plug.Exec.{Result, ok}
use afterburner_gassist_plug.Models.{
  ControlFeature, GpuCapabilities, Range, inverted, clamp, range_for, no_limits,
}
use afterburner_gassist_plug.Exec.Hoare.{Ensures}
use afterburner_gassist_plug.Dict.{lookup}
use afterburner_gassist_plug.Integration.Client
use afterburner_gassist_plug.Safety.Capabilities.{resolve, gated_supported}
use afterburner_gassist_plug.Safety.Validator.{validate_and_clamp, clamp_for}
use afterburner_gassist_plug.Integration.ProfileFiles.{
  ProfileSlotInfo, ProfilesSnapshot, ProfileSourceState, Directory, TextMethods, read,
}
use afterburner_gassist_plug.Services.Optimize.Steps.{percent}
use afterburner_gassist_plug.Services.Profiles.{
  valid_id, read_snapshot, find_slot, resolve_control, apply_and_verify, apply_slot, apply_keys,
  apply_one, verify_applied, all_confirmed, load_profile, get_profiles,
}
use afterburner_gassist_plug.Services.Profiles.Writes.{ProfileFrame, load_profile-Keeps}
use afterburner_gassist_plug.Services.Profiles.Verified.{IsLoaded, load_profile-IsLoaded}
use afterburner_gassist_plug.Services.Profiles.Listing.{actives, get_profiles_over_files}
use afterburner_gassist_plug.Tests.Bench.{Bench, start, exact, bench, caps, host, gpu}

-- a fan speed of 5, kept in the second profile
abbrev rounding : Rounding
rounding = record exact { of_text = λ s. some (fin (pos 5)) }

abbrev directory : Directory Bench
directory = record {
  is_dir = λ w. (true, w);
  cfg_files = λ w. (some ("gpu.cfg" ∷ []), w);
  read_text = λ f w. (some "[Profile2] FanMode=1 FanSpeed=5", w);
  is_gpu_file = λ f. true;
  marker_number = λ f. none;
  stem = λ f. "gpu";
}

abbrev text : TextMethods
text = record {
  splitlines = λ s. "[Profile2]" ∷ "FanMode=1" ∷ "FanSpeed=5" ∷ [];
  strip = λ s. s;
  bracketed = λ s. some "Profile2";
  partition = λ s. some (s, "1");
}

abbrev Unreset : Bench → Type 0
Unreset w = w.resets ≡ 0

reports :
    (f : ControlFeature) (c : GpuCapabilities)
    → ◌≡◌ {A = Result GpuCapabilities} (ok (caps 3 9)) (ok c)
    → (r : Range) → range_for c.limits f ≡ some r
    → r ≡ percent 3 9
reports ControlFeature.power_limit c e r k = ground arith
reports ControlFeature.core_offset c e r k = ground arith
reports ControlFeature.memory_offset c e r k = ground arith
reports ControlFeature.voltage c e r k = ground arith
reports ControlFeature.fan_percent c e r k = ground arith
reports ControlFeature.fan_curve c e r k = ground arith
reports ControlFeature.profile_load c e r k = ground arith
reports ControlFeature.profile_reset c e r k = ground arith

unreported : (f : ControlFeature) (r : Range) → range_for no_limits f ≡ some r → r ≡ percent 3 9
unreported ControlFeature.power_limit r k = absurd (cc)
unreported ControlFeature.core_offset r k = absurd (cc)
unreported ControlFeature.memory_offset r k = absurd (cc)
unreported ControlFeature.voltage r k = absurd (cc)
unreported ControlFeature.fan_percent r k = absurd (cc)
unreported ControlFeature.fan_curve r k = absurd (cc)
unreported ControlFeature.profile_load r k = absurd (cc)
unreported ControlFeature.profile_reset r k = absurd (cc)

frame :
    ProfileFrame rounding
      (λ s. some (pos 1))
      (whole 1)
      (read directory text none)
      host
      10
      (bench 3 9 5 1)
      Unreset
      gpu
      (λ _. percent 3 9)
unfolding read
frame = record {
  reads = λ f. record {
    on_clock = λ w h. h;
    on_detect = λ w h. h;
    on_capabilities = λ w h. h;
    fits = λ w caps h e r k. reports f caps e r k;
    fits_none = λ r k. unreported f r k;
  };
  proper = λ f. (refl, refl);
  on_reader = λ w h. h;
  on_tuning_state = λ w h. h;
  on_write = λ f v w s c h. h;
}

load_profile-Keeps_example :
    Unreset
      (load_profile rounding
        (λ s. some (pos 1))
        (whole 1)
        (read directory text none)
        host
        10
        (some (bench 3 9 5 1))
        gpu
        (int (pos 2))
        start).1
load_profile-Keeps_example =
    load_profile-Keeps rounding (λ s. some (pos 1)) (whole 1) (read directory text none) host 10
      (bench 3 9 5 1) frame (int (pos 2)) start refl

-- a second profile that sets the fan to 5, which the bench reads back
abbrev slot : ProfileSlotInfo
slot = record {
  slot = 2;
  values = ("FanMode", "1") ∷ ("FanSpeed", "5") ∷ [];
  format_version = none;
  marker_present = true;
}

abbrev snapshot : ProfilesSnapshot
snapshot = record {
  state = ProfileSourceState.available;
  slots = slot ∷ [];
  startup_values = [];
  startup_present = false;
}

load_profile-IsLoaded_example :
    IsLoaded rounding
      (λ s. some (pos 1))
      (whole 1)
      (λ w. (ok snapshot, w))
      host
      10
      (bench 3 9 5 1)
      gpu
      (int (pos 2))
      start
      (record start { temp = 1; writes = 1 })
unfolding load_profile valid_id read_snapshot find_slot resolve_control resolve gated_supported
    apply_and_verify apply_slot apply_keys lookup apply_one inverted validate_and_clamp clamp_for
    Client.apply_control verify_applied Client.read_tuning_state all_confirmed clamp unit ◌-ℤ◌
load_profile-IsLoaded_example =
    load_profile-IsLoaded rounding (λ s. some (pos 1)) (whole 1) (λ w. (ok snapshot, w)) host 10
      (bench 3 9 5 1) gpu (int (pos 2)) start (record start { temp = 1; writes = 1 }) refl

get_profiles_over_files_example :
    Ensures
      (λ ps _. length (actives ps) ≤ 1)
      (λ _. Unit {0})
      (get_profiles rounding
        (λ s. some (pos 1))
        (whole 1)
        (read directory text none)
        host
        10
        (some (bench 3 9 5 1))
        gpu
        start)
get_profiles_over_files_example =
    get_profiles_over_files rounding (λ s. some (pos 1)) (whole 1) directory text none host 10
      (some (bench 3 9 5 1)) gpu start
