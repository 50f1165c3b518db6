-- ===== src/Tests/Control.antt =====
-- The control adapter on a region with one GPU.
use afterburner_gassist_plug.Base.{
  ℕ, suc, ◌+◌, ◌≤◌, ◌≡◌, refl, Bool, true, false, not, ◌||◌, none, arith,
}
use afterburner_gassist_plug.Int.{pos, ◌-ℤ◌}
use afterburner_gassist_plug.Float.{whole, unit}
use afterburner_gassist_plug.Models.{ControlFeature}
use afterburner_gassist_plug.Exec.Hoare.{Ensures, Returns}
use afterburner_gassist_plug.Control.Words.{Region, put32, u32, i32}
use afterburner_gassist_plug.Control.Layout.{gpu_entry_size, header_size, power_limit_spec}
use afterburner_gassist_plug.Control.Header.{
  parsed_of, macm_signature, macm_version_min, entry_offset-inside, validate_control_region,
  entry_offset, get_field,
}
use afterburner_gassist_plug.Control.Write.{
  apply_control_to_region, reset_control_region, copy32, gated, already_set, to_field_units,
  model_value, to_model_units, int_round, command_flush,
}
use afterburner_gassist_plug.Control.Write.CopyBack.{
  IsCopied, apply_control_to_region-write_words, reset_control_region-write_words,
}
use afterburner_gassist_plug.Control.Write.Stored.{IsStored, apply_control_to_region-IsStored}
use afterburner_gassist_plug.Control.Client.{Windows, mapped, apply_control, wait_for_completion}
use afterburner_gassist_plug.Control.Client.Mutex.{Discipline, apply_control-Discipline}
use afterburner_gassist_plug.Control.Client.Wait.{Clock, IsTaken, wait_for_completion-ends}
use afterburner_gassist_plug.Tests.Bench.{exact, gpu}

abbrev zeros : Region
zeros = record { size = 3796; byte = λ _. 0 }

-- one GPU with a power limit of 100 %, between 50 and 120
abbrev one_gpu : Region
one_gpu = put32 0 macm_signature (
    put32 4 macm_version_min (
      put32 8 36 (
        put32 12 1
          (put32 16 3760 (put32 36 1024 (put32 208 100 (put32 212 50 (put32 216 120 zeros))))))))

entry_offset-inside_example : (header_size ≤ 36) × (36 + gpu_entry_size ≤ one_gpu.size)
unfolding validate_control_region put32 u32 entry_offset
entry_offset-inside_example = entry_offset-inside one_gpu (parsed_of one_gpu) (pos 0) 36 refl refl

apply_control_to_region-write_words_example :
    Ensures
      (IsCopied one_gpu)
      (λ r. r ≡ one_gpu)
      (apply_control_to_region exact gpu ControlFeature.power_limit (whole 90) (whole 1) one_gpu)
apply_control_to_region-write_words_example =
    apply_control_to_region-write_words exact gpu ControlFeature.power_limit (whole 90) (whole 1)
      one_gpu

reset_control_region-write_words_example :
    Ensures (IsCopied one_gpu) (λ r. r ≡ one_gpu) (reset_control_region exact gpu (whole 1) one_gpu)
reset_control_region-write_words_example =
    reset_control_region-write_words exact gpu (whole 1) one_gpu

apply_control_to_region-IsStored_example :
    Returns
      (λ a r. (a.applied ≡ true) × IsStored power_limit_spec 36 (pos 90) r)
      (apply_control_to_region exact gpu ControlFeature.power_limit (whole 90) (whole 1) one_gpu)
unfolding validate_control_region put32 u32 entry_offset gated already_set model_value
    to_model_units ◌-ℤ◌ get_field i32 unit to_field_units int_round
apply_control_to_region-IsStored_example =
    apply_control_to_region-IsStored exact gpu ControlFeature.power_limit (whole 90) (whole 1)
      one_gpu (parsed_of one_gpu) power_limit_spec 36 (pos 90) refl refl refl refl refl refl

-- A desk: the mapped region, the mutex, a clock, and whether the mutex was ever misused.
record Desk : Type 0 where
  macm : Region
  held : Bool
  ticks : ℕ
  misused : Bool

abbrev desk : Desk
desk = record { macm = one_gpu; held = false; ticks = 0; misused = false }

abbrev windows : Windows Desk
windows = record {
  open_map = λ w. (mapped, w);
  close_map = λ w. w;
  lock = λ w. (true, record w { held = true });
  unlock = λ w. record w { held = false };
  read_bytes = λ w. (w.macm, w);
  copy_word = λ o src w. record w { macm = copy32 o src w.macm; misused = w.misused || not w.held };
  notify = λ w. w;
  elevation_mismatch = λ w. (none, w);
  clock = λ w. (w.ticks, record w { misused = w.misused || w.held });
  sleep = λ w. record w {
    ticks = suc w.ticks;
    macm = put32 32 0 w.macm;
    misused = w.misused || w.held;
  };
}

abbrev Free : Desk → Type 0
Free w = (w.held ≡ false) × (w.misused ≡ false)

abbrev Held : Desk → Type 0
Held w = (w.held ≡ true) × (w.misused ≡ false)

windows-Discipline : Discipline windows Free Held
windows-Discipline = record {
  lock_taken = λ w p _. (refl, p.1);
  lock_failed = λ w p e. absurd (cc);
  unlock = λ w p. (refl, p.1);
  copy_word = λ o src w p. (p.0, ground (arith, p.0, p.1));
  read_bytes = λ w p. p;
  elevation_held = λ w p. p;
  elevation_free = λ w p. p;
  open_map = λ w p. p;
  close_map = λ w p. p;
  notify = λ w p. p;
  clock = λ w p. (p.0, ground (arith, p.0, p.1));
  sleep = λ w p. (p.0, ground (arith, p.0, p.1));
}

apply_control-Discipline_example :
    Free (apply_control windows exact 6 5 gpu ControlFeature.power_limit (whole 90) desk).1
apply_control-Discipline_example =
    apply_control-Discipline windows Free Held windows-Discipline exact 6 5 gpu
      ControlFeature.power_limit (whole 90) desk (refl, refl)

windows-Clock : Clock windows (λ w. w.ticks)
windows-Clock = record {
  reads = λ w. (omega arith, omega arith);
  sleep = λ w. omega arith;
  lock = λ w. omega arith;
  unlock = λ w. omega arith;
  copy_word = λ o src w. omega arith;
  read_bytes = λ w. omega arith;
  elevation_mismatch = λ w. omega arith;
  open_map = λ w. omega arith;
  close_map = λ w. omega arith;
  notify = λ w. omega arith;
}

-- a desk where a command is pending
abbrev waiting : Desk
waiting = record desk { macm = put32 32 command_flush one_gpu }

wait_for_completion-ends_example :
    Ensures
      (λ b w. (b ≡ true) × IsTaken windows w)
      (λ _. Unit {0})
      (wait_for_completion windows 6 5 waiting)
wait_for_completion-ends_example =
    wait_for_completion-ends windows (λ w. w.ticks) windows-Clock 6 5 waiting (omega arith)
