-- ===== src/Control/Write/CopyBack.antt =====
-- The mapped region after `write_words` (afterburner/integration/macm.py).
use afterburner_gassist_plug.Base.{ℕ, ◌≡◌}
use afterburner_gassist_plug.Int.{ℤ}
use afterburner_gassist_plug.Float.{Float, Rounding}
use afterburner_gassist_plug.Models.{ControlFeature}
use afterburner_gassist_plug.Exec.Hoare.{Ensures, Ensures-weaken}
use afterburner_gassist_plug.Control.Words.{Region}
use afterburner_gassist_plug.Control.Write.{
  AppliedOutcome, apply_control_to_region, reset_control_region, write_words,
}
use afterburner_gassist_plug.Control.Write.Within.{IsWithin, write_words-restores}
use afterburner_gassist_plug.Control.Write.ApplyFrame.{apply_control_to_region-IsWithin}
use afterburner_gassist_plug.Control.Write.ResetFrame.{reset_control_region-IsWithin}

-- The copy of the listed words from the produced region onto the original one gives the produced one.
abbrev pub IsCopied : Region → AppliedOutcome → Region → Type 0
IsCopied r a r' =
    (r'.size ≡ r.size) × ((p : ℕ) → (write_words a.word_offsets r' r).byte p ≡ r'.byte p)

IsCopied-of-IsWithin :
    (r : Region) (a : AppliedOutcome) (r' : Region) → IsWithin a.word_offsets r r' → IsCopied r a r'
IsCopied-of-IsWithin r a r' h = (h.0, λ p. write_words-restores a.word_offsets r r' p h)

module _ (rnd : Rounding) where
  -- For every region, GPU, control, value and tolerance: where `apply_control_to_region` returns, the
  -- copy of just the words it lists from its region onto the original one gives, byte for byte, the
  -- region it produced, of the same size; where it raises, its region is unchanged.
  pub apply_control_to_region-write_words :
      (gpu : ℤ) (feature : ControlFeature) (value tolerance : Float) (r : Region)
      → Ensures
          (IsCopied r)
          (λ r'. r' ≡ r)
          (apply_control_to_region rnd gpu feature value tolerance r)
  apply_control_to_region-write_words gpu feature value tolerance r =
      Ensures-weaken (λ a. IsWithin a.word_offsets r) (IsCopied r) (λ r'. r' ≡ r)
        (apply_control_to_region rnd gpu feature value tolerance r) (IsCopied-of-IsWithin r)
        (apply_control_to_region-IsWithin rnd gpu feature value tolerance r)

  -- For every region, GPU and tolerance: where `reset_control_region` returns, the copy of just the
  -- words it lists from its region onto the original one gives, byte for byte, the region it
  -- produced; where it raises, its region is unchanged.
  pub reset_control_region-write_words :
      (gpu : ℤ) (tolerance : Float) (r : Region)
      → Ensures (IsCopied r) (λ r'. r' ≡ r) (reset_control_region rnd gpu tolerance r)
  reset_control_region-write_words gpu tolerance r =
      Ensures-weaken (λ a. IsWithin a.word_offsets r) (IsCopied r) (λ r'. r' ≡ r)
        (reset_control_region rnd gpu tolerance r) (IsCopied-of-IsWithin r)
        (reset_control_region-IsWithin rnd gpu tolerance r)
