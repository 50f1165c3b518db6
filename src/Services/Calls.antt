-- ===== src/Services/Calls.antt =====
-- Sequences of calls of the interface and the clocks, with the controls that they write.
use afterburner_gassist_plug.Base.{ℕ, List, [], ◌∷◌, ◌++◌, ◌≡◌}
use afterburner_gassist_plug.Int.{ℤ}
use afterburner_gassist_plug.Float.{Float}
use afterburner_gassist_plug.Exec.{ok}
use afterburner_gassist_plug.Models.{ControlFeature, ControlResult}
use afterburner_gassist_plug.Interface.{Interface, Host}

module _ {W : Type 0} (i : Interface W) (host : Host W) (gpu : ℤ) where
  -- `Calls w xs w'`: calls that lead from `w` to `w'`, of which just `xs` write, each of them with success
  pub data Calls (w : W) : List (ControlFeature × Float) → W → Type 0 where
    nothing_called : Calls w [] w
    clock_read :
        (xs : List (ControlFeature × Float)) (w1 : W) → Calls w xs w1 → Calls w xs (host.clock w1).1
    slept :
        (n : ℕ) (xs : List (ControlFeature × Float)) (w1 : W)
        → Calls w xs w1
        → Calls w xs (host.sleep n w1)
    detected :
        (xs : List (ControlFeature × Float)) (w1 : W) → Calls w xs w1 → Calls w xs (i.detect w1).1
    capabilities_read :
        (xs : List (ControlFeature × Float)) (w1 : W)
        → Calls w xs w1
        → Calls w xs (i.read_capabilities gpu w1).1
    telemetry_read :
        (xs : List (ControlFeature × Float)) (w1 : W)
        → Calls w xs w1
        → Calls w xs (i.read_telemetry gpu w1).1
    control_written :
        (xs : List (ControlFeature × Float)) (f : ControlFeature) (v : Float) (r : ControlResult)
        (w1 w2 : W)
        → Calls w xs w1
        → i.apply_control gpu f v w1 ≡ (ok r, w2)
        → Calls w (xs ++ (f, v) ∷ []) w2
