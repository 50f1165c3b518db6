-- ===== src/Value.antt =====
-- Python values as they come off the wire: what `json.loads` builds.
use afterburner_gassist_plug.Base.{String, Bool}
use afterburner_gassist_plug.Int.{ℤ}
use afterburner_gassist_plug.Float.{Float}

mutual
  pub data Value : Type 0 where
    null : Value
    bool : Bool → Value
    int : ℤ → Value
    float : Float → Value
    str : String → Value
    arr : Items → Value
    dict : Fields → Value

  pub data Items : Type 0 where
    nil : Items
    cons : Value → Items → Items

  pub data Fields : Type 0 where
    end : Fields
    field : String → Value → Fields → Fields
