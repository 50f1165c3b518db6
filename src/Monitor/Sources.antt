-- ===== src/Monitor/Sources.antt =====
-- Where the numbers of a reading come from (afterburner/integration/mahm.py).
use afterburner_gassist_plug.Base.{ℕ, ◌≡◌, refl, true, Option, none, some, List, [], ◌∷◌, arith}
use afterburner_gassist_plug.Float.{Float, is_finite, float_abs, float_lt}
use afterburner_gassist_plug.Dict.{elem, nat_eq}
use afterburner_gassist_plug.Monitor.Parse.{MahmEntry}
use afterburner_gassist_plug.Monitor.Sample.{unavailable_threshold, available, find_source, sensor}

-- A number that is shown: finite and below the mark for "not available".
abbrev pub IsShown : Float → Type 0
IsShown x = (is_finite x ≡ true) × (float_lt (float_abs x) unavailable_threshold ≡ true)

-- `x` is nothing, or the shown value of the first entry of one of the sources.
abbrev pub IsSampled : List ℕ → List MahmEntry → Option Float → Type 0
IsSampled ids entries none = Unit
IsSampled ids entries (some x) =
    (id : ℕ) × (e : MahmEntry) × (elem id ids ≡ true)
    × (find_source id entries ≡ some e)
    × (e.value ≡ x)
    × IsShown x

available-IsShown : (v x : Float) → available v ≡ some x → (v ≡ x) × IsShown x
unfolding available
available-IsShown v x h = (ground arith, (ground arith, ground arith))

-- a source more
IsSampled-cons :
    (n : ℕ) (ids : List ℕ) (entries : List MahmEntry) (o : Option Float)
    → IsSampled ids entries o
    → IsSampled (n ∷ ids) entries o
IsSampled-cons n ids entries none h = tt
IsSampled-cons n ids entries (some x) (id, e, m, f, v, s) = (id, e, ground (arith, m), f, v, s)

available-IsSampled :
    (n : ℕ) (ids : List ℕ) (entries : List MahmEntry) (e : MahmEntry)
    → find_source n entries ≡ some e
    → IsSampled (n ∷ ids) entries (available e.value)
available-IsSampled n ids entries e f = sampled (available e.value) refl
  where
    sampled : (o : Option Float) → available e.value ≡ o → IsSampled (n ∷ ids) entries o
    sampled none h = tt
    sampled (some x) h = let (v, s) = available-IsShown e.value x h in (n, e, ground arith, f, v, s)

-- For every list of sources and every list of entries: what `sensor` gives is nothing, or the value of
-- an entry of one of these sources, finite and below the mark for a value that is not available.
pub sensor-IsSampled :
    (ids : List ℕ) (entries : List MahmEntry) → IsSampled ids entries (sensor ids entries)
unfolding sensor
sensor-IsSampled [] entries = tt
sensor-IsSampled (id ∷ ids) entries =
    found (find_source id entries) refl
      (IsSampled-cons id ids entries _ (sensor-IsSampled ids entries))
  where
    found :
        (o : Option MahmEntry)
        → find_source id entries ≡ o
        → IsSampled (id ∷ ids) entries (sensor ids entries)
        → IsSampled
            (id ∷ ids)
            entries
            (elim o [ none ↦ sensor ids entries | some e ↦ available e.value ])
    found none e h = h
    found (some x) e h = available-IsSampled id ids entries x e
