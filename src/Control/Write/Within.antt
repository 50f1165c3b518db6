-- ===== src/Control/Write/Within.antt =====
-- Changes that stay within listed words, and the copy of these words (`write_words` of
-- afterburner/integration/macm.py).
use afterburner_gassist_plug.Base.{
  ℕ, ◌+◌, ◌≡◌, refl, sym, ◌∙◌, Bool, true, false, List, [], ◌∷◌, ◌++◌, arith, ◌||◌, if◌then◌else◌,
}
use afterburner_gassist_plug.Int.{ℤ}
use afterburner_gassist_plug.Control.Layout.{Field, offset, ControlSpec, command_at}
use afterburner_gassist_plug.Control.Header.{set_field}
use afterburner_gassist_plug.Control.Words.{Region, put32, inside}
use afterburner_gassist_plug.Control.Write.{clear_fan_auto, flush, copy32, write_words}

-- whether a byte lies in one of the words
abbrev pub touched : List ℕ → ℕ → Bool
touched [] p = false
touched (o ∷ os) p = inside o p || touched os p

-- the second region differs from the first in the listed words at most
abbrev pub IsWithin : List ℕ → Region → Region → Type 0
IsWithin os r r' = (r'.size ≡ r.size) × ((p : ℕ) → touched os p ≡ false → r'.byte p ≡ r.byte p)

-- Every byte of a listed word comes from the source, every other one stays.
pub write_words-byte :
    (os : List ℕ) (src r : Region) (p : ℕ)
    → (write_words os src r).byte p ≡ (if touched os p then src.byte p else r.byte p)
unfolding write_words copy32
write_words-byte [] src r p = refl
write_words-byte (o ∷ os) src r p =
    let ih = write_words-byte os src (copy32 o src r) p in ground arith

pub size-write_words : (os : List ℕ) (src r : Region) → (write_words os src r).size ≡ r.size
unfolding write_words copy32
size-write_words [] src r = refl
size-write_words (o ∷ os) src r = size-write_words os src (copy32 o src r)

-- A change within some words is made good by the copy of these words.
pub write_words-restores :
    (os : List ℕ) (r r' : Region) (p : ℕ)
    → IsWithin os r r'
    → (write_words os r' r).byte p ≡ r'.byte p
write_words-restores os r r' p (_, f) = write_words-byte os r' r p ∙ choice (touched os p) (f p)
  where
    choice : (b : Bool) {x y : ℕ} → (b ≡ false → x ≡ y) → (if b then x else y) ≡ x
    choice true h = refl
    choice false h = sym (h refl)

pub IsWithin-put32 : (o v : ℕ) (r : Region) → IsWithin (o ∷ []) r (put32 o v r)
unfolding put32
IsWithin-put32 o v r = (refl, λ p h. ground arith)

pub touched-++ : (os os' : List ℕ) (p : ℕ) → touched (os ++ os') p ≡ (touched os p || touched os' p)
touched-++ [] os' p = refl
touched-++ (o ∷ os) os' p = let ih = touched-++ os os' p in ground arith

pub IsWithin-trans :
    (os os' : List ℕ) (r r' r'' : Region)
    → IsWithin os r r'
    → IsWithin os' r' r''
    → IsWithin (os ++ os') r r''
IsWithin-trans os os' r r' r'' (a, f) (b, g) =
    (b ∙ a, λ p h. let e = touched-++ os os' p in g p (ground arith) ∙ f p (ground arith))

or_swap : (a b c : Bool) → (a || b || c) ≡ (a || c || b)
or_swap a b c = ground arith

pub touched-++_swap :
    (os os' os'' : List ℕ) (p : ℕ)
    → touched ((os ++ os') ++ os'') p ≡ touched ((os ++ os'') ++ os') p
touched-++_swap os os' os'' p =
    rw
      (
        touched-++ (os ++ os') os'' p,
        touched-++ os os' p,
        touched-++ (os ++ os'') os' p,
        touched-++ os os'' p,
      )
      (or_swap (touched os p) (touched os' p) (touched os'' p))

or_idem :
    (b : Bool) (fan : List ℕ) (a : Bool) (p : ℕ)
    → (a || touched (if b then fan else []) p || touched fan p) ≡ (a || touched fan p)
or_idem true fan a p = ground arith
or_idem false fan a p = ground arith

pub touched-++_idem :
    (os fan : List ℕ) (b : Bool) (p : ℕ)
    → touched ((os ++ (if b then fan else [])) ++ fan) p ≡ touched (os ++ fan) p
touched-++_idem os fan b p =
    rw
      (
        touched-++ (os ++ (if b then fan else [])) fan p,
        touched-++ os (if b then fan else []) p,
        touched-++ os fan p,
      )
      (or_idem b fan (touched os p) p)

pub IsWithin-weaken :
    (os os' : List ℕ) (r r' : Region)
    → ((p : ℕ) → touched os' p ≡ false → touched os p ≡ false)
    → IsWithin os r r'
    → IsWithin os' r r'
IsWithin-weaken os os' r r' k (a, f) = (a, λ p h. f p (k p h))

pub set_field-IsWithin :
    (base : ℕ) (f : Field) (z : ℤ) (r : Region)
    → IsWithin ((base + offset f) ∷ []) r (set_field base f z r)
unfolding set_field
set_field-IsWithin base f z r = IsWithin-put32 _ _ r

pub flush-IsWithin : (r : Region) → IsWithin (command_at ∷ []) r (flush r)
unfolding flush
flush-IsWithin r = IsWithin-put32 _ _ r

pub clear_fan_auto-IsWithin :
    (r : Region) (base : ℕ)
    → IsWithin ((base + offset Field.fan_flags_cur) ∷ []) r (clear_fan_auto r base)
unfolding clear_fan_auto
clear_fan_auto-IsWithin r base = IsWithin-put32 _ _ r

-- the words of one control's field, and of the fan's flags
abbrev pub value_words : ℕ → ControlSpec → List ℕ
value_words base s = (base + offset s.cur) ∷ []

abbrev pub fan_words : ℕ → List ℕ
fan_words base = (base + offset Field.fan_flags_cur) ∷ []

abbrev pub command_words : List ℕ
command_words = command_at ∷ []
