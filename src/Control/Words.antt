-- ===== src/Control/Words.antt =====
-- A shared region: its size and its bytes, and the little-endian 32-bit words that ctypes reads and
-- writes in it. A store into a 32-bit field keeps the low 32 bits.
use afterburner_gassist_plug.Base.{
  ℕ, ◌+◌, ◌-◌, ◌*◌, ◌/◌, ◌%◌, ◌^◌, ◌≤◌, ◌<◌, ◌≡◌, ◌⊎◌, Bool, arith, ltb, leb, ◌&&◌, ◌==◌,
  if◌then◌else◌,
}
use afterburner_gassist_plug.Int.{ℤ, pos, negsuc}

pub record Region : Type 0 where
  pub size : ℕ
  pub byte : ℕ → ℕ

abbrev pub IsBytes : Region → Type 0
IsBytes r = (o : ℕ) → r.byte o < 256

unfoldable pub u32 : Region → ℕ → ℕ
u32 r o = r.byte o + 256 * r.byte (o + 1) + 65536 * r.byte (o + 2) + 16777216 * r.byte (o + 3)

-- byte `k` of a word
abbrev pub digit : ℕ → ℕ → ℕ
digit v k =
    if k == 0
    then v % 256
    else if k == 1
    then v / 256 % 256
    else if k == 2
    then v / 65536 % 256
    else v / 16777216 % 256

abbrev pub inside : ℕ → ℕ → Bool
inside o p = leb o p && ltb p (o + 4)

unfoldable pub put32 : ℕ → ℕ → Region → Region
put32 o v r = record r { byte = λ p. if inside o p then digit v (p - o) else r.byte p }

-- the number that the bits of a `c_int32` stand for
unfoldable pub i32 : ℕ → ℤ
i32 v = if ltb v (2 ^ 31) then pos v else negsuc (2 ^ 32 - v - 1)

-- the bits that a store of an integer into a 32-bit field leaves
unfoldable pub bits : ℤ → ℕ
bits (pos n) = n % 2 ^ 32
bits (negsuc n) = 2 ^ 32 - 1 - n % 2 ^ 32

pub u32-put32 : (r : Region) (o v : ℕ) → u32 (put32 o v r) o ≡ v % 2 ^ 32
unfolding u32 put32
u32-put32 r o v = ground arith

pub u32-put32_other :
    (r : Region) (o o' v : ℕ) → o + 4 ≤ o' ⊎ o' + 4 ≤ o → u32 (put32 o v r) o' ≡ u32 r o'
unfolding u32 put32
u32-put32_other r o o' v h = ground arith

pub byte-put32 : (r : Region) (o v p : ℕ) → p < o ⊎ o + 4 ≤ p → (put32 o v r).byte p ≡ r.byte p
unfolding put32
byte-put32 r o v p h = ground arith

pub u32-lt : (r : Region) (o : ℕ) → IsBytes r → u32 r o < 2 ^ 32
unfolding u32
u32-lt r o h = omega (arith, h o, h (o + 1), h (o + 2), h (o + 3))

pub put32-IsBytes : (r : Region) (o v : ℕ) → IsBytes r → IsBytes (put32 o v r)
unfolding put32
put32-IsBytes r o v h p = ground (arith, h p)

-- A field that is read as a signed number and stored back keeps its bits.
pub bits-i32 : (v : ℕ) → v < 2 ^ 32 → bits (i32 v) ≡ v
unfolding bits i32
bits-i32 v h = ground arith

pub bits-lt : (z : ℤ) → bits z < 2 ^ 32
unfolding bits
bits-lt (pos n) = omega arith
bits-lt (negsuc n) = omega arith
