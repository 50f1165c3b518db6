-- ===== src/Exec/Hoare.antt =====
-- Rules for what a call ensures, one for each way to build a call.
use afterburner_gassist_plug.Base.{
  ◌≡◌, refl, subst, Bool, true, false, Option, none, some, if◌then◌else◌,
}
use afterburner_gassist_plug.Exec.{
  Result, ok, err, crash, Exec, ErrorCode, continue, attempt, lift, or_raise, raise_if, ◌>>=◌, ◌>>◌,
}

-- `P` of the value and the world after a return, `E` of the world after a raise.
abbrev pub Ensures : {W A : Type 0} → (A → W → Type 0) → (W → Type 0) → Result A × W → Type 0
Ensures P E (ok a, w) = P a w
Ensures P E (err _, w) = E w
Ensures P E (crash, w) = E w

module _ {W A : Type 0} where
  pub Ensures-of-ok :
      (P : A → W → Type 0) (E : W → Type 0) (o : Result A × W) {a : A}
      → Ensures P E o
      → o.0 ≡ ok a
      → P a o.1
  Ensures-of-ok P E (ok b, w) {a} h e = let p : b ≡ a = cc in subst (λ c. P c w) p h
  Ensures-of-ok P E (err c, w) h e = absurd (cc)
  Ensures-of-ok P E (crash, w) h e = absurd (cc)

  pub Ensures-if :
      (P : A → W → Type 0) (E : W → Type 0) (b : Bool) (m n : Result A × W)
      → (b ≡ true → Ensures P E m)
      → (b ≡ false → Ensures P E n)
      → Ensures P E (if b then m else n)
  Ensures-if P E true m n h k = h refl
  Ensures-if P E false m n h k = k refl

  -- the same where the branches are calls
  pub Ensures-branch :
      (P : A → W → Type 0) (E : W → Type 0) (b : Bool) (m n : Exec W A) (w : W)
      → (b ≡ true → Ensures P E (m w))
      → (b ≡ false → Ensures P E (n w))
      → Ensures P E ((if b then m else n) w)
  Ensures-branch P E true m n w h k = h refl
  Ensures-branch P E false m n w h k = k refl

  pub Ensures-attempt :
      (P : Result A → W → Type 0) (E : W → Type 0) (m : Exec W A) (w : W)
      → P (m w).0 (m w).1
      → Ensures P E (attempt m w)
  Ensures-attempt P E m w h = h

module _ {W A B : Type 0} where
  continue-Ensures :
      (Q : A → W → Type 0) (P : B → W → Type 0) (E : W → Type 0) (f : A → Exec W B) (r : Result A)
      (w : W)
      → ((a : A) (w' : W) → Q a w' → Ensures P E (f a w'))
      → Ensures Q E (r, w)
      → Ensures P E (continue r f w)
  continue-Ensures Q P E f (ok a) w k h = k a w h
  continue-Ensures Q P E f (err e) w k h = h
  continue-Ensures Q P E f crash w k h = h

  pub Ensures-bind :
      (Q : A → W → Type 0) (P : B → W → Type 0) (E : W → Type 0) (m : Exec W A) (f : A → Exec W B)
      (w : W)
      → Ensures Q E (m w)
      → ((a : A) (w' : W) → Q a w' → Ensures P E (f a w'))
      → Ensures P E ((m >>= f) w)
  Ensures-bind Q P E m f w h k = continue-Ensures Q P E f (m w).0 (m w).1 k h

-- Where nothing is asked of the outcome.
pub any_Ensures : {W A : Type 0} (o : Result A × W) → Ensures (λ _ _. Unit {0}) (λ _. Unit) o
any_Ensures (ok a, w) = tt
any_Ensures (err e, w) = tt
any_Ensures (crash, w) = tt

module _ {W A B : Type 0} where
  continue-eq-ok :
      (f : A → Exec W B) (r : Result A) (w : W) {b : B} {w' : W}
      → continue r f w ≡ (ok b, w')
      → (a : A) × (r ≡ ok a) × (f a w ≡ (ok b, w'))
  continue-eq-ok f (ok a) w h = (a, refl, h)
  continue-eq-ok f (err e) w h = absurd (cc)
  continue-eq-ok f crash w h = absurd (cc)

  -- Inversion of a chain that returned.
  pub >>=-eq-ok :
      (m : Exec W A) (f : A → Exec W B) (w : W) {b : B} {w' : W}
      → (m >>= f) w ≡ (ok b, w')
      → (a : A) × (w1 : W) × (m w ≡ (ok a, w1)) × (f a w1 ≡ (ok b, w'))
  >>=-eq-ok m f w h =
      let (a, e, k) = continue-eq-ok f (m w).0 (m w).1 h in (a, (m w).1, λ i. (e i, (m w).1), k)

module _ {W : Type 0} (P : W → Type 0) where
  -- `P` holds after the call however it ends.
  abbrev pub Keeps : {A : Type 0} → Result A × W → Type 0
  Keeps {A} o = Ensures {W = W} {A = A} (λ _. P) P o

  pub Keeps-of-world : {A : Type 0} (o : Result A × W) → P o.1 → Keeps o
  Keeps-of-world (ok a, w) h = h
  Keeps-of-world (err e, w) h = h
  Keeps-of-world (crash, w) h = h

  pub world-of-Keeps : {A : Type 0} (o : Result A × W) → Keeps o → P o.1
  world-of-Keeps (ok a, w) h = h
  world-of-Keeps (err e, w) h = h
  world-of-Keeps (crash, w) h = h

  pub Keeps-bind :
      {A B : Type 0} (m : Exec W A) (f : A → Exec W B) (w : W)
      → Keeps (m w)
      → ((a : A) (w' : W) → P w' → Keeps (f a w'))
      → Keeps ((m >>= f) w)
  Keeps-bind m f w h k = Ensures-bind (λ _. P) (λ _. P) P m f w h k

  -- a call whose outcome is taken as a value
  pub Keeps-attempt : {A : Type 0} (m : Exec W A) (w : W) → Keeps (m w) → Keeps (attempt m w)
  Keeps-attempt m w h = world-of-Keeps (m w) h

-- The value and the world of a call together.
pub Ensures-weaken :
    {W A : Type 0} (P Q : A → W → Type 0) (E : W → Type 0) (o : Result A × W)
    → ((a : A) (w : W) → P a w → Q a w)
    → Ensures P E o
    → Ensures Q E o
Ensures-weaken P Q E (ok a, w) k h = k a w h
Ensures-weaken P Q E (err e, w) k h = h
Ensures-weaken P Q E (crash, w) k h = h

-- Steps that change nothing, before the rest of a call.
module _ {W : Type 0} where
  pub Ensures-lift :
      {A B : Type 0} (P : B → W → Type 0) (E : W → Type 0) (r : Result A) (f : A → Exec W B) (w : W)
      → E w
      → ((a : A) → r ≡ ok a → Ensures P E (f a w))
      → Ensures P E ((lift r >>= f) w)
  Ensures-lift P E (ok a) f w h k = k a refl
  Ensures-lift P E (err e) f w h k = h
  Ensures-lift P E crash f w h k = h

  pub Ensures-or_raise :
      {A B : Type 0} (P : B → W → Type 0) (E : W → Type 0) (o : Option A) (e : ErrorCode)
      (f : A → Exec W B) (w : W)
      → E w
      → ((a : A) → o ≡ some a → Ensures P E (f a w))
      → Ensures P E ((or_raise o e >>= f) w)
  Ensures-or_raise P E none e f w h k = h
  Ensures-or_raise P E (some a) e f w h k = k a refl

  pub Ensures-raise_if :
      {B : Type 0} (P : B → W → Type 0) (E : W → Type 0) (b : Bool) (e : ErrorCode) (m : Exec W B)
      (w : W)
      → E w
      → (b ≡ false → Ensures P E (m w))
      → Ensures P E ((raise_if b e >> m) w)
  Ensures-raise_if P E true e m w h k = h
  Ensures-raise_if P E false e m w h k = k refl

-- The call returns, with `P` of its value and world.
abbrev pub Returns : {W A : Type 0} → (A → W → Type 0) → Result A × W → Type 0
Returns P o = Ensures P (λ _. ⊥) o

-- What a call returned, as an equation.
pub Ensures-eq :
    {W A : Type 0} (o : Result A × W) → Ensures (λ a w. o ≡ (ok a, w)) (λ _. Unit {0}) o
Ensures-eq (ok a, w) = refl
Ensures-eq (err e, w) = tt
Ensures-eq (crash, w) = tt
