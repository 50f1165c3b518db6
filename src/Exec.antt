-- ===== src/Exec.antt =====
-- Python calls: a call reads and changes the world `W` of its environment (Afterburner, the clock,
-- the files), and returns, raises a `PluginError` (kept as its code), or raises another exception.
-- What was written before a raise stays written, so the world comes back beside the error too.
pub mod Hoare
use afterburner_gassist_plug.Base.{
  ℕ, ◌≡◌, refl, ◌⊎◌, inl, inr, Bool, Option, none, some, arith, if◌then◌else◌,
}

-- `class ErrorCode` of models.py.
pub data ErrorCode : Type 0 where
  not_installed not_running unsupported_version unsupported_gpu interface_unavailable : ErrorCode
  access_denied invalid_value comm_failure stale_telemetry unsupported_feature : ErrorCode
  disconnected confirmation_required : ErrorCode

pub data Result {ℓ} (A : Type ℓ) : Type ℓ where
  ok : A → Result A
  err : ErrorCode → Result A
  crash : Result A

abbrev pub Exec : Type 0 → Type 0 → Type 0
Exec W A = W → Result A × W

module _ {W A : Type 0} where
  abbrev pub pure : A → Exec W A
  pure a w = (ok a, w)

  abbrev pub raise : ErrorCode → Exec W A
  raise e w = (err e, w)

  abbrev pub lift : Result A → Exec W A
  lift r w = (r, w)

  -- `try:` with the outcome as a value, for a handler by cases.
  abbrev pub attempt : Exec W A → Exec W (Result A)
  attempt m w = let (r, w') = m w in (ok r, w')

module _ {W A B : Type 0} where
  abbrev pub continue : Result A → (A → Exec W B) → Exec W B
  continue (ok a) f w = f a w
  continue (err e) f w = (err e, w)
  continue crash f w = (crash, w)

  infixl 5 ◌>>=◌ ◌>>◌
  abbrev pub ◌>>=◌ : Exec W A → (A → Exec W B) → Exec W B
  ◌>>=◌ m f w = let (r, w') = m w in continue r f w'

  abbrev pub ◌>>◌ : Exec W A → Exec W B → Exec W B
  m >> k = m >>= λ _. k

abbrev pub raise_if : {W : Type 0} → Bool → ErrorCode → Exec W (Unit {0})
raise_if b e w = (if b then err e else ok tt, w)

-- A value that must not be `None`.
abbrev pub or_raise : {W A : Type 0} → Option A → ErrorCode → Exec W A
or_raise none e = raise e
or_raise (some a) e = pure a

-- How a call ended.
pub Result-cases :
    {A : Type 0} (r : Result A)
    → ((a : A) × (r ≡ ok a)) ⊎ ((e : ErrorCode) × (r ≡ err e)) ⊎ (r ≡ crash)
Result-cases (ok a) = inl (a, refl)
Result-cases (err e) = inr (inl (e, refl))
Result-cases crash = inr (inr refl)
