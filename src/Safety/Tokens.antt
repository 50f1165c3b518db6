-- ===== src/Safety/Tokens.antt =====
-- The life of a confirmation token: it is accepted once, in time, and never again.
use afterburner_gassist_plug.Base.{
  ℕ, ◌+◌, ◌≤◌, ◌≡◌, ◌↔◌, String, refl, Option, none, some, arith, ltb, if◌then◌else◌,
}
use afterburner_gassist_plug.Float.{Float}
use afterburner_gassist_plug.Exec.{ok, err, ErrorCode}
use afterburner_gassist_plug.Dict.{
  string_eq, lookup, lookup-insert_self, lookup-erase_self, lookup-erase,
}
use afterburner_gassist_plug.Safety.Policy.{
  check_entry, Tokens, ConfirmToken, issue_confirm_token, validate_token, confirm_token_ttl,
}

-- A token is good: it is known and has not expired at time `t`.
abbrev pub IsGood : ℕ → String → Tokens → Type 0
IsGood t token tokens =
    (entry : ConfirmToken) × (lookup token tokens ≡ some entry) × (t ≤ entry.expires_at)

-- A token is accepted exactly until 300 s after it was issued, the last tick included, if nothing
-- is done to the registry in between.
pub validate_token-issue :
    (t0 t : ℕ) (fresh function : String) (v : Float) (tokens : Tokens)
    → let (entry, issued) = issue_confirm_token t0 fresh function v tokens in
      (validate_token t fresh issued).0
      ≡ (if ltb (t0 + confirm_token_ttl) t then err ErrorCode.confirmation_required else ok entry)
unfolding issue_confirm_token validate_token
validate_token-issue t0 t fresh function v tokens =
    rw (lookup-insert_self fresh (issue_confirm_token t0 fresh function v tokens).0 tokens)

-- Whatever became of the first use of a token, its second use is refused.
pub validate_token_once :
    (t t' : ℕ) (token : String) (tokens : Tokens)
    → (validate_token t' token (validate_token t token tokens).1).0
      ≡ err ErrorCode.confirmation_required
unfolding validate_token
validate_token_once t t' token tokens = rw (lookup-erase_self token tokens)

-- Using one token leaves every other as it was.
pub lookup-validate_token :
    (t : ℕ) (token other : String) (tokens : Tokens)
    → lookup other (validate_token t token tokens).1
      ≡ (if string_eq.beq token other then none else lookup other tokens)
unfolding validate_token
lookup-validate_token t token other tokens = lookup-erase token other tokens

-- A token is accepted exactly if it is good, and then its own entry is handed over.
pub validate_token-eq-ok :
    (t : ℕ) (token : String) (tokens : Tokens)
    → ((entry : ConfirmToken) × ((validate_token t token tokens).0 ≡ ok entry))
      ↔ IsGood t token tokens
unfolding validate_token
validate_token-eq-ok t token tokens = (to (lookup token tokens) refl, from)
  where
    to :
        (o : Option ConfirmToken)
        → lookup token tokens ≡ o
        → (entry : ConfirmToken) × (check_entry t (lookup token tokens) ≡ ok entry)
        → IsGood t token tokens
    to none e (entry, h) = absurd (let k = rw e at h in cc)
    to (some found) e (entry, h) = let k = rw e at h in (found, e, ground arith)

    from :
        IsGood t token tokens
        → (entry : ConfirmToken) × (check_entry t (lookup token tokens) ≡ ok entry)
    from (entry, e, le) = (entry, rw e (ground arith))
