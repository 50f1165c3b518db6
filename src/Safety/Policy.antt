-- ===== src/Safety/Policy.antt =====
-- `SafetyPolicy` (afterburner/safety/policy.py). The clock reading and the random token, which the
-- source takes from `time.monotonic` and `secrets.token_hex`, are arguments.
use afterburner_gassist_plug.Base.{
  ℕ, ◌+◌, ◌*◌, String, Bool, true, false, Option, none, some, List, [], ◌∷◌, ltb, if◌then◌else◌,
}
use afterburner_gassist_plug.Float.{Float}
use afterburner_gassist_plug.Exec.{Result, ok, err, ErrorCode}
use afterburner_gassist_plug.Dict.{Dict, string_eq, lookup, insert, erase, elem}

-- clock ticks in a second
abbrev pub second : ℕ
second = 1000000000

abbrev pub confirm_token_ttl : ℕ
confirm_token_ttl = 300 * second

abbrev pub high_risk_functions : List String
high_risk_functions =
    "set_power_limit" ∷ "set_core_offset" ∷ "set_memory_offset" ∷ "set_fan_percent"
    ∷ "set_fan_curve" ∷ "optimize_quiet" ∷ "optimize_thermal" ∷ []

abbrev pub low_risk_functions : List String
low_risk_functions =
    "get_gpu_status" ∷ "get_gpu_limits" ∷ "get_tuning_state" ∷ "get_profiles" ∷ "show_configuration"
    ∷ "get_tuning_ownership" ∷ "diagnose_performance" ∷ "load_profile" ∷ "reset_tuning"
    ∷ "set_profile_nickname" ∷ []

pub data RiskLevel : Type 0 where
  low high : RiskLevel

unfoldable pub risk_for : String → RiskLevel
risk_for function =
    if elem function high_risk_functions
    then RiskLevel.high
    else if elem function low_risk_functions
    then RiskLevel.low
    else RiskLevel.high

unfoldable pub requires_confirmation : String → Bool
unfolding risk_for
requires_confirmation function = elim (risk_for function) [
  | RiskLevel.high ↦ true
  | RiskLevel.low ↦ false
]

pub record ConfirmToken : Type 0 where
  pub token : String
  pub function : String
  pub safe_value : Float
  pub expires_at : ℕ

-- `_tokens`
abbrev pub Tokens : Type 0
Tokens = Dict String ConfirmToken

unfoldable pub issue_confirm_token : ℕ → String → String → Float → Tokens → ConfirmToken × Tokens
issue_confirm_token now fresh function safe_value tokens =
    let entry : ConfirmToken = record {
      token = fresh;
      function = function;
      safe_value = safe_value;
      expires_at = now + confirm_token_ttl;
    } in
    (entry, insert fresh entry tokens)

-- The tests of `validate_token` on what was popped.
abbrev pub check_entry : ℕ → Option ConfirmToken → Result ConfirmToken
check_entry now none = err ErrorCode.confirmation_required
check_entry now (some entry) =
    if ltb entry.expires_at now then err ErrorCode.confirmation_required else ok entry

-- The token is taken out of the dict whatever the tests say.
unfoldable pub validate_token : ℕ → String → Tokens → Result ConfirmToken × Tokens
validate_token now token tokens = (check_entry now (lookup token tokens), erase token tokens)
