-- ===== src/Protocol/Confirm/RoundTrip.antt =====
-- A prompt and its confirmation (afterburner/protocol/plugin.py): the change that was asked for runs.
use afterburner_gassist_plug.Base.{
  ℕ, ◌+◌, ◌≤◌, String, ◌≡◌, false, Option, some, [], ◌∷◌, arith, ltb,
}
use afterburner_gassist_plug.Int.{ℤ}
use afterburner_gassist_plug.Dict.{string_eq}
use afterburner_gassist_plug.Exec.{Exec}
use afterburner_gassist_plug.Value.{Value, Fields, str}
use afterburner_gassist_plug.Interface.{Host}
use afterburner_gassist_plug.Protocol.Verdict.{Verdict}
use afterburner_gassist_plug.Protocol.Args.{get, set_default}
use afterburner_gassist_plug.Protocol.Confirm.{
  Session, consume_token, run_found, verdict_of, issue, handle_input,
}
use afterburner_gassist_plug.Interface.{Interface}
use text.Mathlib.Text.{◌==◌}
use afterburner_gassist_plug.Float.{Float, Rounding}
use afterburner_gassist_plug.Safety.Policy.{confirm_token_ttl, issue_confirm_token, validate_token}
use afterburner_gassist_plug.Dict.{lookup-insert_self, erase}
use afterburner_gassist_plug.Protocol.Args.{without}
use afterburner_gassist_plug.Protocol.Confirm.{issue, passthrough_timeout, use_token}

module _ {W : Type 0} (host : Host W) (registry : String → Option (Fields → ℤ → Exec W String))
    (text_of : Value → String) where
  module _ (i : Interface W) (timeout : ℕ) (rnd : Rounding) (tolerance : Float)
      (fresh : W → String × W) where
    -- the session once the prompt is out
    abbrev pub prompted : String → Fields → ℤ → Float → Session W → Session W
    prompted function args gpu safe s =
        (issue host registry text_of i timeout rnd tolerance fresh function args gpu safe s).1

    -- What was put down for a prompt and is confirmed within 60 s of it, under a token that is not
    -- empty and 300 s old at most, runs: on the arguments of the prompt, with entry and token used up.
    pub handle_input-issue :
        (params : Fields) (function : String) (args : Fields) (gpu : ℤ) (safe : Float)
        (s : Session W)
        → get "function" params ≡ some (str function)
        → verdict_of host registry text_of params ≡ Verdict.affirmative
        → ((fresh s.world).0 == "") ≡ false
        → (host.clock (prompted function args gpu safe s).world).0
          ≤ (host.clock (host.clock (fresh s.world).1).1).0 + passthrough_timeout
        → (host.clock (host.clock (prompted function args gpu safe s).world).1).0
          ≤ (host.clock (fresh s.world).1).0 + confirm_token_ttl
        → handle_input host registry text_of params (prompted function args gpu safe s)
          ≡ run_found host registry
              (registry function)
              (set_default "__function" (str function) (without ("__function" ∷ []) args))
              (record (prompted function args gpu safe s) {
                world = (host.clock (host.clock (prompted function args gpu safe s).world).1).1;
                tokens = erase (fresh s.world).0 (prompted function args gpu safe s).tokens;
                pending = erase function (prompted function args gpu safe s).pending;
                keep_session = false;
              })
    unfolding handle_input consume_token use_token issue_confirm_token validate_token
    handle_input-issue params function args gpu safe s e v t in_time recent =
        let early : ltb ((host.clock (host.clock (fresh s.world).1).1).0 + passthrough_timeout)
              (host.clock (prompted function args gpu safe s).world).0
            ≡ false =
          ground arith in
        let valid : ltb ((host.clock (fresh s.world).1).0 + confirm_token_ttl)
              (host.clock (host.clock (prompted function args gpu safe s).world).1).0
            ≡ false =
          ground arith in
        rw
          (e, lookup-insert_self function, early, v, t, lookup-insert_self (fresh s.world).0, valid)
