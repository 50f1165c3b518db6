-- ===== src/Protocol/Confirm/Frame.antt =====
-- What the steps around an executor leave as it was (afterburner/protocol/plugin.py).
use text.Mathlib.Text.{◌==◌}
use afterburner_gassist_plug.Base.{ℕ, String, ◌≡◌, Option, none, some, arith}
use afterburner_gassist_plug.Int.{ℤ}
use afterburner_gassist_plug.Float.{Float, Rounding}
use afterburner_gassist_plug.Dict.{string_eq, lookup, lookup-erase_self}
use afterburner_gassist_plug.Exec.{Exec, Result, ok, lift}
use afterburner_gassist_plug.Exec.Hoare.{
  Keeps, Keeps-bind, Keeps-of-world, world-of-Keeps, Ensures-if, Ensures-branch, Ensures-bind,
}
use afterburner_gassist_plug.Value.{Fields}
use afterburner_gassist_plug.Models.{ControlFeature, FanCurve}
use afterburner_gassist_plug.Interface.{Interface, Host}
use afterburner_gassist_plug.Integration.Client
use afterburner_gassist_plug.Safety.Capabilities.{resolve}
use afterburner_gassist_plug.Safety.Validator.{validate_and_clamp, validate_fan_curve}
use afterburner_gassist_plug.Safety.Frame.{ReadFrame, resolve-Resolved}
use afterburner_gassist_plug.Safety.Policy.{ConfirmToken, validate_token, check_entry}
use afterburner_gassist_plug.Protocol.Args.{require_number, get}
use afterburner_gassist_plug.Protocol.Prompt.{
  is_readable, applied_value, noop_of, decision_time_noop, curve_of, validate_curve,
  prompt_value_of, safe_prompt_value, clause_of, single_value_feature,
}
use afterburner_gassist_plug.Protocol.Confirm.{
  Session, Pending, clock_if_found, use_token, consume_token, run_executor, run_found,
}

module _ {W : Type 0} (i : Interface W) (host : Host W) (timeout : ℕ) where
  -- `P` outlives whatever is read before a prompt; nothing is asked of the writes.
  pub record PromptFrame (P : W → Type 0) : Type 0 where
    pub reads : (gpu : ℤ) → ReadFrame i host timeout P (λ _. Unit {0}) gpu
    pub on_tuning : (gpu : ℤ) (w : W) → P w → P (i.read_tuning_state gpu w).1

  module _ {P : W → Type 0} (frame : PromptFrame P) (rnd : Rounding) (tolerance : Float) where
    lift-Keeps : {A : Type 0} (r : Result A) (w : W) → P w → Keeps P (lift r w)
    lift-Keeps r w h = Keeps-of-world P (lift r w) h

    validate-Keeps :
        (gpu : ℤ) (f : ControlFeature) (v : Float) (w : W)
        → P w
        → Keeps P (validate_and_clamp i host timeout gpu f v w)
    unfolding validate_and_clamp
    validate-Keeps gpu f v w h =
        Ensures-bind (λ _ w'. P w' × Unit {0}) (λ _. P) P (resolve i host timeout gpu) _ w
          (resolve-Resolved i host timeout (frame.reads gpu) w h)
          (λ res w' k. Keeps-of-world P _ k.0)

    curve-Keeps :
        (gpu : ℤ) (c : FanCurve) (w : W) → P w → Keeps P (validate_fan_curve i host timeout gpu c w)
    unfolding validate_fan_curve
    curve-Keeps gpu c w h =
        Ensures-bind (λ _ w'. P w' × Unit {0}) (λ _. P) P (resolve i host timeout gpu) _ w
          (resolve-Resolved i host timeout (frame.reads gpu) w h)
          (λ res w' k. Keeps-of-world P _ k.0)

    applied_value-Keeps :
        (gpu : ℤ) (f : ControlFeature) (w : W)
        → P w
        → Keeps P (applied_value i host timeout rnd tolerance gpu f w)
    unfolding applied_value Client.read_tuning_state
    applied_value-Keeps gpu f w h =
        Ensures-branch (λ _. P) P (is_readable f) _ _ w
          (λ _. Keeps-of-world P _ (frame.on_tuning gpu w h)) (λ _. h)

    noop_of-Keeps :
        (o : Option (ControlFeature × String)) (args : Fields) (gpu : ℤ) (w : W)
        → P w
        → Keeps P (noop_of i host timeout rnd tolerance o args gpu w)
    noop_of-Keeps none args gpu w h = h
    noop_of-Keeps (some (f, key)) args gpu w h =
        Keeps-bind P (lift (require_number rnd args key)) _ w (lift-Keeps _ w h) (λ requested w1 h1.
          Keeps-bind P (validate_and_clamp i host timeout gpu f requested) _ w1
            (validate-Keeps gpu f requested w1 h1)
            (λ safe w2 h2.
              Keeps-bind P (applied_value i host timeout rnd tolerance gpu f) _ w2
                (applied_value-Keeps gpu f w2 h2) (λ current w3 h3. h3)))

    pub decision_time_noop-Keeps :
        (function : String) (args : Fields) (gpu : ℤ) (w : W)
        → P w
        → Keeps P (decision_time_noop i host timeout rnd tolerance function args gpu w)
    unfolding decision_time_noop
    decision_time_noop-Keeps function args gpu w h =
        noop_of-Keeps (single_value_feature function) args gpu w h

    validate_curve-Keeps :
        (args : Fields) (gpu : ℤ) (w : W)
        → P w
        → Keeps P (validate_curve i host timeout rnd tolerance args gpu w)
    unfolding validate_curve
    validate_curve-Keeps args gpu w h =
        Keeps-bind P (lift (curve_of i host timeout rnd tolerance (get "points" args))) _ w
          (lift-Keeps _ w h) (λ c w1 h1. curve-Keeps gpu c w1 h1)

    prompt_value_of-Keeps :
        (o : Option (ControlFeature × String)) (function : String) (args : Fields) (gpu : ℤ) (w : W)
        → P w
        → Keeps P (prompt_value_of i host timeout rnd tolerance o function args gpu w)
    prompt_value_of-Keeps (some (f, key)) function args gpu w h =
        Keeps-bind P (lift (require_number rnd args key)) _ w (lift-Keeps _ w h) (λ requested w1 h1.
          Keeps-bind P (validate_and_clamp i host timeout gpu f requested) _ w1
            (validate-Keeps gpu f requested w1 h1) (λ safe w2 h2. h2))
    prompt_value_of-Keeps none function args gpu w h =
        Ensures-branch (λ _. P) P (function == "set_fan_curve") _ _ w
          (λ _.
            Keeps-bind P (validate_curve i host timeout rnd tolerance args gpu) _ w
              (validate_curve-Keeps args gpu w h) (λ _ w1 h1. h1))
          (λ _.
            Ensures-branch (λ _. P) P (function == "optimize_thermal") _ _ w
              (λ _.
                Keeps-bind P (lift (require_number rnd args "target_c")) _ w (lift-Keeps _ w h)
                  (λ _ w1 h1. h1))
              (λ _. h))

    pub safe_prompt_value-Keeps :
        (function : String) (args : Fields) (gpu : ℤ) (w : W)
        → P w
        → Keeps P (safe_prompt_value i host timeout rnd tolerance function args gpu w)
    unfolding safe_prompt_value
    safe_prompt_value-Keeps function args gpu w h =
        prompt_value_of-Keeps (single_value_feature function) function args gpu w h

    pub clause_of-Keeps :
        (o : Option (ControlFeature × String)) (gpu : ℤ) (w : W)
        → P w
        → Keeps P (clause_of i host timeout rnd tolerance o gpu w)
    clause_of-Keeps none gpu w h = applied_value-Keeps gpu ControlFeature.fan_percent w h
    clause_of-Keeps (some (f, key)) gpu w h = applied_value-Keeps gpu f w h

module _ {W : Type 0} (host : Host W)
    (registry : String → Option (Fields → ℤ → Exec W String)) where
  -- what the session's own steps keep: a property of the world that the clock keeps
  pub use_token-Keeps :
      (P : W → Type 0) (tick : (w : W) → P w → P (host.clock w).1) (token : String) (s : Session W)
      → P s.world
      → Keeps (λ t. P t.world) (use_token host registry token s)
  unfolding use_token
  use_token-Keeps P tick token s h =
      Keeps-of-world (λ t. P t.world) _ (clocked (lookup token s.tokens))
    where
      clocked : (o : Option ConfirmToken) → P (clock_if_found host registry o s.world).1
      clocked none = h
      clocked (some e) = tick s.world h

  pub consume_token-Keeps :
      (P : W → Type 0) (tick : (w : W) → P w → P (host.clock w).1) (p : Pending) (s : Session W)
      → P s.world
      → Keeps (λ t. P t.world) (consume_token host registry p s)
  unfolding consume_token
  consume_token-Keeps P tick p s h =
      Ensures-if (λ _ t. P t.world) (λ t. P t.world) (p.token == "") _ _ (λ _. h)
        (λ _.
          Keeps-of-world (λ t. P t.world) _
            (world-of-Keeps (λ t. P t.world) (use_token host registry p.token s)
              (use_token-Keeps P tick p.token s h)))

  check_entry-found :
      (now : ℕ) (o : Option ConfirmToken) (entry : ConfirmToken)
      → check_entry now o ≡ ok entry
      → o ≡ some entry
  check_entry-found now none entry h = absurd (cc)
  check_entry-found now (some e) entry h = ground arith

  -- A token that is accepted was in the registry, and is no longer.
  pub use_token-found :
      (token : String) (s : Session W) (entry : ConfirmToken)
      → (use_token host registry token s).0 ≡ ok entry
      → (lookup token s.tokens ≡ some entry)
        × (lookup token (use_token host registry token s).1.tokens ≡ none)
  unfolding use_token validate_token
  use_token-found token s entry h =
      (check_entry-found _ (lookup token s.tokens) entry h, lookup-erase_self token s.tokens)

  pub consume_token-found :
      (p : Pending) (s : Session W) (entry : ConfirmToken)
      → (consume_token host registry p s).0 ≡ ok (some entry)
      → (lookup p.token s.tokens ≡ some entry)
        × (lookup p.token (consume_token host registry p s).1.tokens ≡ none)
  unfolding consume_token
  consume_token-found p s entry h = let f = use_token-found p.token s entry in ground arith

  pub consume_token-pending :
      (p : Pending) (s : Session W) → (consume_token host registry p s).1.pending ≡ s.pending
  unfolding consume_token use_token
  consume_token-pending p s = ground arith

  pub run_found-pending :
      (o : Option (Fields → ℤ → Exec W String)) (args : Fields) (s : Session W)
      → (run_found host registry o args s).1.pending ≡ s.pending
  unfolding run_executor
  run_found-pending o args s = ground arith
