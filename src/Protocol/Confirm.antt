-- ===== src/Protocol/Confirm.antt =====
-- The confirmation of risky changes in `GAssistPlugin` (afterburner/protocol/plugin.py), from the
-- dispatch of a request to the executor. The executors, which the source looks up by name, are a
-- parameter, and so are `secrets.token_hex` and Python's `str` of a value that is no text. A message is
-- kept as its kind; its wording, the request's id and the stream of prompts are left out.
pub mod Frame
pub mod Gate
pub mod Runs
pub mod Once
pub mod RoundTrip
pub mod Risky
use text.Mathlib.Text.{◌==◌}
use afterburner_gassist_plug.Base.{
  ℕ, ◌+◌, ◌*◌, String, Bool, true, false, not, ◌&&◌, ◌||◌, Option, none, some, List, [], ◌∷◌, map,
  ltb, if◌then◌else◌,
}
use afterburner_gassist_plug.Int.{ℤ, pos}
use afterburner_gassist_plug.Float.{Float, whole, float_le, float_sub, float_abs, Rounding}
use afterburner_gassist_plug.Dict.{Dict, string_eq, lookup, insert, erase}
use afterburner_gassist_plug.Exec.{
  Exec, Result, ok, err, crash, ErrorCode, pure, raise, lift, attempt, ◌>>=◌, ◌>>◌,
}
use afterburner_gassist_plug.Value.{
  Value, null, bool, int, float, str, arr, dict, Items, nil, cons, Fields, end, field,
}
use afterburner_gassist_plug.Models.{ControlFeature, TuningState, FanCurve, FanCurvePoint}
use afterburner_gassist_plug.Interface.{Interface, Host}
use afterburner_gassist_plug.Integration.Client
use afterburner_gassist_plug.Safety.Validator.{validate_and_clamp, validate_fan_curve}
use afterburner_gassist_plug.Safety.Policy.{
  second, ConfirmToken, Tokens, requires_confirmation, issue_confirm_token, validate_token,
}
use afterburner_gassist_plug.Protocol.Verdict.{Verdict, verdict}
use afterburner_gassist_plug.Protocol.Args.{
  get, put, without, set_default, truthy, extract_args, gpu_of, to_float, require_number,
}
use afterburner_gassist_plug.Protocol.Prompt.{
  single_value_feature, decision_time_noop, safe_prompt_value, clause_of,
}

-- `PASSTHROUGH_TIMEOUT_SECONDS`
abbrev pub passthrough_timeout : ℕ
passthrough_timeout = 60 * second

-- an entry of `_pending_input`
pub record Pending : Type 0 where
  pub args : Fields
  pub expires_at : ℕ
  pub gpu : ℤ
  pub token : String

-- `_tokens` of the policy, `_pending_input` and `keep_session` of the plugin, and the world of the
-- services.
pub record Session (W : Type 0) : Type 0 where
  pub world : W
  pub tokens : Tokens
  pub pending : Dict String Pending
  pub keep_session : Bool

pub data Reply : Type 0 where
  nothing_awaiting not_awaiting timed_out no_longer_valid cancelled please_reply : Reply
  already_applied : Reply
  prompt : String → Float → Reply
  done : String → Reply

pub data Message : Type 0 where
  completed : Reply → Bool → Message
  failed : ErrorCode → Message
  invalid_params method_not_found acknowledged : Message

pub data Request : Type 0 where
  execute_request input_request : Fields → Request

abbrev pub Messages : Type 0
Messages = List Message

module _ {W : Type 0} where
  -- a call of a service
  abbrev pub on_world : {A : Type 0} → Exec W A → Exec (Session W) A
  on_world m s = let (r, w) = m s.world in (r, record s { world = w })

  -- `_complete`
  abbrev pub complete : Reply → Bool → Exec (Session W) Messages
  complete reply keep s = (ok (completed reply keep ∷ []), record s { keep_session = keep })

  -- `_complete_error`
  abbrev pub complete_error : ErrorCode → Exec (Session W) Messages
  complete_error e s = (ok (failed e ∷ []), record s { keep_session = false })

  abbrev pub drop_pending : String → Session W → Session W
  drop_pending function s = record s { pending = erase function s.pending }

module _ {W : Type 0} (host : Host W)
    (registry : String → Option (Fields → ℤ → Exec W String)) where
  abbrev pub Handler : Type 0
  Handler = Exec (Session W) Messages

  -- the result of an executor, or the error that it raised, as a message
  abbrev pub answer : Result String → Handler
  answer (ok text) = complete (Reply.done text) false
  answer (err e) = complete_error e
  answer crash = complete_error ErrorCode.comm_failure

  -- `_run_executor`
  unfoldable pub run_executor : (Fields → ℤ → Exec W String) → Fields → Handler
  run_executor executor args =
      lift (gpu_of args) >>= λ gpu. on_world (attempt (executor args gpu)) >>= answer

  abbrev pub run_found : Option (Fields → ℤ → Exec W String) → Fields → Handler
  run_found none args s = (crash, s)
  run_found (some executor) args s = run_executor executor args s

  -- the clock is read only where the token is found
  abbrev pub clock_if_found : Option ConfirmToken → W → ℕ × W
  clock_if_found none w = (0, w)
  clock_if_found (some _) w = host.clock w

  -- `self.services.policy.validate_token(token)`
  unfoldable pub use_token : String → Exec (Session W) ConfirmToken
  use_token token s =
      let (now, w) = clock_if_found (lookup token s.tokens) s.world in
      let (r, tokens) = validate_token now token s.tokens in
      (r, record s { world = w; tokens = tokens })

  abbrev pub entry_or_none : Result ConfirmToken → Result (Option ConfirmToken)
  entry_or_none (ok entry) = ok (some entry)
  entry_or_none (err e) = ok none
  entry_or_none crash = crash

  -- `_consume_token`
  unfoldable pub consume_token : Pending → Exec (Session W) (Option ConfirmToken)
  consume_token p s =
      if p.token == ""
      then (ok none, s)
      else (let (r, s') = use_token p.token s in (entry_or_none r, s'))

  module _ (text_of : Value → String) where
    -- `str(value)`
    abbrev pub str_of : Value → String
    str_of null = text_of null
    str_of (bool b) = text_of (bool b)
    str_of (int n) = text_of (int n)
    str_of (float x) = text_of (float x)
    str_of (str s) = s
    str_of (arr xs) = text_of (arr xs)
    str_of (dict fs) = text_of (dict fs)

    abbrev first_of : Option Value → Option Value → Value
    first_of (some v) other = v
    first_of none (some v) = v
    first_of none none = str ""

    -- `_verdict(params.get("content", params.get("message", "")))`
    unfoldable pub verdict_of : Fields → Verdict
    verdict_of params =
        let content = first_of (get "content" params) (get "message" params) in
        if truthy content then verdict (str_of content) else Verdict.unknown

    -- what an affirmative reply does once the pending entry is gone
    abbrev pub apply_pending : String → Pending → Option ConfirmToken → Handler
    apply_pending function p none = complete Reply.no_longer_valid false
    apply_pending function p (some entry) =
        run_found (registry function) (set_default "__function" (str function) p.args)

    abbrev pub on_verdict : String → Pending → Verdict → Handler
    on_verdict function p Verdict.affirmative s =
        (consume_token p >>= apply_pending function p) (drop_pending function s)
    on_verdict function p Verdict.negative s =
        (consume_token p >> complete Reply.cancelled false) (drop_pending function s)
    on_verdict function p Verdict.unknown s = complete Reply.please_reply true s

    abbrev pub on_pending : Fields → String → Option Pending → Handler
    on_pending params function none s = complete Reply.not_awaiting false s
    on_pending params function (some p) s =
        let (now, w) = host.clock s.world in
        let s' = record s { world = w } in
        if ltb p.expires_at now
        then (consume_token p >> complete Reply.timed_out false) (drop_pending function s')
        else on_verdict function p (verdict_of params) s'

    -- the function that a reply without a name means: the only one that waits
    abbrev pub on_only : Fields → Dict String Pending → Handler
    on_only params [] = complete Reply.nothing_awaiting false
    on_only params ((function, p) ∷ []) = on_pending params function (some p)
    on_only params (_ ∷ (_ ∷ _)) = complete Reply.nothing_awaiting false

    -- A list or a dict is no key, and raises; a value of another type is the key of no entry.
    abbrev pub on_function : Fields → Option Value → Handler
    on_function params none s = on_only params s.pending s
    on_function params (some null) s = on_only params s.pending s
    on_function params (some (str function)) s =
        on_pending params function (lookup function s.pending) s
    on_function params (some (bool _)) s = complete Reply.not_awaiting false s
    on_function params (some (int _)) s = complete Reply.not_awaiting false s
    on_function params (some (float _)) s = complete Reply.not_awaiting false s
    on_function params (some (arr _)) s = (crash, s)
    on_function params (some (dict _)) s = (crash, s)

    -- `_handle_input`
    unfoldable pub handle_input : Fields → Handler
    handle_input params s =
        on_function params (get "function" params) (record s { keep_session = false })

    module _ (i : Interface W) (timeout : ℕ) (rnd : Rounding) (tolerance : Float)
        (fresh : W → String × W) where
      -- the token is issued, the change is put down as pending, and the prompt is answered
      abbrev pub issue : String → Fields → ℤ → Float → Exec (Session W) (Unit {0})
      issue function args gpu safe s =
          let (token, w) = fresh s.world in
          let (now, w') = host.clock w in
          let (confirm, tokens) = issue_confirm_token now token function safe s.tokens in
          let (later, w2) = host.clock w' in
          let p : Pending = record {
            args = without ("__function" ∷ []) args;
            expires_at = later + passthrough_timeout;
            gpu = gpu;
            token = confirm.token;
          } in
          (ok tt, record s { world = w2; tokens = tokens; pending = insert function p s.pending })

      abbrev pub prompt_for : String → Fields → ℤ → Option Float → Handler
      prompt_for function args gpu (some safe) = complete Reply.already_applied false
      prompt_for function args gpu none =
          on_world (safe_prompt_value i host timeout rnd tolerance function args gpu) >>= λ safe.
          issue function args gpu safe
          >> on_world (clause_of i host timeout rnd tolerance (single_value_feature function) gpu)
          >> complete (Reply.prompt function safe) true

      abbrev pub with_entry : String → Fields → ConfirmToken → Handler
      with_entry function args entry s =
          if entry.function == function
          then run_found (registry function) args (drop_pending function s)
          else (err ErrorCode.confirmation_required, s)

      abbrev pub with_token : String → Fields → ℤ → Option Value → Handler
      with_token function args gpu (some token) =
          use_token (str_of token) >>= with_entry function args
      with_token function args gpu none =
          on_world (decision_time_noop i host timeout rnd tolerance function args gpu)
          >>= prompt_for function args gpu

      -- `_risky`; that `function` is registered is what `_execute` tested
      unfoldable pub risky : String → Fields → Option Value → Handler
      risky function args token = lift (gpu_of args) >>= λ gpu. with_token function args gpu token

      abbrev pub dispatch : String → Fields → Option (Fields → ℤ → Exec W String) → Handler
      dispatch function params none s = (ok (method_not_found ∷ []), s)
      dispatch function params (some executor) s =
          let (extracted, token) = extract_args params in
          let args = set_default "__function" (str function) extracted in
          let s' = record s { keep_session = false } in
          if requires_confirmation function
          then risky function args token s'
          else run_executor executor args s'

      abbrev pub named : Fields → Option Value → Handler
      named params none s = (ok (invalid_params ∷ []), s)
      named params (some null) s = (ok (invalid_params ∷ []), s)
      named params (some (bool _)) s = (ok (invalid_params ∷ []), s)
      named params (some (int _)) s = (ok (invalid_params ∷ []), s)
      named params (some (float _)) s = (ok (invalid_params ∷ []), s)
      named params (some (arr _)) s = (ok (invalid_params ∷ []), s)
      named params (some (dict _)) s = (ok (invalid_params ∷ []), s)
      named params (some (str function)) s =
          if function == ""
          then (ok (invalid_params ∷ []), s)
          else dispatch function params (registry function) s

      abbrev pub or_get : Option Value → Option Value → Option Value
      or_get (some v) other = some v
      or_get none other = other

      -- `_execute`
      unfoldable pub execute : Fields → Handler
      execute params = named params (or_get (get "function" params) (get "name" params))

      abbrev pub acknowledge : Result Messages → Result Messages
      acknowledge (ok ms) = ok (acknowledged ∷ ms)
      acknowledge (err e) = err e
      acknowledge crash = crash

      abbrev pub handle : Request → Handler
      handle (execute_request params) s = execute params s
      handle (input_request params) s = let (r, s') = handle_input params s in (acknowledge r, s')

      abbrev pub settled : Result Messages → Session W → Messages × Session W
      settled (ok ms) s = (ms, s)
      settled (err e) s = (failed e ∷ [], record s { keep_session = false })
      settled crash s = (failed ErrorCode.comm_failure ∷ [], record s { keep_session = false })

      -- `process`, for the methods `execute` and `input`
      unfoldable pub process : Request → Session W → Messages × Session W
      process request s = let (r, s') = handle request s in settled r s'
