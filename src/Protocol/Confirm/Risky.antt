-- ===== src/Protocol/Confirm/Risky.antt =====
-- A risky request (afterburner/protocol/plugin.py): without a token it only reads, with one it must
-- match.
use text.Mathlib.Text.{◌==◌}
use afterburner_gassist_plug.Base.{
  ℕ, String, ◌≡◌, ◌⊎◌, inl, inr, refl, sym, subst, Bool, true, false, Option, none, some,
  if◌then◌else◌,
}
use afterburner_gassist_plug.Int.{ℤ, pos}
use afterburner_gassist_plug.Float.{Float, Rounding}
use afterburner_gassist_plug.Dict.{string_eq, lookup, lookup-erase_self}
use afterburner_gassist_plug.Exec.{Exec, Result, ok, err, crash, lift, continue, ◌>>◌}
use afterburner_gassist_plug.Exec.Hoare.{
  Keeps, Keeps-bind, Keeps-of-world, world-of-Keeps, Ensures-if,
}
use afterburner_gassist_plug.Value.{Value, Fields, str}
use afterburner_gassist_plug.Interface.{Interface, Host}
use afterburner_gassist_plug.Safety.Policy.{ConfirmToken, requires_confirmation}
use afterburner_gassist_plug.Protocol.Args.{gpu_of, get, set_default, extract_args}
use afterburner_gassist_plug.Protocol.Prompt.{
  decision_time_noop, safe_prompt_value, clause_of, single_value_feature,
}
use afterburner_gassist_plug.Protocol.Confirm.{
  Session, Messages, on_world, use_token, run_found, drop_pending, str_of, issue, prompt_for,
  with_entry, or_get, with_token, risky, dispatch, named, execute,
}
use afterburner_gassist_plug.Protocol.Confirm.Frame.{
  PromptFrame, decision_time_noop-Keeps, safe_prompt_value-Keeps, clause_of-Keeps, use_token-Keeps,
  use_token-found,
}

module _ {W : Type 0} (host : Host W) (registry : String → Option (Fields → ℤ → Exec W String))
    (text_of : Value → String) (i : Interface W) (timeout : ℕ) (rnd : Rounding) (tolerance : Float)
    (fresh : W → String × W) where
  -- A request that reaches an executor by a token in the session `t`: the token is known, was issued
  -- for this very function, and is used up before the executor runs.
  pub record Matched (function token : String) (s t : Session W) : Type 0 where
    pub entry : ConfirmToken
    pub known : lookup token s.tokens ≡ some entry
    pub matches : (entry.function == function) ≡ true
    pub spent_token : lookup token t.tokens ≡ none
    pub spent : lookup function t.pending ≡ none

  module _ (P : W → Type 0) (frame : PromptFrame i host timeout P)
      (on_fresh : (w : W) → P w → P (fresh w).1) where
    abbrev Kept : Session W → Type 0
    Kept s = P s.world

    abbrev tick : (w : W) → P w → P (host.clock w).1
    tick = (frame.reads (pos 0)).on_clock

    on_world-Kept :
        {A : Type 0} (m : Exec W A) (s : Session W)
        → Keeps P (m s.world)
        → Keeps Kept (on_world m s)
    on_world-Kept m s h = Keeps-of-world Kept _ (world-of-Keeps P (m s.world) h)

    prompt_for-Kept :
        (function : String) (args : Fields) (gpu : ℤ) (o : Option Float) (s : Session W)
        → P s.world
        → Keeps Kept
            (prompt_for host registry text_of i timeout rnd tolerance fresh function args gpu o s)
    prompt_for-Kept function args gpu (some safe) s h = h
    prompt_for-Kept function args gpu none s h =
        Keeps-bind Kept
          (on_world (safe_prompt_value i host timeout rnd tolerance function args gpu)) _ s
          (on_world-Kept (safe_prompt_value i host timeout rnd tolerance function args gpu) s (
            safe_prompt_value-Keeps i host timeout frame rnd tolerance function args gpu s.world h))
          (λ safe t k.
            Keeps-bind Kept
              (issue host registry text_of i timeout rnd tolerance fresh function args gpu safe
                >> on_world
                    (clause_of i host timeout rnd tolerance (single_value_feature function) gpu))
              _ t
              (Keeps-bind Kept
                (issue host registry text_of i timeout rnd tolerance fresh function args gpu safe) _
                t (tick _ (tick _ (on_fresh t.world k)))
                (λ _ u l.
                  on_world-Kept
                    (clause_of i host timeout rnd tolerance (single_value_feature function) gpu) u
                    (clause_of-Keeps i host timeout frame rnd tolerance
                      (single_value_feature function) gpu u.world l)))
              (λ _ u l. l))

    with_token-Kept :
        (function : String) (args : Fields) (gpu : ℤ) (s : Session W)
        → P s.world
        → Keeps Kept (
            with_token host registry text_of i timeout rnd tolerance fresh function args gpu none s)
    with_token-Kept function args gpu s h =
        Keeps-bind Kept
          (on_world (decision_time_noop i host timeout rnd tolerance function args gpu))
          (prompt_for host registry text_of i timeout rnd tolerance fresh function args gpu) s
          (on_world-Kept (decision_time_noop i host timeout rnd tolerance function args gpu) s (
            decision_time_noop-Keeps i host timeout frame rnd tolerance function args gpu s.world
              h))
          (λ o t k. prompt_for-Kept function args gpu o t k)

    -- A risky request without a token only reads: every property of the world that the reads of the
    -- interface, the clock and the token source keep still holds, so no executor is run before the
    -- confirmation.
    pub risky-Keeps :
        (function : String) (args : Fields) (s : Session W)
        → P s.world
        → Keeps
            (λ t. P t.world)
            (risky host registry text_of i timeout rnd tolerance fresh function args none s)
    unfolding risky
    risky-Keeps function args s h =
        Keeps-bind Kept (lift (gpu_of args))
          (λ gpu.
            with_token host registry text_of i timeout rnd tolerance fresh function args gpu none)
          s (Keeps-of-world Kept (lift (gpu_of args) s) h)
          (λ gpu t k. with_token-Kept function args gpu t k)

    -- `P` outlives the request, or its token matched and the executor had the last word.
    abbrev pub TokenGated :
        String → Fields → String → Session W → Result Messages × Session W → Type 0
    TokenGated function args token s o =
        Keeps (λ t. P t.world) o
        ⊎ ((t : Session W) × Matched function token s t
            × (o ≡ run_found host registry (registry function) args t))

    TokenGated-if :
        (function : String) (args : Fields) (token : String) (s : Session W) (b : Bool)
        (o o' : Result Messages × Session W)
        → (b ≡ true → TokenGated function args token s o)
        → TokenGated function args token s o'
        → TokenGated function args token s (if b then o else o')
    TokenGated-if function args token s true o o' h k = h refl
    TokenGated-if function args token s false o o' h k = k

    with_entry-Gated :
        (function : String) (args : Fields) (token : String) (s : Session W)
        (r : Result ConfirmToken)
        → (use_token host registry token s).0 ≡ r
        → P s.world
        → TokenGated function args token s (
            continue r
              (with_entry host registry text_of i timeout rnd tolerance fresh function args)
              (use_token host registry token s).1)
    with_entry-Gated function args token s (ok entry) e h =
        let found = use_token-found host registry token s entry e in
        let kept = world-of-Keeps Kept _ (use_token-Keeps host registry P tick token s h) in
        TokenGated-if function args token s (entry.function == function) _ _
          (λ m. inr (
            drop_pending function (use_token host registry token s).1,
            record {
              entry = entry;
              known = found.0;
              matches = m;
              spent_token = found.1;
              spent = lookup-erase_self function (use_token host registry token s).1.pending;
            },
            refl,
          ))
          (inl kept)
    with_entry-Gated function args token s (err c) e h =
        inl (world-of-Keeps Kept _ (use_token-Keeps host registry P tick token s h))
    with_entry-Gated function args token s crash e h =
        inl (world-of-Keeps Kept _ (use_token-Keeps host registry P tick token s h))

    risky_from-Gated :
        (function : String) (args : Fields) (token : Value) (s : Session W) (r : Result ℤ)
        → P s.world
        → TokenGated function args (str_of host registry text_of token) s (
            continue r
              (λ gpu.
                with_token host registry text_of i timeout rnd tolerance fresh function args gpu
                  (some token))
              s)
    risky_from-Gated function args token s (ok gpu) h =
        with_entry-Gated function args (str_of host registry text_of token) s _ refl h
    risky_from-Gated function args token s (err e) h = inl h
    risky_from-Gated function args token s crash h = inl h

    -- A risky request with a token only reads, unless the registry knows the token and issued it for
    -- this very function: then token and pending entry are used up, and what is run is the executor of
    -- that function.
    pub risky-TokenGated :
        (function : String) (args : Fields) (token : Value) (s : Session W)
        → P s.world
        → TokenGated function args
            (str_of host registry text_of token)
            s
            (risky host registry text_of i timeout rnd tolerance fresh function args (some token) s)
    unfolding risky
    risky-TokenGated function args token s h =
        risky_from-Gated function args token s (gpu_of args) h

    dispatch-Keeps :
        (function : String) (params : Fields) (o : Option (Fields → ℤ → Exec W String))
        (s : Session W)
        → requires_confirmation function ≡ true
        → (extract_args params).1 ≡ none
        → P s.world
        → Keeps Kept
            (dispatch host registry text_of i timeout rnd tolerance fresh function params o s)
    dispatch-Keeps function params none s c u h = h
    dispatch-Keeps function params (some executor) s c u h =
        Ensures-if (λ _. Kept) Kept (requires_confirmation function) _ _
          (λ _.
            subst
              (λ token. Keeps Kept (
                risky host registry text_of i timeout rnd tolerance fresh function
                  (set_default "__function" (str function) (extract_args params).0) token
                  (record s { keep_session = false })))
              (sym u) (risky-Keeps function _ (record s { keep_session = false }) h))
          (λ low. absurd (cc (c, low)))

    -- Executing a function that requires confirmation, without a confirmation token, runs no executor:
    -- whatever the reads keep still holds of the world.
    pub execute-Keeps :
        (function : String) (params : Fields) (s : Session W)
        → get "function" params ≡ some (str function)
        → requires_confirmation function ≡ true
        → (extract_args params).1 ≡ none
        → P s.world
        → Keeps
            (λ t. P t.world)
            (execute host registry text_of i timeout rnd tolerance fresh params s)
    unfolding execute
    execute-Keeps function params s e c u h =
        subst
          (λ v. Keeps Kept (
            named host registry text_of i timeout rnd tolerance fresh params
              (or_get host registry text_of i timeout rnd tolerance fresh v (get "name" params)) s))
          (sym e)
          (Ensures-if (λ _. Kept) Kept (function == "") _ _ (λ _. h)
            (λ _. dispatch-Keeps function params (registry function) s c u h))
