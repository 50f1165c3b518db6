-- ===== src/Protocol/Confirm/Gate.antt =====
-- What stands between a request and an executor (afterburner/protocol/plugin.py).
use afterburner_gassist_plug.Base.{
  ◌≤◌, String, ◌≡◌, ◌⊎◌, inl, inr, refl, ap, ◌∙◌, Bool, true, false, Option, none, some, [], ◌∷◌,
  arith, ltb, if◌then◌else◌,
}
use afterburner_gassist_plug.Int.{ℤ}
use afterburner_gassist_plug.Dict.{Dict, string_eq, beq_refl, lookup, lookup-erase_self}
use afterburner_gassist_plug.Exec.{Exec, Result, ok, err, crash, continue}
use afterburner_gassist_plug.Exec.Hoare.{Keeps, Keeps-bind, world-of-Keeps}
use afterburner_gassist_plug.Value.{Value, Fields, null, bool, int, float, str, arr, dict}
use afterburner_gassist_plug.Interface.{Host}
use afterburner_gassist_plug.Safety.Policy.{ConfirmToken}
use afterburner_gassist_plug.Protocol.Verdict.{Verdict}
use afterburner_gassist_plug.Protocol.Args.{get, set_default}
use afterburner_gassist_plug.Protocol.Confirm.{
  Session, Pending, Messages, consume_token, run_found, drop_pending, verdict_of, apply_pending,
  on_verdict, on_pending, on_only, on_function, handle_input,
}
use afterburner_gassist_plug.Protocol.Confirm.Frame.{
  consume_token-Keeps, consume_token-found, consume_token-pending,
}

lookup_only : (function : String) (p : Pending) → lookup function ((function, p) ∷ []) ≡ some p
unfolding lookup
lookup_only function p = rw (beq_refl function)

module _ {W : Type 0} (host : Host W) (registry : String → Option (Fields → ℤ → Exec W String))
    (text_of : Value → String) where
  -- An input that reaches an executor in the session `t`: the function awaits confirmation, the reply
  -- is affirmative and in time, and the token of the pending entry is known; entry and token are used
  -- up before the executor runs.
  pub record Confirmed (params : Fields) (s t : Session W) (function : String) (p : Pending)
      : Type 0 where
    pub waiting : lookup function s.pending ≡ some p
    pub in_time : (host.clock s.world).0 ≤ p.expires_at
    pub agreed : verdict_of host registry text_of params ≡ Verdict.affirmative
    pub known : (entry : ConfirmToken) × (lookup p.token s.tokens ≡ some entry)
    pub spent_token : lookup p.token t.tokens ≡ none
    pub spent : lookup function t.pending ≡ none

  module _ (P : W → Type 0) (tick : (w : W) → P w → P (host.clock w).1) where
    abbrev Kept : Session W → Type 0
    Kept s = P s.world

    -- `P` outlives the input, or the input was a confirmation and the executor had the last word.
    abbrev pub Gated : Fields → Session W → Result Messages × Session W → Type 0
    Gated params s o =
        Keeps (λ t. P t.world) o
        ⊎ ((function : String) × (p : Pending) × (t : Session W) × Confirmed params s t function p
            × (o
                ≡ run_found host registry (registry function)
                    (set_default "__function" (str function) p.args) t))

    Gated-if :
        (params : Fields) (s : Session W) (b : Bool) (o o' : Result Messages × Session W)
        → (b ≡ true → Gated params s o)
        → (b ≡ false → Gated params s o')
        → Gated params s (if b then o else o')
    Gated-if params s true o o' h k = h refl
    Gated-if params s false o o' h k = k refl

    applied-Gated :
        (params : Fields) (s : Session W) (function : String) (p : Pending) (t : Session W)
        (r : Result (Option ConfirmToken))
        → (consume_token host registry p t).0 ≡ r
        → lookup function s.pending ≡ some p
        → (host.clock s.world).0 ≤ p.expires_at
        → verdict_of host registry text_of params ≡ Verdict.affirmative
        → s.tokens ≡ t.tokens
        → lookup function t.pending ≡ none
        → P t.world
        → Gated params s (
            continue r
              (apply_pending host registry text_of function p)
              (consume_token host registry p t).1)
    applied-Gated params s function p t (ok none) e w l v tk g h =
        inl (world-of-Keeps Kept _ (consume_token-Keeps host registry P tick p t h))
    applied-Gated params s function p t (ok (some entry)) e w l v tk g h =
        let found = consume_token-found host registry p t entry e in
        inr (
          function,
          p,
          (consume_token host registry p t).1,
          record {
            waiting = w;
            in_time = l;
            agreed = v;
            known = (entry, ap (lookup p.token) tk ∙ found.0);
            spent_token = found.1;
            spent = ap (lookup function) (consume_token-pending host registry p t) ∙ g;
          },
          refl,
        )
    applied-Gated params s function p t (err c) e w l v tk g h =
        inl (world-of-Keeps Kept _ (consume_token-Keeps host registry P tick p t h))
    applied-Gated params s function p t crash e w l v tk g h =
        inl (world-of-Keeps Kept _ (consume_token-Keeps host registry P tick p t h))

    on_verdict-Gated :
        (params : Fields) (s : Session W) (function : String) (p : Pending) (v : Verdict)
        → verdict_of host registry text_of params ≡ v
        → lookup function s.pending ≡ some p
        → (host.clock s.world).0 ≤ p.expires_at
        → P s.world
        → Gated params s (
            on_verdict host registry text_of function p v
              (record s { world = (host.clock s.world).1 }))
    on_verdict-Gated params s function p Verdict.affirmative e w l h =
        applied-Gated params s function p
          (drop_pending function (record s { world = (host.clock s.world).1 })) _ refl w l e refl
          (lookup-erase_self function s.pending) (tick s.world h)
    on_verdict-Gated params s function p Verdict.negative e w l h = inl (
        Keeps-bind Kept (consume_token host registry p) _
          (drop_pending function (record s { world = (host.clock s.world).1 }))
          (consume_token-Keeps host registry P tick p _ (tick s.world h)) (λ _ t k. k))
    on_verdict-Gated params s function p Verdict.unknown e w l h = inl (tick s.world h)

    on_pending-Gated :
        (params : Fields) (s : Session W) (function : String) (o : Option Pending)
        → lookup function s.pending ≡ o
        → P s.world
        → Gated params s (on_pending host registry text_of params function o s)
    on_pending-Gated params s function none w h = inl h
    on_pending-Gated params s function (some p) w h =
        Gated-if params s (ltb p.expires_at (host.clock s.world).0) _ _
          (λ _. inl (
            Keeps-bind Kept (consume_token host registry p) _
              (drop_pending function (record s { world = (host.clock s.world).1 }))
              (consume_token-Keeps host registry P tick p _ (tick s.world h)) (λ _ t k. k)))
          (λ late.
            on_verdict-Gated params s function p (verdict_of host registry text_of params) refl w
              (ground arith) h)

    on_only-Gated :
        (params : Fields) (d : Dict String Pending) (s : Session W)
        → s.pending ≡ d
        → P s.world
        → Gated params s (on_only host registry text_of params d s)
    on_only-Gated params [] s e h = inl h
    on_only-Gated params ((function, p) ∷ []) s e h =
        on_pending-Gated params s function (some p)
          (ap (lookup function) e ∙ lookup_only function p) h
    on_only-Gated params (_ ∷ (_ ∷ _)) s e h = inl h

    on_function-Gated :
        (params : Fields) (o : Option Value) (s : Session W)
        → P s.world
        → Gated params s (on_function host registry text_of params o s)
    on_function-Gated params none s h = on_only-Gated params s.pending s refl h
    on_function-Gated params (some null) s h = on_only-Gated params s.pending s refl h
    on_function-Gated params (some (str function)) s h = on_pending-Gated params s function _ refl h
    on_function-Gated params (some (bool _)) s h = inl h
    on_function-Gated params (some (int _)) s h = inl h
    on_function-Gated params (some (float _)) s h = inl h
    on_function-Gated params (some (arr _)) s h = inl h
    on_function-Gated params (some (dict _)) s h = inl h

    -- An input leaves every property of the world that the clock keeps, unless it confirms a pending
    -- change: then the function awaited confirmation, the reply was affirmative and in time, the token
    -- was known, entry and token are used up, and what is run is the executor of that function on the
    -- arguments of the prompt.
    pub handle_input-Gated :
        (params : Fields) (s : Session W)
        → P s.world
        → Gated params
            (record s { keep_session = false })
            (handle_input host registry text_of params s)
    unfolding handle_input
    handle_input-Gated params s h =
        on_function-Gated params (get "function" params) (record s { keep_session = false }) h
