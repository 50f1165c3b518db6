-- ===== src/Protocol/Confirm/Once.antt =====
-- A confirmed, cancelled or expired change is settled for good (afterburner/protocol/plugin.py).
use afterburner_gassist_plug.Base.{
  ℕ, suc, ◌≤◌, arith, String, ◌≡◌, ◌≢◌, refl, sym, ap, subst, ◌∙◌, false, Option, none, some, [],
  ◌∷◌, ltb,
}
use afterburner_gassist_plug.Int.{ℤ}
use afterburner_gassist_plug.Dict.{string_eq, lookup, lookup-erase_self}
use afterburner_gassist_plug.Exec.{Exec, ok}
use afterburner_gassist_plug.Exec.Hoare.{
  Keeps, Keeps-bind, Keeps-of-world, world-of-Keeps, Ensures-if,
}
use afterburner_gassist_plug.Value.{Value, Fields, str}
use afterburner_gassist_plug.Interface.{Host}
use afterburner_gassist_plug.Safety.Policy.{ConfirmToken}
use afterburner_gassist_plug.Protocol.Verdict.{Verdict}
use afterburner_gassist_plug.Protocol.Args.{get}
use afterburner_gassist_plug.Protocol.Confirm.{
  Session, Pending, Reply, completed, consume_token, run_found, drop_pending, verdict_of,
  apply_pending, on_verdict, on_pending, on_function, handle_input,
}
use afterburner_gassist_plug.Protocol.Confirm.Frame.{consume_token-pending, run_found-pending}
use afterburner_gassist_plug.Protocol.Confirm.Runs.{Counter, on_pending-AtMost}

module _ {W : Type 0} (host : Host W) (registry : String → Option (Fields → ℤ → Exec W String))
    (text_of : Value → String) where
  -- what is left of a pending change that was settled
  module _ (function : String) where
    abbrev Settled : Session W → Type 0
    Settled t = lookup function t.pending ≡ none

    consume_token-Settled :
        (p : Pending) (s : Session W) → Settled s → Keeps Settled (consume_token host registry p s)
    consume_token-Settled p s h =
        Keeps-of-world Settled _
          (ap (lookup function) (consume_token-pending host registry p s) ∙ h)

    apply_pending-Settled :
        (p : Pending) (o : Option ConfirmToken) (s : Session W)
        → Settled s
        → Keeps Settled (apply_pending host registry text_of function p o s)
    apply_pending-Settled p none s h = h
    apply_pending-Settled p (some entry) s h =
        Keeps-of-world Settled (run_found host registry _ _ s)
          (ap (lookup function) (run_found-pending host registry _ _ s) ∙ h)

    on_verdict-Settled :
        (p : Pending) (v : Verdict) (s : Session W)
        → v ≢ Verdict.unknown
        → Keeps Settled (on_verdict host registry text_of function p v s)
    on_verdict-Settled p Verdict.affirmative s h =
        Keeps-bind Settled (consume_token host registry p) _ (drop_pending function s)
          (consume_token-Settled p (drop_pending function s) (lookup-erase_self function s.pending))
          (λ o t k. apply_pending-Settled p o t k)
    on_verdict-Settled p Verdict.negative s h =
        Keeps-bind Settled (consume_token host registry p) _ (drop_pending function s)
          (consume_token-Settled p (drop_pending function s) (lookup-erase_self function s.pending))
          (λ o t k. k)
    on_verdict-Settled p Verdict.unknown s h = absurd (h refl)

    on_pending-Settled :
        (params : Fields) (o : Option Pending) (s : Session W)
        → lookup function s.pending ≡ o
        → verdict_of host registry text_of params ≢ Verdict.unknown
        → Keeps Settled (on_pending host registry text_of params function o s)
    on_pending-Settled params none s e h = e
    on_pending-Settled params (some p) s e h =
        Ensures-if (λ _. Settled) Settled (ltb p.expires_at (host.clock s.world).0) _ _
          (λ _.
            Keeps-bind Settled (consume_token host registry p) _
              (drop_pending function (record s { world = (host.clock s.world).1 }))
              (consume_token-Settled p _ (lookup-erase_self function s.pending)) (λ o t k. k))
          (λ _. on_verdict-Settled p _ _ h)

    on_function-Settled :
        (params : Fields) (o : Option Value) (s : Session W)
        → o ≡ some (str function)
        → verdict_of host registry text_of params ≢ Verdict.unknown
        → Keeps Settled (on_function host registry text_of params o s)
    on_function-Settled params o s e h =
        subst (λ o. Keeps Settled (on_function host registry text_of params o s)) (sym e)
          (on_pending-Settled params (lookup function s.pending) s refl h)

    on_function-not_awaiting :
        (again : Fields) (v : Option Value) (s : Session W)
        → v ≡ some (str function)
        → Settled s
        → on_function host registry text_of again v s
          ≡ (ok (completed Reply.not_awaiting false ∷ []), record s { keep_session = false })
    on_function-not_awaiting again v s e h = rw (e, h)

    on_function-runs :
        {runs : W → ℕ}
        → Counter host registry runs
        → (params : Fields) (o : Option Value) (s : Session W) → o ≡ some (str function)
        → Keeps
            (λ t. runs t.world ≤ suc (runs s.world))
            (on_function host registry text_of params o s)
    on_function-runs {runs} counter params o s e =
        subst
          (λ o.
            Keeps (λ t. runs t.world ≤ suc (runs s.world))
              (on_function host registry text_of params o s))
          (sym e)
          (on_pending-AtMost host registry text_of counter (runs s.world) params function
            (lookup function s.pending) s (omega arith))

    -- A change is decided once: after an input for a function whose reply is affirmative or negative,
    -- whatever came of it, a further input for that function is answered with "not awaiting" and changes
    -- nothing but the keep-session flag; and by any count to which the clock adds nothing and one run of
    -- an executor one at most, the two inputs together have added one at most.
    pub handle_input_once :
        {runs : W → ℕ} (params again : Fields) (s : Session W)
        → Counter host registry runs
        → get "function" params ≡ some (str function)
        → get "function" again ≡ some (str function)
        → verdict_of host registry text_of params ≢ Verdict.unknown
        → let first = (handle_input host registry text_of params s).1 in
          (handle_input host registry text_of again first
            ≡ (ok (completed Reply.not_awaiting false ∷ []), record first { keep_session = false }))
          × (runs (handle_input host registry text_of again first).1.world ≤ suc (runs s.world))
    unfolding handle_input
    handle_input_once {runs} params again s counter e e' h =
        let s' = record s { keep_session = false } in
        let first = (handle_input host registry text_of params s).1 in
        let settled =
          world-of-Keeps Settled _ (on_function-Settled params (get "function" params) s' e h) in
        let answered =
          on_function-not_awaiting again (get "function" again)
            (record first { keep_session = false }) e' settled in
        let ran : runs first.world ≤ suc (runs s.world) =
          world-of-Keeps (λ t. runs t.world ≤ suc (runs s.world))
            (on_function host registry text_of params (get "function" params) s')
            (on_function-runs counter params (get "function" params) s' e) in
        (answered, rw answered ran)
