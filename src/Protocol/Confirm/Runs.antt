-- ===== src/Protocol/Confirm/Runs.antt =====
-- How often an input runs an executor (afterburner/protocol/plugin.py).
use afterburner_gassist_plug.Base.{ℕ, suc, ◌≤◌, ◌≡◌, refl, String, Option, none, some, ltb, arith}
use afterburner_gassist_plug.Int.{ℤ}
use afterburner_gassist_plug.Dict.{string_eq}
use afterburner_gassist_plug.Exec.{Exec, Result, ok, err, crash}
use afterburner_gassist_plug.Exec.Hoare.{
  Ensures, Ensures-bind, Ensures-if, Ensures-lift, Keeps, Keeps-bind,
}
use afterburner_gassist_plug.Value.{Value, Fields}
use afterburner_gassist_plug.Interface.{Host}
use afterburner_gassist_plug.Safety.Policy.{ConfirmToken}
use afterburner_gassist_plug.Protocol.Args.{gpu_of}
use afterburner_gassist_plug.Protocol.Verdict.{Verdict}
use afterburner_gassist_plug.Protocol.Confirm.{
  Session, Pending, answer, run_executor, consume_token, run_found, drop_pending, apply_pending,
  on_verdict, on_pending,
}
use afterburner_gassist_plug.Protocol.Confirm.Frame.{consume_token-Keeps}

-- `runs` counts what the executors do: reading the clock adds nothing, and one run adds one at most.
pub record Counter {W : Type 0} (host : Host W)
    (registry : String → Option (Fields → ℤ → Exec W String)) (runs : W → ℕ) : Type 0 where
  pub on_clock : (w : W) → runs (host.clock w).1 ≡ runs w
  pub on_executor :
      (function : String) (executor : Fields → ℤ → Exec W String) (args : Fields) (gpu : ℤ) (w : W)
      → registry function ≡ some executor
      → runs (executor args gpu w).1 ≤ suc (runs w)

module _ {W : Type 0} (host : Host W) (registry : String → Option (Fields → ℤ → Exec W String))
    (text_of : Value → String) {runs : W → ℕ} (counter : Counter host registry runs) (n : ℕ) where
  abbrev AtMost : ℕ → Session W → Type 0
  AtMost m t = runs t.world ≤ m

  consume_token-AtMost :
      (m : ℕ) (p : Pending) (s : Session W)
      → AtMost m s
      → Keeps (AtMost m) (consume_token host registry p s)
  consume_token-AtMost m p s h =
      consume_token-Keeps host registry (λ w. runs w ≤ m) (λ w k. omega (arith, counter.on_clock w))
        p s h

  answer-AtMost :
      (r : Result String) (s : Session W)
      → AtMost (suc n) s
      → Keeps (AtMost (suc n)) (answer host registry r s)
  answer-AtMost (ok text) s h = h
  answer-AtMost (err e) s h = h
  answer-AtMost crash s h = h

  run_found-AtMost :
      (function : String) (o : Option (Fields → ℤ → Exec W String)) (args : Fields) (s : Session W)
      → registry function ≡ o
      → AtMost n s
      → Keeps (AtMost (suc n)) (run_found host registry o args s)
  unfolding run_executor
  run_found-AtMost function none args s e h = omega arith
  run_found-AtMost function (some executor) args s e h =
      Ensures-lift _ _ (gpu_of args) _ s (omega arith) (λ gpu _.
        answer-AtMost (executor args gpu s.world).0
          (record s { world = (executor args gpu s.world).1 })
          (omega (arith, counter.on_executor function executor args gpu s.world e)))

  apply_pending-AtMost :
      (function : String) (p : Pending) (o : Option ConfirmToken) (s : Session W)
      → AtMost n s
      → Keeps (AtMost (suc n)) (apply_pending host registry text_of function p o s)
  apply_pending-AtMost function p none s h = omega arith
  apply_pending-AtMost function p (some entry) s h =
      run_found-AtMost function (registry function) _ s refl h

  -- with more room for a raise
  room :
      {A : Type 0} (o : Result A × Session W)
      → Keeps (AtMost n) o
      → Ensures (λ _. AtMost n) (AtMost (suc n)) o
  room (ok a, s) h = h
  room (err e, s) h = omega arith
  room (crash, s) h = omega arith

  on_verdict-AtMost :
      (function : String) (p : Pending) (v : Verdict) (s : Session W)
      → AtMost n s
      → Keeps (AtMost (suc n)) (on_verdict host registry text_of function p v s)
  on_verdict-AtMost function p Verdict.affirmative s h =
      Ensures-bind (λ _. AtMost n) _ (AtMost (suc n)) (consume_token host registry p) _
        (drop_pending function s) (room _ (consume_token-AtMost n p (drop_pending function s) h))
        (λ o t k. apply_pending-AtMost function p o t k)
  on_verdict-AtMost function p Verdict.negative s h =
      Keeps-bind (AtMost (suc n)) (consume_token host registry p) _ (drop_pending function s)
        (consume_token-AtMost (suc n) p (drop_pending function s) (omega arith)) (λ o t k. k)
  on_verdict-AtMost function p Verdict.unknown s h = omega arith

  -- An input for a function runs an executor once at most.
  pub on_pending-AtMost :
      (params : Fields) (function : String) (o : Option Pending) (s : Session W)
      → AtMost n s
      → Keeps (AtMost (suc n)) (on_pending host registry text_of params function o s)
  on_pending-AtMost params function none s h = omega arith
  on_pending-AtMost params function (some p) s h =
      let tick = counter.on_clock s.world in
      Ensures-if (λ _. AtMost (suc n)) (AtMost (suc n)) (ltb p.expires_at (host.clock s.world).0) _
        _
        (λ _.
          Keeps-bind (AtMost (suc n)) (consume_token host registry p) _
            (drop_pending function (record s { world = (host.clock s.world).1 }))
            (consume_token-AtMost (suc n) p _ (omega arith)) (λ o t k. k))
        (λ _. on_verdict-AtMost function p _ _ (omega arith))
