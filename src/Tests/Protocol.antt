-- ===== src/Tests/Protocol.antt =====
-- The confirmation of a fan change on the bench.
use afterburner_gassist_plug.Base.{
  ℕ, suc, ◌≤◌, ap, none, ◌≡◌, refl, arith, String, true, false, Option, some, [], ◌∷◌,
}
use afterburner_gassist_plug.Int.{ℤ, pos}
use afterburner_gassist_plug.Float.{fin}
use afterburner_gassist_plug.Value.{Value, float, str, Fields, end, field}
use afterburner_gassist_plug.Dict.{string_eq}
use afterburner_gassist_plug.Exec.{Exec, ok}
use afterburner_gassist_plug.Exec.Hoare.{Keeps}
use afterburner_gassist_plug.Safety.Policy.{ConfirmToken, requires_confirmation, risk_for}
use afterburner_gassist_plug.Protocol.Verdict.{Verdict, verdict}
use afterburner_gassist_plug.Protocol.Args.{extract_args}
use afterburner_gassist_plug.Protocol.Confirm.{
  Session, Pending, Reply, completed, verdict_of, handle_input, risky, execute,
}
use afterburner_gassist_plug.Protocol.Confirm.Frame.{PromptFrame}
use afterburner_gassist_plug.Protocol.Confirm.Gate.{Gated, handle_input-Gated}
use afterburner_gassist_plug.Protocol.Confirm.Once.{handle_input_once}
use afterburner_gassist_plug.Protocol.Confirm.Runs.{Counter}
use afterburner_gassist_plug.Protocol.Confirm.RoundTrip.{prompted, handle_input-issue}
use afterburner_gassist_plug.Protocol.Confirm.Risky.{TokenGated, risky-TokenGated, execute-Keeps}
use afterburner_gassist_plug.Dict.{erase}
use afterburner_gassist_plug.Protocol.Args.{without, set_default}
use afterburner_gassist_plug.Protocol.Confirm.{run_found}
use afterburner_gassist_plug.Tests.Bench.{Bench, start, exact, bench, host, gpu}

-- the only executor sets the fan
abbrev registry : String → Option (Fields → ℤ → Exec Bench String)
registry function = some (λ args g w. (ok "done", record w { writes = suc w.writes }))

abbrev text_of : Value → String
text_of v = ""

abbrev fresh : Bench → String × Bench
fresh w = ("t", w)

abbrev args : Fields
args = field "percent" (float (fin (pos 7))) end

abbrev waiting : Pending
waiting = record { args = args; expires_at = 60; gpu = gpu; token = "t" }

abbrev token : ConfirmToken
token = record {
  token = "t";
  function = "set_fan_percent";
  safe_value = fin (pos 7);
  expires_at = 300;
}

abbrev session : Session Bench
session = record {
  world = start;
  tokens = ("t", token) ∷ [];
  pending = ("set_fan_percent", waiting) ∷ [];
  keep_session = true;
}

abbrev yes : Fields
yes = field "function" (str "set_fan_percent") (field "content" (str " Yes, please!") end)

-- nothing has been written
abbrev Unwritten : Bench → Type 0
Unwritten w = w.writes ≡ 0

verdicts :
    (verdict " Yes, please!" ≡ Verdict.affirmative)
    × (verdict "CANCEL." ≡ Verdict.negative)
    × (verdict "why not" ≡ Verdict.unknown)
unfolding verdict
verdicts = (refl, refl, refl)

frame : PromptFrame (bench 3 9 5 1) host 10 Unwritten
frame = record {
  reads = λ g. record {
    on_clock = λ w h. h;
    on_detect = λ w h. h;
    on_capabilities = λ w h. h;
    fits = λ w caps h e. tt;
    fits_none = tt;
  };
  on_tuning = λ g w h. h;
}

handle_input-Gated_example :
    Gated host registry text_of Unwritten
      (λ w h. h)
      yes
      (record session { keep_session = false })
      (handle_input host registry text_of yes session)
handle_input-Gated_example =
    handle_input-Gated host registry text_of Unwritten (λ w h. h) yes session refl

abbrev writes_after : Option (Fields → ℤ → Exec Bench String) → Fields → ℤ → Bench → ℕ
writes_after none a g w = 0
writes_after (some executor) a g w = (executor a g w).1.writes

-- every run of the only executor is a write
writes-Counter : Counter host registry (λ w. w.writes)
writes-Counter = record {
  on_clock = λ w. refl;
  on_executor = λ f executor args g w e. let k = ap (λ o. writes_after o args g w) e in omega arith;
}

handle_input_once_example :
    (handle_input host registry text_of yes (handle_input host registry text_of yes session).1 ≡ (
      ok (completed Reply.not_awaiting false ∷ []),
      record (handle_input host registry text_of yes session).1 { keep_session = false },
    ))
    × ((handle_input host registry text_of yes
          (handle_input host registry text_of yes session).1).1.world.writes
        ≤ suc 0)
unfolding verdict_of verdict
handle_input_once_example =
    handle_input_once host registry text_of "set_fan_percent" yes yes session writes-Counter refl
      refl (λ e. cc)

risky-TokenGated_example :
    TokenGated host registry text_of
      (bench 3 9 5 1)
      10
      exact
      (fin (pos 1))
      fresh
      Unwritten
      frame
      (λ w h. h)
      "set_fan_percent"
      args
      "t"
      session
      (risky host registry text_of
        (bench 3 9 5 1)
        10
        exact
        (fin (pos 1))
        fresh
        "set_fan_percent"
        args
        (some (str "t"))
        session)
risky-TokenGated_example =
    risky-TokenGated host registry text_of (bench 3 9 5 1) 10 exact (fin (pos 1)) fresh Unwritten
      frame (λ w h. h) "set_fan_percent" args (str "t") session refl

handle_input-issue_example :
    handle_input host registry text_of yes (
      prompted host registry text_of
        (bench 3 9 5 1)
        10
        exact
        (fin (pos 1))
        fresh
        "set_fan_percent"
        args
        gpu
        (fin (pos 7))
        session)
    ≡ run_found host registry
        (registry "set_fan_percent")
        (set_default "__function" (str "set_fan_percent") (without ("__function" ∷ []) args))
        (record (prompted host registry text_of
          (bench 3 9 5 1)
          10
          exact
          (fin (pos 1))
          fresh
          "set_fan_percent"
          args
          gpu
          (fin (pos 7))
          session) {
            world = start;
            tokens =
                erase "t"
                  (prompted host registry text_of
                    (bench 3 9 5 1)
                    10
                    exact
                    (fin (pos 1))
                    fresh
                    "set_fan_percent"
                    args
                    gpu
                    (fin (pos 7))
                    session).tokens;
            pending =
                erase "set_fan_percent"
                  (prompted host registry text_of
                    (bench 3 9 5 1)
                    10
                    exact
                    (fin (pos 1))
                    fresh
                    "set_fan_percent"
                    args
                    gpu
                    (fin (pos 7))
                    session).pending;
            keep_session = false;
          })
unfolding verdict_of verdict
handle_input-issue_example =
    handle_input-issue host registry text_of (bench 3 9 5 1) 10 exact (fin (pos 1)) fresh yes
      "set_fan_percent" args gpu (fin (pos 7)) session refl refl refl (omega arith) (omega arith)

abbrev request : Fields
request = field "function" (str "set_fan_percent") args

execute-Keeps_example :
    Keeps
      (λ t. Unwritten t.world)
      (execute host registry text_of (bench 3 9 5 1) 10 exact (fin (pos 1)) fresh request session)
unfolding requires_confirmation risk_for extract_args
execute-Keeps_example =
    execute-Keeps host registry text_of (bench 3 9 5 1) 10 exact (fin (pos 1)) fresh Unwritten frame
      (λ w h. h) "set_fan_percent" request session refl refl refl refl
