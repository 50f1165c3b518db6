-- ===== src/Wire/Loop.antt =====
-- The message loop of the transport (`run` of afterburner/protocol/transport.py).
use afterburner_gassist_plug.Base.{
  ℕ, zero, suc, ◌+◌, String, Bool, true, false, List, [], ◌∷◌, if◌then◌else◌,
}
use afterburner_gassist_plug.Int.{negsuc}
use afterburner_gassist_plug.Exec.{Exec, ok, crash, lift, pure, ◌>>=◌, ◌>>◌}
use afterburner_gassist_plug.Value.{Value, null, Fields}
use afterburner_gassist_plug.Wire.Stream.{Reader}
use afterburner_gassist_plug.Wire.Request.{
  Codec, Fault, Inbound, request, fault, closed, failed, escaped, read_frame,
}
use afterburner_gassist_plug.Wire.Message.{Service, error, code_of, write_message}

-- how the handler ends: with messages and whether to stop, or with an exception, kept as the text
-- `handler error: …` of the answer to it
pub data Handled : Type 0 where
  handled : List Fields → Bool → Handled
  raised : String → Handled

-- `text` gives the message of a `ProtocolError`.
module _ {H : Type 0} (c : Codec) (text : Fault → String)
    (handler : String → Fields → Value → H → Handled × H) where
  abbrev pub count_error : Exec (Service H) (Unit {0})
  count_error v = (ok tt, record v { errors_handled = v.errors_handled + 1 })

  unfoldable pub write_all : List Fields → Exec (Service H) (Unit {0})
  write_all [] = pure tt
  write_all (m ∷ ms) = write_message c m >> write_all ms

  -- the part after the handler's call; the value is whether to stop
  abbrev pub finish : Value → Handled → Exec (Service H) Bool
  finish id (handled messages stop) = write_all messages >> pure stop
  finish id (raised e) = count_error >> (write_all (error id (negsuc 0) e ∷ []) >> pure false)

  abbrev pub handle : String → Fields → Value → Exec (Service H) Bool
  handle method params id v =
      let (h, state) = handler method params id v.handler_state in
      finish id h (record v { requests_seen = v.requests_seen + 1; handler_state = state })

  -- One pass of the loop after its read.
  unfoldable pub respond : Inbound → Exec (Service H) Bool
  respond (request method params id) = handle method params id
  respond (fault f) =
      count_error >> (write_message c (error null (code_of f) (text f)) >> pure false)
  respond closed = pure true
  respond failed = pure true
  respond escaped = lift crash

  -- The loop on fuel; false is that the fuel ran out. It returns 0 where it ends.
  unfoldable pub run : {R : Type 0} → Reader R → ℕ → R → Exec (Service H) Bool
  run reader zero s = pure false
  run reader (suc fuel) s =
      let (i, s1) = read_frame reader c s in
      respond i >>= λ stop. if stop then pure true else run reader fuel s1
