-- ===== src/Wire/Message.antt =====
-- The outbound side of the transport (afterburner/protocol/transport.py): the wire shapes and
-- `write_message`.
use afterburner_gassist_plug.Base.{
  ℕ, String, ltb, length, ◌^◌, ◌++◌, Option, none, some, List, if◌then◌else◌,
}
use afterburner_gassist_plug.Int.{ℤ, negsuc}
use afterburner_gassist_plug.Exec.{Exec, ok, crash}
use afterburner_gassist_plug.Value.{Value, int, str, dict, Fields, end, field}
use afterburner_gassist_plug.Protocol.Args.{get}
use afterburner_gassist_plug.Wire.Stream.{pack}
use afterburner_gassist_plug.Wire.Request.{
  Codec, or_null, Fault, too_long, not_utf8, not_json, not_an_object, bad_version, no_method,
  bad_params,
}

abbrev pub parse_error : ℤ
parse_error = negsuc 32699

abbrev pub invalid_request : ℤ
invalid_request = negsuc 32599

-- the code of a `ProtocolError`
abbrev pub code_of : Fault → ℤ
code_of (too_long _) = parse_error
code_of not_utf8 = parse_error
code_of not_json = parse_error
code_of not_an_object = invalid_request
code_of bad_version = invalid_request
code_of no_method = invalid_request
code_of bad_params = invalid_request

-- `response`
abbrev pub response : Value → Value → Fields
response id result = field "id" id (field "result" result end)

-- `error`
abbrev pub error : Value → ℤ → String → Fields
error id code message =
    field "id" id
      (field "error" (dict (field "code" (int code) (field "message" (str message) end))) end)

-- `notification`
abbrev pub notification : String → Value → Fields
notification method params = field "method" (str method) (field "params" params end)

abbrev or_empty : Option Value → Value
or_empty none = dict end
or_empty (some v) = v

-- the body of a message, by the first of its keys; `none` is the `ValueError`
unfoldable pub body : Fields → Option Fields
body message = elim (get "error" message) [
  | some e ↦
      some (
        field "jsonrpc" (str "2.0") (field "id" (or_null (get "id" message)) (field "error" e end)))
  | none ↦ elim (get "result" message) [
    | some r ↦ some (
        field "jsonrpc" (str "2.0")
          (field "id" (or_null (get "id" message)) (field "result" r end)))
    | none ↦ elim (get "method" message) [
      | some m ↦ some (
          field "jsonrpc" (str "2.0")
            (field "method" m (field "params" (or_empty (get "params" message)) end)))
      | none ↦ none
    ]
  ]
]

-- What the transport keeps beside its reader: the bytes written, its counters and the handler's state.
pub record Service (H : Type 0) : Type 0 where
  pub output : List ℕ
  pub requests_seen : ℕ
  pub errors_handled : ℕ
  pub handler_state : H

-- a payload behind its length
abbrev pub frame : List ℕ → List ℕ
frame raw = pack (length raw) ++ raw

-- `struct.error` for a length of more than 32 bits
abbrev pub framed : Option (List ℕ) → Option (List ℕ)
framed none = none
framed (some raw) = if ltb (length raw) (2 ^ 32) then some (frame raw) else none

abbrev pub encode : Codec → Option Fields → Option (List ℕ)
encode c none = none
encode c (some fs) = framed (c.dumps (dict fs))

module _ {H : Type 0} (c : Codec) where
  abbrev pub append_output : Option (List ℕ) → Exec (Service H) (Unit {0})
  append_output none v = (crash, v)
  append_output (some bytes) v = (ok tt, record v { output = v.output ++ bytes })

  unfoldable pub write_message : Fields → Exec (Service H) (Unit {0})
  write_message message = append_output (encode c (body message))
