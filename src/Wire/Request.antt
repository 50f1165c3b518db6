-- ===== src/Wire/Request.antt =====
-- The inbound side of the transport (afterburner/protocol/transport.py): `read_frame` and
-- `_validate_request`. The decoders of UTF-8 and JSON are Python's.
use text.Mathlib.Text.{◌==◌ as str_eq}
use afterburner_gassist_plug.Base.{
  ℕ, String, ltb, Option, none, some, List, Bool, false, not, if◌then◌else◌,
}
use afterburner_gassist_plug.Value.{Value, null, bool, int, float, str, arr, dict, Fields, end}
use afterburner_gassist_plug.Protocol.Args.{get}
use afterburner_gassist_plug.Wire.Stream.{Reader, Taken, taken, eof, os_error, read_exact, unpack}

-- what `json.loads` does: a value, `ValueError` or `TypeError`, or another exception, as on deep nesting
pub data Loaded : Type 0 where
  loaded : Value → Loaded
  malformed unloaded : Loaded

-- `raw.decode("utf-8")`, `json.loads(text)` and `json.dumps(body, ensure_ascii=False).encode("utf-8")`
pub record Codec : Type 0 where
  pub utf8 : List ℕ → Option String
  pub loads : String → Loaded
  pub dumps : Value → Option (List ℕ)

abbrev pub max_frame_bytes : ℕ
max_frame_bytes = 10485760

-- the reasons of a `ProtocolError`
pub data Fault : Type 0 where
  too_long : ℕ → Fault
  not_utf8 not_json not_an_object bad_version no_method bad_params : Fault

-- what `read_frame` gives: a request (method, params and id), `ProtocolError`, `EOFError`, `OSError` or
-- another exception
pub data Inbound : Type 0 where
  request : String → Fields → Value → Inbound
  fault : Fault → Inbound
  closed failed escaped : Inbound

abbrev is_version_2 : Option Value → Bool
is_version_2 (some (str s)) = str_eq s "2.0"
is_version_2 (some null) = false
is_version_2 (some (bool _)) = false
is_version_2 (some (int _)) = false
is_version_2 (some (float _)) = false
is_version_2 (some (arr _)) = false
is_version_2 (some (dict _)) = false
is_version_2 none = false

abbrev method_of : Option Value → Option String
method_of (some (str s)) = if str_eq s "" then none else some s
method_of (some null) = none
method_of (some (bool _)) = none
method_of (some (int _)) = none
method_of (some (float _)) = none
method_of (some (arr _)) = none
method_of (some (dict _)) = none
method_of none = none

abbrev params_of : Option Value → Option Fields
params_of none = some end
params_of (some (dict fs)) = some fs
params_of (some (str _)) = none
params_of (some null) = none
params_of (some (bool _)) = none
params_of (some (int _)) = none
params_of (some (float _)) = none
params_of (some (arr _)) = none

-- a key that is absent reads as `None`
abbrev pub or_null : Option Value → Value
or_null none = null
or_null (some v) = v

abbrev validate_fields : Fields → Inbound
validate_fields obj =
    if not (is_version_2 (get "jsonrpc" obj))
    then fault bad_version
    else elim (method_of (get "method" obj)) [
      | none ↦ fault no_method
      | some method ↦ elim (params_of (get "params" obj)) [
        | none ↦ fault bad_params
        | some params ↦ request method params (or_null (get "id" obj))
      ]
    ]

unfoldable pub validate_request : Value → Inbound
validate_request (dict obj) = validate_fields obj
validate_request null = fault not_an_object
validate_request (bool _) = fault not_an_object
validate_request (int _) = fault not_an_object
validate_request (float _) = fault not_an_object
validate_request (str _) = fault not_an_object
validate_request (arr _) = fault not_an_object

-- the part of `read_frame` after the payload is read
unfoldable pub decode_payload : Codec → List ℕ → Inbound
decode_payload c raw = elim (c.utf8 raw) [
  | none ↦ fault not_utf8
  | some text ↦ elim (c.loads text) [
    | loaded obj ↦ validate_request obj
    | malformed ↦ fault not_json
    | unloaded ↦ escaped
  ]
]

module _ {R : Type 0} (reader : Reader R) (c : Codec) where
  abbrev pub read_payload : Taken (List ℕ) × R → Inbound × R
  read_payload (taken raw, s) = (decode_payload c raw, s)
  read_payload (eof, s) = (closed, s)
  read_payload (os_error, s) = (failed, s)

  abbrev pub read_body : Taken (List ℕ) × R → Inbound × R
  read_body (taken header, s) =
      if ltb max_frame_bytes (unpack header)
      then (fault (too_long (unpack header)), s)
      else read_payload (read_exact reader (unpack header) s)
  read_body (eof, s) = (closed, s)
  read_body (os_error, s) = (failed, s)

  unfoldable pub read_frame : R → Inbound × R
  read_frame s = read_body (read_exact reader 4 s)
