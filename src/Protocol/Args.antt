-- ===== src/Protocol/Args.antt =====
-- The arguments of a request (afterburner/protocol/plugin.py): `_extract_args`, `_gpu_of` and
-- `_require_number`. A Python dict is its fields in order, each key once.
use text.Mathlib.Text.{◌==◌}
use afterburner_gassist_plug.Base.{
  String, Bool, true, false, not, Option, none, some, List, [], ◌∷◌, if◌then◌else◌,
}
use afterburner_gassist_plug.Int.{ℤ, pos, eqb_ℤ}
use afterburner_gassist_plug.Float.{Float, whole, is_finite, float_eq, Rounding}
use afterburner_gassist_plug.Dict.{string_eq, elem}
use afterburner_gassist_plug.Exec.{Result, ok, err, crash, ErrorCode}
use afterburner_gassist_plug.Value.{
  Value, null, bool, int, float, str, arr, dict, nil, cons, Fields, end, field,
}

-- `params.get(key)`; an absent key is `none`, a present `None` is `some null`.
abbrev pub get : String → Fields → Option Value
get key end = none
get key (field k v fs) = if k == key then some v else get key fs

-- `d[key] = value`
abbrev pub put : String → Value → Fields → Fields
put key value end = field key value end
put key value (field k v fs) = if k == key then field k value fs else field k v (put key value fs)

-- The fields whose key is not among `keys`.
abbrev pub without : List String → Fields → Fields
without keys end = end
without keys (field k v fs) =
    let rest = without keys fs in if elem k keys then rest else field k v rest

-- `{**a, **b}`
abbrev pub merge : Fields → Fields → Fields
merge a end = a
merge a (field k v fs) = merge (put k v a) fs

abbrev default : String → Value → Option Value → Fields → Fields
default key value none fs = put key value fs
default key value (some _) fs = fs

-- `args.setdefault(key, value)`
unfoldable pub set_default : String → Value → Fields → Fields
set_default key value fs = default key value (get key fs) fs

-- `bool(value)`
abbrev pub truthy : Value → Bool
truthy null = false
truthy (bool b) = b
truthy (int n) = not (eqb_ℤ n (pos 0))
truthy (float x) = not (float_eq x (whole 0))
truthy (str s) = not (s == "")
truthy (arr nil) = false
truthy (arr (cons _ _)) = true
truthy (dict end) = false
truthy (dict (field _ _ _)) = true

abbrev as_fields : Option Value → Fields
as_fields (some (dict fs)) = fs
as_fields (some null) = end
as_fields (some (bool _)) = end
as_fields (some (int _)) = end
as_fields (some (float _)) = end
as_fields (some (str _)) = end
as_fields (some (arr _)) = end
as_fields none = end

-- `params.get("arguments") or params.get("params", {})`, made a dict
abbrev nested : Fields → Option Value → Fields
nested params none = as_fields (get "params" params)
nested params (some v) = if truthy v then as_fields (some v) else as_fields (get "params" params)

abbrev reserved : List String
reserved =
    "function" ∷ "name" ∷ "params" ∷ "arguments" ∷ "context" ∷ "system_info" ∷ "confirm_token" ∷ []

-- `None` is no token.
abbrev token_of : Option Value → Option Value
token_of none = none
token_of (some null) = none
token_of (some (bool b)) = some (bool b)
token_of (some (int n)) = some (int n)
token_of (some (float x)) = some (float x)
token_of (some (str s)) = some (str s)
token_of (some (arr xs)) = some (arr xs)
token_of (some (dict fs)) = some (dict fs)

abbrev first_of : Option Value → Option Value → Option Value
first_of none v = v
first_of (some u) v = some u

-- `_extract_args`: the arguments, and the token unless it is `None`
unfoldable pub extract_args : Fields → Fields × Option Value
extract_args params =
    let args = merge (without reserved params) (nested params (get "arguments" params)) in
    (
      without ("confirm_token" ∷ []) args,
      token_of (first_of (get "confirm_token" params) (get "confirm_token" args)),
    )

abbrev gpu_index : Option Value → Result ℤ
gpu_index none = ok (pos 0)
gpu_index (some (int n)) = ok n
gpu_index (some null) = err ErrorCode.invalid_value
gpu_index (some (bool _)) = err ErrorCode.invalid_value
gpu_index (some (float _)) = err ErrorCode.invalid_value
gpu_index (some (str _)) = err ErrorCode.invalid_value
gpu_index (some (arr _)) = err ErrorCode.invalid_value
gpu_index (some (dict _)) = err ErrorCode.invalid_value

-- `_gpu_of`
unfoldable pub gpu_of : Fields → Result ℤ
gpu_of args = gpu_index (get "gpu_index" args)

module _ (rnd : Rounding) where
  -- `float(value)`: a text that is not a number and a value that is none raise; an integer that is
  -- too large is an `OverflowError`.
  abbrev pub to_float : Option Value → Result Float
  to_float none = err ErrorCode.invalid_value
  to_float (some null) = err ErrorCode.invalid_value
  to_float (some (bool b)) = ok (if b then whole 1 else whole 0)
  to_float (some (int n)) = elim (rnd.of_int n) [ none ↦ crash | some x ↦ ok x ]
  to_float (some (float x)) = ok x
  to_float (some (str s)) = elim (rnd.of_text s) [
    | none ↦ err ErrorCode.invalid_value
    | some x ↦ ok x
  ]
  to_float (some (arr _)) = err ErrorCode.invalid_value
  to_float (some (dict _)) = err ErrorCode.invalid_value

  abbrev pub finite : Result Float → Result Float
  finite (ok x) = if is_finite x then ok x else err ErrorCode.invalid_value
  finite (err e) = err e
  finite crash = crash

  -- `_require_number`
  unfoldable pub require_number : Fields → String → Result Float
  require_number args key = finite (to_float (get key args))
