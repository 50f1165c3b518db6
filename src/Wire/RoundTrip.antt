-- ===== src/Wire/RoundTrip.antt =====
-- A message that is written and read back (afterburner/protocol/transport.py).
use text.Mathlib.Text.{◌==◌ as str_eq}
use afterburner_gassist_plug.Base.{
  ℕ, ◌≡◌, ◌≤◌, refl, ◌∙◌, String, true, false, List, ◌++◌, length, ◌^◌, ltb, arith, some,
}
use afterburner_gassist_plug.Exec.{ok}
use afterburner_gassist_plug.Value.{Value, null, str, dict, Fields, end, field}
use afterburner_gassist_plug.Wire.Stream.{Reader, IsReader}
use afterburner_gassist_plug.Wire.Request.{
  Codec, loaded, request, decode_payload, validate_request, max_frame_bytes, read_frame,
}
use afterburner_gassist_plug.Wire.Message.{Service, frame, body, notification, write_message}
use afterburner_gassist_plug.Wire.Frames.{read_frame-frame}

-- the body of a notification on the wire
abbrev pub notification_body : String → Fields → Value
notification_body method params =
    dict
      (field "jsonrpc" (str "2.0") (field "method" (str method) (field "params" (dict params) end)))

-- For a notification with a method that is not empty and a dict of params, whose body serialises to
-- `raw`, of at most 10,485,760 bytes, and for decoders that give the body back from `raw`:
-- `write_message` appends the frame of `raw` to the output, and `read_frame` on a stream that begins
-- with that frame gives the method and the params, with no id, and leaves what follows.
pub write_message-read_frame :
    {R H : Type 0} (reader : Reader R) (law : IsReader reader) (c : Codec) (method t : String)
    (params : Fields) (raw rest : List ℕ) (v : Service H) (s : R)
    → str_eq method "" ≡ false
    → c.dumps (notification_body method params) ≡ some raw
    → length raw ≤ max_frame_bytes
    → c.utf8 raw ≡ some t
    → c.loads t ≡ loaded (notification_body method params)
    → reader.content s ≡ frame raw ++ rest
    → (write_message c (notification method (dict params)) v
        ≡ (ok tt, record v { output = v.output ++ frame raw }))
      × ((read_frame reader c s).0 ≡ request method params null)
      × (reader.content (read_frame reader c s).1 ≡ rest)
unfolding write_message body decode_payload validate_request
write_message-read_frame reader law c method t params raw rest v s m d short u l h =
    let (e, k) = read_frame-frame reader law c raw rest s short h in
    let fits : ltb (length raw) (2 ^ 32) ≡ true = ground arith in
    let decoded : decode_payload c raw ≡ request method params null =
      rw (decode_payload, u, l, m) refl in
    (rw (d, fits) refl, e ∙ decoded, k)
