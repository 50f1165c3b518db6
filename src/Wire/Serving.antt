-- ===== src/Wire/Serving.antt =====
-- What the message loop is for (afterburner/protocol/transport.py), as a relation between the payloads and
-- what they lead to.
use afterburner_gassist_plug.Base.{
  ℕ, ◌+◌, ◌<◌, ◌^◌, ◌≡◌, refl, sym, subst, String, Bool, true, false, Option, none, some, List, [],
  ◌∷◌, ◌++◌, length, arith, if◌then◌else◌,
}
use afterburner_gassist_plug.Int.{negsuc}
use afterburner_gassist_plug.Exec.{ErrorCode, Result, ok, err, crash, continue, pure, ◌>>=◌, ◌>>◌}
use afterburner_gassist_plug.Value.{Value, null, dict, Fields}
use afterburner_gassist_plug.Wire.Stream.{Reader, IsReader}
use afterburner_gassist_plug.Wire.Request.{
  Codec, loaded, malformed, unloaded, Loaded, Fault, not_utf8, not_json, Inbound, request, fault,
  closed, failed, escaped, validate_request, decode_payload,
}
use afterburner_gassist_plug.Wire.Message.{
  Service, frame, body, error, code_of, framed, encode, append_output, write_message,
}
use afterburner_gassist_plug.Wire.Loop.{Handled, handled, raised, finish, run, respond, write_all}
use afterburner_gassist_plug.Wire.Frames.{frames, AreShort, serve, run-serve}

module _ {H : Type 0} (c : Codec) (text : Fault → String)
    (handler : String → Fields → Value → H → Handled × H) where
  -- what a payload is: a fault, a request, or an exception that the loop does not catch
  pub data IsDecoded (raw : List ℕ) : Inbound → Type 0 where
    undecodable : c.utf8 raw ≡ none → IsDecoded raw (fault not_utf8)
    unparsable :
        (t : String) → c.utf8 raw ≡ some t → c.loads t ≡ malformed → IsDecoded raw (fault not_json)
    overflow : (t : String) → c.utf8 raw ≡ some t → c.loads t ≡ unloaded → IsDecoded raw escaped
    validated :
        (t : String) (obj : Value)
        → c.utf8 raw ≡ some t
        → c.loads t ≡ loaded obj
        → IsDecoded raw (validate_request obj)

  -- The messages that answer a request or a fault, whether to stop, and the state after the handler.
  pub data IsAnswered (v : Service H) : Inbound → List Fields → Bool → Service H → Type 0 where
    refused :
        (f : Fault)
        → IsAnswered v
            (fault f)
            (error null (code_of f) (text f) ∷ [])
            false
            (record v { errors_handled = v.errors_handled + 1 })
    answered :
        (method : String) (params : Fields) (id : Value) (ms : List Fields) (stop : Bool) (h : H)
        → handler method params id v.handler_state ≡ (handled ms stop, h)
        → IsAnswered v
            (request method params id)
            ms
            stop
            (record v { requests_seen = v.requests_seen + 1; handler_state = h })
    excepted :
        (method : String) (params : Fields) (id : Value) (e : String) (h : H)
        → handler method params id v.handler_state ≡ (raised e, h)
        → IsAnswered v (request method params id) (error id (negsuc 0) e ∷ []) false (record v {
          requests_seen = v.requests_seen + 1;
          errors_handled = v.errors_handled + 1;
          handler_state = h;
        })

  -- The frames of the messages are written in order, until one cannot be encoded.
  pub data IsSent : List Fields → Service H → Result (Unit {0}) × Service H → Type 0 where
    all_sent : (v : Service H) → IsSent [] v (ok tt, v)
    written :
        (m : Fields) (ms : List Fields) (v : Service H) (o : Result (Unit {0}) × Service H)
        (b : Fields) (raw : List ℕ)
        → body m ≡ some b
        → c.dumps (dict b) ≡ some raw
        → length raw < 2 ^ 32
        → IsSent ms (record v { output = v.output ++ frame raw }) o
        → IsSent (m ∷ ms) v o
    unwritten :
        (m : Fields) (ms : List Fields) (v : Service H)
        → encode c (body m) ≡ none
        → IsSent (m ∷ ms) v (crash, v)

  -- Each payload is answered in its order, a bad one with its error, until an answer stops the loop, a
  -- message cannot be written, a payload raises what is not caught, or the payloads end.
  pub data IsServed : List (List ℕ) → Service H → Result Bool × Service H → Type 0 where
    ended : (v : Service H) → IsServed [] v (ok true, v)
    broken :
        (raw : List ℕ) (rest : List (List ℕ)) (v : Service H)
        → IsDecoded raw escaped
        → IsServed (raw ∷ rest) v (crash, v)
    served :
        (raw : List ℕ) (rest : List (List ℕ)) (v : Service H) (i : Inbound) (ms : List Fields)
        (v1 v2 : Service H) (o : Result Bool × Service H)
        → IsDecoded raw i
        → IsAnswered v i ms false v1
        → IsSent ms v1 (ok tt, v2)
        → IsServed rest v2 o
        → IsServed (raw ∷ rest) v o
    stopped :
        (raw : List ℕ) (rest : List (List ℕ)) (v : Service H) (i : Inbound) (ms : List Fields)
        (v1 v2 : Service H)
        → IsDecoded raw i
        → IsAnswered v i ms true v1
        → IsSent ms v1 (ok tt, v2)
        → IsServed (raw ∷ rest) v (ok true, v2)
    unsent :
        (raw : List ℕ) (rest : List (List ℕ)) (v : Service H) (i : Inbound) (ms : List Fields)
        (stop : Bool) (v1 v2 : Service H)
        → IsDecoded raw i
        → IsAnswered v i ms stop v1
        → IsSent ms v1 (crash, v2)
        → IsServed (raw ∷ rest) v (crash, v2)

  decode_payload-IsDecoded : (raw : List ℕ) → IsDecoded raw (decode_payload c raw)
  unfolding decode_payload
  decode_payload-IsDecoded raw = texted (c.utf8 raw) refl
    where
      parsed :
          (t : String) (o : Loaded)
          → c.utf8 raw ≡ some t
          → c.loads t ≡ o
          → IsDecoded raw (elim o [
            | loaded obj ↦ validate_request obj
            | malformed ↦ fault not_json
            | unloaded ↦ escaped
          ])
      parsed t (loaded obj) u l = validated t obj u l
      parsed t malformed u l = unparsable t u l
      parsed t unloaded u l = overflow t u l

      texted :
          (o : Option String)
          → c.utf8 raw ≡ o
          → IsDecoded raw (elim o [
            | none ↦ fault not_utf8
            | some text ↦ elim (c.loads text) [
              | loaded obj ↦ validate_request obj
              | malformed ↦ fault not_json
              | unloaded ↦ escaped
            ]
          ])
      texted none u = undecodable u
      texted (some t) u = parsed t (c.loads t) u refl

  -- what a payload can be
  abbrev is_answerable : Inbound → Bool
  is_answerable (request _ _ _) = true
  is_answerable (fault _) = true
  is_answerable closed = false
  is_answerable failed = false
  is_answerable escaped = true

  validate_request-is_answerable : (obj : Value) → is_answerable (validate_request obj) ≡ true
  unfolding validate_request
  validate_request-is_answerable obj = ground arith

  IsDecoded-is_answerable : (raw : List ℕ) (i : Inbound) → IsDecoded raw i → is_answerable i ≡ true
  IsDecoded-is_answerable raw i (undecodable u) = refl
  IsDecoded-is_answerable raw i (unparsable t u l) = refl
  IsDecoded-is_answerable raw i (overflow t u l) = refl
  IsDecoded-is_answerable raw i (validated t obj u l) = validate_request-is_answerable obj

  framed-frame :
      (o : Option (List ℕ)) (bytes : List ℕ)
      → framed o ≡ some bytes
      → (raw : List ℕ) × (o ≡ some raw) × (length raw < 2 ^ 32) × (bytes ≡ frame raw)
  framed-frame none bytes h = absurd (cc)
  framed-frame (some raw) bytes h = (raw, refl, ground arith, ground arith)

  encode-frame :
      (o : Option Fields) (bytes : List ℕ)
      → encode c o ≡ some bytes
      → (b : Fields) × (raw : List ℕ) × (o ≡ some b)
        × (c.dumps (dict b) ≡ some raw)
        × (length raw < 2 ^ 32)
        × (bytes ≡ frame raw)
  encode-frame none bytes h = absurd (cc)
  encode-frame (some b) bytes h =
      let (raw, d, lt, e) = framed-frame (c.dumps (dict b)) bytes h in (b, raw, refl, d, lt, e)

  written_first :
      (m : Fields) (ms : List Fields) (v : Service H) (o : Option (List ℕ))
      → encode c (body m) ≡ o
      → ((v' : Service H) → IsSent ms v' (write_all c text handler ms v'))
      → IsSent (m ∷ ms) v ((append_output c o >> write_all c text handler ms) v)
  written_first m ms v none e k = unwritten m ms v e
  written_first m ms v (some bytes) e k =
      let (b, raw, e1, e2, lt, same) = encode-frame (body m) bytes e in
      written m ms v _ b raw e1 e2 lt (
        subst
          (λ x.
            IsSent ms (record v { output = v.output ++ x })
              (write_all c text handler ms (record v { output = v.output ++ bytes })))
          same (k (record v { output = v.output ++ bytes })))

  write_all-IsSent :
      (ms : List Fields) (v : Service H) → IsSent ms v (write_all c text handler ms v)
  unfolding write_all write_message
  write_all-IsSent [] v = all_sent v
  write_all-IsSent (m ∷ ms) v =
      written_first m ms v (encode c (body m)) refl (λ v'. write_all-IsSent ms v')

  one_written :
      (m : Fields) (v : Service H) (o : Option (List ℕ))
      → encode c (body m) ≡ o
      → IsSent (m ∷ []) v (append_output c o v)
  one_written m v none e = unwritten m [] v e
  one_written m v (some bytes) e =
      let (b, raw, e1, e2, lt, same) = encode-frame (body m) bytes e in
      written m [] v _ b raw e1 e2 lt (
        subst
          (λ x.
            IsSent [] (record v { output = v.output ++ x })
              (ok tt, record v { output = v.output ++ bytes }))
          same (all_sent (record v { output = v.output ++ bytes })))

  write_message-IsSent : (m : Fields) (v : Service H) → IsSent (m ∷ []) v (write_message c m v)
  unfolding write_message
  write_message-IsSent m v = one_written m v (encode c (body m)) refl

  IsSent-not_err :
      (ms : List Fields) (v : Service H) (e : ErrorCode) (v2 : Service H)
      → IsSent ms v (err e, v2)
      → ⊥
  IsSent-not_err ms v e v2 (written m rest _ _ b raw h d lt k) = IsSent-not_err rest _ e v2 k

  module _ (raw : List ℕ) (rest : List (List ℕ))
      (later : (v : Service H) → IsServed rest v (serve c text handler rest v)) where
    -- from the outcome of the writes to that of the pass and of what follows
    writes-IsServed :
        (v : Service H) (i : Inbound) (ms : List Fields) (stop : Bool) (v1 : Service H)
        (o : Result (Unit {0}) × Service H)
        → IsDecoded raw i
        → IsAnswered v i ms stop v1
        → IsSent ms v1 o
        → IsServed (raw ∷ rest) v (
            continue
              (continue o.0 (λ _. pure stop) o.1).0
              (λ b. if b then pure true else serve c text handler rest)
              (continue o.0 (λ _. pure stop) o.1).1)
    writes-IsServed v i ms true v1 (ok _, v2) d a w = stopped raw rest v i ms v1 v2 d a w
    writes-IsServed v i ms false v1 (ok _, v2) d a w =
        served raw rest v i ms v1 v2 _ d a w (later v2)
    writes-IsServed v i ms stop v1 (err e, v2) d a w = absurd (IsSent-not_err ms v1 e v2 w)
    writes-IsServed v i ms stop v1 (crash, v2) d a w = unsent raw rest v i ms stop v1 v2 d a w

    handled-IsServed :
        (method : String) (params : Fields) (id : Value) (v : Service H) (o : Handled × H)
        → IsDecoded raw (request method params id)
        → handler method params id v.handler_state ≡ o
        → IsServed (raw ∷ rest) v (
            (finish c text handler id o.0 >>= λ b.
            if b then pure true else serve c text handler rest)
              (record v { requests_seen = v.requests_seen + 1; handler_state = o.1 }))
    handled-IsServed method params id v (handled ms stop, h) d e =
        let v1 = record v { requests_seen = v.requests_seen + 1; handler_state = h } in
        writes-IsServed v (request method params id) ms stop v1 (write_all c text handler ms v1) d
          (answered method params id ms stop h e) (write_all-IsSent ms v1)
    handled-IsServed method params id v (raised x, h) d e =
        let v1 = record v {
          requests_seen = v.requests_seen + 1;
          errors_handled = v.errors_handled + 1;
          handler_state = h;
        } in
        let ms = error id (negsuc 0) x ∷ [] in
        writes-IsServed v (request method params id) ms false v1 (write_all c text handler ms v1) d
          (excepted method params id x h e) (write_all-IsSent ms v1)

    step-IsServed :
        (i : Inbound) (v : Service H)
        → IsDecoded raw i
        → is_answerable i ≡ true
        → IsServed (raw ∷ rest) v (
            (respond c text handler i >>= λ b. if b then pure true else serve c text handler rest)
              v)
    unfolding respond
    step-IsServed (request method params id) v d a =
        handled-IsServed method params id v (handler method params id v.handler_state) d refl
    step-IsServed (fault f) v d a =
        let v1 = record v { errors_handled = v.errors_handled + 1 } in
        let m = error null (code_of f) (text f) in
        writes-IsServed v (fault f) (m ∷ []) false v1 (write_message c m v1) d (refused f)
          (write_message-IsSent m v1)
    step-IsServed closed v d a = absurd (cc)
    step-IsServed failed v d a = absurd (cc)
    step-IsServed escaped v d a = broken raw rest v d

  serve-IsServed :
      (payloads : List (List ℕ)) (v : Service H)
      → IsServed payloads v (serve c text handler payloads v)
  unfolding serve
  serve-IsServed [] v = ended v
  serve-IsServed (raw ∷ rest) v =
      let d = decode_payload-IsDecoded raw in
      step-IsServed raw rest (λ v'. serve-IsServed rest v') (decode_payload c raw) v d
        (IsDecoded-is_answerable raw (decode_payload c raw) d)

  -- For a stream that holds the frames of payloads of at most 10,485,760 bytes each and then ends, in
  -- whatever pieces it hands out its bytes, and fuel for one pass more than there are frames: the loop
  -- decodes and answers each payload in its order. A request is answered with the messages of its handler,
  -- or with an error where the handler raises; a bad payload with its error; and the frames of these
  -- messages are appended to the output. It ends where an answer stops it, where a message cannot be
  -- written, where decoding raises what it does not catch, or at the end of the stream.
  pub run-IsServed :
      {R : Type 0} (reader : Reader R)
      → IsReader reader
      → (payloads : List (List ℕ)) (fuel : ℕ) (s : R) → AreShort payloads
      → reader.content s ≡ frames payloads
      → length payloads < fuel
      → (v : Service H) → IsServed payloads v (run c text handler reader fuel s v)
  run-IsServed reader law payloads fuel s short h f v =
      subst (IsServed payloads v)
        (sym (run-serve reader law c text handler payloads fuel s short h f v))
        (serve-IsServed payloads v)
