-- ===== src/Wire/Frames.antt =====
-- Streams of frames (afterburner/protocol/transport.py).
use afterburner_gassist_plug.Base.{
  ℕ, zero, suc, ◌^◌, ◌<◌, ◌≤◌, ◌≡◌, refl, ap, ◌∙◌, String, Bool, true, false, List, [], ◌∷◌, ◌++◌,
  length, ltb, arith, if◌then◌else◌,
}
use afterburner_gassist_plug.Exec.{Exec, ok, pure, continue, ◌>>=◌, Result, err, crash}
use afterburner_gassist_plug.Value.{Value, Fields}
use afterburner_gassist_plug.Wire.Stream.{
  Reader, IsReader, Taken, taken, eof, os_error, HasTaken, pack, unpack, unpack-pack, read_exact,
  read_exact-HasTaken, read_exact-at_end, append_assoc,
}
use afterburner_gassist_plug.Wire.Request.{
  Codec, Fault, too_long, Inbound, fault, closed, decode_payload, max_frame_bytes, read_frame,
  read_body, read_payload,
}
use afterburner_gassist_plug.Wire.Message.{Service, frame}
use afterburner_gassist_plug.Wire.Loop.{Handled, run, respond}

-- the bytes of a sequence of payloads
abbrev pub frames : List (List ℕ) → List ℕ
frames [] = []
frames (raw ∷ rest) = frame raw ++ frames rest

-- No payload is over the limit.
abbrev pub AreShort : List (List ℕ) → Type 0
AreShort [] = Unit
AreShort (raw ∷ rest) = (length raw ≤ max_frame_bytes) × AreShort rest

module _ {H : Type 0} (c : Codec) (text : Fault → String)
    (handler : String → Fields → Value → H → Handled × H) where
  -- the loop on the payloads themselves
  unfoldable pub serve : List (List ℕ) → Exec (Service H) Bool
  serve [] = pure true
  serve (raw ∷ rest) = respond c text handler (decode_payload c raw) >>= λ stop.
      if stop then pure true else serve rest

module _ {R : Type 0} (reader : Reader R) (law : IsReader reader) (c : Codec) where
  -- the frame's header comes first
  read_header :
      (n : ℕ) (rest : List ℕ) (s : R)
      → reader.content s ≡ pack n ++ rest
      → HasTaken reader (pack n) rest (read_exact reader 4 s)
  unfolding pack
  read_header n rest s h = read_exact-HasTaken reader law (pack n) rest s h

  read_payload-lem :
      (raw rest : List ℕ) (o : Taken (List ℕ) × R)
      → HasTaken reader raw rest o
      → ((read_payload reader c o).0 ≡ decode_payload c raw)
        × (reader.content (read_payload reader c o).1 ≡ rest)
  read_payload-lem raw rest (taken x, s) (e, k) =
      let p : x ≡ raw = cc in (ap (decode_payload c) p, k)
  read_payload-lem raw rest (eof, s) (e, k) = absurd (cc)
  read_payload-lem raw rest (os_error, s) (e, k) = absurd (cc)

  read_body-lem :
      (n : ℕ) (rest : List ℕ) (o : Taken (List ℕ) × R)
      → n ≤ max_frame_bytes
      → HasTaken reader (pack n) rest o
      → (read_body reader c o ≡ read_payload reader c (read_exact reader n o.1))
        × (reader.content o.1 ≡ rest)
  read_body-lem n rest (taken x, s) short (e, k) =
      let p : x ≡ pack n = cc in
      let u : unpack x ≡ n = ap unpack p ∙ unpack-pack n (omega arith) in
      let b : ltb max_frame_bytes n ≡ false = ground arith in (rw (u, b) refl, k)
  read_body-lem n rest (eof, s) short (e, k) = absurd (cc)
  read_body-lem n rest (os_error, s) short (e, k) = absurd (cc)

  -- For a stream that begins with the frame of a payload of at most 10,485,760 bytes, in whatever
  -- pieces it hands out its bytes: `read_frame` gives what the payload decodes to and leaves exactly
  -- what follows the frame.
  pub read_frame-frame :
      (raw rest : List ℕ) (s : R)
      → length raw ≤ max_frame_bytes
      → reader.content s ≡ frame raw ++ rest
      → ((read_frame reader c s).0 ≡ decode_payload c raw)
        × (reader.content (read_frame reader c s).1 ≡ rest)
  unfolding read_frame
  read_frame-frame raw rest s short h =
      let o = read_exact reader 4 s in
      let head =
        read_header (length raw) (raw ++ rest) s (h ∙ append_assoc (pack (length raw)) raw rest) in
      let (e, k) = read_body-lem (length raw) (raw ++ rest) o short head in
      rw e (read_payload-lem raw rest _ (read_exact-HasTaken reader law raw rest o.1 k))

  -- For a stream that begins with a header of more than 10,485,760: `read_frame` fails with a parse
  -- error and leaves every byte behind the header in the stream, so the next header is read from them.
  pub read_frame-oversized :
      (n : ℕ) (rest : List ℕ) (s : R)
      → max_frame_bytes < n
      → n < 2 ^ 32
      → reader.content s ≡ pack n ++ rest
      → ((read_frame reader c s).0 ≡ fault (too_long n))
        × (reader.content (read_frame reader c s).1 ≡ rest)
  unfolding read_frame
  read_frame-oversized n rest s long fits h = over (read_exact reader 4 s) (read_header n rest s h)
    where
      over :
          (o : Taken (List ℕ) × R)
          → HasTaken reader (pack n) rest o
          → ((read_body reader c o).0 ≡ fault (too_long n))
            × (reader.content (read_body reader c o).1 ≡ rest)
      over (taken x, s1) (e, k) =
          let p : x ≡ pack n = cc in
          let u : unpack x ≡ n = ap unpack p ∙ unpack-pack n fits in
          let b : ltb max_frame_bytes n ≡ true = ground arith in rw (u, b) (refl, k)
      over (eof, s1) (e, k) = absurd (cc)
      over (os_error, s1) (e, k) = absurd (cc)

  read_frame-closed : (s : R) → reader.content s ≡ [] → (read_frame reader c s).0 ≡ closed
  unfolding read_frame
  read_frame-closed s h = ends (read_exact reader 4 s) (read_exact-at_end reader law s h)
    where
      ends : (o : Taken (List ℕ) × R) → o.0 ≡ eof → (read_body reader c o).0 ≡ closed
      ends (taken x, s1) e = absurd (cc)
      ends (eof, s1) e = refl
      ends (os_error, s1) e = absurd (cc)

  module _ {H : Type 0} (text : Fault → String)
      (handler : String → Fields → Value → H → Handled × H) where
    -- Equal calls, step by step.
    next :
        (i j : Inbound) (k k' : Exec (Service H) Bool)
        → i ≡ j
        → ((v : Service H) → k v ≡ k' v)
        → (v : Service H)
        → (respond c text handler i >>= λ stop. if stop then pure true else k) v
          ≡ (respond c text handler j >>= λ stop. if stop then pure true else k') v
    next i j k k' e f v =
        ap (λ x. (respond c text handler x >>= λ stop. if stop then pure true else k) v) e
        ∙ after (respond c text handler j v)
      where
        after :
            (o : Result Bool × Service H)
            → continue o.0 (λ stop. if stop then pure true else k) o.1
              ≡ continue o.0 (λ stop. if stop then pure true else k') o.1
        after (ok true, w) = refl
        after (ok false, w) = f w
        after (err x, w) = refl
        after (crash, w) = refl

    -- The loop on a stream of frames does what it does on their payloads.
    pub run-serve :
        (payloads : List (List ℕ)) (fuel : ℕ) (s : R)
        → AreShort payloads
        → reader.content s ≡ frames payloads
        → length payloads < fuel
        → (v : Service H) → run c text handler reader fuel s v ≡ serve c text handler payloads v
    unfolding run serve respond
    run-serve payloads zero s short h f v = absurd (omega arith)
    run-serve [] (suc fuel) s short h f v =
        ap
          (λ i.
            (respond c text handler i >>= λ stop.
            if stop then pure true else run c text handler reader fuel (read_frame reader c s).1)
              v)
          (read_frame-closed s h)
    run-serve (raw ∷ rest) (suc fuel) s (short, more) h f v =
        let (e, k) = read_frame-frame raw (frames rest) s short h in
        next _ _ _ _ e (λ v. run-serve rest fuel (read_frame reader c s).1 more k (omega arith) v) v
