-- ===== src/Tests/Wire.antt =====
-- The transport on a stream that hands out one byte at a time.
use afterburner_gassist_plug.Base.{
  ℕ, zero, suc, ◌≡◌, ◌≤◌, ◌⊎◌, inl, inr, refl, String, true, false, Option, some, List, [], ◌∷◌,
  ◌++◌, arith, length,
}
use afterburner_gassist_plug.Exec.{ok}
use afterburner_gassist_plug.Value.{Value, null, dict, Fields, end}
use afterburner_gassist_plug.Wire.Stream.{Reader, IsReader, pack}
use afterburner_gassist_plug.Wire.Request.{Codec, loaded, too_long, request, fault, read_frame}
use afterburner_gassist_plug.Wire.Message.{Service, frame, notification, response, write_message}
use afterburner_gassist_plug.Wire.Loop.{Handled, handled, run}
use afterburner_gassist_plug.Wire.Frames.{frames, read_frame-oversized}
use afterburner_gassist_plug.Wire.Serving.{IsServed, run-IsServed}
use afterburner_gassist_plug.Wire.RoundTrip.{notification_body, write_message-read_frame}

abbrev read_byte : ℕ → List ℕ → Option (List ℕ) × List ℕ
read_byte zero s = (some [], s)
read_byte (suc n) [] = (some [], [])
read_byte (suc n) (x ∷ s) = (some (x ∷ []), s)

abbrev bytewise : Reader (List ℕ)
bytewise = record { read = read_byte; content = λ s. s }

bytewise-IsReader : IsReader bytewise
bytewise-IsReader = record { chunk = piece }
  where
    piece :
        (n : ℕ) (s : List ℕ)
        → (xs : List ℕ) × ((read_byte n s).0 ≡ some xs)
          × (xs ++ (read_byte n s).1 ≡ s)
          × (length xs ≤ n)
          × (xs ≡ [] → n ≡ 0 ⊎ s ≡ [])
    piece zero s = ([], refl, refl, omega arith, λ _. inl refl)
    piece (suc n) [] = ([], refl, refl, omega arith, λ _. inr refl)
    piece (suc n) (x ∷ s) = (x ∷ [], refl, refl, omega arith, λ e. absurd (cc))

-- a codec for which every payload is the one request `ping`
abbrev codec : Codec
codec = record {
  utf8 = λ raw. some "ping";
  loads = λ t. loaded (notification_body "ping" end);
  dumps = λ v. some (1 ∷ 2 ∷ []);
}

abbrev service : Service ℕ
service = record { output = []; requests_seen = 0; errors_handled = 0; handler_state = 0 }

-- it answers each request, and stops at the second
abbrev handler : String → Fields → Value → ℕ → Handled × ℕ
handler method params id zero = (handled (response id null ∷ []) false, 1)
handler method params id (suc n) = (handled (response id null ∷ []) true, suc (suc n))

abbrev payloads : List (List ℕ)
payloads = (7 ∷ []) ∷ (8 ∷ 9 ∷ []) ∷ []

run-IsServed_example :
    IsServed codec
      (λ _. "fault")
      handler
      payloads
      service
      (run codec (λ _. "fault") handler bytewise 3 (frames payloads) service)
run-IsServed_example =
    run-IsServed codec (λ _. "fault") handler bytewise bytewise-IsReader payloads 3
      (frames payloads) (omega arith, (omega arith, tt)) refl (omega arith) service

read_frame-oversized_example :
    ((read_frame bytewise codec (pack 10485761 ++ 5 ∷ [])).0 ≡ fault (too_long 10485761))
    × (bytewise.content (read_frame bytewise codec (pack 10485761 ++ 5 ∷ [])).1 ≡ 5 ∷ [])
read_frame-oversized_example =
    read_frame-oversized bytewise bytewise-IsReader codec 10485761 (5 ∷ [])
      (pack 10485761 ++ 5 ∷ []) (omega arith) (omega arith) refl

write_message-read_frame_example :
    (write_message codec (notification "ping" (dict end)) service
      ≡ (ok tt, record service { output = [] ++ frame (1 ∷ 2 ∷ []) }))
    × ((read_frame bytewise codec (frame (1 ∷ 2 ∷ []) ++ 3 ∷ [])).0 ≡ request "ping" end null)
    × (bytewise.content (read_frame bytewise codec (frame (1 ∷ 2 ∷ []) ++ 3 ∷ [])).1 ≡ 3 ∷ [])
write_message-read_frame_example =
    write_message-read_frame bytewise bytewise-IsReader codec "ping" "ping" end (1 ∷ 2 ∷ [])
      (3 ∷ []) service (frame (1 ∷ 2 ∷ []) ++ 3 ∷ []) refl refl (omega arith) refl refl refl
