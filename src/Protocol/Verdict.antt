-- ===== src/Protocol/Verdict.antt =====
-- `GAssistPlugin._verdict` (afterburner/protocol/plugin.py) on the code points of a text. Lower case
-- is that of the ASCII letters.
use Prim.Native.Char.{code}
use Prim.Native.String.{String}
use afterburner_gassist_plug.Base.{
  ℕ, ◌+◌, Bool, true, false, not, ◌&&◌, ◌||◌, List, [], ◌∷◌, ◌++◌, map, ◌==◌, leb, if◌then◌else◌,
}

abbrev pub codes : String → List ℕ
codes String.[] = []
codes (String.◌∷◌ c s) = code c ∷ codes s

-- `str.isspace` of a code point
abbrev pub is_space : ℕ → Bool
is_space c =
    (leb 9 c && leb c 13)
    || (leb 28 c && leb c 32)
    || c == 133
    || c == 160
    || c == 5760
    || (leb 8192 c && leb c 8202)
    || c == 8232
    || c == 8233
    || c == 8239
    || c == 8287
    || c == 12288

abbrev pub lower : ℕ → ℕ
lower c = if leb 65 c && leb c 90 then c + 32 else c

abbrev pub drop_while : (ℕ → Bool) → List ℕ → List ℕ
drop_while p [] = []
drop_while p (c ∷ cs) = let rest = drop_while p cs in if p c then rest else c ∷ cs

abbrev pub take_while : (ℕ → Bool) → List ℕ → List ℕ
take_while p [] = []
take_while p (c ∷ cs) = let rest = take_while p cs in if p c then c ∷ rest else []

abbrev pub reverse : List ℕ → List ℕ
reverse [] = []
reverse (c ∷ cs) = reverse cs ++ (c ∷ [])

-- `text.strip(...)`
abbrev pub strip : (ℕ → Bool) → List ℕ → List ℕ
strip p cs = reverse (drop_while p (reverse (drop_while p cs)))

abbrev pub same : List ℕ → List ℕ → Bool
same [] [] = true
same [] (d ∷ ds) = false
same (c ∷ cs) [] = false
same (c ∷ cs) (d ∷ ds) = c == d && same cs ds

abbrev pub among : List ℕ → List String → Bool
among word [] = false
among word (s ∷ ss) = same word (codes s) || among word ss

abbrev pub affirmative_words : List String
affirmative_words =
    "confirm" ∷ "yes" ∷ "y" ∷ "accept" ∷ "proceed" ∷ "ok" ∷ "true" ∷ "apply" ∷ "affirmative" ∷ "go"
    ∷ []

abbrev pub negative_words : List String
negative_words =
    "no" ∷ "n" ∷ "cancel" ∷ "decline" ∷ "deny" ∷ "reject" ∷ "false" ∷ "stop" ∷ "abort" ∷ []

-- `c in ".,!?"`
abbrev pub is_mark : ℕ → Bool
is_mark c = c == 46 || c == 44 || c == 33 || c == 63

pub data Verdict : Type 0 where
  affirmative negative unknown : Verdict

-- the word in front, without the marks around it
abbrev pub judge : List ℕ → Verdict
judge word =
    if among word affirmative_words
    then Verdict.affirmative
    else if among word negative_words
    then Verdict.negative
    else Verdict.unknown

abbrev pub judge_text : List ℕ → Verdict
judge_text [] = Verdict.unknown
judge_text (c ∷ cs) = judge (strip is_mark (take_while (λ d. not (is_space d)) (c ∷ cs)))

unfoldable pub verdict : String → Verdict
verdict content = judge_text (map lower (strip is_space (codes content)))
