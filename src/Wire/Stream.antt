-- ===== src/Wire/Stream.antt =====
-- The framing of the transport (afterburner/protocol/transport.py): the big-endian length and
-- `_read_exact`. A stream hands out its bytes in pieces that it chooses.
use afterburner_gassist_plug.Base.{
  true, false, ◌⊎◌, inl, inr, ℕ, zero, suc, ◌+◌, ◌-◌, ◌*◌, ◌/◌, ◌%◌, ◌^◌, ◌<◌, ◌≤◌, ◌≡◌, refl, ap,
  ◌∙◌, Option, none, some, List, [], ◌∷◌, ◌++◌, length, arith, ltb, Bool-cases,
}

-- What reading a part of the stream gives: its value, `EOFError` or `OSError`.
pub data Taken (A : Type 0) : Type 0 where
  taken : A → Taken A
  eof os_error : Taken A

-- `reader.read(n)` (`none` is an `OSError`), and the bytes that are still to come.
pub record Reader (R : Type 0) : Type 0 where
  pub read : ℕ → R → Option (List ℕ) × R
  pub content : R → List ℕ

-- What Python documents of `read` on a stream that does not fail: a prefix of the rest of the stream,
-- not longer than asked for, and empty only at the end.
pub record IsReader {R : Type 0} (reader : Reader R) : Type 0 where
  pub chunk :
      (n : ℕ) (s : R)
      → (xs : List ℕ) × ((reader.read n s).0 ≡ some xs)
        × (xs ++ reader.content (reader.read n s).1 ≡ reader.content s)
        × (length xs ≤ n)
        × (xs ≡ [] → n ≡ 0 ⊎ reader.content s ≡ [])

-- `struct.Struct(">I").pack`, for a number of 32 bits
unfoldable pub pack : ℕ → List ℕ
pack n = (n / 16777216 % 256) ∷ (n / 65536 % 256) ∷ (n / 256 % 256) ∷ (n % 256) ∷ []

-- `unpack`, of four bytes
unfoldable pub unpack : List ℕ → ℕ
unpack [] = 0
unpack (a ∷ []) = 0
unpack (a ∷ b ∷ []) = 0
unpack (a ∷ b ∷ c ∷ []) = 0
unpack (a ∷ b ∷ c ∷ d ∷ _) = 16777216 * a + 65536 * b + 256 * c + d

pub unpack-pack : (n : ℕ) → n < 2 ^ 32 → unpack (pack n) ≡ n
unfolding pack unpack
unpack-pack n h = omega arith

module _ {A : Type 0} where
  pub length-++ : (xs ys : List A) → length (xs ++ ys) ≡ length xs + length ys
  length-++ [] ys = omega arith
  length-++ (x ∷ xs) ys = let ih = length-++ xs ys in omega arith

  pub append_assoc : (xs ys zs : List A) → (xs ++ ys) ++ zs ≡ xs ++ (ys ++ zs)
  append_assoc [] ys zs = refl
  append_assoc (x ∷ xs) ys zs = ap (λ l. x ∷ l) (append_assoc xs ys zs)

  -- Two splittings of one list at the same length are the same.
  pub split_unique :
      (xs ys xs' ys' : List A)
      → xs ++ ys ≡ xs' ++ ys'
      → length xs ≡ length xs'
      → (xs ≡ xs') × (ys ≡ ys')
  split_unique [] ys [] ys' h e = (refl, h)
  split_unique [] ys (x' ∷ xs') ys' h e = absurd (omega arith)
  split_unique (x ∷ xs) ys [] ys' h e = absurd (omega arith)
  split_unique (x ∷ xs) ys (x' ∷ xs') ys' h e =
      let (a, b) = split_unique xs ys xs' ys' (cc) (omega arith) in (cc, b)

module _ {R : Type 0} (reader : Reader R) where
  -- The loop of `_read_exact n`; each piece has a byte or more, so `n` passes are enough.
  unfoldable pub read_more : ℕ → ℕ → List ℕ → R → Taken (List ℕ) × R
  read_more zero n buf s = (taken buf, s)
  read_more (suc fuel) n buf s =
      let (chunk, s1) = reader.read (n - length buf) s in
      elim (ltb (length buf) n) [
        | false ↦ (taken buf, s)
        | true ↦ elim chunk [
          | none ↦ (os_error, s1)
          | some xs ↦ elim xs [ [] ↦ (eof, s1) | y ∷ ys ↦ read_more fuel n (buf ++ y ∷ ys) s1 ]
        ]
      ]

  unfoldable pub read_exact : ℕ → R → Taken (List ℕ) × R
  read_exact n s = read_more n n [] s

  -- the call took `xs` and left `ys`
  abbrev pub HasTaken : List ℕ → List ℕ → Taken (List ℕ) × R → Type 0
  HasTaken xs ys o = (o.0 ≡ taken xs) × (reader.content o.1 ≡ ys)

  module _ (law : IsReader reader) where
    read_more-HasTaken :
        (fuel n : ℕ) (buf xs ys : List ℕ) (s : R)
        → buf ++ reader.content s ≡ xs ++ ys
        → length xs ≡ n
        → length buf ≤ n
        → n ≤ length buf + fuel
        → HasTaken xs ys (read_more fuel n buf s)
    unfolding read_more
    read_more-HasTaken zero n buf xs ys s h e le f =
        let (a, b) = split_unique buf (reader.content s) xs ys h (omega arith) in (ap taken a, b)
    read_more-HasTaken (suc fuel) n buf xs ys s h e le f = elim (Bool-cases (ltb (length buf) n)) [
      | inl more ↦
          rw (read_more, more)
            (let (c, got, whole, short, empty) = law.chunk (n - length buf) s in
              rw got (
                piece (λ buf' h' le' f'. read_more-HasTaken fuel n buf' xs ys s1 h' e le' f') c
                  whole short empty (ground arith)))
      | inr full ↦
          rw (read_more, full)
            (let (a, b) = split_unique buf (reader.content s) xs ys h (ground arith) in
              (ap taken a, b))
    ]
      where
        s1 : R
        s1 = (reader.read (n - length buf) s).1

        piece :
            ((buf' : List ℕ)
              → buf' ++ reader.content s1 ≡ xs ++ ys
              → length buf' ≤ n
              → n ≤ length buf' + fuel
              → HasTaken xs ys (read_more fuel n buf' s1))
            → (c : List ℕ) → c ++ reader.content s1 ≡ reader.content s
            → length c ≤ n - length buf
            → (c ≡ [] → n - length buf ≡ 0 ⊎ reader.content s ≡ [])
            → length buf < n
            → HasTaken xs ys
                (elim c [ [] ↦ (eof, s1) | y ∷ zs ↦ read_more fuel n (buf ++ y ∷ zs) s1 ])
        piece ih [] w k m lt = absurd (not_ended (m refl))
          where
            not_ended : n - length buf ≡ 0 ⊎ reader.content s ≡ [] → ⊥
            not_ended (inl z) = omega arith
            not_ended (inr z) =
                let a = length-++ buf (reader.content s) in
                let b = length-++ xs ys in
                let c : length (buf ++ reader.content s) ≡ length (xs ++ ys) = ap length h in
                let d : length (reader.content s) ≡ 0 = ap length z in omega arith
        piece ih (y ∷ zs) w k m lt =
            let l = length-++ buf (y ∷ zs) in
            ih (buf ++ y ∷ zs)
              (append_assoc buf (y ∷ zs) (reader.content s1) ∙ ap (λ l. buf ++ l) w ∙ h)
              (omega arith) (omega arith)

    pub read_exact-HasTaken :
        (xs ys : List ℕ) (s : R)
        → reader.content s ≡ xs ++ ys
        → HasTaken xs ys (read_exact (length xs) s)
    unfolding read_exact
    read_exact-HasTaken xs ys s h =
        read_more-HasTaken (length xs) (length xs) [] xs ys s h refl (omega arith) (omega arith)

    pub read_exact-at_end : (s : R) → reader.content s ≡ [] → (read_exact 4 s).0 ≡ eof
    unfolding read_exact read_more
    read_exact-at_end s h =
        let (c, got, whole, _, _) = law.chunk 4 s in rw got (no_piece c _ (whole ∙ h))
      where
        no_piece :
            (c ys : List ℕ)
            → c ++ ys ≡ []
            → let o : Taken (List ℕ) × R = elim c [
              | [] ↦ (eof, (reader.read 4 s).1)
              | y ∷ ys ↦ read_more 3 4 ([] ++ y ∷ ys) (reader.read 4 s).1
            ] in
              o.0 ≡ eof
        no_piece [] ys e = refl
        no_piece (y ∷ c) ys e = absurd (cc)
