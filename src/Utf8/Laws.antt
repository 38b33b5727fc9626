-- ===== src/Utf8/Laws.antt =====
-- The decoder of Utf8 against the encoding of UTF-8.
use zgcmaster.Prelude.{
  ℕ, ◌+◌, ◌/◌, ◌%◌, ◌<◌, ◌≤◌, ◌≡◌, refl, true, false, List, [], ◌∷◌, ◌++◌, ltb, if◌then◌else◌,
  AllOf, Bool-cases, inl, inr, ap, arith, ◌⊎◌,
}
use zgcmaster.Utf8.{
  scalar, piece, piece_2, piece_3, piece_4, is_second, pieces, pieces_from, valid, verdict_of,
  from_utf8, lossy, is_continuation, between,
}

-- A scalar value: a code point that is no surrogate.
abbrev pub IsScalar : ℕ → Type 0
IsScalar c = (c < 0xd800) ⊎ ((0xe000 ≤ c) × (c < 0x110000))

abbrev pub tail_byte : ℕ → ℕ
tail_byte n = 0x80 + n % 64

unfoldable pub encode : ℕ → List ℕ
encode c =
    if ltb c 0x80
    then c ∷ []
    else if ltb c 0x800
    then (0xc0 + c / 64) ∷ tail_byte c ∷ []
    else if ltb c 0x10000
    then (0xe0 + c / 4096) ∷ tail_byte (c / 64) ∷ tail_byte c ∷ []
    else (0xf0 + c / 262_144) ∷ tail_byte (c / 4096) ∷ tail_byte (c / 64) ∷ tail_byte c ∷ []

unfoldable pub encode_all : List ℕ → List ℕ
encode_all [] = []
encode_all (c ∷ cs) = encode c ++ encode_all cs

tail_byte-continues : (n : ℕ) → is_continuation (tail_byte n) ≡ true
tail_byte-continues n = ground arith

two_bytes :
    (c : ℕ) (rest : List ℕ)
    → 0x80 ≤ c
    → c < 0x800
    → piece (0xc0 + c / 64) (tail_byte c ∷ rest) ≡ scalar c
unfolding piece piece_2
two_bytes c rest lo hi =
    let a : ltb (0xc0 + c / 64) 0x80 ≡ false = ground arith in
    let b : between 0xc2 0xdf (0xc0 + c / 64) ≡ true = ground arith in
    rw (a, b, tail_byte-continues c) (ap scalar (omega arith))

second_of_three :
    (c : ℕ)
    → 0x800 ≤ c
    → c < 0x10000
    → IsScalar c
    → is_second (0xe0 + c / 4096) (tail_byte (c / 64)) ≡ true
unfolding is_second
second_of_three c lo hi ok_c = ground arith

three_bytes :
    (c : ℕ) (rest : List ℕ)
    → 0x800 ≤ c
    → c < 0x10000
    → IsScalar c
    → piece (0xe0 + c / 4096) (tail_byte (c / 64) ∷ tail_byte c ∷ rest) ≡ scalar c
unfolding piece piece_3
three_bytes c rest lo hi ok_c =
    let a : ltb (0xe0 + c / 4096) 0x80 ≡ false = ground arith in
    let b : between 0xc2 0xdf (0xe0 + c / 4096) ≡ false = ground arith in
    let e : between 0xe0 0xef (0xe0 + c / 4096) ≡ true = ground arith in
    rw (a, b, e, second_of_three c lo hi ok_c, tail_byte-continues c) (ap scalar (omega arith))

second_of_four :
    (c : ℕ)
    → 0x10000 ≤ c
    → c < 0x110000
    → is_second (0xf0 + c / 262_144) (tail_byte (c / 4096)) ≡ true
unfolding is_second
second_of_four c lo hi = ground arith

four_bytes :
    (c : ℕ) (rest : List ℕ)
    → 0x10000 ≤ c
    → c < 0x110000
    → piece (0xf0 + c / 262_144) (tail_byte (c / 4096) ∷ tail_byte (c / 64) ∷ tail_byte c ∷ rest)
      ≡ scalar c
unfolding piece piece_4
four_bytes c rest lo hi =
    let a : ltb (0xf0 + c / 262_144) 0x80 ≡ false = ground arith in
    let b : between 0xc2 0xdf (0xf0 + c / 262_144) ≡ false = ground arith in
    let e : between 0xe0 0xef (0xf0 + c / 262_144) ≡ false = ground arith in
    let f : between 0xf0 0xf4 (0xf0 + c / 262_144) ≡ true = ground arith in
    rw (a, b, e, f, second_of_four c lo hi, tail_byte-continues (c / 64), tail_byte-continues c)
      (ap scalar (omega arith))

-- The first piece of an encoded scalar value is that value, and the rest is decoded next.
pieces-encode :
    (c : ℕ) (rest : List ℕ) → IsScalar c → pieces (encode c ++ rest) ≡ scalar c ∷ pieces rest
unfolding encode pieces_from
pieces-encode c rest ok_c = elim (Bool-cases (ltb c 0x80)) [
  | inl one ↦ let e : piece c rest ≡ scalar c = unfold piece in rw one refl in rw (one, e, one) refl
  | inr past_one ↦ rw past_one (elim (Bool-cases (ltb c 0x800)) [
    | inl two ↦ rw (two, two_bytes c rest (ground arith) (ground arith), past_one, two) refl
    | inr past_two ↦ rw past_two (elim (Bool-cases (ltb c 0x10000)) [
      | inl three ↦
          rw
            (
              three,
              three_bytes c rest (ground arith) (ground arith) ok_c,
              past_one,
              past_two,
              three,
            )
            refl
      | inr four ↦
          rw (four, four_bytes c rest (ground arith) (ground arith), past_one, past_two, four) refl
    ])
  ])
]

-- What encodes scalar values is decoded to those values, and is valid UTF-8.
pub lossy-encode_all :
    (cs : List ℕ)
    → AllOf IsScalar cs
    → (lossy (encode_all cs) ≡ cs) × (from_utf8 (encode_all cs) ≡ valid)
unfolding encode_all pieces_from verdict_of
lossy-encode_all [] h = (refl, refl)
lossy-encode_all (c ∷ cs) h =
    let (values, verdict) = lossy-encode_all cs h.1 in
    rw (pieces-encode c (encode_all cs) h.0) (ap (λ ds. c ∷ ds) values, verdict)
