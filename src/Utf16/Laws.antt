-- ===== src/Utf16/Laws.antt =====
-- The decoder of UTF-16 against its encoding.
use zgcmaster.Prelude.{
  ℕ, ◌+◌, ◌-◌, ◌/◌, ◌%◌, ◌≡◌, refl, true, false, some, List, [], ◌∷◌, map, ltb, if◌then◌else◌,
  AllOf, Bool-cases, inl, inr, arith, length,
}
use zgcmaster.Utf8.Laws.{IsScalar}
use zgcmaster.Utf16.{
  is_high, is_low, pairs_up, combined, unit_value, decode_from, decode_utf16, utf16_length,
}

abbrev pub high_of : ℕ → ℕ
high_of c = 0xd800 + (c - 0x10000) / 1024

abbrev pub low_of : ℕ → ℕ
low_of c = 0xdc00 + (c - 0x10000) % 1024

unfoldable pub encode_utf16 : List ℕ → List ℕ
encode_utf16 [] = []
encode_utf16 (c ∷ cs) =
    let rest = encode_utf16 cs in if ltb c 0x10000 then c ∷ rest else high_of c ∷ low_of c ∷ rest

-- What encodes scalar values is decoded to those values with no error, and has as many units as the
-- program counts for the text.
pub decode_utf16-encode_utf16 :
    (cs : List ℕ)
    → AllOf IsScalar cs
    → (decode_utf16 (encode_utf16 cs) ≡ map some cs) × (length (encode_utf16 cs) ≡ utf16_length cs)
unfolding encode_utf16 decode_from unit_value utf16_length
decode_utf16-encode_utf16 [] h = (refl, refl)
decode_utf16-encode_utf16 (c ∷ cs) h =
    let (values, count) = decode_utf16-encode_utf16 cs h.1 in
    elim (Bool-cases (ltb c 0x10000)) [
      | inl one ↦
          let no_high : is_high c ≡ false = ground (arith, h.0) in
          let no_low : is_low c ≡ false = ground (arith, h.0) in
          rw (one, no_high, no_low)
            (rw (alone c (encode_utf16 cs) no_high, values) refl, omega (arith, count))
      | inr two ↦
          let high : is_high (high_of c) ≡ true = ground (arith, h.0) in
          let low : is_low (low_of c) ≡ true = ground (arith, h.0) in
          let joined : combined (high_of c) (low_of c ∷ encode_utf16 cs) ≡ c =
            ground (arith, h.0) in
          rw (two, high, low) (rw (joined, values) refl, omega (arith, count))
    ]
  where
    alone : (c : ℕ) (us : List ℕ) → is_high c ≡ false → pairs_up c us ≡ false
    alone c [] e = refl
    alone c (v ∷ us) e = rw e refl
