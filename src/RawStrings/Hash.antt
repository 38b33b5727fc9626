-- ===== src/RawStrings/Hash.antt =====
-- `java_hash` of src/discovery.rs against the hash code that the Java platform documents for a
-- String.
use native.Mathlib.Nat.{pow-suc, add-mul, mul_assoc, mul_comm, add_assoc, zero-mul}
use zgcmaster.Prelude.{
  ℕ, suc, ◌+◌, ◌*◌, ◌%◌, ◌^◌, ◌≡◌, refl, sym, ap, ◌∙◌, List, [], ◌∷◌, length, ◌==◌, if◌then◌else◌,
  arith, ◌<◌, Bool-cases, inl, inr,
}
use zgcmaster.Words.{word}
use zgcmaster.Reader.{utf16_units}
use zgcmaster.RawStrings.{hash_units, hash_step, java_hash}

-- `s[0] * 31 ^ (n - 1) + … + s[n - 1]`, with no bound on the numbers.
abbrev pub polynomial : List ℕ → ℕ
polynomial [] = 0
polynomial (unit ∷ units) = unit * 31 ^ length units + polynomial units

-- The units of a payload: its bytes, or its pairs of bytes.
abbrev pub payload_units : List ℕ → ℕ → List ℕ
payload_units payload coder = if coder == 0 then payload else utf16_units payload

horner : (k u p : ℕ) → (k * 31 + u) * p ≡ k * (p * 31) + u * p
horner k u p =
    let a : (k * 31 + u) * p ≡ k * 31 * p + u * p = add-mul (k * 31) u p in
    let b : k * 31 * p ≡ k * (31 * p) = mul_assoc k 31 p in
    let c : 31 * p ≡ p * 31 = mul_comm 31 p in a ∙ ap (λ x. x + u * p) (b ∙ ap (λ x. k * x) c)

hash_units-polynomial :
    (units : List ℕ) (h k : ℕ)
    → h % 2 ^ 32 ≡ k % 2 ^ 32
    → hash_units h units % 2 ^ 32 ≡ (k * 31 ^ length units + polynomial units) % 2 ^ 32
unfolding hash_units
hash_units-polynomial [] h k e =
    let f : k * 1 + 0 ≡ k = omega arith in e ∙ ap (λ x. x % 2 ^ 32) (sym f)
hash_units-polynomial (u ∷ us) h k e =
    let step : hash_step h u % 2 ^ 32 ≡ (k * 31 + u) % 2 ^ 32 = omega (arith, e) in
    let q : 31 ^ suc (length us) ≡ 31 ^ length us * 31 = pow-suc 31 (length us) in
    let sum : (k * 31 + u) * 31 ^ length us + polynomial us
        ≡ k * 31 ^ suc (length us) + (u * 31 ^ length us + polynomial us) =
      ap (λ x. x + polynomial us)
        (horner k u (31 ^ length us) ∙ ap (λ x. k * x + u * 31 ^ length us) (sym q))
      ∙ add_assoc (k * 31 ^ suc (length us)) (u * 31 ^ length us) (polynomial us) in
    hash_units-polynomial us (hash_step h u) (k * 31 + u) step ∙ ap (λ x. x % 2 ^ 32) sum

hash_units-lt : (units : List ℕ) (h : ℕ) → h < 2 ^ 32 → hash_units h units < 2 ^ 32
unfolding hash_units
hash_units-lt [] h small = small
hash_units-lt (u ∷ us) h small = hash_units-lt us (hash_step h u) (omega arith)

-- The hash of a payload is the documented hash code of its units, modulo 2 ^ 32.
pub java_hash-polynomial :
    (payload : List ℕ) (coder : ℕ)
    → java_hash payload coder ≡ polynomial (payload_units payload coder) % 2 ^ 32
unfolding java_hash
java_hash-polynomial payload coder = elim (Bool-cases (coder == 0)) [
  | inl latin ↦ rw latin (of_units payload)
  | inr utf16 ↦ rw utf16 (of_units (utf16_units payload))
]
  where
    of_units : (units : List ℕ) → hash_units 0 units ≡ polynomial units % 2 ^ 32
    of_units units =
        let bound = hash_units-lt units 0 (omega arith) in
        let e = hash_units-polynomial units 0 0 refl in
        let z : 0 * 31 ^ length units + polynomial units ≡ polynomial units =
          ap (λ x. x + polynomial units) (zero-mul (31 ^ length units)) ∙ omega arith in
        let m : hash_units 0 units % 2 ^ 32 ≡ hash_units 0 units = omega (arith, bound) in
        sym m ∙ e ∙ ap (λ x. x % 2 ^ 32) z

-- Latin-1 bytes as UTF-16: each followed by a zero byte.
abbrev pub widen : List ℕ → List ℕ
widen [] = []
widen (b ∷ bs) = b ∷ 0 ∷ widen bs

utf16_units-widen : (bs : List ℕ) → utf16_units (widen bs) ≡ bs
unfolding utf16_units word
utf16_units-widen [] = refl
utf16_units-widen (b ∷ bs) = let e : b + 0 ≡ b = omega arith in rw (e, utf16_units-widen bs)

-- A Latin-1 text has the same hash in either of its two encodings.
pub java_hash-widen : (bs : List ℕ) → java_hash (widen bs) 1 ≡ java_hash bs 0
unfolding java_hash
java_hash-widen bs = ap (hash_units 0) (utf16_units-widen bs)
