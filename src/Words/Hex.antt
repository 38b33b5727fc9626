-- ===== src/Words/Hex.antt =====
-- Rust's `format!("0x{n:x}")` on a u64, and that `number` reads it back.
use Prim.Native.Char.{Char, code}
use native.Mathlib.Nat.{pow-suc}
use zgcmaster.Prelude.{
  ℕ, zero, suc, ◌+◌, ◌*◌, ◌/◌, ◌%◌, ◌^◌, ◌<◌, ◌≡◌, refl, Bool, true, false, ◌&&◌, String, Option,
  none, some, not, List, [], ◌∷◌, get_or, ltb, ◌==◌, ==_iff, if◌then◌else◌, codes, ok, ok_or,
  Bool-cases, arith, ◌∙◌, ap, sym, inl, inr, ltb→lt,
}
use zgcmaster.Words.{two64, digit, digits_from, next_digit, unsigned, number}

abbrev pub hex_chars : List Char
hex_chars =
    "0" ∷ "1" ∷ "2" ∷ "3" ∷ "4" ∷ "5" ∷ "6" ∷ "7" ∷ "8" ∷ "9" ∷ "a" ∷ "b" ∷ "c" ∷ "d" ∷ "e" ∷ "f"
    ∷ []

abbrev pub hex_digit : ℕ → Char
hex_digit v = get_or hex_chars v "0"

-- The digits of `n` before the text `rest`; a u64 has sixteen at most.
hex_from : ℕ → ℕ → String → String
hex_from zero n rest = String.◌∷◌ (hex_digit (n % 16)) rest
hex_from (suc f) n rest =
    let more = hex_from f (n / 16) (String.◌∷◌ (hex_digit (n % 16)) rest) in
    if ltb n 16 then String.◌∷◌ (hex_digit (n % 16)) rest else more

unfoldable pub hex : ℕ → String
unfolding hex_from
hex n = String.◌∷◌ "0" (String.◌∷◌ "x" (hex_from 15 n ""))

abbrev is_some_eq : ℕ → Option ℕ → Bool
is_some_eq v none = false
is_some_eq v (some w) = w == v

abbrev reads_back : ℕ → Bool
reads_back v = is_some_eq v (digit 16 (code (hex_digit v))) && not (code (hex_digit v) == b'+')

checks_to : (ℕ → Bool) → ℕ → Bool
checks_to test zero = true
checks_to test (suc k) = checks_to test k && test k

checks_to_lem : (test : ℕ → Bool) (k v : ℕ) → v < k → checks_to test k ≡ true → test v ≡ true
unfolding checks_to
checks_to_lem test zero v small h = absurd (omega arith)
checks_to_lem test (suc k) v small h = ground (arith, checks_to_lem test k v)

reads_back_table : checks_to reads_back 16 ≡ true
unfolding checks_to digit
reads_back_table = refl

is_some_eq_lem : (v : ℕ) (o : Option ℕ) → is_some_eq v o ≡ true → o ≡ some v
is_some_eq_lem v none h = cc
is_some_eq_lem v (some w) h = ap some ((==_iff w v).0 h)

and_left : (a b : Bool) → (a && b) ≡ true → a ≡ true
and_left a b h = ground arith

and_right : (a b : Bool) → (a && not b) ≡ true → b ≡ false
and_right a b h = ground arith

digit-hex_digit : (v : ℕ) → v < 16 → digit 16 (code (hex_digit v)) ≡ some v
digit-hex_digit v h =
    is_some_eq_lem v _ (and_left _ _ (checks_to_lem reads_back 16 v h reads_back_table))

hex_digit-ne-plus : (v : ℕ) → v < 16 → (code (hex_digit v) == b'+') ≡ false
hex_digit-ne-plus v h =
    and_right (is_some_eq v (digit 16 (code (hex_digit v)))) _
      (checks_to_lem reads_back 16 v h reads_back_table)

-- One digit more.
next_digit-some :
    (radix a c d : ℕ)
    → digit radix c ≡ some d
    → a * radix + d < two64
    → next_digit radix a c ≡ some (a * radix + d)
unfolding next_digit
next_digit-some radix a c d h fits = rw h (ground arith)

digits_from-cons :
    (radix a c d : ℕ) (cs : List ℕ)
    → digit radix c ≡ some d
    → a * radix + d < two64
    → digits_from radix a (c ∷ cs) ≡ digits_from radix (a * radix + d) cs
unfolding digits_from
digits_from-cons radix a c d cs h fits = rw (next_digit-some radix a c d h fits, digits_from)

hex_digit_small :
    (n : ℕ) (rest : String)
    → n < 16
    → digits_from 16 0 (codes (String.◌∷◌ (hex_digit (n % 16)) rest))
      ≡ digits_from 16 n (codes rest)
hex_digit_small n rest h =
    digits_from-cons 16 0 _ (n % 16) (codes rest) (digit-hex_digit (n % 16) (omega arith))
      (omega arith)
    ∙ (let e : 0 * 16 + n % 16 ≡ n = omega arith in rw e)

-- The digits of a number before a text are read as the number.
digits_from-hex_from :
    (f n : ℕ) (rest : String)
    → n < 16 ^ suc f
    → n < two64
    → digits_from 16 0 (codes (hex_from f n rest)) ≡ digits_from 16 n (codes rest)
unfolding hex_from
digits_from-hex_from zero n rest h fits = hex_digit_small n rest (omega arith)
digits_from-hex_from (suc f) n rest h fits = elim (Bool-cases (ltb n 16)) [
  | inl small ↦ rw small (hex_digit_small n rest (ltb→lt n 16 small))
  | inr big ↦ rw big (
      digits_from-hex_from f (n / 16) (String.◌∷◌ (hex_digit (n % 16)) rest)
        (omega (arith, pow-suc 16 (suc f))) (omega arith)
      ∙ digits_from-cons 16 (n / 16) _ (n % 16) (codes rest)
          (digit-hex_digit (n % 16) (omega arith)) (omega arith)
      ∙ (let e : n / 16 * 16 + n % 16 ≡ n = omega arith in rw e))
]

-- The text of a number begins with a digit.
hex_from-digit :
    (f n : ℕ) (rest : String)
    → (v : ℕ) × (more : String) × (v < 16) × (hex_from f n rest ≡ String.◌∷◌ (hex_digit v) more)
unfolding hex_from
hex_from-digit zero n rest = (n % 16, rest, omega arith, refl)
hex_from-digit (suc f) n rest = elim (Bool-cases (ltb n 16)) [
  | inl small ↦ (n % 16, rest, omega arith, rw small)
  | inr big ↦ rw big (hex_from-digit f (n / 16) (String.◌∷◌ (hex_digit (n % 16)) rest))
]

unsigned-digits :
    (radix c : ℕ) (cs : List ℕ)
    → (c == b'+') ≡ false
    → unsigned radix (c ∷ cs) ≡ digits_from radix 0 (c ∷ cs)
unfolding unsigned
unsigned-digits radix c [] h = refl
unsigned-digits radix c (d ∷ cs) h = rw h

-- `number` reads back what `format!("0x{n:x}")` writes, for every u64.
pub number-hex : (n : ℕ) → n < two64 → number (hex n) ≡ ok n
unfolding number hex
number-hex n h =
    ap (λ o. ok_or o "Invalid unsigned offset")
      (let (v, more, small, e) = hex_from-digit 15 n "" in
        ap (λ s. unsigned 16 (codes s)) e
        ∙ unsigned-digits 16 _ (codes more) (hex_digit-ne-plus v small)
        ∙ ap (λ s. digits_from 16 0 (codes s)) (sym e)
        ∙ digits_from-hex_from 15 n "" (omega arith) h
        ∙ unfold digits_from in refl)
