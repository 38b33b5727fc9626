-- ===== src/Words.antt =====
-- Little-endian words, field widths, alignment and checked u64 arithmetic (src/lib.rs), and the
-- parser of unsigned numbers. A u64 is a natural number below `two64`.
pub mod Laws
pub mod Hex
use Prim.Native.String
use zgcmaster.Prelude.{
  ℕ, zero, suc, ◌+◌, ◌-◌, ◌*◌, ◌/◌, ◌%◌, ◌^◌, ◌≤◌, ◌<◌, Bool, true, false, ◌&&◌, ◌||◌, String,
  Option, none, some, List, [], ◌∷◌, ltb, leb, ◌==◌, if◌then◌else◌, bit_and, codes, ◌is◌,
  strip_prefix, Result, ok, err, invalid, ok_or, and_then,
}

abbrev pub two64 : ℕ
two64 = 2 ^ 64

abbrev pub chunk_size : ℕ
chunk_size = 1024 * 1024

abbrev pub max_file : ℕ
max_file = 64 * 1024 * 1024 * 1024

abbrev pub u32_max : ℕ
u32_max = 2 ^ 32 - 1

abbrev pub i32_max : ℕ
i32_max = 2 ^ 31 - 1

-- `u64::checked_add` and `u64::checked_mul`.
abbrev pub checked_add : ℕ → ℕ → Option ℕ
checked_add a b = if ltb (a + b) two64 then some (a + b) else none

abbrev pub checked_mul : ℕ → ℕ → Option ℕ
checked_mul a b = if ltb (a * b) two64 then some (a * b) else none

-- `word`: the callers hand over at most eight bytes.
unfoldable pub word : List ℕ → ℕ
word [] = 0
word (b ∷ bs) = b + 256 * word bs

-- `aligned`: `n & !7` clears the three low bits.
unfoldable pub aligned : ℕ → Option ℕ
aligned n = and_then (checked_add n 7) λ m. some (m - m % 8)

unfoldable pub width : String → Result ℕ
width kind =
    if kind is "boolean" || kind is "byte"
    then ok 1
    else if kind is "char" || kind is "short"
    then ok 2
    else if kind is "int" || kind is "float"
    then ok 4
    else if kind is "long" || kind is "double" || kind is "reference"
    then ok 8
    else err (invalid "Unsupported field type")

-- A digit of the standard library's `from_str_radix`, at a radix of at most 16.
unfoldable pub digit : ℕ → ℕ → Option ℕ
digit radix c =
    let v =
      (if leb b'0' c && leb c b'9'
        then c - b'0'
        else if leb b'a' c && leb c b'f'
        then c - b'a' + 10
        else if leb b'A' c && leb c b'F'
        then c - b'A' + 10
        else radix) in
    if ltb v radix then some v else none

-- A digit more: `checked_mul` by the radix and `checked_add` of the digit.
unfoldable pub next_digit : ℕ → ℕ → ℕ → Option ℕ
unfolding digit
next_digit radix acc c =
    and_then (digit radix c) λ d. and_then (checked_mul acc radix) λ m. checked_add m d

unfoldable pub digits_from : ℕ → ℕ → List ℕ → Option ℕ
unfolding next_digit
digits_from radix acc [] = some acc
digits_from radix acc (c ∷ cs) = elim (next_digit radix acc c) [
  | none ↦ none
  | some n ↦ digits_from radix n cs
]

-- `u64::from_str_radix`, which `str::parse` is at radix 10: one leading plus sign is allowed,
-- an empty number and one above the u64 range are refused.
unfoldable pub unsigned : ℕ → List ℕ → Option ℕ
unfolding digits_from
unsigned radix [] = none
unsigned radix (c ∷ []) = digits_from radix 0 (c ∷ [])
unsigned radix (c ∷ d ∷ cs) =
    if c == b'+' then digits_from radix 0 (d ∷ cs) else digits_from radix 0 (c ∷ d ∷ cs)

-- `number`, on the code points of its text.
abbrev pub number_from : List ℕ → Result ℕ
number_from text =
    ok_or
      (elim (strip_prefix (codes "0x") text) [ some r ↦ unsigned 16 r | none ↦ unsigned 10 text ])
      "Invalid unsigned offset"

unfoldable pub number : String → Result ℕ
unfolding unsigned
number s = number_from (codes s)
