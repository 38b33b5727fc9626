-- ===== src/Address.antt =====
-- Colored references: `gen_address` of src/lib.rs and `ReferenceModel` of src/discovery.rs. Masks
-- and shifts of words are remainders and quotients by powers of two.
pub mod Laws
use zgcmaster.Prelude.{
  ℕ, zero, suc, ◌+◌, ◌-◌, ◌*◌, ◌/◌, ◌%◌, ◌^◌, Bool, true, false, ◌&&◌, ◌||◌, not, String, Option,
  none, some, List, [], ◌∷◌, find, ltb, leb, ◌==◌, ◌is◌, if◌then◌else◌, and_then, Result, ok, err,
  invalid, ok_or,
}

-- `is_power_of_two` and `trailing_zeros` of a word of four bits.
abbrev pub is_one_hot : ℕ → Bool
is_one_hot n = n == 1 || n == 2 || n == 4 || n == 8

abbrev pub trailing_zeros : ℕ → ℕ
trailing_zeros n = if n == 1 then 0 else if n == 2 then 1 else if n == 4 then 2 else 3

-- The shift that the remap nibble calls for; `remap ^ 0xf` is `15 - remap`.
unfoldable pub color_shift : String → ℕ → Option ℕ
color_shift architecture remap =
    if architecture is "aarch64" && is_one_hot (15 - remap)
    then some 16
    else if architecture is "amd64" && is_one_hot remap
    then some (13 + trailing_zeros remap)
    else none

unfoldable pub gen_address : ℕ → String → Option ℕ
unfolding color_shift
gen_address raw architecture =
    if raw / 2 ^ 16 == 0
    then some 0
    else if not (raw % 16 == 0)
    then none
    else and_then (color_shift architecture (raw / 2 ^ 12 % 16))
        λ shift. let address = raw / 2 ^ shift in if address % 8 == 0 then some address else none

pub data ReferenceModel : Type 0 where
  non_gen_low42 gen_arm_low_address gen_x86_low_address : ReferenceModel

unfoldable pub model_name : ReferenceModel → String
model_name non_gen_low42 = "nongen-low42-equals-file-offset"
model_name gen_arm_low_address = "gen-aarch64-heap-relative-equals-file-offset"
model_name gen_x86_low_address = "gen-amd64-heap-relative-equals-file-offset"

unfoldable pub parse_model : String → Result ReferenceModel
unfolding model_name
parse_model name =
    ok_or
      (find (λ m. model_name m is name)
        (non_gen_low42 ∷ gen_arm_low_address ∷ gen_x86_low_address ∷ []))
      "Unknown reference hypothesis; see --help"

unfoldable pub model_profile : ReferenceModel → Bool → String
model_profile non_gen_low42 false = "hotspot21-zgc-nongen-uncompressed-le64"
model_profile non_gen_low42 true = "hotspot21-zgc-nongen-compressedklass-le64"
model_profile _ false = "hotspot21-zgc-gen-uncompressed-le64"
model_profile _ true = "hotspot21-zgc-gen-compressedklass-le64"

-- `1 << (63 - n.leading_zeros())`: the highest bit of a positive u64, found in at most 63 halvings.
unfoldable pub top_bit_from : ℕ → ℕ → ℕ
top_bit_from zero n = 1
top_bit_from (suc f) n = let more = top_bit_from f (n / 2) in if ltb n 2 then 1 else 2 * more

unfoldable pub top_bit : ℕ → ℕ
unfolding top_bit_from
top_bit n = top_bit_from 63 n

-- `address ^ top`, where `top` is set in `address`, is a difference.
unfoldable pub heap_relative : Option ℕ → Option ℕ
unfolding top_bit
heap_relative none = none
heap_relative (some address) = if address == 0 then none else some (address - top_bit address)

unfoldable pub target : ReferenceModel → ℕ → Option ℕ
unfolding gen_address heap_relative
target non_gen_low42 raw =
    let color = raw / 2 ^ 42 % 8 in
    if not (raw / 2 ^ 46 == 0) || not (color == 1 || color == 2 || color == 4)
    then none
    else some (raw % 2 ^ 42)
target gen_arm_low_address raw = heap_relative (gen_address raw "aarch64")
target gen_x86_low_address raw = heap_relative (gen_address raw "amd64")

unfoldable pub is_null : ReferenceModel → ℕ → Bool
is_null non_gen_low42 raw = raw == 0
is_null _ raw = raw / 2 ^ 16 == 0
