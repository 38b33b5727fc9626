-- ===== src/Utf16.antt =====
-- `char::decode_utf16` of the standard library, and `Pair::text` of src/raw_strings.rs, which decodes
-- with it. A text is the list of its scalar values.
pub mod Laws
use zgcmaster.Prelude.{
  ℕ, ◌+◌, ◌-◌, ◌*◌, ◌==◌, Bool, true, false, ◌&&◌, ◌||◌, not, Option, none, some, List, [], ◌∷◌,
  map, any, ltb, is_some, if◌then◌else◌,
}
use zgcmaster.Utf8.{between}
use zgcmaster.Reader.{utf16_units}
use zgcmaster.RawStrings.{Pair}

abbrev pub is_high : ℕ → Bool
is_high u = between 0xd800 0xdbff u

abbrev pub is_low : ℕ → Bool
is_low u = between 0xdc00 0xdfff u

-- The unit `u` starts a pair of surrogates.
abbrev pub pairs_up : ℕ → List ℕ → Bool
pairs_up u [] = false
pairs_up u (v ∷ us) = is_high u && is_low v

abbrev pub combined : ℕ → List ℕ → ℕ
combined u [] = u
combined u (v ∷ us) = 0x10000 + (u - 0xd800) * 1024 + (v - 0xdc00)

-- What the decoder gives for the unit `u`; a surrogate that stands alone is an error.
unfoldable pub unit_value : ℕ → List ℕ → Option ℕ
unit_value u us =
    if not (is_high u || is_low u)
    then some u
    else if pairs_up u us
    then some (combined u us)
    else none

-- `skipped` is set when the next unit is the second of a pair.
unfoldable pub decode_from : Bool → List ℕ → List (Option ℕ)
unfolding unit_value
decode_from skipped [] = []
decode_from false (u ∷ us) = unit_value u us ∷ decode_from (pairs_up u us) us
decode_from true (u ∷ us) = decode_from false us

abbrev pub decode_utf16 : List ℕ → List (Option ℕ)
decode_utf16 units = decode_from false units

abbrev pub or_replacement : Option ℕ → ℕ
or_replacement none = 0xfffd
or_replacement (some c) = c

-- A text, and whether characters of it were replaced.
pub record Decoded : Type 0 where
  pub text : List ℕ
  pub lossy : Bool

-- `Pair::text`.
unfoldable pub text_of : Pair → Decoded
unfolding decode_from utf16_units
text_of p =
    let chars = decode_utf16 (utf16_units p.payload) in
    if p.coder == 0
    then record { text = p.payload; lossy = false }
    else record { text = map or_replacement chars; lossy = any (λ c. not (is_some c)) chars }

-- `text.encode_utf16().count()`.
unfoldable pub utf16_length : List ℕ → ℕ
utf16_length [] = 0
utf16_length (c ∷ cs) = (if ltb c 0x10000 then 1 else 2) + utf16_length cs
