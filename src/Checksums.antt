-- ===== src/Checksums.antt =====
-- `checksums` of src/lib.rs: the table of digests in the file SHA256SUMS of a bundle, from its bytes.
pub mod Laws
use zgcmaster.Prelude.{
  ℕ, ◌+◌, Bool, true, false, ◌&&◌, ◌||◌, not, String, Option, none, some, List, [], ◌∷◌, map,
  length, all, find, codes, ltb, leb, ◌==◌, is_some, if◌then◌else◌, Result, ok, err, invalid, ◌>>=◌,
  ◌>>◌, refuse_if, for_each, try_fold,
}
use zgcmaster.Dict.{Dict, get, insert}
use zgcmaster.Utf8.{is_utf8, pieces_from, verdict_of}
use zgcmaster.Maps.{lines_from, columns_from}

abbrev pub Sums : Type 0
Sums = Dict (List ℕ)

-- `read_bounded`, on a file that can be read.
unfoldable pub read_bounded : ℕ → List ℕ → Result (List ℕ)
read_bounded limit bytes = refuse_if (ltb limit (length bytes)) "Input exceeds limit" >> ok bytes

abbrev pub listed_names : List String
listed_names = "heap.raw" ∷ "layout.json" ∷ "maps.txt" ∷ "expected.json" ∷ "consistency.txt" ∷ []

abbrev pub required_names : List String
required_names = "heap.raw" ∷ "layout.json" ∷ "maps.txt" ∷ "consistency.txt" ∷ []

unfoldable pub same_codes : List ℕ → List ℕ → Bool
same_codes [] [] = true
same_codes (c ∷ s) (d ∷ t) = c == d && same_codes s t
same_codes _ _ = false

-- The listed name that a column spells.
unfoldable pub name_of : List ℕ → Option String
unfolding same_codes
name_of column = find (λ name. same_codes (codes name) column) listed_names

-- `is_ascii_hexdigit` and `to_lowercase`, on ASCII.
abbrev pub is_hex_digit : ℕ → Bool
is_hex_digit c =
    (leb b'0' c && leb c b'9') || (leb b'a' c && leb c b'f') || (leb b'A' c && leb c b'F')

abbrev pub lower : ℕ → ℕ
lower c = if leb b'A' c && leb c b'Z' then c + 32 else c

abbrev pub bad_entry : List ℕ → List (List ℕ) → String → Sums → Bool
bad_entry hash rest name sums =
    ltb 0 (length rest)
    || not (length hash == 64)
    || not (all is_hex_digit hash)
    || is_some (get name sums)

unfoldable pub add_entry : Sums → List (List ℕ) → Result Sums
unfolding name_of get insert
add_entry sums [] = err (invalid "Missing digest")
add_entry sums (hash ∷ []) = err (invalid "Missing checksum filename")
add_entry sums (hash ∷ column ∷ rest) = elim (name_of column) [
  | none ↦ err (invalid "Invalid checksum entry")
  | some name ↦
      if bad_entry hash rest name sums
      then err (invalid "Invalid checksum entry")
      else ok (insert name (map lower hash) sums)
]

abbrev pub add_line : Sums → List ℕ → Result Sums
add_line sums line = add_entry sums (columns_from [] line)

abbrev pub require : Sums → String → Result (Unit {0})
require sums name = refuse_if (not (is_some (get name sums))) "Missing checksum"

abbrev pub check_required : Sums → Result Sums
check_required sums = for_each (require sums) required_names >> ok sums

-- `checksums`.
unfoldable pub checksums : List ℕ → Result Sums
unfolding read_bounded pieces_from verdict_of lines_from columns_from add_entry get
checksums file = do
  bytes ← read_bounded 8192 file
  refuse_if (not (is_utf8 bytes)) "Bad checksum file"
  try_fold add_line [] (lines_from [] bytes) >>= check_required
