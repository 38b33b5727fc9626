-- ===== src/Census/Classify.antt =====
-- `classify` of src/census.rs. Whether a text is JSON is for another library to say: `is_json` is a
-- parameter, on the scalar values of the text.
use zgcmaster.Prelude.{
  ℕ, ◌*◌, Bool, true, false, ◌&&◌, ◌||◌, not, String, Option, none, some, List, [], ◌∷◌, length,
  filter, ltb, leb, ◌==◌, ◌is◌, is_some, if◌then◌else◌,
}
use zgcmaster.Utf8.{Verdict, valid, incomplete_tail, invalid_sequence, from_utf8, lossy, between}
use zgcmaster.Census.{magic}

pub record Classification : Type 0 where
  pub kind : String
  pub band : String
  pub utf8 : String
  pub text_like_anomaly : Bool

-- `char::is_control` and `char::is_whitespace`.
abbrev pub is_control : ℕ → Bool
is_control c = ltb c 0x20 || between 0x7f 0x9f c

abbrev pub is_whitespace : ℕ → Bool
is_whitespace c =
    between 9 13 c
    || c == 0x20
    || c == 0x85
    || c == 0xa0
    || c == 0x1680
    || between 0x2000 0x200a c
    || c == 0x2028
    || c == 0x2029
    || c == 0x202f
    || c == 0x205f
    || c == 0x3000

abbrev pub trim_start : List ℕ → List ℕ
trim_start [] = []
trim_start (c ∷ cs) = elim (is_whitespace c) [ true ↦ trim_start cs | false ↦ c ∷ cs ]

abbrev pub is_printable : ℕ → Bool
is_printable c = not (c == 0xfffd) && (not (is_control c) || c == 10 || c == 13 || c == 9)

abbrev pub opens_json : List ℕ → Bool
opens_json [] = false
opens_json (c ∷ cs) = c == b'{' || c == b'['

unfoldable pub verdict_name : Verdict → String
verdict_name valid = "valid"
verdict_name incomplete_tail = "incomplete-tail"
verdict_name invalid_sequence = "invalid-sequence"

unfoldable pub band_of : ℕ → ℕ → String
band_of printable total =
    if leb (total * 95) (printable * 100)
    then "95-100%"
    else if leb (total * 80) (printable * 100)
    then "80-95%"
    else if leb total (printable * 2)
    then "50-80%"
    else "0-50%"

unfoldable pub kind_of : Option String → Bool → Bool → Bool → Bool → String
kind_of magic_kind json is_valid high medium = elim magic_kind [
  | some kind ↦ kind
  | none ↦
      if json
      then "json"
      else if not is_valid && medium
      then "text-like-invalid-utf8"
      else if is_valid && high
      then "text"
      else if medium
      then "mixed"
      else "binary"
]

abbrev empty_payload : Classification
empty_payload = record { kind = "empty"; band = "empty"; utf8 = "valid"; text_like_anomaly = false }

module _ (is_json : List ℕ → Bool) where
  abbrev pub whole_json : Bool → List ℕ → Bool
  whole_json is_valid text = is_valid && opens_json (trim_start text) && is_json (trim_start text)

  unfoldable pub classify_text : List ℕ → List ℕ → Classification
  unfolding verdict_name band_of kind_of magic
  classify_text bytes text =
      let utf8 = verdict_name (from_utf8 bytes) in
      let is_valid = utf8 is "valid" in
      let total = length text in
      let printable = length (filter is_printable text) in
      let high = leb (total * 95) (printable * 100) in
      let medium = leb (total * 80) (printable * 100) in
      record {
        kind = kind_of (magic bytes) (whole_json is_valid text) is_valid high medium;
        band = band_of printable total;
        utf8 = utf8;
        text_like_anomaly = not (is_some (magic bytes)) && not is_valid && medium;
      }

  unfoldable pub classify : List ℕ → Classification
  unfolding classify_text
  classify [] = empty_payload
  classify (b ∷ bs) = classify_text (b ∷ bs) (lossy (b ∷ bs))
