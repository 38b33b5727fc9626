-- ===== src/RawStrings.antt =====
-- src/raw_strings.rs: the decoding of remote String objects under explicit hypotheses, with the
-- marks and the hash of src/discovery.rs. A file is the list of its bytes.
pub mod Sound
pub mod Total
pub mod Walk
pub mod Hash
pub mod Report
pub mod Reported
pub mod Random
pub mod Verify
pub mod Population
pub mod Sampled
pub mod Resolved
pub mod Verified
use zgcmaster.Prelude.{
  ℕ, zero, suc, ◌+◌, ◌-◌, ◌*◌, ◌/◌, ◌%◌, ◌^◌, Bool, true, false, ◌&&◌, ◌||◌, not, String, Option,
  none, some, List, [], ◌∷◌, length, slice, ltb, leb, ◌==◌, ◌is◌, is_some, if◌then◌else◌, and_then,
  Result, ok, err, invalid, ◌>>=◌, ◌>>◌, refuse_if, ok_or,
}
use zgcmaster.Words.{chunk_size, i32_max, checked_add, word, aligned, number}
use zgcmaster.Dict.{Dict, get}
use zgcmaster.Layout.{compressed, validate_layout}
use zgcmaster.Address.{ReferenceModel, parse_model, model_profile, target}
use zgcmaster.Profiles.{boot}
use zgcmaster.Scan.{plausible}
use zgcmaster.Reader.{utf16_units}

abbrev pub max_bytes : ℕ
max_bytes = 1024 * 1024

abbrev pub max_samples : ℕ
max_samples = 10_000

pub record Bindings : Type 0 where
  pub profile : String
  pub model : ReferenceModel
  pub narrow : Bool
  pub string_klass : ℕ
  pub array_klass : ℕ
  pub max_bytes : ℕ

abbrev pub names_both : Dict String → Bool
names_both bindings =
    length bindings == 2 && is_some (get "java.lang.String" bindings) && is_some (get "[B" bindings)

-- `number(&bindings[name])`, for a name that is bound.
abbrev pub identity_of : Dict String → String → Result ℕ
identity_of bindings name = ok_or (get name bindings) "no entry found for key" >>= number

-- `Bindings::new`.
unfoldable pub new_bindings : String → String → Dict String → ℕ → Result Bindings
unfolding get
new_bindings profile hypothesis bindings limit = do
  refuse_if (not (names_both bindings))
      "String commands require exactly --bind java.lang.String=ID and --bind '[B=ID'"
  refuse_if (not (leb 1 limit && leb limit max_bytes)) "--max-bytes must be 1..1048576"
  layout ← boot profile bindings
  validate_layout layout
  model ← parse_model hypothesis
  refuse_if (not (model_profile model (compressed layout) is profile))
      "Reference hypothesis conflicts with boot profile generation"
  string_klass ← identity_of bindings "java.lang.String"
  array_klass ← identity_of bindings "[B"
  ok (record {
    profile = profile;
    model = model;
    narrow = compressed layout;
    string_klass = string_klass;
    array_klass = array_klass;
    max_bytes = limit;
  })

abbrev pub header_width : Bindings → ℕ
header_width b = if b.narrow then 4 else 8

abbrev pub array_base : Bindings → ℕ
array_base b = if b.narrow then 16 else 24

unfoldable pub read_at : List ℕ → ℕ → ℕ → ℕ → Option (List ℕ)
read_at file size offset count =
    if ltb max_bytes count
      || (elim (checked_add offset count) [ none ↦ true | some end ↦ ltb size end ])
    then none
    else some (slice offset count file)

abbrev pub mark_ok : List ℕ → Bool
mark_ok bytes = plausible (word (slice 0 8 bytes))

-- `hash.wrapping_mul(31).wrapping_add(unit)` on a u32.
abbrev pub hash_step : ℕ → ℕ → ℕ
hash_step hash unit = (hash * 31 % 2 ^ 32 + unit) % 2 ^ 32

unfoldable pub hash_units : ℕ → List ℕ → ℕ
hash_units hash [] = hash
hash_units hash (unit ∷ units) = hash_units (hash_step hash unit) units

unfoldable pub java_hash : List ℕ → ℕ → ℕ
unfolding hash_units utf16_units
java_hash payload coder =
    if coder == 0 then hash_units 0 payload else hash_units 0 (utf16_units payload)

pub record Pair : Type 0 where
  pub offset : ℕ
  pub target : ℕ
  pub raw : ℕ
  pub payload : List ℕ
  pub coder : ℕ
  pub cached : ℕ
  pub computed : ℕ
  pub status : String

pub data Decoded : Type 0 where
  pair : Pair → Decoded
  rejected : String → Decoded

-- `Pair::units`.
abbrev pub units_of : Pair → ℕ
units_of p = length p.payload / (1 + p.coder)

-- What the header of a String says.
pub record Fields : Type 0 where
  pub cached : ℕ
  pub coder : ℕ
  pub zero_flag : ℕ
  pub raw : ℕ

unfoldable pub read_fields : Bindings → List ℕ → Fields
read_fields b header =
    let hash_at = 8 + header_width b in
    record {
      cached = word (slice hash_at 4 header);
      coder = word (slice (hash_at + 4) 1 header);
      zero_flag = word (slice (hash_at + 5) 1 header);
      raw = word (slice 24 8 header);
    }

unfoldable pub status_of : Fields → ℕ → String
status_of f computed =
    if f.cached == 0 && f.zero_flag == 0
    then "not-cached"
    else if not (f.cached == computed)
    then "mismatch"
    else if f.cached == 0
    then "zero-hash-match"
    else "match"

-- `self.model.target(raw).filter(|t| t.is_multiple_of(8))`.
unfoldable pub aligned_target : ReferenceModel → ℕ → Option ℕ
aligned_target model raw = and_then (target model raw) λ t. if t % 8 == 0 then some t else none

-- The array ends outside the capture or overlaps the String.
unfoldable pub bad_extent : ℕ → ℕ → ℕ → ℕ → Bool
bad_extent size offset start bytes = elim (and_then (aligned bytes) (checked_add start)) [
  | none ↦ true
  | some end ↦ ltb size end || (ltb offset end && ltb start (offset + 32))
]

abbrev pub made_pair : ℕ → ℕ → Fields → List ℕ → Pair
made_pair offset start f payload =
    let computed = java_hash payload f.coder in
    record {
      offset = offset;
      target = start;
      raw = f.raw;
      payload = payload;
      coder = f.coder;
      cached = f.cached;
      computed = computed;
      status = status_of f computed;
    }

-- The payload of an array of `len` bytes whose header was accepted.
unfoldable pub decode_payload : Bindings → List ℕ → ℕ → ℕ → ℕ → Fields → ℕ → Result Decoded
unfolding bad_extent read_at
decode_payload b file size offset start f len =
    if bad_extent size offset start (array_base b + len)
    then ok (rejected "array-extent-or-overlap")
    else if ltb b.max_bytes len
    then ok (rejected "payload-limit")
    else (ok_or (read_at file size (start + array_base b) len) "Capture changed during String read"
        >>= λ payload. ok (pair (made_pair offset start f payload)))

unfoldable pub decode_array : Bindings → List ℕ → ℕ → ℕ → ℕ → Fields → Result Decoded
unfolding decode_payload
decode_array b file size offset start f = elim (read_at file size start (array_base b)) [
  | none ↦ ok (rejected "array-out-of-bounds")
  | some array ↦
      let len = word (slice (8 + header_width b) 4 array) in
      if not (mark_ok array) || not (word (slice 8 (header_width b) array) == b.array_klass)
      then ok (rejected "array-header-mismatch")
      else if ltb i32_max len || (f.coder == 1 && not (len % 2 == 0))
      then ok (rejected "invalid-array-length")
      else decode_payload b file size offset start f len
]

unfoldable pub decode_fields : Bindings → List ℕ → ℕ → ℕ → Fields → Result Decoded
unfolding aligned_target decode_array
decode_fields b file size offset f =
    if ltb 1 f.coder || ltb 1 f.zero_flag || (f.zero_flag == 1 && not (f.cached == 0))
    then ok (rejected "invalid-string-fields")
    else elim (aligned_target b.model f.raw) [
      | none ↦ ok (rejected "unresolved-reference")
      | some start ↦ decode_array b file size offset start f
    ]

abbrev pub is_string_header : Bindings → List ℕ → Bool
is_string_header b header =
    mark_ok header && word (slice 8 (header_width b) header) == b.string_klass

unfoldable pub decode_header : Bindings → List ℕ → ℕ → ℕ → List ℕ → Result Decoded
unfolding read_fields decode_fields
decode_header b file size offset header =
    if not (offset % 8 == 0) || not (is_string_header b header)
    then ok (rejected "string-header-mismatch")
    else decode_fields b file size offset (read_fields b header)

unfoldable pub decode_at : Bindings → List ℕ → ℕ → ℕ → Result Decoded
unfolding read_at decode_header
decode_at b file size offset = elim (read_at file size offset 32) [
  | none ↦ ok (rejected "string-out-of-bounds")
  | some header ↦ decode_header b file size offset header
]
