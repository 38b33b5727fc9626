-- ===== src/Reader.antt =====
-- `Reader` of src/lib.rs: random access to the objects of an index, each checked against the bytes
-- of the capture before it is decoded. The file is the list of its bytes.
pub mod Entries
pub mod Scanned
pub mod Kept
use zgcmaster.Prelude.{
  ℕ, zero, suc, ◌+◌, ◌-◌, ◌*◌, ◌/◌, ◌%◌, ◌^◌, ◌≤◌, min, Bool, true, false, ◌&&◌, ◌||◌, not, String,
  Option, none, some, List, [], ◌∷◌, ◌++◌, map, length, slice, get_elem?, find, ltb, leb, ◌==◌,
  ◌is◌, if◌then◌else◌, is_some, and_then, Result, ok, err, invalid, ◌>>=◌, ◌>>◌, refuse_if, ok_or,
}
use zgcmaster.Words.{
  two64, chunk_size, i32_max, checked_add, checked_mul, word, aligned, width, number,
}
use zgcmaster.Layout.{Field, Class, Layout, klass_width, length_offset, generational}
use zgcmaster.Maps.{translate}
use zgcmaster.Address.{gen_address}
use zgcmaster.Scan.{Object, Index}

pub record Reader : Type 0 where
  pub file : List ℕ
  pub index : Index

unfoldable pub bytes : Reader → ℕ → ℕ → Result (List ℕ)
bytes r offset count =
    if ltb chunk_size count
      || (elim (checked_add offset count) [ none ↦ true | some end ↦ ltb r.index.heap_bytes end ])
    then err (invalid "Read exceeds heap or 1 MiB request limit")
    else ok (slice offset count r.file)

-- `binary_search_by_key` on objects in the order of their offsets.
unfoldable pub find_object : List Object → ℕ → Option Object
find_object [] offset = none
find_object (o ∷ os) offset = elim (o.offset == offset) [
  | true ↦ some o
  | false ↦ find_object os offset
]

unfoldable pub object_at : Reader → ℕ → Result Object
unfolding find_object
object_at r offset = ok_or (find_object r.index.objects offset) "No indexed object"

unfoldable pub class_of_layout : Option Layout → ℕ → Option Class
class_of_layout none id = none
class_of_layout (some layout) id = get_elem? layout.classes id

unfoldable pub class_of : Reader → Object → Result Class
unfolding class_of_layout
class_of r object =
    ok_or (class_of_layout r.index.layout object.class_id) "Object class is missing from layout"

-- `Index::class_name`.
unfoldable pub class_name : Index → Object → String
unfolding class_of_layout
class_name index object = elim (class_of_layout index.layout object.class_id) [
  | none ↦ "unknown"
  | some class ↦ class.name
]

-- `object.length != Some(length)`.
abbrev pub is_length : Option ℕ → ℕ → Bool
is_length none n = false
is_length (some m) n = m == n

unfoldable pub validate_array_size : Class → Object → ℕ → Result ℕ
validate_array_size class object n = do
  refuse_if (ltb i32_max n || not (is_length object.length n))
      "Indexed array length does not match bytes"
  total ←
      ok_or (and_then (checked_mul n class.scale) λ m. checked_add m class.base)
        "Array size overflow"
  ok_or (aligned total) "Array size overflow"

-- The size that the bytes give an object.
unfoldable pub validated_size : Reader → Object → Class → Result ℕ
unfolding bytes validate_array_size
validated_size r object class =
    if class.kind is "array"
    then (bytes r (object.offset + class.length_offset) 4 >>= λ bs.
        validate_array_size class object (word bs))
    else ok class.size

unfoldable pub validate_object : Reader → Object → Class → Result (Unit {0})
unfolding bytes validated_size
validate_object r object class = do
  layout ← ok_or r.index.layout "Missing layout"
  header ← bytes r (object.offset + 8) (klass_width layout)
  klass ← number class.klass
  refuse_if (not (word header == klass)) "Indexed class does not match bytes"
  size ← validated_size r object class
  refuse_if (not (size == object.size)) "Indexed size does not match layout"
  first ← bytes r object.offset 8
  refuse_if (not (word first % 4 == 1) || not (word first / 2 ^ 40 == 0))
      "Indexed mark word is unsupported"

abbrev pub is_generational : Option Layout → Bool
is_generational none = false
is_generational (some layout) = generational layout

abbrev pub uncolor : Option Layout → ℕ → Option ℕ
uncolor none raw = some raw
uncolor (some layout) raw =
    if generational layout then gen_address raw layout.architecture else some raw

unfoldable pub reference_target : Reader → ℕ → Option ℕ
reference_target r raw =
    if r.index.identity_mapping
    then none
    else and_then (uncolor r.index.layout raw) (translate r.index.mappings)

-- A decoded text: Latin-1 code points, or UTF-16 units that the caller's lossy decoder gets.
pub record Text : Type 0 where
  pub units : List ℕ
  pub truncated : Bool

-- `chunks_exact(2).map(|c| word(c) as u16)`.
unfoldable pub utf16_units : List ℕ → List ℕ
utf16_units [] = []
utf16_units (b ∷ []) = []
utf16_units (b ∷ c ∷ bs) = word (b ∷ c ∷ []) ∷ utf16_units bs

unfoldable pub decode_units : ℕ → ℕ → List ℕ → Result (List ℕ)
unfolding utf16_units
decode_units coder count payload =
    if coder == 0
    then ok payload
    else if coder == 1 && count % 2 == 0
    then ok (utf16_units payload)
    else err (invalid "Invalid String coder or UTF-16 length")

abbrev pub find_field : List Field → String → Option Field
find_field fields name = find (λ (f : Field). f.name is name) fields

-- `Reader::string`.
unfoldable pub string_of : Reader → Object → Result Text
unfolding bytes object_at class_of validate_object reference_target decode_units
string_of r object = do
  class ← class_of r object
  validate_object r object class
  value ← ok_or (find_field class.fields "value") "String layout missing field"
  coder_field ← ok_or (find_field class.fields "coder") "String layout missing field"
  address ← bytes r (object.offset + value.offset) 8
  coder ← bytes r (object.offset + coder_field.offset) 1
  target ← ok_or (reference_target r (word address)) "String backing array is unmapped"
  array ← object_at r target
  array_class ← class_of r array
  validate_object r array array_class
  refuse_if (not (array_class.element is "byte")) "String backing object is not byte[]"
  count ← ok_or array.length "Missing String length"
  payload ← bytes r (target + array_class.base) (min count 512)
  units ← decode_units (word coder) count payload
  ok (record { units = units; truncated = ltb 512 count })

-- What `extract` copies: the payload of a primitive array, from where it starts.
pub record Payload : Type 0 where
  pub source_offset : ℕ
  pub content : List ℕ
  pub element_type : String

-- `Reader::extract`, up to the new file that it writes the bytes to.
unfoldable pub extract : Reader → ℕ → Result Payload
unfolding object_at class_of validate_object
extract r offset = do
  object ← object_at r offset
  class ← class_of r object
  validate_object r object class
  refuse_if (not (class.kind is "array") || class.element is "reference")
      "Only primitive array payloads can be extracted"
  count ← ok_or object.length "Missing array length"
  total ← ok_or (checked_mul count class.scale) "Payload overflow"
  let copied = slice (offset + class.base) total r.file
  refuse_if (not (length copied == total)) "Truncated payload during extraction"
  ok (record {
    source_offset = offset + class.base;
    content = copied;
    element_type = class.element;
  })
