-- ===== src/Census/Carve.antt =====
-- `Reader::carve` of src/analysis.rs: the byte arrays whose payload starts with a known signature. A
-- file that is written is its name and its bytes, a line of the output is a row.
use zgcmaster.Prelude.{
  ℕ, ◌+◌, min, Bool, ◌&&◌, not, String, Option, none, some, List, [], ◌∷◌, ◌++◌, ◌is◌,
  if◌then◌else◌, Result, ok, ◌>>=◌, ◌>>◌,
}
use zgcmaster.Layout.{Class}
use zgcmaster.Scan.{Object}
use zgcmaster.Reader.{Reader, Payload, bytes, class_of, validate_object, extract}
use zgcmaster.Census.{sniff}

-- A carved file: its name holds the offset and the kind.
pub record Carved : Type 0 where
  pub object_offset : ℕ
  pub kind : String
  pub extraction : Payload

abbrev pub length_or_zero : Option ℕ → ℕ
length_or_zero none = 0
length_or_zero (some n) = n

abbrev pub is_byte_array : Class → Bool
is_byte_array class = class.kind is "array" && class.element is "byte"

-- The file of an object whose payload starts with a signature.
unfoldable pub carve_kind : Reader → Object → Option String → Result (List Carved)
unfolding extract
carve_kind r object none = ok []
carve_kind r object (some kind) = extract r object.offset >>= λ payload.
    ok (record { object_offset = object.offset; kind = kind; extraction = payload } ∷ [])

unfoldable pub carve_array : Reader → Object → Class → Result (List Carved)
unfolding validate_object bytes sniff carve_kind
carve_array r object class = do
  validate_object r object class
  prefix ← bytes r (object.offset + class.base) (min (length_or_zero object.length) 32)
  carve_kind r object (sniff prefix)

-- The body of the loop over the objects.
unfoldable pub carve_object : Reader → Object → Result (List Carved)
unfolding class_of carve_array
carve_object r object = class_of r object >>= λ class.
    if not (is_byte_array class) then ok [] else carve_array r object class

unfoldable pub carve_objects : Reader → List Object → Result (List Carved)
unfolding carve_object
carve_objects r [] = ok []
carve_objects r (o ∷ os) = do
  carved ← carve_object r o
  rest ← carve_objects r os
  ok (carved ++ rest)

-- `Reader::carve`; an error ends it, and leaves the files that were written before.
unfoldable pub carve : Reader → Result (List Carved)
unfolding carve_objects
carve r = carve_objects r r.index.objects
