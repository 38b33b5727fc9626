-- ===== src/Layout.antt =====
-- The layout sidecar of src/lib.rs: its data, what its profile name says, and `validate_layout`.

pub mod Laws
pub mod Same
use Prim.Native.String.{len}
use zgcmaster.Prelude.{
  ℕ, ◌+◌, ◌*◌, ◌%◌, ◌^◌, ◌≤◌, Bool, true, false, ◌&&◌, ◌||◌, not, String, Option, none, some, List,
  [], ◌∷◌, length, any, ltb, leb, ◌==◌, if◌then◌else◌, codes, ◌is◌, contains, starts_with,
  has_infix, is_some, Result, ok, err, invalid, ◌>>=◌, ◌>>◌, refuse_if, for_each, try_fold,
}
use zgcmaster.Words.{chunk_size, u32_max, checked_add, width, number}

pub record Field : Type 0 where
  pub name : String
  pub offset : ℕ
  pub type : String

pub record Class : Type 0 where
  pub name : String
  pub klass : String
  pub kind : String
  pub size : ℕ
  pub fields : List Field
  pub element : String
  pub base : ℕ
  pub scale : ℕ
  pub length_offset : ℕ

pub record Layout : Type 0 where
  pub version : ℕ
  pub profile : String
  pub java : String
  pub architecture : String
  pub classes : List Class

abbrev pub supported : List String
supported =
    "hotspot21-zgc-nongen-uncompressed-le64" ∷ "hotspot21-zgc-nongen-compressedklass-le64"
    ∷ "hotspot21-zgc-gen-uncompressed-le64" ∷ "hotspot21-zgc-gen-compressedklass-le64" ∷ []

unfoldable pub compressed : Layout → Bool
compressed layout = has_infix (codes "-compressedklass-") (codes layout.profile)

unfoldable pub generational : Layout → Bool
generational layout = has_infix (codes "-gen-") (codes layout.profile)

unfoldable pub klass_width : Layout → ℕ
klass_width layout = if compressed layout then 4 else 8

unfoldable pub length_offset : Layout → ℕ
length_offset layout = if compressed layout then 12 else 16

-- The end of a field of `w` bytes lies inside the instance.
unfoldable pub field_end : Class → Field → ℕ → Result (Unit {0})
field_end class field w = elim (checked_add field.offset w) [
  | none ↦ err (invalid "Field extends outside instance")
  | some end ↦ refuse_if (ltb class.size end) "Field extends outside instance"
]

-- The test of one field of an instance, in the loop of `validate_layout`.
unfoldable pub validate_field : Layout → Class → Field → Result (Unit {0})
unfolding field_end
validate_field layout class field =
    if ltb 1024 (len field.name) || ltb field.offset (if compressed layout then 12 else 16)
    then err (invalid "Field extends outside instance")
    else (width field.type >>= field_end class field)

unfoldable pub array_scale : Class → ℕ → Result (Unit {0})
array_scale class w =
    refuse_if (not (class.scale == w) || ltb 0 (length class.fields)) "Unsupported array layout"

unfoldable pub validate_array : Layout → Class → Result (Unit {0})
unfolding array_scale
validate_array layout class =
    if not (class.length_offset == length_offset layout)
      || not (class.base == (if compressed layout then 16 else 24))
    then err (invalid "Unsupported array layout")
    else (width class.element >>= array_scale class)

unfoldable pub validate_instance : Layout → Class → Result (Unit {0})
unfolding validate_field
validate_instance layout class = do
  refuse_if (ltb class.size 16 || ltb chunk_size class.size || not (class.size % 8 == 0))
      "Invalid instance size"
  for_each (validate_field layout class) class.fields

-- `match class.kind.as_str()`.
unfoldable pub validate_kind : Layout → Class → Result (Unit {0})
unfolding validate_array validate_instance
validate_kind layout class =
    if class.kind is "array"
    then validate_array layout class
    else if class.kind is "instance"
    then validate_instance layout class
    else err (invalid "Unknown class kind")

abbrev pub is_bad_klass : Layout → List ℕ → ℕ → Bool
is_bad_klass layout seen klass =
    klass == 0
    || (compressed layout && ltb u32_max klass)
    || (not (compressed layout) && not (klass % 8 == 0))
    || any (λ k. k == klass) seen

-- The body of the loop over the classes, after the identity is read; `seen` holds the identities
-- met so far.
unfoldable pub check_class : Layout → List ℕ → Class → ℕ → Result (List ℕ)
unfolding validate_kind
check_class layout seen class klass = do
  refuse_if (is_bad_klass layout seen klass) "Invalid or duplicate class identity"
  refuse_if (ltb 1024 (len class.name) || ltb 512 (length class.fields))
      "Class description exceeds limits"
  validate_kind layout class
  ok (klass ∷ seen)

unfoldable pub validate_class : Layout → List ℕ → Class → Result (List ℕ)
unfolding check_class
validate_class layout seen class = do
  klass ← number class.klass
  check_class layout seen class klass

abbrev pub is_unsupported : Layout → Bool
is_unsupported layout =
    not (layout.version == 1)
    || not (contains supported layout.profile)
    || not (starts_with (codes "21.") (codes layout.java))
    || not (
        contains ("amd64" ∷ "aarch64" ∷ []) layout.architecture
        || (layout.architecture is "unspecified" && layout.java is "21.0-template"))

unfoldable pub validate_classes : Layout → Result (Unit {0})
unfolding validate_class
validate_classes layout = try_fold (validate_class layout) [] layout.classes >>= λ seen. ok tt

unfoldable pub validate_layout : Layout → Result (Unit {0})
unfolding validate_classes
validate_layout layout = do
  refuse_if (is_unsupported layout)
      "Unsupported layout: requires a supported Java 21 ZGC profile, little-endian amd64/aarch64"
  refuse_if (length layout.classes == 0 || ltb 2048 (length layout.classes))
      "Class count must be 1..2048"
  validate_classes layout
