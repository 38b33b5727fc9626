-- ===== src/Profiles.antt =====
-- `profiles::boot` of src/profiles.rs: the layout templates of the boot profiles.
pub mod Laws
use zgcmaster.Prelude.{
  ℕ, Bool, true, false, ◌&&◌, ◌||◌, not, String, Option, none, some, List, [], ◌∷◌, ◌++◌, map,
  length, any, filter, ltb, ◌is◌, contains, codes, has_infix, is_some, if◌then◌else◌, Result, ok,
  err, invalid, ◌>>=◌, ◌>>◌, refuse_if, for_each,
}
use zgcmaster.Dict.{Dict, get}
use zgcmaster.Layout.{Field, Class, Layout, supported}

abbrev field : String → ℕ → String → Field
field name offset type = record { name = name; offset = offset; type = type }

-- `bindings.get(name).cloned().unwrap_or("UNBOUND".into())`.
unfoldable pub bound_to : Dict String → String → String
unfolding get
bound_to bindings name = elim (get name bindings) [ none ↦ "UNBOUND" | some klass ↦ klass ]

-- The closure `instance`.
unfoldable pub instance_template : Dict String → String → ℕ → List Field → Class
unfolding bound_to
instance_template bindings name size fields = record {
  name = name;
  klass = bound_to bindings name;
  kind = "instance";
  size = size;
  fields = fields;
  element = "";
  base = 0;
  scale = 0;
  length_offset = 0;
}

unfoldable pub array_template : Dict String → Bool → String → String → ℕ → Class
unfolding bound_to
array_template bindings narrow name element scale = record {
  name = name;
  klass = bound_to bindings name;
  kind = "array";
  size = (if narrow then 16 else 24);
  fields = [];
  element = element;
  base = (if narrow then 16 else 24);
  scale = scale;
  length_offset = (if narrow then 12 else 16);
}

abbrev pub string_fields : Bool → List Field
string_fields true =
    field "hash" 12 "int"
    ∷ field "coder" 16 "byte"
    ∷ field "hashIsZero" 17 "boolean"
    ∷ field "value" 24 "reference"
    ∷ []
string_fields false =
    field "hash" 16 "int"
    ∷ field "coder" 20 "byte"
    ∷ field "hashIsZero" 21 "boolean"
    ∷ field "value" 24 "reference"
    ∷ []

abbrev pub array_list_fields : Bool → List Field
array_list_fields true =
    field "modCount" 12 "int" ∷ field "size" 16 "int" ∷ field "elementData" 24 "reference" ∷ []
array_list_fields false =
    field "modCount" 16 "int" ∷ field "size" 20 "int" ∷ field "elementData" 24 "reference" ∷ []

abbrev pub node_fields : Bool → List Field
node_fields true =
    field "hash" 12 "int"
    ∷ field "key" 16 "reference"
    ∷ field "value" 24 "reference"
    ∷ field "next" 32 "reference"
    ∷ []
node_fields false =
    field "hash" 16 "int"
    ∷ field "key" 24 "reference"
    ∷ field "value" 32 "reference"
    ∷ field "next" 40 "reference"
    ∷ []

-- The six classes of a template, in the order of the source.
unfoldable pub templates : Dict String → Bool → List Class
unfolding instance_template array_template
templates bindings narrow =
    instance_template bindings "java.lang.String" 32 (string_fields narrow)
    ∷ instance_template bindings "java.util.ArrayList" 32 (array_list_fields narrow)
    ∷ instance_template bindings "java.util.HashMap$Node" (if narrow then 40 else 48)
        (node_fields narrow)
    ∷ array_template bindings narrow "[B" "byte" 1
    ∷ array_template bindings narrow "[I" "int" 4
    ∷ array_template bindings narrow "[J" "long" 8
    ∷ []

abbrev pub keys : Dict String → List String
keys [] = []
keys ((name, klass) ∷ bindings) = name ∷ keys bindings

abbrev pub is_bound : Dict String → Class → Bool
is_bound bindings class = is_some (get class.name bindings)

abbrev pub is_narrow : String → Bool
is_narrow profile = has_infix (codes "-compressedklass-") (codes profile)

abbrev pub knows_class : List Class → String → Bool
knows_class classes name = any (λ (c : Class). c.name is name) classes

abbrev pub retained : Dict String → List Class → List Class
retained bindings classes =
    if ltb 0 (length bindings) then filter (is_bound bindings) classes else classes

abbrev pub boot_layout : String → Dict String → Layout
boot_layout profile bindings = record {
  version = 1;
  profile = profile;
  java = "21.0-template";
  architecture = "unspecified";
  classes = retained bindings (templates bindings (is_narrow profile));
}

unfoldable pub boot : String → Dict String → Result Layout
unfolding get templates
boot profile bindings = do
  refuse_if (not (contains supported profile)) "Unknown boot profile"
  for_each
      (λ name.
        refuse_if (not (knows_class (templates bindings (is_narrow profile)) name))
          "No built-in layout for a class")
      (keys bindings)
  ok (boot_layout profile bindings)
