-- ===== src/Layout/Same.antt =====
-- The equality of layouts and of mappings, which src/lib.rs and src/corpus.rs test on their JSON values.
use zgcmaster.Prelude.{
  ℕ, String, Bool, true, false, ◌&&◌, not, List, [], ◌∷◌, ◌==◌, ◌is◌, ◌≡◌, refl, eq_iff, ==_iff,
  ==_refl, arith,
}
use zgcmaster.Layout.{Field, Class, Layout}
use zgcmaster.Maps.{Mapping}

unfoldable pub same_fields : List Field → List Field → Bool
same_fields [] [] = true
same_fields (f ∷ fs) (g ∷ gs) =
    f.name is g.name && f.offset == g.offset && f.type is g.type && same_fields fs gs
same_fields _ _ = false

-- The equality of two classes as JSON.
unfoldable pub same_class : Class → Class → Bool
unfolding same_fields
same_class c e =
    c.name is e.name
    && c.klass is e.klass
    && c.kind is e.kind
    && c.size == e.size
    && same_fields c.fields e.fields
    && c.element is e.element
    && c.base == e.base
    && c.scale == e.scale
    && c.length_offset == e.length_offset

unfoldable pub same_classes : List Class → List Class → Bool
unfolding same_class
same_classes [] [] = true
same_classes (c ∷ cs) (e ∷ es) = same_class c e && same_classes cs es
same_classes _ _ = false

unfoldable pub same_layout : Layout → Layout → Bool
unfolding same_classes
same_layout l m =
    l.version == m.version
    && l.profile is m.profile
    && l.java is m.java
    && l.architecture is m.architecture
    && same_classes l.classes m.classes

unfoldable pub same_mappings : List Mapping → List Mapping → Bool
same_mappings [] [] = true
same_mappings (j ∷ js) (k ∷ ks) =
    j.start == k.start && j.end == k.end && j.offset == k.offset && same_mappings js ks
same_mappings _ _ = false

is_refl : (s : String) → s is s ≡ true
is_refl s = (eq_iff s s).1 refl

pub and_both : (a b : Bool) → a && b ≡ true → (a ≡ true) × (b ≡ true)
and_both a b h = ground arith

pub not-not : (b : Bool) → not b ≡ false → b ≡ true
not-not b h = ground arith

same_fields_refl : (fs : List Field) → same_fields fs fs ≡ true
unfolding same_fields
same_fields_refl [] = refl
same_fields_refl (f ∷ fs) =
    rw (is_refl f.name, ==_refl f.offset, is_refl f.type, same_fields_refl fs)

same_class_refl : (c : Class) → same_class c c ≡ true
unfolding same_class
same_class_refl c = rw (
  is_refl c.name,
  is_refl c.klass,
  is_refl c.kind,
  ==_refl c.size,
  same_fields_refl c.fields,
  is_refl c.element,
  ==_refl c.base,
  ==_refl c.scale,
  ==_refl c.length_offset,
)

same_classes_refl : (cs : List Class) → same_classes cs cs ≡ true
unfolding same_classes
same_classes_refl [] = refl
same_classes_refl (c ∷ cs) = rw (same_class_refl c, same_classes_refl cs)

pub same_layout_refl : (l : Layout) → same_layout l l ≡ true
unfolding same_layout
same_layout_refl l = rw (
  ==_refl l.version,
  is_refl l.profile,
  is_refl l.java,
  is_refl l.architecture,
  same_classes_refl l.classes,
)

pub same_mappings_refl : (ms : List Mapping) → same_mappings ms ms ≡ true
unfolding same_mappings
same_mappings_refl [] = refl
same_mappings_refl (m ∷ ms) =
    rw (==_refl m.start, ==_refl m.end, ==_refl m.offset, same_mappings_refl ms)

is_eq : (s t : String) → s is t ≡ true → s ≡ t
is_eq s t h = (eq_iff s t).0 h

==_eq : (m n : ℕ) → (m == n) ≡ true → m ≡ n
==_eq m n h = (==_iff m n).0 h

pub same_mappings-eq : (js ks : List Mapping) → same_mappings js ks ≡ true → js ≡ ks
unfolding same_mappings
same_mappings-eq [] [] h = refl
same_mappings-eq [] (k ∷ ks) h = cc
same_mappings-eq (j ∷ js) [] h = cc
same_mappings-eq (j ∷ js) (k ∷ ks) h =
    let (h₃, rest) = and_both _ (same_mappings js ks) h in
    let (h₂, offset) = and_both _ (j.offset == k.offset) h₃ in
    let (start, end) = and_both (j.start == k.start) (j.end == k.end) h₂ in
    cc (==_eq _ _ start, ==_eq _ _ end, ==_eq _ _ offset, same_mappings-eq js ks rest)

same_fields-eq : (fs gs : List Field) → same_fields fs gs ≡ true → fs ≡ gs
unfolding same_fields
same_fields-eq [] [] h = refl
same_fields-eq [] (g ∷ gs) h = cc
same_fields-eq (f ∷ fs) [] h = cc
same_fields-eq (f ∷ fs) (g ∷ gs) h =
    let (h₃, rest) = and_both _ (same_fields fs gs) h in
    let (h₂, type) = and_both _ (f.type is g.type) h₃ in
    let (name, offset) = and_both (f.name is g.name) (f.offset == g.offset) h₂ in
    cc (is_eq _ _ name, ==_eq _ _ offset, is_eq _ _ type, same_fields-eq fs gs rest)

same_class-eq : (c e : Class) → same_class c e ≡ true → c ≡ e
unfolding same_class
same_class-eq c e h =
    let (h₈, length_offset) = and_both _ (c.length_offset == e.length_offset) h in
    let (h₇, scale) = and_both _ (c.scale == e.scale) h₈ in
    let (h₆, base) = and_both _ (c.base == e.base) h₇ in
    let (h₅, element) = and_both _ (c.element is e.element) h₆ in
    let (h₄, fields) = and_both _ (same_fields c.fields e.fields) h₅ in
    let (h₃, size) = and_both _ (c.size == e.size) h₄ in
    let (h₂, kind) = and_both _ (c.kind is e.kind) h₃ in
    let (name, klass) = and_both (c.name is e.name) (c.klass is e.klass) h₂ in
    cc (
      is_eq _ _ name,
      is_eq _ _ klass,
      is_eq _ _ kind,
      ==_eq _ _ size,
      same_fields-eq c.fields e.fields fields,
      is_eq _ _ element,
      ==_eq _ _ base,
      ==_eq _ _ scale,
      ==_eq _ _ length_offset,
    )

same_classes-eq : (cs es : List Class) → same_classes cs es ≡ true → cs ≡ es
unfolding same_classes
same_classes-eq [] [] h = refl
same_classes-eq [] (e ∷ es) h = cc
same_classes-eq (c ∷ cs) [] h = cc
same_classes-eq (c ∷ cs) (e ∷ es) h =
    let (first, rest) = and_both (same_class c e) (same_classes cs es) h in
    cc (same_class-eq c e first, same_classes-eq cs es rest)

pub same_layout-eq : (l m : Layout) → same_layout l m ≡ true → l ≡ m
unfolding same_layout
same_layout-eq l m h =
    let (h₄, classes) = and_both _ (same_classes l.classes m.classes) h in
    let (h₃, architecture) = and_both _ (l.architecture is m.architecture) h₄ in
    let (h₂, java) = and_both _ (l.java is m.java) h₃ in
    let (version, profile) = and_both (l.version == m.version) (l.profile is m.profile) h₂ in
    cc (
      ==_eq _ _ version,
      is_eq _ _ profile,
      is_eq _ _ java,
      is_eq _ _ architecture,
      same_classes-eq l.classes m.classes classes,
    )
