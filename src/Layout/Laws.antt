-- ===== src/Layout/Laws.antt =====
-- What `validate_layout` establishes for every class of a layout that it accepts.
use Prim.Native.String.{len}
use zgcmaster.Prelude.{
  ℕ, zero, suc, ◌+◌, ◌%◌, ◌^◌, ◌≤◌, ◌<◌, ◌≡◌, Bool, true, false, ◌&&◌, ◌||◌, not, Option, none,
  some, List, [], ◌∷◌, length, get_elem?, any, ltb, ◌==◌, ◌is◌, if◌then◌else◌, Result, ok, err,
  >>=-eq-ok, >>-eq-ok, refuse_if, refuse_if-eq-ok, ok-injective, try_fold, for_each, arith,
  Bool-cases, inl, inr, ap, sym, subst, ◌∙◌, contains, Error, some_eq,
}
use zgcmaster.Words.{chunk_size, u32_max, width, number}
use zgcmaster.Layout.{
  Field, Class, Layout, compressed, length_offset, field_end, array_scale, validate_field,
  validate_array, validate_instance, validate_kind, is_bad_klass, check_class, validate_class,
  validate_classes, validate_layout, is_unsupported, supported,
}

-- A field that ends inside an instance and starts after the header.
pub record IsField (layout : Layout) (class : Class) (field : Field) : Type 0 where
  pub bytes : ℕ
  pub typed : width field.type ≡ ok bytes
  pub after_header : (if compressed layout then 12 else 16) ≤ field.offset
  pub inside : field.offset + bytes ≤ class.size

abbrev pub AllFields : (Field → Type 0) → List Field → Type 0
AllFields P [] = Unit
AllFields P (f ∷ fs) = P f × AllFields P fs

pub record IsArrayClass (layout : Layout) (class : Class) : Type 0 where
  pub length_place : class.length_offset ≡ length_offset layout
  pub base_place : class.base ≡ (if compressed layout then 16 else 24)
  pub element_width : width class.element ≡ ok class.scale

pub record IsInstanceClass (layout : Layout) (class : Class) : Type 0 where
  pub least : 16 ≤ class.size
  pub most : class.size ≤ chunk_size
  pub aligned : class.size % 8 ≡ 0
  pub fields : AllFields (IsField layout class) class.fields

field_end-ok :
    (class : Class) (field : Field) (w : ℕ)
    → field_end class field w ≡ ok tt
    → field.offset + w ≤ class.size
unfolding field_end
field_end-ok class field w h = ground arith

array_scale-ok : (class : Class) (w : ℕ) → array_scale class w ≡ ok tt → w ≡ class.scale
unfolding array_scale
array_scale-ok class w h = ground arith

no_field :
    {layout : Layout} {class : Class} {field : Field} {m : Error}
    → ◌≡◌ {A = Result (Unit {0})} (err m) (ok tt)
    → IsField layout class field
no_field h = cc

validate_field-IsField :
    (layout : Layout) (class : Class) (field : Field)
    → validate_field layout class field ≡ ok tt
    → IsField layout class field
unfolding validate_field
validate_field-IsField layout class field h =
    elim (Bool-cases
      (ltb 1024 (len field.name) || ltb field.offset (if compressed layout then 12 else 16))) [
        | inl bad ↦ no_field (rw bad at h)
        | inr good ↦
            let (w, typed, rest) =
              >>=-eq-ok (width field.type) (field_end class field)
                (unfold field_end in rw good at h) in
            record {
              bytes = w;
              typed = typed;
              after_header = ground arith;
              inside = field_end-ok class field w rest;
            }
      ]

validate_fields-AllFields :
    (layout : Layout) (class : Class) (fields : List Field)
    → for_each (validate_field layout class) fields ≡ ok tt
    → AllFields (IsField layout class) fields
validate_fields-AllFields layout class [] h = tt
validate_fields-AllFields layout class (f ∷ fs) h =
    let (a, b) = >>-eq-ok (validate_field layout class f) _ h in
    (validate_field-IsField layout class f a, validate_fields-AllFields layout class fs b)

validate_array-IsArrayClass :
    (layout : Layout) (class : Class)
    → validate_array layout class ≡ ok tt
    → IsArrayClass layout class
unfolding validate_array
validate_array-IsArrayClass layout class h =
    elim (Bool-cases (
      not (class.length_offset == length_offset layout)
      || not (class.base == (if compressed layout then 16 else 24)))) [
        | inl bad ↦ cc (rw bad at h)
        | inr good ↦
            let (w, typed, rest) =
              >>=-eq-ok (width class.element) (array_scale class)
                (unfold array_scale in rw good at h) in
            record {
              length_place = ground arith;
              base_place = ground arith;
              element_width = typed ∙ ap ok (array_scale-ok class w rest);
            }
      ]

validate_instance-IsInstanceClass :
    (layout : Layout) (class : Class)
    → validate_instance layout class ≡ ok tt
    → IsInstanceClass layout class
unfolding validate_instance
validate_instance-IsInstanceClass layout class h =
    let (a, b) =
      >>-eq-ok
        (refuse_if (ltb class.size 16 || ltb chunk_size class.size || not (class.size % 8 == 0))
          "Invalid instance size")
        _ h in
    let g = refuse_if-eq-ok _ "Invalid instance size" a in
    record {
      least = ground arith;
      most = ground arith;
      aligned = ground arith;
      fields = validate_fields-AllFields layout class class.fields b;
    }

pub data IsKind (layout : Layout) (class : Class) : Type 0 where
  array : class.kind is "array" ≡ true → IsArrayClass layout class → IsKind layout class
  instance_of :
      class.kind is "array" ≡ false
      → class.kind is "instance" ≡ true
      → IsInstanceClass layout class
      → IsKind layout class

pub record IsClass (layout : Layout) (seen : List ℕ) (class : Class) (klass : ℕ) : Type 0 where
  pub identity : number class.klass ≡ ok klass
  pub nonzero : 0 < klass
  pub narrow : compressed layout ≡ true → klass < 2 ^ 32
  pub even : compressed layout ≡ false → klass % 8 ≡ 0
  pub fresh : any (λ k. k == klass) seen ≡ false
  pub kind : IsKind layout class

-- Every class is well formed, and its identity is not among those before it.
abbrev pub AreClasses : Layout → List ℕ → List Class → Type 0
AreClasses layout seen [] = Unit
AreClasses layout seen (c ∷ cs) =
    (klass : ℕ) × IsClass layout seen c klass × AreClasses layout (klass ∷ seen) cs

validate_kind-IsKind :
    (layout : Layout) (class : Class) → validate_kind layout class ≡ ok tt → IsKind layout class
unfolding validate_kind
validate_kind-IsKind layout class h = elim (Bool-cases (class.kind is "array")) [
  | inl a ↦ array a (validate_array-IsArrayClass layout class (rw a at h))
  | inr b ↦ elim (Bool-cases (class.kind is "instance")) [
    | inl i ↦ instance_of b i (validate_instance-IsInstanceClass layout class (rw (b, i) at h))
    | inr j ↦ no_kind (rw (b, j) at h)
  ]
]
  where
    no_kind : {m : Error} → ◌≡◌ {A = Result (Unit {0})} (err m) (ok tt) → IsKind layout class
    no_kind e = cc

check_class-IsClass :
    (layout : Layout) (seen : List ℕ) (class : Class) (klass : ℕ) {seen' : List ℕ}
    → number class.klass ≡ ok klass
    → check_class layout seen class klass ≡ ok seen'
    → IsClass layout seen class klass × (klass ∷ seen ≡ seen')
unfolding check_class
check_class-IsClass layout seen class klass e h =
    let (good, h₁) = >>-eq-ok (refuse_if (is_bad_klass layout seen klass) _) _ h in
    let (sized, h₂) =
      >>-eq-ok (refuse_if (ltb 1024 (len class.name) || ltb 512 (length class.fields)) _) _ h₁ in
    let (kinded, h₃) = >>-eq-ok (validate_kind layout class) _ h₂ in
    let g =
      refuse_if-eq-ok (is_bad_klass layout seen klass) "Invalid or duplicate class identity" good in
    (
      record {
        identity = e;
        nonzero = ground arith;
        narrow = λ c. ground arith;
        even = λ c. ground arith;
        fresh =
            last (klass == 0) (compressed layout && ltb u32_max klass)
              (not (compressed layout) && not (klass % 8 == 0)) _ g;
        kind = validate_kind-IsKind layout class kinded;
      },
      ok-injective h₃,
    )
  where
    last : (a b c d : Bool) → a || b || c || d ≡ false → d ≡ false
    last a b c d x = ground arith

validate_classes-AreClasses :
    (layout : Layout) (seen : List ℕ) (classes : List Class) (seen' : List ℕ)
    → try_fold (validate_class layout) seen classes ≡ ok seen'
    → AreClasses layout seen classes
unfolding validate_class
validate_classes-AreClasses layout seen [] seen' h = tt
validate_classes-AreClasses layout seen (c ∷ cs) seen' h =
    let (seen₁, here, rest) = >>=-eq-ok (validate_class layout seen c) _ h in
    let (klass, e, checked) = >>=-eq-ok (number c.klass) (check_class layout seen c) here in
    let (valid, grown) = check_class-IsClass layout seen c klass e checked in
    (
      klass,
      valid,
      validate_classes-AreClasses layout (klass ∷ seen) cs seen'
          (subst (λ s. try_fold (validate_class layout) s cs ≡ ok seen') (sym grown) rest),
    )

validate_classes-IsOk :
    (layout : Layout) → validate_classes layout ≡ ok tt → AreClasses layout [] layout.classes
unfolding validate_classes
validate_classes-IsOk layout h =
    let (seen, folded, e) =
      >>=-eq-ok (try_fold (validate_class layout) [] layout.classes) (λ seen. ok tt) h in
    validate_classes-AreClasses layout [] layout.classes seen folded

no_class : {layout : Layout} {c : Class} → ◌≡◌ {A = Option Class} none (some c) → IsKind layout c
no_class e = cc

-- The kind of the class at a place of the layout.
pub AreClasses-IsKind :
    (layout : Layout) (seen : List ℕ) (classes : List Class) (i : ℕ) (c : Class)
    → AreClasses layout seen classes
    → get_elem? classes i ≡ some c
    → IsKind layout c
AreClasses-IsKind layout seen [] i c h e = no_class e
AreClasses-IsKind layout seen (x ∷ xs) zero c (klass, valid, rest) e =
    subst (IsKind layout) (some_eq e) valid.kind
AreClasses-IsKind layout seen (x ∷ xs) (suc i) c (klass, valid, rest) e =
    AreClasses-IsKind layout (klass ∷ seen) xs i c rest e

-- What `validate_layout` accepts.
pub record IsValidLayout (layout : Layout) : Type 0 where
  pub known_profile : contains supported layout.profile ≡ true
  pub some_class : 0 < length layout.classes
  pub few : length layout.classes ≤ 2048
  pub classes : AreClasses layout [] layout.classes

-- A layout that `validate_layout` accepts has a supported profile, between 1 and 2048 classes, and
-- identities that are nonzero, distinct and right for the header width; every array class has the
-- profile's length and base offsets and the width of its element, and every instance class has a
-- size of 16 bytes to 1 MiB, a multiple of 8, with each field after the header and inside it.
pub validate_layout-IsValidLayout :
    (layout : Layout) → validate_layout layout ≡ ok tt → IsValidLayout layout
unfolding validate_layout
validate_layout-IsValidLayout layout h =
    let (known, h₁) = >>-eq-ok (refuse_if (is_unsupported layout) _) _ h in
    let (counted, h₂) =
      >>-eq-ok (refuse_if (length layout.classes == 0 || ltb 2048 (length layout.classes)) _)
        (validate_classes layout) h₁ in
    let g = refuse_if-eq-ok _ "Class count must be 1..2048" counted in
    record {
      known_profile =
          supported_profile (contains supported layout.profile) _ _ _
            (refuse_if-eq-ok (is_unsupported layout) _ known);
      some_class = ground arith;
      few = ground arith;
      classes = validate_classes-IsOk layout h₂;
    }
  where
    supported_profile : (p a b c : Bool) → a || not p || b || c ≡ false → p ≡ true
    supported_profile p a b c e = ground arith
