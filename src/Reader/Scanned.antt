-- ===== src/Reader/Scanned.antt =====
-- Every object of a scan passes the checks of the reader: `scan_with` against `validate_object`.
use zgcmaster.Prelude.{
  ℕ, ◌+◌, ◌/◌, ◌%◌, ◌^◌, ◌≤◌, ◌≡◌, refl, true, false, Option, none, some, [], length, slice,
  get_elem?, ltb, ◌==◌, ◌is◌, ok, ok_or, arith, Bool-cases, Option-cases, inl, inr, ap, sym, ◌∙◌,
  ==_iff, some_eq,
}
use zgcmaster.Words.{chunk_size, max_file, word}
use zgcmaster.Layout.{Class, Layout, klass_width, length_offset}
use zgcmaster.Layout.Laws.{AreClasses, AreClasses-IsKind, IsKind, array, instance_of, IsArrayClass}
use zgcmaster.Scan.{
  Bound, Config, Header, Object, bind_classes, lookup, read_header, plausible, object_size,
  array_size, array_length,
}
use zgcmaster.Scan.Exact.{IsAnnounced}
use zgcmaster.Reader.{Reader, bytes, class_of, class_of_layout, validate_object, validated_size}
use zgcmaster.Reader.Entries.{
  IsEntry, bind_classes-AllBounds, lookup-IsEntry, none-ne-some, bytes-ok, within-eq,
  validate_array_size-ok,
}

module _ (r : Reader) (layout : Layout) (c : Config) (with_layout : r.index.layout ≡ some layout)
    (whole : r.index.heap_bytes ≡ length r.file) (small : length r.file ≤ max_file)
    (classes : AreClasses layout [] layout.classes)
    (bound : bind_classes 0 [] layout.classes ≡ ok c.table) (size : c.size ≡ length r.file) where
  entry :
      (klass : ℕ) (b : Bound)
      → lookup c.table klass ≡ some b
      → IsEntry layout.classes b × (b.klass ≡ klass)
  entry klass b = lookup-IsEntry layout.classes c.table klass b (
      bind_classes-AllBounds layout.classes 0 [] layout.classes
        (λ i. ap (get_elem? layout.classes) (omega arith)) tt bound)

  in_file :
      (offset count : ℕ)
      → count ≤ chunk_size
      → offset + count ≤ length r.file
      → bytes r offset count ≡ ok (slice offset count r.file)
  in_file offset count few fits =
      bytes-ok r offset count few (omega (arith, whole)) (omega (arith, whole))

  abbrev header_of : ℕ → Header
  header_of offset =
      read_header (klass_width layout) (length_offset layout) r.file (length r.file) offset

  module _ (o : Object)
      (a : IsAnnounced c (klass_width layout) (length_offset layout) r.file o) where
    abbrev b : Bound
    b = a.bound_by

    abbrev h : Header
    h = header_of o.offset

    found : IsEntry layout.classes b × (b.klass ≡ h.klass)
    found = entry h.klass b a.announces.bound

    same_class : o.class_id ≡ b.id
    same_class = ap (λ (x : Object). x.class_id) a.made

    same_size : o.size ≡ a.bytes
    same_size = ap (λ (x : Object). x.size) a.made

    same_length : o.length ≡ array_length b.class h
    same_length = ap (λ (x : Object). x.length) a.made

    pub class_of-ok : class_of r o ≡ ok b.class
    unfolding class_of class_of_layout
    class_of-ok =
        ap (λ l. ok_or (class_of_layout l o.class_id) "Object class is missing from layout")
          with_layout
        ∙ ap (λ (l : Option Class). ok_or l "Object class is missing from layout")
            (ap (get_elem? layout.classes) same_class ∙ found.0.at_place)

    class-IsKind : IsKind layout b.class
    class-IsKind = AreClasses-IsKind layout [] layout.classes b.id b.class classes found.0.at_place

    sized : object_size b.class (array_length b.class h) ≡ some a.bytes
    sized = within-eq _ _ _ _ a.announces.fits

    read-klass : h.klass ≡ word (slice (o.offset + 8) (klass_width layout) r.file)
    unfolding read_header
    read-klass = refl

    read-mark : h.mark ≡ word (slice o.offset 8 r.file)
    unfolding read_header
    read-mark = refl

    read-length :
        (w : ℕ)
        → h.length_word ≡ some w
        → (o.offset + length_offset layout + 4 ≤ length r.file)
          × (word (slice (o.offset + length_offset layout) 4 r.file) ≡ w)
    unfolding read_header
    read-length w e =
        elim (Bool-cases (ltb (length r.file) (o.offset + length_offset layout + 4))) [
          | inl past ↦ absurd (none-ne-some (rw past at e))
          | inr here ↦ (ground arith, some_eq (rw here at e))
        ]

    array_case :
        b.class.kind is "array" ≡ true
        → IsArrayClass layout b.class
        → (w : ℕ) → h.length_word ≡ some w
        → validated_size r o b.class ≡ ok a.bytes
    unfolding validated_size array_size object_size
    array_case k of_array w read =
        let (room, value) = read-length w read in
        let at_length = of_array.length_place in
        let len : array_length b.class h ≡ some w = rw (k, read) in
        let all : array_size b.class w ≡ some a.bytes =
          ap (object_size b.class) (sym len) ∙ sized in
        let got : bytes r (o.offset + b.class.length_offset) 4
            ≡ ok (slice (o.offset + length_offset layout) 4 r.file) =
          ap (λ k. bytes r (o.offset + k) 4) at_length ∙ in_file _ 4 (omega arith) room in
        let done = validate_array_size-ok b.class o w a.bytes (same_length ∙ len) all in
        rw (k, got, value, done)

    instance_case : b.class.kind is "array" ≡ false → validated_size r o b.class ≡ ok a.bytes
    unfolding validated_size object_size
    instance_case k =
        let no_length : array_length b.class h ≡ none = rw k in
        let same : b.class.size ≡ a.bytes =
          some_eq (ap (object_size b.class) (sym no_length) ∙ sized) in
        rw (k, same)

    validated_size-ok : validated_size r o b.class ≡ ok a.bytes
    validated_size-ok = elim class-IsKind [
      | array k of_array ↦ elim (Option-cases h.length_word) [
        | inl missing ↦ absurd (unreadable k missing)
        | inr (w, read) ↦ array_case k of_array w read
      ]
      | instance_of k other of_instance ↦ instance_case k
    ]
      where
        unreadable : b.class.kind is "array" ≡ true → h.length_word ≡ none → ⊥
        unreadable k missing = ground (arith, a.announces.readable)

    klass_width-le : klass_width layout ≤ 8
    unfolding klass_width
    klass_width-le = ground arith

    plausible-parts :
        ((word (slice o.offset 8 r.file) % 4 == 1) ≡ true)
        × ((word (slice o.offset 8 r.file) / 2 ^ 40 == 0) ≡ true)
    unfolding plausible
    plausible-parts = ground (arith, a.announces.shaped, read-mark)

    pub validate_object-ok : validate_object r o b.class ≡ ok tt
    unfolding validate_object
    validate_object-ok =
        let k₁ = klass_width-le in
        let header : bytes r (o.offset + 8) (klass_width layout)
            ≡ ok (slice (o.offset + 8) (klass_width layout) r.file) =
          in_file _ _ (omega arith) (omega (arith, a.room)) in
        let first : bytes r o.offset 8 ≡ ok (slice o.offset 8 r.file) =
          in_file _ 8 (omega arith) (omega (arith, a.room)) in
        let klass : (word (slice (o.offset + 8) (klass_width layout) r.file) == b.klass) ≡ true =
          (==_iff _ _).1 (sym read-klass ∙ sym found.1) in
        let fits : (a.bytes == o.size) ≡ true = (==_iff _ _).1 (sym same_size) in
        let mark = plausible-parts in
        rw (
          with_layout, header, found.0.identity, klass, validated_size-ok, fits, first, mark.0,
          mark.1,
        )
