-- ===== src/Census/Extracted.antt =====
-- What `Reader::carve` (src/analysis.rs) extracts: exactly the signed byte arrays of an index.
use zgcmaster.Prelude.{
  ℕ, ◌==◌, refuse_if, refuse_if-eq-ok, some_eq, eq_iff, ◌+◌, ◌*◌, ◌≤◌, ◌≡◌, refl, sym, ap, ◌∙◌,
  subst, min, Bool, true, false, ◌&&◌, ◌||◌, not, String, Option, none, some, List, [], ◌∷◌, ◌++◌,
  map, err, ltb, ok_or, ok_or-eq-ok, length, slice, ◌is◌, if◌then◌else◌, Result, ok, ◌>>=◌, ◌>>◌,
  AllOf, >>=-eq-ok, >>-eq-ok, ok-injective, Bool-cases, Option-cases, inl, inr, arith,
}
use zgcmaster.Layout.{Class}
use zgcmaster.Scan.{Object}
use zgcmaster.Words.{checked_add, checked_mul, chunk_size}
use zgcmaster.Reader.{
  Reader, class_of_layout, object_at, Payload, bytes, class_of, validate_object, extract,
}
use zgcmaster.Census.{sniff}
use zgcmaster.Census.Signatures.{HasSignature, sniff-HasSignature, HasSignature-sniff}
use zgcmaster.Census.Carve.{
  Carved, length_or_zero, is_byte_array, carve_kind, carve_array, carve_object, carve_objects,
  carve,
}

-- The object is a byte array of the index whose payload in the capture begins with a signature of the
-- kind, within its first 32 bytes.
pub record IsSigned (r : Reader) (o : Object) (kind : String) : Type 0 where
  pub class : Class
  pub classified : class_of_layout r.index.layout o.class_id ≡ some class
  pub array : class.kind ≡ "array"
  pub element : class.element ≡ "byte"
  pub signed :
      HasSignature (slice (o.offset + class.base) (min (length_or_zero o.length) 32) r.file) kind

-- The payload of the object that the index has at an offset, whole.
pub record IsPayload (r : Reader) (offset : ℕ) (p : Payload) : Type 0 where
  pub object : Object
  pub class : Class
  pub count : ℕ
  pub found : object_at r offset ≡ ok object
  pub classified : class_of r object ≡ ok class
  pub valid : validate_object r object class ≡ ok tt
  pub counted : object.length ≡ some count
  pub start : p.source_offset ≡ offset + class.base
  pub content : p.content ≡ slice (offset + class.base) (count * class.scale) r.file
  pub whole : length p.content ≡ count * class.scale
  pub element : p.element_type ≡ class.element

pub record IsRow (r : Reader) (o : Object) (c : Carved) : Type 0 where
  pub at_offset : c.object_offset ≡ o.offset
  pub signed : IsSigned r o c.kind
  pub payload : IsPayload r c.object_offset c.extraction

-- The rows of some objects: one for each that has a signature, in their order, and none for the rest.
pub data AreCarved (r : Reader) : List Object → List Carved → Type 0 where
  no_more : AreCarved r [] []
  signed :
      (o : Object) (os : List Object) (c : Carved) (cs : List Carved)
      → IsRow r o c
      → AreCarved r os cs
      → AreCarved r (o ∷ os) (c ∷ cs)
  unsigned :
      (o : Object) (os : List Object) (cs : List Carved)
      → ((kind : String) → ¬ (IsSigned r o kind))
      → AreCarved r os cs
      → AreCarved r (o ∷ os) cs

bytes-eq :
    (r : Reader) (offset count : ℕ) (bs : List ℕ)
    → bytes r offset count ≡ ok bs
    → bs ≡ slice offset count r.file
unfolding bytes
bytes-eq r offset count bs h =
    of_test
      (ltb chunk_size count || (elim (checked_add offset count) [
        | none ↦ true
        | some end ↦ ltb r.index.heap_bytes end
      ]))
      h
  where
    of_test :
        (b : Bool)
        → (if b
            then err (zgcmaster.Prelude.invalid "Read exceeds heap or 1 MiB request limit")
            else ok (slice offset count r.file))
          ≡ ok bs
        → bs ≡ slice offset count r.file
    of_test true e = cc
    of_test false e = sym (ok-injective e)

extract-IsPayload :
    (r : Reader) (offset : ℕ) (p : Payload) → extract r offset ≡ ok p → IsPayload r offset p
unfolding extract
extract-IsPayload r offset p h =
    let (object, found, h₁) = >>=-eq-ok (object_at r offset) _ h in
    let (class, classified, h₂) = >>=-eq-ok (class_of r object) _ h₁ in
    let (valid, h₃) = >>-eq-ok (validate_object r object class) _ h₂ in
    let (primitive, h₄) =
      >>-eq-ok (refuse_if (not (class.kind is "array") || class.element is "reference") _) _ h₃ in
    let (count, counted, h₅) = >>=-eq-ok (ok_or object.length _) _ h₄ in
    let (bytes, multiplied, h₆) = >>=-eq-ok (ok_or (checked_mul count class.scale) _) _ h₅ in
    let e =
      checked_mul-eq count class.scale bytes
        (ok_or-eq-ok (checked_mul count class.scale) _ multiplied) in
    let copied : List ℕ = slice (offset + class.base) bytes r.file in
    let (whole, made) = >>-eq-ok (refuse_if (not (length copied == bytes)) _) _ h₆ in
    subst (IsPayload r offset) (ok-injective made) (record {
      object = object;
      class = class;
      count = count;
      found = found;
      classified = classified;
      valid = valid;
      counted = ok_or-eq-ok object.length _ counted;
      start = refl;
      content = ap (λ n. slice (offset + class.base) n r.file) e;
      whole = equal (length copied) bytes (refuse_if-eq-ok _ _ whole) ∙ e;
      element = refl;
    })
  where
    checked_mul-eq : (a b n : ℕ) → checked_mul a b ≡ some n → n ≡ a * b
    checked_mul-eq a b n t = ground (arith, t)

    equal : (m n : ℕ) → not (m == n) ≡ false → m ≡ n
    equal m n t = ground arith

no_kind : (kind : String) → ◌≡◌ {A = Option String} none (some kind) → ⊥
no_kind kind e = cc

module _ (r : Reader) (o : Object) (class : Class)
    (classified : class_of_layout r.index.layout o.class_id ≡ some class) where
  abbrev prefix_of : Class → List ℕ
  prefix_of c = slice (o.offset + c.base) (min (length_or_zero o.length) 32) r.file

  IsSigned-sniff :
      (kind : String)
      → IsSigned r o kind
      → (is_byte_array class ≡ true) × (sniff (prefix_of class) ≡ some kind)
  IsSigned-sniff kind i =
      let same : i.class ≡ class = some_eq (sym i.classified ∙ classified) in
      let k : class.kind is "array" ≡ true =
        (eq_iff _ _).1 (ap (λ (c : Class). c.kind) (sym same) ∙ i.array) in
      let e : class.element is "byte" ≡ true =
        (eq_iff _ _).1 (ap (λ (c : Class). c.element) (sym same) ∙ i.element) in
      (
        rw (k, e),
        HasSignature-sniff (prefix_of class) kind
            (subst (λ c. HasSignature (prefix_of c) kind) same i.signed),
      )

  -- An object with a signature that is sniffed, and one without.
  carve_kind-AreCarved :
      (os : List Object) (kind : Option String) (here rest : List Carved)
      → is_byte_array class ≡ true
      → sniff (prefix_of class) ≡ kind
      → carve_kind r o kind ≡ ok here
      → AreCarved r os rest
      → AreCarved r (o ∷ os) (here ++ rest)
  unfolding carve_kind
  carve_kind-AreCarved os none here rest array sniffed h more =
      subst (λ l. AreCarved r (o ∷ os) (l ++ rest)) (ok-injective h)
        (unsigned o os rest (λ kind i. no_kind kind (sym sniffed ∙ (IsSigned-sniff kind i).1)) more)
  carve_kind-AreCarved os (some kind) here rest array sniffed h more =
      let (payload, extracted, made) = >>=-eq-ok (extract r o.offset) _ h in
      let (k, e) = both (class.kind is "array") (class.element is "byte") array in
      let c : Carved = record { object_offset = o.offset; kind = kind; extraction = payload } in
      subst (λ l. AreCarved r (o ∷ os) (l ++ rest)) (ok-injective made)
        (signed o os c rest
          (record {
            at_offset = refl;
            signed = record {
              class = class;
              classified = classified;
              array = (eq_iff _ _).0 k;
              element = (eq_iff _ _).0 e;
              signed = sniff-HasSignature (prefix_of class) kind sniffed;
            };
            payload = extract-IsPayload r o.offset payload extracted;
          })
          more)
    where
      both : (a b : Bool) → a && b ≡ true → (a ≡ true) × (b ≡ true)
      both a b t = (ground arith, ground arith)

carve_object-AreCarved :
    (r : Reader) (o : Object) (os : List Object) (here rest : List Carved)
    → carve_object r o ≡ ok here
    → AreCarved r os rest
    → AreCarved r (o ∷ os) (here ++ rest)
unfolding carve_object class_of carve_array
carve_object-AreCarved r o os here rest h more =
    let (class, found, h₁) = >>=-eq-ok (class_of r o) _ h in
    let known = ok_or-eq-ok (class_of_layout r.index.layout o.class_id) _ found in
    elim (Bool-cases (is_byte_array class)) [
      | inl array ↦
          let (valid, h₂) = >>-eq-ok (validate_object r o class) _ (rw array at h₁) in
          let (prefix, read, h₃) =
            >>=-eq-ok (bytes r (o.offset + class.base) (min (length_or_zero o.length) 32)) _ h₂ in
          let e =
            bytes-eq r (o.offset + class.base) (min (length_or_zero o.length) 32) prefix read in
          carve_kind-AreCarved r o class known os (sniff prefix) here rest array (ap sniff (sym e))
            h₃ more
      | inr other ↦
          subst (λ l. AreCarved r (o ∷ os) (l ++ rest)) (ok-injective (rw other at h₁))
            (unsigned o os rest
              (λ kind i. differ (sym other ∙ (IsSigned-sniff r o class known kind i).0)) more)
    ]
  where
    differ : false ≡ true → ⊥
    differ e = cc

carve_objects-AreCarved :
    (r : Reader) (os : List Object) (rows : List Carved)
    → carve_objects r os ≡ ok rows
    → AreCarved r os rows
unfolding carve_objects
carve_objects-AreCarved r [] rows h = subst (AreCarved r []) (ok-injective h) no_more
carve_objects-AreCarved r (o ∷ os) rows h =
    let (here, carved, h₁) = >>=-eq-ok (carve_object r o) _ h in
    let (rest, more, h₂) = >>=-eq-ok (carve_objects r os) _ h₁ in
    subst (AreCarved r (o ∷ os)) (ok-injective h₂)
      (carve_object-AreCarved r o os here rest carved (carve_objects-AreCarved r os rest more))

-- Carving that ends well has a row for exactly the byte arrays of the index whose payload begins,
-- within its first 32 bytes as they stand in the capture, with a signature of a known kind, in the
-- order of the index: each under this kind, and with the whole payload of the object at its offset.
pub carve-AreCarved :
    (r : Reader) (rows : List Carved) → carve r ≡ ok rows → AreCarved r r.index.objects rows
unfolding carve
carve-AreCarved r rows h = carve_objects-AreCarved r r.index.objects rows h
