-- ===== src/Census/Sound.antt =====
-- The census (`collect` of src/census.rs) counts every byte array of its index once.
use zgcmaster.Prelude.{
  ℕ, ◌+◌, ◌≡◌, refl, sym, subst, Bool, ◌||◌, not, String, Option, none, some, List, [], ◌∷◌, min,
  ltb, ◌==◌, ◌is◌, if◌then◌else◌, ok, ok_or, ◌>>◌, refuse_if, try_fold, >>=-eq-ok, >>-eq-ok,
  ok_or-eq-ok, ok-injective, Bool-cases, inl, inr, arith,
}
use zgcmaster.Dict.{total}
use zgcmaster.Scan.{Object, Index}
use zgcmaster.Reader.{Reader, bytes, class_name, class_of, validate_object}
use zgcmaster.Census.{Options, validate_options, magic, require_indexed}
use zgcmaster.Census.Classify.{classify}
use zgcmaster.Census.Laws.{total_count, total_bytes}
use zgcmaster.Census.Collect.{
  Collected, nothing_collected, count_over_limit, count_full, collect_payload, collect_array,
  collect_object, collect,
}
use zgcmaster.Census.Accounts.{
  IsCensus, over_regions, classify-other, count_full-IsCensus, no_magic-IsCensus,
  prefix_magic-IsCensus,
}

-- The byte arrays among some objects of an index, and their bytes.
unfoldable pub arrays_of : Index → List Object → ℕ
unfolding class_name
arrays_of index [] = 0
arrays_of index (o ∷ os) = (if class_name index o is "[B" then 1 else 0) + arrays_of index os

abbrev pub length_of : Option ℕ → ℕ
length_of none = 0
length_of (some n) = n

unfoldable pub bytes_of : Index → List Object → ℕ
unfolding class_name
bytes_of index [] = 0
bytes_of index (o ∷ os) =
    (if class_name index o is "[B" then length_of o.length else 0) + bytes_of index os

module _ (is_json : List ℕ → Bool) (options : Options) (r : Reader) where
  collect_payload-IsCensus :
      (n m region start length : ℕ) (s s' : Collected)
      → IsCensus n m s
      → collect_payload is_json options r region start length s ≡ ok s'
      → IsCensus (n + 1) (m + length) s'
  unfolding collect_payload
  collect_payload-IsCensus n m region start length s s' i h =
      elim (Bool-cases (ltb options.max_bytes length)) [
        | inl over ↦
            let (prefix, read, made) =
              >>=-eq-ok (bytes r start (min length 32))
                (λ prefix. ok (count_over_limit region length (magic prefix) s)) (rw over at h) in
            subst (IsCensus (n + 1) (m + length)) (ok-injective made) (over_limit (magic prefix))
        | inr within ↦
            let (payload, read, made) =
              >>=-eq-ok (bytes r start length)
                (λ payload. ok (count_full region length (classify is_json payload) s))
                (rw within at h) in
            let (no_array, no_bytes) = classify-other is_json payload in
            subst (IsCensus (n + 1) (m + length)) (ok-injective made) (
              count_full-IsCensus n m region length (classify is_json payload) s no_array no_bytes
                i)
      ]
    where
      over_limit :
          (o : Option String) → IsCensus (n + 1) (m + length) (count_over_limit region length o s)
      over_limit none = no_magic-IsCensus n m region length s i
      over_limit (some kind) = prefix_magic-IsCensus n m region length kind s i

  collect_array-IsCensus :
      (n m : ℕ) (o : Object) (s s' : Collected)
      → IsCensus n m s
      → collect_array is_json options r o s ≡ ok s'
      → IsCensus (n + 1) (m + length_of o.length) s'
  unfolding collect_array
  collect_array-IsCensus n m o s s' i h =
      let (class, known, h₁) = >>=-eq-ok (class_of r o) _ h in
      let (shaped, h₂) =
        >>-eq-ok
          (refuse_if
            (not (class.kind is "array") || not (class.element is "byte") || not (class.scale == 1))
            "[B layout is not a byte array")
          _ h₁ in
      let (valid_object, h₃) = >>-eq-ok (validate_object r o class) _ h₂ in
      let (length, has_length, h₄) = >>=-eq-ok (ok_or o.length "Byte array has no length") _ h₃ in
      subst (λ l. IsCensus (n + 1) (m + length_of l) s') (sym (ok_or-eq-ok o.length _ has_length))
        (collect_payload-IsCensus n m _ _ length s s' i h₄)

  try_fold-IsCensus :
      (os : List Object) (n m : ℕ) (s s' : Collected)
      → IsCensus n m s
      → try_fold (collect_object is_json options r) s os ≡ ok s'
      → IsCensus (n + arrays_of r.index os) (m + bytes_of r.index os) s'
  unfolding collect_object arrays_of bytes_of
  try_fold-IsCensus [] n m s s' i h =
      let e : n + 0 ≡ n = omega arith in
      let f : m + 0 ≡ m = omega arith in rw (e, f) (subst (IsCensus n m) (ok-injective h) i)
  try_fold-IsCensus (o ∷ os) n m s s' i h =
      let (t, here, rest) = >>=-eq-ok (collect_object is_json options r s o) _ h in
      elim (Bool-cases (class_name r.index o is "[B")) [
        | inl array ↦
            let j = collect_array-IsCensus n m o s t i (rw array at here) in
            let e : n + (1 + arrays_of r.index os) ≡ n + 1 + arrays_of r.index os = omega arith in
            let f : m + (length_of o.length + bytes_of r.index os)
                ≡ m + length_of o.length + bytes_of r.index os =
              omega arith in
            rw (array, e, f) (try_fold-IsCensus os _ _ t s' j rest)
        | inr other ↦
            let e : 0 + arrays_of r.index os ≡ arrays_of r.index os = omega arith in
            let f : 0 + bytes_of r.index os ≡ bytes_of r.index os = omega arith in
            rw (other, e, f)
              (try_fold-IsCensus os n m t s'
                (subst (IsCensus n m) (ok-injective (rw other at here)) i) rest)
      ]

nothing_collected-IsCensus : IsCensus 0 0 nothing_collected
unfolding total_count total_bytes total over_regions
nothing_collected-IsCensus = record {
  counted = refl;
  sized = refl;
  formats = (refl, refl);
  classified = omega arith;
  bands = refl;
  encodings = refl;
  few_classified = omega arith;
  few_anomalies = omega arith;
  arrays_by_region = refl;
  bytes_by_region = refl;
}

-- The counts of a census that ends well agree. Its total is the number of byte arrays in the index
-- and its bytes are the sum of their lengths; both are also the sums over the formats, and over the
-- regions. The classified arrays are those read whole and those with a magic prefix, and no more
-- than all; the bands and the encodings count the arrays read whole, and the anomalies are among
-- these.
pub collect-IsCensus :
    (is_json : List ℕ → Bool) (r : Reader) (options : Options) (s : Collected)
    → collect is_json r options ≡ ok s
    → IsCensus (arrays_of r.index r.index.objects) (bytes_of r.index r.index.objects) s
unfolding collect
collect-IsCensus is_json r options s h =
    let (valid_options, h₁) =
      >>-eq-ok (validate_options options >> require_indexed r.index ("[B" ∷ [])) _ h in
    let e : 0 + arrays_of r.index r.index.objects ≡ arrays_of r.index r.index.objects =
      omega arith in
    let f : 0 + bytes_of r.index r.index.objects ≡ bytes_of r.index r.index.objects = omega arith in
    rw (e, f) at
      (try_fold-IsCensus is_json options r r.index.objects 0 0 nothing_collected s
        nothing_collected-IsCensus h₁)
