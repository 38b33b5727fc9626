-- ===== src/Discovery/Matches.antt =====
-- What the samples of src/discovery.rs give evidence of: Strings of one identity over arrays of
-- another.
use zgcmaster.Prelude.{
  ℕ, String, ◌%◌, ◌+◌, ◌≤◌, ◌<◌, ◌≡◌, refl, sym, ap, ◌∙◌, subst, Bool, true, false, ◌||◌, not,
  Option, none, some, List, [], ◌∷◌, length, slice, ltb, ◌==◌, if◌then◌else◌, AllOf, AllOf-map,
  Bool-cases, Option-cases, inl, inr, some_eq, arith,
}
use zgcmaster.Words.{checked_add, word}
use zgcmaster.Sets.Laws.{
  IsAscending, insert_set-IsAscending, length-insert_set, insert_set-AllOf, update-AllOf,
}
use zgcmaster.Dict.{insert}
use zgcmaster.Dict.Laws.{length-insert}
use zgcmaster.Dict.Order.{IsSorted, upsert-AllOf, upsert-IsSorted}
use zgcmaster.Digest.{Digest, hash_of}
use zgcmaster.Address.{ReferenceModel, target}
use zgcmaster.Scan.{Index}
use zgcmaster.RawStrings.{mark_ok, java_hash}
use zgcmaster.Discovery.{max_string_bytes, read_at, klass_bytes, Evidence, no_evidence}
use zgcmaster.Discovery.Sampling.{
  Samples, one_read, sample, sample_fields, sample_eligible, sample_array, sample_payload,
  other_target, bad_length, bad_end, add_match, is_unfit, sample_all,
}

pub read_at-eq :
    (file : List ℕ) (size offset count : ℕ) (bytes : List ℕ)
    → read_at file size offset count ≡ some bytes
    → (bytes ≡ slice offset count file) × (offset + count ≤ size)
unfolding read_at
read_at-eq file size offset count bytes h =
    elim (Bool-cases (
      ltb max_string_bytes count
      || (elim (checked_add offset count) [ none ↦ true | some end ↦ ltb size end ]))) [
        | inl bad ↦ absurd (no_bytes (rw (read_at, bad) at h))
        | inr good ↦ (sym (some_eq (rw (read_at, good) at h)), ground arith)
      ]
  where
    no_bytes : ◌≡◌ {A = Option (List ℕ)} none (some bytes) → ⊥
    no_bytes e = cc

abbrev hash_place : Bool → ℕ
hash_place narrow = if narrow then 12 else 16

abbrev base_of : Bool → ℕ
base_of narrow = if narrow then 16 else 24

-- The header at `offset` is that of a String of the one identity whose value is an array of the
-- other, inside the capture, with the hash that the String keeps.
pub record IsMatch (file : List ℕ) (index : Index) (narrow : Bool) (model : ReferenceModel)
    (klass array_klass offset : ℕ) : Type 0 where
  pub start : ℕ
  pub payload : List ℕ
  pub coder : ℕ
  pub coder_read : coder ≡ word (slice (hash_place narrow + 4) 1 (slice offset 32 file))
  pub coder_small : coder ≤ 1
  pub even : start % 8 ≡ 0
  pub elsewhere : ¬ (start ≡ offset)
  pub string_mark : mark_ok (slice offset 32 file) ≡ true
  pub string_klass : word (slice 8 (klass_bytes narrow) (slice offset 32 file)) ≡ klass
  pub resolved : target model (word (slice 24 8 (slice offset 32 file))) ≡ some start
  pub array_mark : mark_ok (slice start 24 file) ≡ true
  pub array_klass_read : word (slice 8 (klass_bytes narrow) (slice start 24 file)) ≡ array_klass
  pub content :
      payload
      ≡ slice
          (start + base_of narrow)
          (word (slice (8 + klass_bytes narrow) 4 (slice start 24 file)))
          file
  pub inside :
      start + base_of narrow + word (slice (8 + klass_bytes narrow) 4 (slice start 24 file))
      ≤ index.heap_bytes
  pub hashed : java_hash payload coder ≡ word (slice (hash_place narrow) 4 (slice offset 32 file))
  pub not_zero : 0 < java_hash payload coder

-- Some match has its array at `start`, or a payload of the digest `hash`.
pub record HasArray (file : List ℕ) (index : Index) (narrow : Bool) (model : ReferenceModel)
    (klass array_klass start : ℕ) : Type 0 where
  pub string_offset : ℕ
  pub found : IsMatch file index narrow model klass array_klass string_offset
  pub at_start : found.start ≡ start

pub record HasPayload (d : Digest) (file : List ℕ) (index : Index) (narrow : Bool)
    (model : ReferenceModel) (klass array_klass : ℕ) (hash : String) : Type 0 where
  pub string_offset : ℕ
  pub found : IsMatch file index narrow model klass array_klass string_offset
  pub digest : hash_of d found.payload ≡ hash

-- The evidence for one array identity: distinct Strings, each a match, with the distinct arrays of
-- matches and the distinct digests of their payloads.
pub record IsEvidence (d : Digest) (file : List ℕ) (index : Index) (narrow : Bool)
    (model : ReferenceModel) (klass array_klass : ℕ) (e : Evidence) : Type 0 where
  pub matched : AllOf (IsMatch file index narrow model klass array_klass) e.strings
  pub distinct : IsAscending 0 e.strings
  pub of_arrays : AllOf (HasArray file index narrow model klass array_klass) e.arrays
  pub distinct_arrays : IsAscending 0 e.arrays
  pub of_payloads :
      AllOf (λ h. HasPayload d file index narrow model klass array_klass h.0) e.payload_hashes
  pub distinct_payloads : IsSorted e.payload_hashes
  pub strings : length e.strings ≤ e.matches
  pub arrays : length e.arrays ≤ e.matches
  pub payloads : length e.payload_hashes ≤ e.matches

module _ (d : Digest) (file : List ℕ) (index : Index) (narrow : Bool) (model : ReferenceModel)
    (klass : ℕ) where
  -- Evidence with no more matches than `n`.
  abbrev pub IsWithin : ℕ → ℕ × Evidence → Type 0
  IsWithin n (k, e) = IsEvidence d file index narrow model klass k e × (e.matches ≤ n)

  pub record IsSampled (s : Samples) : Type 0 where
    pub within : AllOf (IsWithin s.eligible) s.evidence

  no_evidence-IsEvidence : (k : ℕ) → IsEvidence d file index narrow model klass k no_evidence
  no_evidence-IsEvidence k = record {
    matched = tt;
    distinct = tt;
    of_arrays = tt;
    distinct_arrays = tt;
    of_payloads = tt;
    distinct_payloads = tt;
    strings = omega arith;
    arrays = omega arith;
    payloads = omega arith;
  }

  module _ (offset : ℕ) where
    add_match-IsEvidence :
        (k start len coder : ℕ) (payload : List ℕ) (e : Evidence)
        (m : IsMatch file index narrow model klass k offset)
        → m.start ≡ start
        → m.payload ≡ payload
        → IsEvidence d file index narrow model klass k e
        → IsEvidence d file index narrow model klass k
            (add_match d file index narrow model klass offset start len coder payload e)
    unfolding insert
    add_match-IsEvidence k start len coder payload e m at_start same_payload i = record {
      matched = insert_set-AllOf _ offset e.strings m i.matched;
      distinct = insert_set-IsAscending 0 offset e.strings (omega arith) i.distinct;
      of_arrays =
          insert_set-AllOf _ start e.arrays
            (record { string_offset = offset; found = m; at_start = at_start }) i.of_arrays;
      distinct_arrays = insert_set-IsAscending 0 start e.arrays (omega arith) i.distinct_arrays;
      of_payloads =
          upsert-AllOf (λ h. HasPayload d file index narrow model klass k h.0) (hash_of d payload)
            (λ o. tt) e.payload_hashes
            (λ o. record {
              string_offset = offset;
              found = m;
              digest = ap (hash_of d) same_payload;
            })
            i.of_payloads;
      distinct_payloads =
          upsert-IsSorted (hash_of d payload) (λ o. tt) e.payload_hashes i.distinct_payloads;
      strings = omega (arith, i.strings, length-insert_set offset e.strings);
      arrays = omega (arith, i.arrays, length-insert_set start e.arrays);
      payloads = omega (arith, i.payloads, length-insert (hash_of d payload) tt e.payload_hashes);
    }

    -- A String of the group with one more eligible sample than its matches.
    record IsReady (n : ℕ) (s : Samples) : Type 0 where
      one_more : s.eligible ≡ n + 1
      evidence : AllOf (IsWithin n) s.evidence

    IsReady-IsSampled : (n : ℕ) (s : Samples) → IsReady n s → IsSampled s
    IsReady-IsSampled n s r = record {
      within = AllOf-map s.evidence (λ p i. (i.0, omega (arith, i.1, r.one_more))) r.evidence;
    }

    skip_if :
        (test : Bool) (s : Samples) (rest : Samples)
        → IsSampled s
        → (test ≡ false → IsSampled rest)
        → IsSampled (if test then s else rest)
    skip_if true s rest h k = h
    skip_if false s rest h k = k refl

    module _ (string : List ℕ) (same_string : string ≡ slice offset 32 file)
        (string_mark : mark_ok string ≡ true)
        (string_klass : word (slice 8 (klass_bytes narrow) string) ≡ klass) (start coder n : ℕ)
        (resolved : target model (word (slice 24 8 string)) ≡ some start)
        (not_zero : 0 < word (slice (hash_place narrow) 4 string))
        (coder_read : coder ≡ word (slice (hash_place narrow + 4) 1 string))
        (coder_small : coder ≤ 1) (even : start % 8 ≡ 0) (elsewhere : ¬ (start ≡ offset)) where
      abbrev cached : ℕ
      cached = word (slice (hash_place narrow) 4 string)

      sample_payload-IsSampled :
          (array : List ℕ) (s : Samples)
          → array ≡ slice start 24 file
          → mark_ok array ≡ true
          → IsReady n s
          → IsSampled (
              sample_payload d file index narrow model klass offset start
                (word (slice 8 (klass_bytes narrow) array))
                cached
                coder
                (word (slice (8 + klass_bytes narrow) 4 array))
                s)
      unfolding sample_payload
      sample_payload-IsSampled array s same_array array_mark r =
          let len : ℕ = word (slice (8 + klass_bytes narrow) 4 array) in
          let k : ℕ = word (slice 8 (klass_bytes narrow) array) in
          elim (Option-cases (read_at file index.heap_bytes (start + base_of narrow) len)) [
            | inl past ↦ rw (sample_payload, past) (IsReady-IsSampled n s r)
            | inr (payload, read) ↦
                rw (sample_payload, read)
                  (skip_if (not (java_hash payload coder == cached)) s _ (IsReady-IsSampled n s r)
                    λ same.
                      let (bytes, inside) =
                        read_at-eq file index.heap_bytes (start + base_of narrow) len payload
                          read in
                      let hash = equal _ _ same in
                      let m : IsMatch file index narrow model klass k offset = record {
                        start = start;
                        payload = payload;
                        coder = coder;
                        coder_read =
                            coder_read
                            ∙ ap (λ b. word (slice (hash_place narrow + 4) 1 b)) same_string;
                        coder_small = coder_small;
                        even = even;
                        elsewhere = elsewhere;
                        string_mark = subst (λ b. mark_ok b ≡ true) same_string string_mark;
                        string_klass =
                            subst (λ b. word (slice 8 (klass_bytes narrow) b) ≡ klass) same_string
                              string_klass;
                        resolved =
                            subst (λ b. target model (word (slice 24 8 b)) ≡ some start) same_string
                              resolved;
                        array_mark = subst (λ b. mark_ok b ≡ true) same_array array_mark;
                        array_klass_read =
                            ap (λ b. word (slice 8 (klass_bytes narrow) b)) (sym same_array);
                        content =
                            bytes
                            ∙ ap
                                (λ b.
                                  slice (start + base_of narrow)
                                    (word (slice (8 + klass_bytes narrow) 4 b)) file)
                                same_array;
                        inside =
                            subst
                              (λ b.
                                start + base_of narrow + word (slice (8 + klass_bytes narrow) 4 b)
                                ≤ index.heap_bytes)
                              same_array inside;
                        hashed = hash ∙ ap (λ b. word (slice (hash_place narrow) 4 b)) same_string;
                        not_zero = subst (λ h. 0 < h) (sym hash) not_zero;
                      } in
                      record {
                        within =
                            update-AllOf (IsWithin n) (IsWithin s.eligible) k no_evidence _
                              s.evidence (no_evidence-IsEvidence k, omega arith)
                              (λ e i. (
                                add_match-IsEvidence k start len coder payload e m refl refl i.0,
                                omega (arith, i.1, r.one_more),
                              ))
                              (λ p i. (i.0, omega (arith, i.1, r.one_more))) r.evidence;
                      })
          ]
        where
          equal : (a b : ℕ) → not (a == b) ≡ false → a ≡ b
          equal a b e = ground arith

      sample_array-IsSampled :
          (array : List ℕ) (s : Samples)
          → array ≡ slice start 24 file
          → IsReady n s
          → IsSampled
              (sample_array d file index narrow model klass offset array start cached coder s)
      unfolding sample_array
      sample_array-IsSampled array s same_array r =
          let h = IsReady-IsSampled n s r in
          let k : ℕ = word (slice 8 (klass_bytes narrow) array) in
          let len : ℕ = word (slice (8 + klass_bytes narrow) 4 array) in
          skip_if (not (mark_ok array)) s _ h λ marked.
            skip_if (k == klass || is_unfit d file index narrow model klass offset k) s _ h λ fit.
              skip_if (bad_length d file index narrow model klass offset coder len) s _ h λ long.
                skip_if (bad_end d file index narrow model klass offset start len) s _ h λ ends.
                  sample_payload-IsSampled array (one_read s) same_array (is_marked _ marked)
                    (record { one_more = r.one_more; evidence = r.evidence })
        where
          is_marked : (b : Bool) → not b ≡ false → b ≡ true
          is_marked b e = ground arith

      sample_eligible-IsSampled :
          (s : Samples)
          → IsReady n s
          → IsSampled (elim (read_at file index.heap_bytes start 24) [
            | none ↦ one_read s
            | some array ↦
                sample_array d file index narrow model klass offset array start cached coder
                  (one_read s)
          ])
      sample_eligible-IsSampled s r =
          let next : IsReady n (one_read s) = record {
            one_more = r.one_more;
            evidence = r.evidence;
          } in
          elim (Option-cases (read_at file index.heap_bytes start 24)) [
            | inl past ↦ rw past (IsReady-IsSampled n (one_read s) next)
            | inr (array, read) ↦ rw read (
                sample_array-IsSampled array (one_read s)
                  (read_at-eq file index.heap_bytes start 24 array read).0 next)
          ]

    other_target-eq :
        (raw start : ℕ)
        → other_target d file index narrow model klass offset raw ≡ some start
        → (target model raw ≡ some start) × (start % 8 ≡ 0) × ¬ (start ≡ offset)
    unfolding other_target
    other_target-eq raw start h = ground arith

    sample_fields-IsSampled :
        (string : List ℕ) (s : Samples)
        → string ≡ slice offset 32 file
        → mark_ok string ≡ true
        → word (slice 8 (klass_bytes narrow) string) ≡ klass
        → IsSampled s
        → IsSampled (sample_fields d file index narrow model klass offset string s)
    unfolding sample_fields sample_eligible
    sample_fields-IsSampled string s same marked named i =
        let cached : ℕ = word (slice (hash_place narrow) 4 string) in
        let coder : ℕ = word (slice (hash_place narrow + 4) 1 string) in
        let flag : ℕ = word (slice (hash_place narrow + 4 + 1) 1 string) in
        let raw : ℕ = word (slice 24 8 string) in
        let ready : Samples = record s { eligible = s.eligible + 1; checked = s.checked + 1 } in
        let r : IsReady s.eligible ready = record { one_more = refl; evidence = i.within } in
        skip_if (cached == 0 || ltb 1 coder || not (flag == 0)) s _ i λ fields.
          elim (Option-cases (other_target d file index narrow model klass offset raw)) [
            | inl missing ↦ rw (sample_eligible, missing) (IsReady-IsSampled s.eligible ready r)
            | inr (start, found) ↦
                rw (sample_eligible, found)
                  (let (resolved, even, elsewhere) = other_target-eq raw start found in
                    sample_eligible-IsSampled string same marked named start coder s.eligible
                      resolved (positive _ _ _ fields) refl (small _ coder _ fields) even elsewhere
                      ready r)
          ]
      where
        small : (n c : ℕ) (t : Bool) → n == 0 || ltb 1 c || t ≡ false → c ≤ 1
        small n c t e = ground arith

        positive : (n : ℕ) (a b : Bool) → n == 0 || a || b ≡ false → 0 < n
        positive n a b e = ground arith

    sample-IsSampled :
        (s : Samples) → IsSampled s → IsSampled (sample d file index narrow model klass offset s)
    unfolding sample
    sample-IsSampled s i =
        let next : IsSampled (one_read s) = record { within = i.within } in
        elim (Option-cases (read_at file index.heap_bytes offset 32)) [
          | inl past ↦ rw (sample, past) next
          | inr (string, read) ↦
              rw (sample, read)
                (skip_if
                  (not (mark_ok string)
                    || not (word (slice 8 (klass_bytes narrow) string) == klass))
                  (one_read s) _ next
                  λ header.
                    let (marked, named) = both (mark_ok string) _ _ header in
                    sample_fields-IsSampled string (one_read s)
                      (read_at-eq file index.heap_bytes offset 32 string read).0 marked named next)
        ]
      where
        both : (m : Bool) (a b : ℕ) → not m || not (a == b) ≡ false → (m ≡ true) × (a ≡ b)
        both m a b e = (ground arith, ground arith)

  pub sample_all-IsSampled :
      (offsets : List ℕ) (s : Samples)
      → IsSampled s
      → IsSampled (sample_all d file index narrow model klass offsets s)
  unfolding sample_all
  sample_all-IsSampled [] s i = i
  sample_all-IsSampled (offset ∷ offsets) s i =
      sample_all-IsSampled offsets (sample d file index narrow model klass offset s)
        (sample-IsSampled offset s i)
