-- ===== src/Discovery/Sampling.antt =====
-- The search of src/discovery.rs: the samples of every group, under every reference hypothesis.
use zgcmaster.Sorting.{sort_by, text_less}
use zgcmaster.Prelude.{
  ℕ, ◌+◌, ◌%◌, Bool, true, false, ◌&&◌, ◌||◌, not, String, join, Option, none, some, List, [], ◌∷◌,
  ◌++◌, length, take, slice, ltb, leb, ◌==◌, if◌then◌else◌, and_then, Result, ok, ◌>>=◌,
}
use zgcmaster.Words.{checked_add, word, aligned}
use zgcmaster.Words.Hex.{hex}
use zgcmaster.Sets.{insert_set, update}
use zgcmaster.Dict.{get, insert}
use zgcmaster.Digest.{Digest, hash_of}
use zgcmaster.Spacing.{GroupStats}
use zgcmaster.Address.{
  ReferenceModel, non_gen_low42, gen_arm_low_address, gen_x86_low_address, model_name,
  model_profile, target,
}
use zgcmaster.Scan.{Index}
use zgcmaster.RawStrings.{mark_ok, java_hash}
use zgcmaster.Discovery.{
  groups_per_width, max_string_bytes, read_at, prefix_of, klass_bytes, groups_of, klass_of_key,
  sampled_offsets, Evidence, no_evidence, Proposal,
}

-- What the samples of one group change.
pub record Samples : Type 0 where
  pub reads : ℕ
  pub checked : ℕ
  pub hash_matches : ℕ
  pub eligible : ℕ
  pub evidence : List (ℕ × Evidence)

abbrev pub one_read : Samples → Samples
one_read s = record s { reads = s.reads + 1 }

module _ (d : Digest) (file : List ℕ) (index : Index) (narrow : Bool) (model : ReferenceModel)
    (klass : ℕ) (offset : ℕ) where
  -- Offsets of the fields of a String.
  abbrev pub hash_at : ℕ
  hash_at = if narrow then 12 else 16

  abbrev pub coder_at : ℕ
  coder_at = hash_at + 4

  abbrev pub payload_base : ℕ
  payload_base = if narrow then 16 else 24

  abbrev pub add_match : ℕ → ℕ → ℕ → List ℕ → Evidence → Evidence
  add_match start len coder payload e = record {
    matches = e.matches + 1;
    strings = insert_set offset e.strings;
    arrays = insert_set start e.arrays;
    payload_hashes = insert (hash_of d payload) tt e.payload_hashes;
    examples =
        if ltb (length e.examples) 4
        then e.examples
          ++ (record {
            string_offset = offset;
            array_offset = start;
            array_bytes = len;
            coder = coder;
          })
            ∷ []
        else e.examples;
  }

  -- The payload of an array that fits.
  unfoldable pub sample_payload : ℕ → ℕ → ℕ → ℕ → ℕ → Samples → Samples
  unfolding read_at java_hash update insert_set insert
  sample_payload start array_klass cached coder len s =
      elim (read_at file index.heap_bytes (start + payload_base) len) [
        | none ↦ s
        | some payload ↦ if not (java_hash payload coder == cached) then s else record s {
          hash_matches = s.hash_matches + 1;
          evidence = update array_klass no_evidence (add_match start len coder payload) s.evidence;
        }
      ]

  -- The group of the array is periodic, or there is none.
  abbrev pub is_unfit : ℕ → Bool
  is_unfit array_klass =
      elim (get (join (prefix_of narrow) (hex array_klass)) index.header_group_stats) [
        | none ↦ true
        | some s ↦ s.periodic
      ]

  abbrev pub bad_length : ℕ → ℕ → Bool
  bad_length coder len =
      not (leb 3 len && leb len max_string_bytes) || (coder == 1 && not (len % 2 == 0))

  -- The array ends outside the capture or overlaps the String.
  unfoldable pub bad_end : ℕ → ℕ → Bool
  bad_end start len = elim (and_then (aligned (payload_base + len)) (checked_add start)) [
    | none ↦ true
    | some end ↦ ltb index.heap_bytes end || (ltb offset end && ltb start (offset + 32))
  ]

  unfoldable pub sample_array : List ℕ → ℕ → ℕ → ℕ → Samples → Samples
  unfolding sample_payload bad_end get
  sample_array array start cached coder s =
      let array_klass = word (slice 8 (klass_bytes narrow) array) in
      let len = word (slice (8 + klass_bytes narrow) 4 array) in
      if not (mark_ok array)
      then s
      else if array_klass == klass || is_unfit array_klass
      then s
      else if bad_length coder len
      then s
      else if bad_end start len
      then s
      else sample_payload start array_klass cached coder len (one_read s)

  unfoldable pub other_target : ℕ → Option ℕ
  other_target raw =
      and_then (target model raw)
        λ start. if start % 8 == 0 && not (start == offset) then some start else none

  unfoldable pub sample_eligible : ℕ → ℕ → ℕ → Samples → Samples
  unfolding other_target sample_array
  sample_eligible raw cached coder s = elim (other_target raw) [
    | none ↦ s
    | some start ↦ elim (read_at file index.heap_bytes start 24) [
      | none ↦ one_read s
      | some array ↦ sample_array array start cached coder (one_read s)
    ]
  ]

  -- The fields of a header of the group.
  unfoldable pub sample_fields : List ℕ → Samples → Samples
  unfolding sample_eligible
  sample_fields string s =
      let cached = word (slice hash_at 4 string) in
      let coder = word (slice coder_at 1 string) in
      if cached == 0 || ltb 1 coder || not (word (slice (coder_at + 1) 1 string) == 0)
      then s
      else sample_eligible (word (slice 24 8 string)) cached coder
          (record s { eligible = s.eligible + 1; checked = s.checked + 1 })

  unfoldable pub sample : Samples → Samples
  unfolding read_at sample_fields
  sample s = elim (read_at file index.heap_bytes offset 32) [
    | none ↦ one_read s
    | some string ↦
        if not (mark_ok string) || not (word (slice 8 (klass_bytes narrow) string) == klass)
        then one_read s
        else sample_fields string (one_read s)
  ]

-- `e.strings.len() < 3 || …`.
abbrev pub is_weak : Evidence → Bool
is_weak e = ltb (length e.strings) 3 || ltb (length e.arrays) 3 || ltb (length e.payload_hashes) 3

pub record Search : Type 0 where
  pub reads : ℕ
  pub checked : ℕ
  pub hash_matches : ℕ
  pub groups_considered : ℕ
  pub proposals : List Proposal

module _ (d : Digest) (file : List ℕ) (index : Index) (narrow : Bool) where
  abbrev pub proposal_of : ReferenceModel → ℕ → ℕ → ℕ → Evidence → Proposal
  proposal_of model klass eligible array_klass e = record {
    profile_assumption = model_profile model narrow;
    reference_hypothesis = model_name model;
    string_klass = klass;
    array_klass = array_klass;
    hash_matches = e.matches;
    eligible_samples = eligible;
    distinct_arrays = length e.arrays;
    distinct_payloads = length e.payload_hashes;
    examples = e.examples;
  }

  -- The proposals of the evidence for one group.
  unfoldable pub propose : ReferenceModel → ℕ → ℕ → List (ℕ × Evidence) → List Proposal
  unfolding model_profile model_name
  propose model klass eligible [] = []
  propose model klass eligible ((array_klass, e) ∷ rest) =
      let more = propose model klass eligible rest in
      if is_weak e then more else proposal_of model klass eligible array_klass e ∷ more

  unfoldable pub sample_all : ReferenceModel → ℕ → List ℕ → Samples → Samples
  unfolding sample
  sample_all model klass [] s = s
  sample_all model klass (offset ∷ offsets) s =
      sample_all model klass offsets (sample d file index narrow model klass offset s)

  unfoldable pub search_model : ℕ → List ℕ → Search → ReferenceModel → Search
  unfolding sample_all propose
  search_model klass offsets s model =
      let found = sample_all model klass offsets (record {
        reads = s.reads;
        checked = s.checked;
        hash_matches = s.hash_matches;
        eligible = 0;
        evidence = [];
      }) in
      record {
        reads = found.reads;
        checked = found.checked;
        hash_matches = found.hash_matches;
        groups_considered = s.groups_considered;
        proposals = s.proposals ++ propose model klass found.eligible found.evidence;
      }

  abbrev pub search_models : ℕ → List ℕ → Search → Search
  search_models klass offsets s =
      search_model klass offsets
        (search_model klass offsets (search_model klass offsets s non_gen_low42)
          gen_arm_low_address)
        gen_x86_low_address

  unfoldable pub search_groups : List (String × GroupStats) → Search → Result Search
  unfolding klass_of_key sampled_offsets search_model
  search_groups [] s = ok s
  search_groups ((key, stats) ∷ groups) s = klass_of_key narrow key >>= λ klass.
      search_groups groups (search_models klass (sampled_offsets stats) s)

  unfoldable pub search_width : Search → Result Search
  unfolding groups_of search_groups
  search_width s =
      let groups = take groups_per_width (groups_of narrow index) in
      search_groups groups (record s { groups_considered = s.groups_considered + length groups })

abbrev pub no_search : Search
no_search = record {
  reads = 0;
  checked = 0;
  hash_matches = 0;
  groups_considered = 0;
  proposals = [];
}

-- `b["hash_matches"]` against `a["hash_matches"]`, then the names of the hypotheses.
unfoldable pub stands_before : Proposal → Proposal → Bool
stands_before a b =
    ltb b.hash_matches a.hash_matches
    || (a.hash_matches == b.hash_matches && text_less a.reference_hypothesis b.reference_hypothesis)

-- The search of both widths, with its proposals sorted.
unfoldable pub search : Digest → List ℕ → Index → Result Search
unfolding search_width sort_by stands_before
search d file index = search_width d file index true no_search >>= λ s.
    search_width d file index false s >>= λ t.
    ok (record t { proposals = sort_by stands_before t.proposals })
