-- ===== src/Discovery/Nodes.antt =====
-- `nodes::discover` of src/discovery/nodes.rs: proposals for the identity of hash table nodes, whose
-- keys are Strings of a proposal for String and byte[]. And `discover` of src/discovery.rs, which runs
-- both searches.
use zgcmaster.Sorting.{sort_by}
use zgcmaster.Prelude.{
  ℕ, ◌+◌, ◌^◌, Bool, false, ◌&&◌, ◌||◌, not, String, Option, none, some, List, [], ◌∷◌, ◌++◌,
  length, take, ltb, leb, ◌==◌, ◌is◌, is_some, if◌then◌else◌, and_then, Result, ok, err, ◌>>=◌,
  ◌>>◌, refuse_if, try_fold, join,
}
use zgcmaster.Words.{number}
use zgcmaster.Words.Hex.{hex}
use zgcmaster.Sets.{insert_set}
use zgcmaster.Dict.{Dict, insert}
use zgcmaster.Digest.{Digest, hash_of, verify_digest}
use zgcmaster.Spacing.{GroupStats}
use zgcmaster.Address.{is_null, model_name}
use zgcmaster.Scan.{Index}
use zgcmaster.RawStrings.{
  Bindings, Pair, Decoded, pair, rejected, new_bindings, array_base, mark_ok, aligned_target,
  decode_at,
}
use zgcmaster.Dictionaries.{
  node_size, stored_hash, node_klass, raw_key, raw_value, raw_next, spread, overlap,
}
use zgcmaster.Discovery.{
  max_string_bytes, max_proposals, read_at, groups_of, klass_of_key, sampled_offsets, text_less,
  Proposal,
}
use zgcmaster.Discovery.Sampling.{Search, search}

abbrev pub max_anchors : ℕ
max_anchors = 4

abbrev pub max_groups : ℕ
max_groups = 128

abbrev pub max_nodes : ℕ
max_nodes = 16

pub record Example : Type 0 where
  pub node_offset : ℕ
  pub key_string_offset : ℕ
  pub value_string_offset : Option ℕ
  pub value_hash_status : String
  pub next_node_offset : Option ℕ

-- What the samples of one group change.
pub record Samples : Type 0 where
  pub checked : ℕ
  pub reads : ℕ
  pub keys : List ℕ
  pub payloads : Dict (Unit {0})
  pub matches : ℕ
  pub string_values : ℕ
  pub hashed_values : ℕ
  pub linked : ℕ
  pub negative_hashes : ℕ
  pub examples : List Example

abbrev pub add_reads : ℕ → Samples → Samples
add_reads n s = record s { reads = s.reads + n }

abbrev pub bit : Bool → ℕ
bit b = if b then 1 else 0

-- What is found of the value of a node.
pub record Value : Type 0 where
  pub offset : Option ℕ
  pub status : String

abbrev pub no_value : Value
no_value = record { offset = none; status = "null-or-non-String-or-unresolved" }

-- The node at `offset` overlaps the String or its array.
abbrev pub touches : Bindings → ℕ → Pair → Bool
touches b offset p =
    overlap offset (node_size b) p.offset 32
    || overlap offset (node_size b) p.target (array_base b + length p.payload)

abbrev pub is_other : Bindings → ℕ → List ℕ → Bool
is_other b klass header = not (mark_ok header) || not (node_klass b header == klass)

-- The key contradicts its hash or the node's, or overlaps the node.
abbrev pub bad_key : Bindings → ℕ → List ℕ → Pair → Bool
bad_key b offset node key =
    not (key.status is "match")
    || not (stored_hash b node == spread key.computed)
    || touches b offset key

module _ (d : Digest) (file : List ℕ) (index : Index) (b : Bindings) (klass : ℕ) (offset : ℕ)
    (node : List ℕ) where
  abbrev pub example_of : Pair → Value → Option ℕ → Example
  example_of key value next = record {
    node_offset = offset;
    key_string_offset = key.offset;
    value_string_offset = value.offset;
    value_hash_status = value.status;
    next_node_offset = next;
  }

  -- A node whose key, hash and link are accepted.
  unfoldable pub add_match : Pair → Value → Option ℕ → Samples → Samples
  unfolding insert_set insert
  add_match key value next s = record s {
    keys = insert_set key.offset s.keys;
    payloads = insert (hash_of d key.payload) tt s.payloads;
    matches = s.matches + 1;
    linked = s.linked + bit (is_some next);
    negative_hashes = s.negative_hashes + bit (leb (2 ^ 31) (stored_hash b node));
    examples =
        if ltb (length s.examples) 4
        then s.examples ++ example_of key value next ∷ []
        else s.examples;
  }

  abbrev pub is_value : Pair → Bool
  is_value value = not (value.status is "mismatch") && not (touches b offset value)

  unfoldable pub add_value : Pair → Option ℕ → Decoded → Samples → Samples
  unfolding add_match
  add_value key next (rejected reason) s = add_match key no_value next s
  add_value key next (pair value) s =
      if is_value value
      then add_match key (record { offset = some value.offset; status = value.status }) next
          (record s {
            string_values = s.string_values + 1;
            hashed_values =
                s.hashed_values
                + bit (value.status is "match" || value.status is "zero-hash-match");
          })
      else add_match key no_value next s

  unfoldable pub sample_value : Pair → Option ℕ → Samples → Result Samples
  unfolding aligned_target decode_at add_value
  sample_value key next s = elim (aligned_target b.model (raw_value b node)) [
    | none ↦ ok (add_match key no_value next s)
    | some start ↦ decode_at b file index.heap_bytes start >>= λ value.
        ok (add_value key next value (add_reads 3 s))
  ]

  -- A link that is aligned and apart from the node.
  unfoldable pub link_target : Option ℕ
  unfolding aligned_target
  link_target =
      and_then (aligned_target b.model (raw_next b node))
        λ next. if overlap offset (node_size b) next (node_size b) then none else some next

  unfoldable pub sample_next : Pair → Samples → Result Samples
  unfolding link_target sample_value read_at
  sample_next key s =
      if is_null b.model (raw_next b node) then sample_value key none s else elim link_target [
        | none ↦ ok s
        | some next ↦ elim (read_at file index.heap_bytes next (node_size b)) [
          | none ↦ ok (add_reads 1 s)
          | some header ↦
              if is_other b klass header
              then ok (add_reads 1 s)
              else sample_value key (some next) (add_reads 1 s)
        ]
      ]

  unfoldable pub sample_key : Decoded → Samples → Result Samples
  unfolding sample_next
  sample_key (rejected reason) s = ok s
  sample_key (pair key) s = if bad_key b offset node key then ok s else sample_next key s

  unfoldable pub sample_node : Samples → Result Samples
  unfolding sample_key aligned_target decode_at
  sample_node s =
      if is_other b klass node then ok s else elim (aligned_target b.model (raw_key b node)) [
        | none ↦ ok s
        | some start ↦
            decode_at b file index.heap_bytes start >>= λ key. sample_key key (add_reads 3 s)
      ]

pub record NodeProposal : Type 0 where
  pub bindings : Dict String
  pub profile_assumption : String
  pub reference_hypothesis : String
  pub sampled_offsets : ℕ
  pub samples : Samples
  pub node_klass : ℕ

pub record NodeSearch : Type 0 where
  pub proposals : List NodeProposal
  pub checked : ℕ
  pub reads : ℕ
  pub groups_considered : ℕ
  pub groups_truncated : Bool

abbrev pub new_samples : ℕ → ℕ → Samples
new_samples checked reads = record {
  checked = checked;
  reads = reads;
  keys = [];
  payloads = [];
  matches = 0;
  string_values = 0;
  hashed_values = 0;
  linked = 0;
  negative_hashes = 0;
  examples = [];
}

abbrev pub is_weak : Samples → Bool
is_weak s = ltb s.matches 3 || ltb (length s.keys) 3 || ltb (length s.payloads) 3

-- `bindings.values().any(|id| number(id).ok() == Some(klass))`.
unfoldable pub is_bound : Dict String → ℕ → Bool
unfolding number
is_bound [] klass = false
is_bound ((name, id) ∷ rest) klass =
    (elim (number id) as (λ r. Bool) [ ok k ↦ k == klass | err e ↦ false ]) || is_bound rest klass

module _ (d : Digest) (file : List ℕ) (index : Index) where
  unfoldable pub sample_offsets : Bindings → ℕ → List ℕ → Samples → Result Samples
  unfolding read_at sample_node
  sample_offsets b klass [] s = ok s
  sample_offsets b klass (offset ∷ offsets) s =
      let counted : Samples = record s { checked = s.checked + 1; reads = s.reads + 1 } in
      (elim (read_at file index.heap_bytes offset (node_size b)) [
        | none ↦ ok counted
        | some node ↦ sample_node d file index b klass offset node counted
      ])
      >>= sample_offsets b klass offsets

  abbrev pub proposal_of : Dict String → Bindings → ℕ → List ℕ → Samples → NodeProposal
  proposal_of bindings b klass offsets s = record {
    bindings = insert "java.util.HashMap$Node" (hex klass) bindings;
    profile_assumption = b.profile;
    reference_hypothesis = model_name b.model;
    sampled_offsets = length offsets;
    samples = s;
    node_klass = klass;
  }

  -- One group of headers.
  unfoldable pub search_group :
      Dict String → Bindings → NodeSearch → String × GroupStats → Result NodeSearch
  unfolding klass_of_key is_bound sampled_offsets sample_offsets insert model_name
  search_group bindings b s (key, stats) = klass_of_key b.narrow key >>= λ klass.
      if is_bound bindings klass
      then ok s
      else (sample_offsets b klass (sampled_offsets stats) (new_samples s.checked s.reads)
          >>= λ found.
              let next : NodeSearch = record s { checked = found.checked; reads = found.reads } in
              if is_weak found
              then ok next
              else ok (record next {
                proposals =
                    s.proposals ++ proposal_of bindings b klass (sampled_offsets stats) found ∷ [];
              }))

  abbrev pub bindings_of : Proposal → Dict String
  bindings_of p = ("[B", hex p.array_klass) ∷ ("java.lang.String", hex p.string_klass) ∷ []

  -- One anchor: the bindings of a proposal, and the groups of its header width.
  unfoldable pub search_anchor : NodeSearch → Proposal → Result NodeSearch
  unfolding new_bindings groups_of search_group
  search_anchor s anchor =
      new_bindings anchor.profile_assumption anchor.reference_hypothesis (bindings_of anchor)
        max_string_bytes
      >>= λ b.
          let groups = groups_of b.narrow index in
          try_fold (search_group (bindings_of anchor) b)
            (record s {
              groups_considered = s.groups_considered + length (take max_groups groups);
              groups_truncated = s.groups_truncated || ltb max_groups (length groups);
            })
            (take max_groups groups)

  abbrev pub no_nodes : NodeSearch
  no_nodes = record {
    proposals = [];
    checked = 0;
    reads = 0;
    groups_considered = 0;
    groups_truncated = false;
  }

-- The JSON text of the bindings of a proposal, whose names and identities need no escapes.
unfoldable pub entries_text : Dict String → String
entries_text [] = ""
entries_text ((name, id) ∷ rest) =
    join "\"" (join name (join "\":\"" (join id (join "\"," (entries_text rest)))))

unfoldable pub node_before : NodeProposal → NodeProposal → Bool
unfolding entries_text
node_before p q =
    ltb q.samples.matches p.samples.matches
    || (p.samples.matches == q.samples.matches
        && text_less (entries_text p.bindings) (entries_text q.bindings))

module _ (d : Digest) (file : List ℕ) (index : Index) where
  -- `nodes::discover`, before its proposals are truncated.
  unfoldable pub search_nodes : List Proposal → Result NodeSearch
  unfolding search_anchor node_before sort_by
  search_nodes anchors =
      try_fold (search_anchor d file index) (no_nodes d file index) (take max_anchors anchors)
      >>= λ s. ok (record s { proposals = sort_by node_before s.proposals })

pub record Report : Type 0 where
  pub proposals : List Proposal
  pub node_proposals : List NodeProposal
  pub groups_considered : ℕ
  pub structurally_eligible_samples : ℕ
  pub hash_matched_pairs : ℕ
  pub random_reads : ℕ
  pub proposals_truncated : Bool
  pub group_coverage_truncated : Bool
  pub sampled_node_offsets : ℕ
  pub anchors_truncated : Bool
  pub groups_truncated : Bool
  pub node_proposals_truncated : Bool
  pub heap_sha256 : String

abbrev pub report_of : Index → Search → NodeSearch → Report
report_of index s nodes =
    let proposals = take max_proposals s.proposals in
    record {
      proposals = proposals;
      node_proposals = take max_nodes nodes.proposals;
      groups_considered = s.groups_considered;
      structurally_eligible_samples = s.checked;
      hash_matched_pairs = s.hash_matches;
      random_reads = s.reads;
      proposals_truncated = ltb max_proposals (length s.proposals);
      group_coverage_truncated = index.groups_truncated;
      sampled_node_offsets = nodes.checked;
      anchors_truncated = ltb max_anchors (length proposals);
      groups_truncated = nodes.groups_truncated || index.groups_truncated;
      node_proposals_truncated = ltb max_nodes (length nodes.proposals);
      heap_sha256 = index.heap_sha256;
    }

-- `discover`; the capture holds `later` when it is hashed at the end.
unfoldable pub discover : Digest → List ℕ → List ℕ → Index → Result Report
unfolding search search_nodes verify_digest
discover d file later index = do
  refuse_if (is_some index.layout)
      "Discovery needs an untyped raw scan, not existing class bindings"
  refuse_if (not (length file == index.heap_bytes)) "Capture size changed before discovery"
  s ← search d file index
  nodes ← search_nodes d file index (take max_proposals s.proposals)
  verify_digest (hash_of d later) index.heap_sha256
  ok (report_of index s nodes)
