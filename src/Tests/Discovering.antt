-- ===== src/Tests/Discovering.antt =====
-- The theorem on discoveries, at a capture of 432 bytes: the Strings "abc", "abd" and "abe" with their
-- arrays, and three nodes with these keys.
use zgcmaster.Prelude.{
  ℕ, ◌+◌, ◌≡◌, refl, Bool, true, false, none, List, [], ◌∷◌, ◌++◌, length, ◌&&◌, ◌==◌, Result, ok,
  err,
}
use mathlib.Core.List.{append-nil, append_assoc}
use zgcmaster.Words.Hex.{hex}
use zgcmaster.Digest.{Digest, hash_of}
use zgcmaster.Spacing.{GroupStats}
use zgcmaster.Scan.{Index}
use zgcmaster.Discovery.Nodes.{Report, discover}
use zgcmaster.Discovery.Sound.{IsDiscovery, discover-IsDiscovery}
use zgcmaster.Tests.Capture.{zeros, is_ok, value_of, tiny_scan}

-- A String with the low byte of its hash and of its third character, whose array is at `low + 256 high`.
abbrev text_at : ℕ → ℕ → ℕ → ℕ → List ℕ
text_at hash char low high =
    1 ∷ zeros 7
    ++ 0 ∷ 16 ∷ zeros 6
    ++ hash ∷ 0x78 ∷ 1 ∷ zeros 5
    ++ low ∷ high ∷ zeros 3
    ++ 4 ∷ zeros 2
    ++ zeros 32
    ++ 1 ∷ zeros 7
    ++ 0 ∷ 32 ∷ zeros 6
    ++ 3 ∷ zeros 7
    ++ 97 ∷ 98 ∷ char ∷ zeros 5

abbrev node_at : ℕ → ℕ → List ℕ
node_at hash low =
    1 ∷ zeros 7
    ++ 0 ∷ 48 ∷ zeros 6
    ++ hash ∷ 0x78 ∷ 1 ∷ zeros 5
    ++ low ∷ zeros 4
    ++ 4 ∷ zeros 2
    ++ zeros 16

abbrev table_capture : List ℕ
table_capture =
    text_at 0x62 99 64 0
    ++ text_at 0x63 100 160 0
    ++ text_at 0x64 101 0 1
    ++ node_at 0x63 0
    ++ node_at 0x62 96
    ++ node_at 0x65 192

abbrev sum : List ℕ → ℕ
sum [] = 0
sum (b ∷ bs) = b + sum bs

-- A digest for the example: the sum of the bytes.
abbrev sum_digest : Digest
sum_digest = record {
  State = List ℕ;
  start = [];
  update = ◌++◌;
  finalize = λ bytes. hex (sum bytes);
  update_nil = λ h. append-nil h;
  update-append = λ h a b. append_assoc h a b;
}

abbrev stats : ℕ → ℕ → ℕ → Bool → GroupStats
stats first middle last periodic = record {
  hits = 3;
  detection_votes = 0;
  first_offset = first;
  last_offset = last;
  total_gaps = 40;
  sampled_gaps = 40;
  median_gap = none;
  mode_gap = none;
  mode_sample_count = 0;
  mode_fraction = none;
  periodic = periodic;
  classification = "dispersed";
  gap_examples = record { from = first; to = middle; gap = 96 } ∷ [];
}

abbrev table_index : Index
table_index = record (tiny_scan.0.index) {
  heap_bytes = 432;
  heap_sha256 = hash_of sum_digest table_capture;
  layout = none;
  header_group_stats =
      ("wide:0x1000", stats 0 96 192 false)
      ∷ ("wide:0x2000", stats 64 160 256 false)
      ∷ ("wide:0x3000", stats 288 336 384 false)
      ∷ [];
}

abbrev finds_both : Result Report → Bool
finds_both (ok r) = length r.proposals == 1 && length r.node_proposals == 1
finds_both (err e) = false

-- The two identities and that of the nodes are proposed.
found : finds_both (discover sum_digest table_capture table_capture table_index) ≡ true
unfolding discover zgcmaster.Words.number zgcmaster.Words.word zgcmaster.Words.aligned
    zgcmaster.Words.Hex.hex zgcmaster.Address.target zgcmaster.Address.parse_model
    zgcmaster.Address.model_profile zgcmaster.Address.model_name zgcmaster.Address.is_null
    zgcmaster.Scan.plausible zgcmaster.RawStrings.java_hash zgcmaster.RawStrings.status_of
    zgcmaster.Profiles.boot zgcmaster.Layout.validate_layout zgcmaster.Layout.compressed
    zgcmaster.Words.width zgcmaster.Layout.length_offset zgcmaster.Dict.get
    zgcmaster.Discovery.comes_before zgcmaster.RawStrings.new_bindings
    zgcmaster.RawStrings.decode_at zgcmaster.Sets.insert_set zgcmaster.Sets.update
    zgcmaster.Dict.insert
found = refl

discovery_works : is_ok (discover sum_digest table_capture table_capture table_index) ≡ true
discovery_works = of_report _ found
  where
    of_report : (r : Result Report) → finds_both r ≡ true → is_ok r ≡ true
    of_report (ok r) h = refl
    of_report (err e) h = h

discovery : (r : Report) × (discover sum_digest table_capture table_capture table_index ≡ ok r)
discovery = value_of _ discovery_works

discover-IsDiscovery_example :
    IsDiscovery sum_digest table_capture table_capture table_index discovery.0
discover-IsDiscovery_example =
    discover-IsDiscovery sum_digest table_capture table_capture table_index discovery.0 discovery.1
