-- ===== src/Discovery.antt =====
-- src/discovery.rs: proposals for the identities of String and byte[], from samples of the headers
-- that a scan grouped. A proposal stands for its JSON text.
pub mod Nodes
pub mod Keys
pub mod Sound
pub mod Sampling
pub mod Matches
pub mod Supported
use Prim.Native.Nat.{Ordering}
use Prim.Native.String.{compare}
use zgcmaster.Sorting.{text_less, sort_by, insert_by}
use zgcmaster.Prelude.{
  ℕ, ◌+◌, ◌-◌, ◌*◌, ◌%◌, Bool, true, false, ◌&&◌, ◌||◌, not, String, join, Option, none, some, List,
  [], ◌∷◌, ◌++◌, length, take, slice, filter, codes, strip_prefix, starts_with, ltb, leb, ◌==◌,
  ◌is◌, is_some, if◌then◌else◌, and_then, Result, ok, err, invalid, ◌>>=◌, ◌>>◌, refuse_if, ok_or,
}
use zgcmaster.Words.{checked_add, word, aligned, number_from, unsigned}
use zgcmaster.Words.Hex.{hex}
use zgcmaster.Sets.{insert_set, update}
use zgcmaster.Dict.{Dict, get, insert}
use zgcmaster.Digest.{Digest, hash_of}
use zgcmaster.Spacing.{GapExample, GroupStats}
use zgcmaster.Address.{
  ReferenceModel, non_gen_low42, gen_arm_low_address, gen_x86_low_address, model_name,
  model_profile, target,
}
use zgcmaster.Scan.{Index}
use zgcmaster.RawStrings.{mark_ok, java_hash}

abbrev pub groups_per_width : ℕ
groups_per_width = 32

abbrev pub max_string_bytes : ℕ
max_string_bytes = 4096

abbrev pub max_proposals : ℕ
max_proposals = 16

unfoldable pub read_at : List ℕ → ℕ → ℕ → ℕ → Option (List ℕ)
read_at file size offset count =
    if ltb max_string_bytes count
      || (elim (checked_add offset count) [ none ↦ true | some end ↦ ltb size end ])
    then none
    else some (slice offset count file)

abbrev pub prefix_of : Bool → String
prefix_of narrow = if narrow then "narrow:" else "wide:"

abbrev pub klass_bytes : Bool → ℕ
klass_bytes narrow = if narrow then 4 else 8

abbrev pub is_searched : Bool → String × GroupStats → Bool
is_searched narrow (key, s) =
    starts_with (codes (prefix_of narrow)) (codes key) && not s.periodic && leb 32 s.sampled_gaps

-- `b.hits.cmp(&a.hits).then(ka.cmp(kb))` puts the first group before the second.
unfoldable pub comes_before : String × GroupStats → String × GroupStats → Bool
comes_before (ka, a) (kb, b) = ltb b.hits a.hits || (a.hits == b.hits && text_less ka kb)

-- The groups of one header width in the order of the search.
unfoldable pub groups_of : Bool → Index → List (String × GroupStats)
unfolding comes_before sort_by
groups_of narrow index = sort_by comes_before (filter (is_searched narrow) index.header_group_stats)

-- The identity in the key of a group.
unfoldable pub klass_of_key : Bool → String → Result ℕ
unfolding unsigned
klass_of_key narrow key =
    ok_or (strip_prefix (codes (prefix_of narrow)) (codes key)) "a searched key has its prefix"
    >>= number_from

unfoldable pub add_gaps : List GapExample → List ℕ → List ℕ
unfolding insert_set
add_gaps [] offsets = offsets
add_gaps (g ∷ gs) offsets = add_gaps gs (insert_set g.to (insert_set g.from offsets))

-- The offsets that are sampled, each once.
unfoldable pub sampled_offsets : GroupStats → List ℕ
unfolding add_gaps insert_set
sampled_offsets s =
    add_gaps s.gap_examples (insert_set s.last_offset (insert_set s.first_offset []))

pub record Example : Type 0 where
  pub string_offset : ℕ
  pub array_offset : ℕ
  pub array_bytes : ℕ
  pub coder : ℕ

-- `Evidence`; the hashes of the payloads are texts.
pub record Evidence : Type 0 where
  pub matches : ℕ
  pub strings : List ℕ
  pub arrays : List ℕ
  pub payload_hashes : Dict (Unit {0})
  pub examples : List Example

abbrev pub no_evidence : Evidence
no_evidence = record { matches = 0; strings = []; arrays = []; payload_hashes = []; examples = [] }

pub record Proposal : Type 0 where
  pub profile_assumption : String
  pub reference_hypothesis : String
  pub string_klass : ℕ
  pub array_klass : ℕ
  pub hash_matches : ℕ
  pub eligible_samples : ℕ
  pub distinct_arrays : ℕ
  pub distinct_payloads : ℕ
  pub examples : List Example
