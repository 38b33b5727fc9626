-- ===== src/Loading.antt =====
-- The tests of `load_index`, `scan_raw_with` and the raw branch of `Reader::open` (src/lib.rs). The
-- parsing of an index is the work of a JSON library: `check_index` starts from its result.
pub mod Laws
pub mod Bundles
pub mod Sealed
pub mod Opened
pub mod Spaced
pub mod Counted
pub mod Passed
pub mod Accepted
pub mod Reloaded
use zgcmaster.Prelude.{
  ℕ, ◌+◌, ◌/◌, ◌%◌, Bool, true, false, ◌&&◌, ◌||◌, not, String, Option, none, some, List, [], ◌∷◌,
  length, any, ltb, leb, ◌==◌, ◌is◌, is_some, if◌then◌else◌, and_then, Result, ok, err, ◌>>=◌, ◌>>◌,
  refuse_if, for_each,
}
use zgcmaster.Words.{max_file, checked_add}
use zgcmaster.Dict.{Dict, Counts, get, bump}
use zgcmaster.Digest.{Digest, hash_of, verify_digest}
use zgcmaster.Layout.{Layout, validate_layout}
use zgcmaster.Spacing.{GroupStats, max_groups}
use zgcmaster.Spacing
use zgcmaster.Scan.{Object, Index, ScanOptions, Scanned, max_objects, scan_with}
use zgcmaster.Reader.{Reader, class_name}

-- `try_fold(0, checked_add)` on the counts.
unfoldable pub checked_sum : ℕ → Counts → Option ℕ
checked_sum sum [] = some sum
checked_sum sum ((name, n) ∷ counts) = and_then (checked_add sum n) λ s. checked_sum s counts

abbrev pub over_counted : Index → Bool
over_counted index = elim (checked_sum 0 index.class_counts) [
  | none ↦ true
  | some n ↦ ltb (index.heap_bytes / 8) n
]

abbrev pub exceeds_limits : Index → Bool
exceeds_limits index =
    not (index.version == 1)
    || ltb max_file index.heap_bytes
    || ltb max_objects (length index.objects)
    || ltb 65_536 (length index.mappings)
    || ltb 4096 (length index.raw_header_groups)
    || ltb max_groups (length index.header_group_stats)
    || ltb 2048 (length index.only)
    || ltb 2048 (length index.class_counts)
    || over_counted index
    || (index.streamed && ltb 0 (length index.objects))

abbrev pub is_hits : Option ℕ → ℕ → Bool
is_hits none n = false
is_hits (some m) n = m == n

abbrev pub bad_group : Index → String × GroupStats → Bool
bad_group index (key, stats) =
    not (is_hits (get key index.raw_header_groups) stats.hits)
    || not (Spacing.validate stats index.heap_bytes)

abbrev pub bad_spacing : Index → Bool
bad_spacing index =
    ltb 0 (length index.header_group_stats)
    && (not (length index.header_group_stats == length index.raw_header_groups)
        || any (bad_group index) index.header_group_stats)

abbrev pub check_index_layout : Option Layout → Result (Unit {0})
check_index_layout none = ok tt
check_index_layout (some layout) = validate_layout layout

-- Some two neighbours are out of order.
unfoldable pub out_of_order : List Object → Bool
out_of_order [] = false
out_of_order (o ∷ []) = false
out_of_order (o ∷ p ∷ os) = leb p.offset o.offset || out_of_order (p ∷ os)

abbrev pub no_such_class : Option Layout → ℕ → Bool
no_such_class none id = true
no_such_class (some layout) id = leb (length layout.classes) id

unfoldable pub check_object : Index → Object → Result (Unit {0})
check_object index o =
    refuse_if (no_such_class index.layout o.class_id) "Index class ID outside layout"
    >> refuse_if
        (not (o.offset % 8 == 0) || (elim (checked_add o.offset o.size) [
          | none ↦ true
          | some end ↦ ltb index.heap_bytes end
        ]))
        "Index object outside heap"

-- The counts of the objects under the names of their classes.
unfoldable pub count_objects : Index → Counts → List Object → Counts
count_objects index counts [] = counts
count_objects index counts (o ∷ os) = count_objects index (bump (class_name index o) counts) os

unfoldable pub same_counts : Counts → Counts → Bool
same_counts [] [] = true
same_counts ((j, m) ∷ ms) ((k, n) ∷ ns) = j is k && m == n && same_counts ms ns
same_counts _ _ = false

abbrev pub wrong_counts : Index → Bool
wrong_counts index =
    not index.streamed
    && ltb 0 (length index.class_counts)
    && not (same_counts (count_objects index [] index.objects) index.class_counts)

-- `load_index`, after the parsing.
unfoldable pub check_index : Index → Result Index
unfolding checked_sum out_of_order check_object count_objects same_counts get Spacing.validate
check_index index = do
  refuse_if (exceeds_limits index) "Invalid index version or resource limits"
  refuse_if (bad_spacing index) "Invalid header spacing statistics"
  check_index_layout index.layout
  refuse_if (out_of_order index.objects) "Index offsets must be strictly increasing"
  for_each (check_object index) index.objects
  refuse_if (wrong_counts index) "Class counts differ from indexed objects"
  ok index

module _ (d : Digest) where
  -- `scan_raw_with`; what a discovery adds to the index is no part of the model.
  unfoldable pub scan_raw_with : List ℕ → ScanOptions → Bool → Result Scanned
  unfolding scan_with
  scan_raw_with file options streaming = do
    refuse_if (options.discover_bindings && (is_some options.layout || streaming))
        "--discover-bindings cannot combine with a layout, boot bindings or --jsonl"
    refuse_if (is_some options.layout && not options.identity_mapping)
        "Raw typed scans require --identity-mapping; no virtual mappings are available"
    scan_with d file options.layout [] options streaming none

  -- `Reader::open` on a raw file.
  unfoldable pub open_raw : List ℕ → Index → Result Reader
  unfolding verify_digest
  open_raw file index = do
    refuse_if index.streamed
        "Streaming summary has no random-access objects; make a filtered index with --only"
    refuse_if
        (not index.identity_mapping || not (is_some index.layout) || is_some index.layout_sha256)
        "Raw decoding requires a typed --identity-mapping index"
    check_index_layout index.layout
    verify_digest (hash_of d file) index.heap_sha256
    refuse_if (not (length file == index.heap_bytes)) "Heap size changed"
    ok (record { file = file; index = index })
