-- ===== src/Loading/Bundles.antt =====
-- A capture as a folder of files with their digests: `scan_bundle_with` and `Reader::open` (src/lib.rs).
-- The parser of the JSON sidecar is a parameter.
use zgcmaster.Prelude.{
  ℕ, ◌+◌, ◌-◌, ◌*◌, Bool, false, not, String, Option, none, some, List, [], ◌∷◌, length, leb, ◌==◌,
  if◌then◌else◌, Result, ok, ◌>>=◌, ◌>>◌, refuse_if, ok_or,
}
use zgcmaster.Words.{chunk_size}
use zgcmaster.Words.Hex.{hex_digit}
use zgcmaster.Dict.{get}
use zgcmaster.Utf8.{is_utf8, pieces_from, verdict_of}
use zgcmaster.Digest.{Digest, hash_of, verify_digest}
use zgcmaster.Layout.{Layout, validate_layout}
use zgcmaster.Layout.Same.{same_layout, same_mappings}
use zgcmaster.Maps.{Mapping, parse_maps}
use zgcmaster.Scan.{Index, ScanOptions, Scanned, scan_with}
use zgcmaster.Reader.{Reader}
use zgcmaster.Checksums.{Sums, read_bounded, checksums}
use zgcmaster.Loading.{open_raw}

-- The files of a bundle: SHA256SUMS, layout.json, maps.txt, consistency.txt and heap.raw.
pub record Bundle : Type 0 where
  pub sums : List ℕ
  pub layout : List ℕ
  pub maps : List ℕ
  pub consistency : List ℕ
  pub heap : List ℕ

-- A digest is kept as its digits; as a text it is compared and put into an index.
unfoldable pub digest_text : List ℕ → String
digest_text [] = ""
digest_text (c ∷ cs) =
    String.◌∷◌ (hex_digit (if leb c b'9' then c - b'0' else c - b'a' + 10)) (digest_text cs)

-- `sums[name]`.
unfoldable pub sum_of : Sums → String → Result String
unfolding get digest_text
sum_of sums name = ok_or (get name sums) "no entry found for key" >>= λ hash. ok (digest_text hash)

-- `parse_maps(str::from_utf8(bytes)?, size)`.
unfoldable pub read_maps : List ℕ → ℕ → Result (List Mapping)
unfolding pieces_from verdict_of parse_maps
read_maps bytes size = do
  refuse_if (not (is_utf8 bytes)) "Invalid maps UTF-8"
  parse_maps bytes size

abbrev pub is_layout : Layout → Option Layout → Bool
is_layout layout none = false
is_layout layout (some l) = same_layout layout l

-- What a bundle is read from: a raw file, or a folder.
pub data Source : Type 0 where
  raw_file : List ℕ → Source
  folder : Bundle → Source

-- The index is bound to the sidecars.
abbrev pub seal : String → String → Scanned → Scanned
seal layout_sum maps_sum scanned = record scanned {
  index = record (scanned.index) { layout_sha256 = some layout_sum; maps_sha256 = some maps_sum };
}

module _ (d : Digest) (read_layout : List ℕ → Result Layout) where
  abbrev pub verify_file : Sums → String → List ℕ → Result (Unit {0})
  verify_file sums name bytes = sum_of sums name >>= verify_digest (hash_of d bytes)

  -- `scan_bundle_with`.
  unfoldable pub scan_bundle_with : Bundle → ScanOptions → Bool → Result Scanned
  unfolding checksums read_bounded sum_of verify_digest validate_layout read_maps scan_with
  scan_bundle_with bundle options streaming = do
    refuse_if options.discover_bindings "--discover-bindings is only for untyped scan-raw"
    sums ← checksums bundle.sums
    layout_bytes ← read_bounded (2 * chunk_size) bundle.layout
    maps_bytes ← read_bounded (16 * chunk_size) bundle.maps
    consistency ← read_bounded 8192 bundle.consistency
    verify_file sums "layout.json" layout_bytes
    verify_file sums "maps.txt" maps_bytes
    verify_file sums "consistency.txt" consistency
    layout ← read_layout layout_bytes
    validate_layout layout
    mappings ← read_maps maps_bytes (length bundle.heap)
    heap_sum ← sum_of sums "heap.raw"
    scanned ← scan_with d bundle.heap (some layout) mappings options streaming (some heap_sum)
    verify_digest scanned.index.heap_sha256 heap_sum
    layout_sum ← sum_of sums "layout.json"
    maps_sum ← sum_of sums "maps.txt"
    ok (seal layout_sum maps_sum scanned)

  -- The digests of a sidecar: of the file, in the index and in the table.
  unfoldable pub check_sidecar : Sums → String → Option String → List ℕ → Result (Unit {0})
  unfolding verify_digest sum_of
  check_sidecar sums name recorded bytes = do
    expected ← ok_or recorded "This operation requires a layout-assisted index"
    verify_digest (hash_of d bytes) expected
    sum ← sum_of sums name
    verify_digest sum expected

  -- `Reader::open` on a folder.
  unfoldable pub open_bundle : Bundle → Index → Result Reader
  unfolding checksums check_sidecar read_bounded read_maps same_layout same_mappings verify_digest
      sum_of
  open_bundle bundle index = do
    refuse_if index.streamed
        "Streaming summary has no random-access objects; make a filtered index with --only"
    sums ← checksums bundle.sums
    check_sidecar sums "layout.json" index.layout_sha256 bundle.layout
    check_sidecar sums "maps.txt" index.maps_sha256 bundle.maps
    layout_bytes ← read_bounded (2 * chunk_size) bundle.layout
    actual ← read_layout layout_bytes
    refuse_if (not (is_layout actual index.layout)) "Index layout differs from capture"
    maps_bytes ← read_bounded (16 * chunk_size) bundle.maps
    mappings ← read_maps maps_bytes index.heap_bytes
    refuse_if (not (same_mappings mappings index.mappings)) "Index mappings differ from capture"
    verify_digest (hash_of d bundle.heap) index.heap_sha256
    heap_sum ← sum_of sums "heap.raw"
    verify_digest heap_sum index.heap_sha256
    refuse_if (not (length bundle.heap == index.heap_bytes)) "Heap size changed"
    ok (record { file = bundle.heap; index = index })

  -- `Reader::open`.
  unfoldable pub open_source : Source → Index → Result Reader
  unfolding open_raw open_bundle
  open_source (raw_file file) index = open_raw d file index
  open_source (folder bundle) index = open_bundle bundle index
