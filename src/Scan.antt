-- ===== src/Scan.antt =====
-- `scan_with` of src/lib.rs: the header that is read at an aligned offset, what is done with it,
-- and the index that a scan of a whole capture gives.
pub mod Chunks
pub mod Visit
pub mod Objects
pub mod Facts
pub mod Exact
pub mod Sound
pub mod Spaced
use zgcmaster.Prelude.{
  ℕ, zero, suc, ◌+◌, ◌-◌, ◌*◌, ◌/◌, ◌%◌, ◌^◌, ◌≤◌, Bool, true, false, ◌&&◌, ◌||◌, not, String,
  Option, none, some, List, [], ◌∷◌, ◌++◌, map, length, slice, take, any, ltb, leb, ◌==◌,
  if◌then◌else◌, codes, ◌is◌, contains, starts_with, is_some, and_then, Result, ok, err, invalid,
  ◌>>=◌, ◌>>◌, refuse_if, for_each,
}
use zgcmaster.Words.{chunk_size, max_file, i32_max, checked_add, checked_mul, word, aligned, number}
use zgcmaster.Dict.{Dict, Counts, bump}
use zgcmaster.Layout.{Class, Layout, klass_width, length_offset, validate_layout}
use zgcmaster.Spacing.{GroupStats, wide, narrow}
use zgcmaster.Spacing.Collector
use zgcmaster.Spacing.Collector.{Collector, Detection, observe_hit, finish}
use zgcmaster.Maps.{Mapping}
use zgcmaster.Digest.{Digest, verify_digest}
use zgcmaster.Walk.{chunks}

abbrev pub max_objects : ℕ
max_objects = 2_000_000

pub record Object : Type 0 where
  pub offset : ℕ
  pub size : ℕ
  pub class_id : ℕ
  pub length : Option ℕ

-- `Index`, less its fixed list of limitations and the proposals of a discovery.
pub record Index : Type 0 where
  pub version : ℕ
  pub mode : String
  pub heap_sha256 : String
  pub heap_bytes : ℕ
  pub zero_bytes : ℕ
  pub layout_sha256 : Option String
  pub maps_sha256 : Option String
  pub layout : Option Layout
  pub mappings : List Mapping
  pub objects : List Object
  pub raw_header_groups : Dict ℕ
  pub header_group_stats : Dict GroupStats
  pub groups_truncated : Bool
  pub rejected_headers : ℕ
  pub identity_mapping : Bool
  pub only : List String
  pub streamed : Bool
  pub class_counts : Counts
  pub detection : Detection

pub record ScanOptions : Type 0 where
  pub only : List String
  pub identity_mapping : Bool
  pub layout : Option Layout
  pub discover_bindings : Bool

-- A line of the `--jsonl` stream: an object, or the completion footer.
pub data Row : Type 0 where
  object_row : Object → Class → ℕ → Row
  complete : Row

-- An entry of the map from identities to classes.
pub record Bound : Type 0 where
  pub klass : ℕ
  pub id : ℕ
  pub class : Class

-- What stays fixed during a scan.
pub record Config : Type 0 where
  pub table : List Bound
  pub only : List String
  pub streaming : Bool
  pub size : ℕ

pub record Header : Type 0 where
  pub mark : ℕ
  pub full : ℕ
  pub klass : ℕ
  pub length_word : Option ℕ

pub record State : Type 0 where
  pub objects : List Object
  pub spacing : Collector
  pub rejected : ℕ
  pub class_counts : Counts
  pub rows : List Row

-- The words of a header at `pos` of a buffer of `n` bytes. The length of an array is absent where
-- it would lie past the buffer.
unfoldable pub read_header : ℕ → ℕ → List ℕ → ℕ → ℕ → Header
read_header kw lo buffer n pos = record {
  mark = word (slice pos 8 buffer);
  full = word (slice (pos + 8) 8 buffer);
  klass = word (slice (pos + 8) kw buffer);
  length_word = (if ltb n (pos + lo + 4) then none else some (word (slice (pos + lo) 4 buffer)));
}

-- `mark & 3 == 1 && mark >> 40 == 0`; the mask of low bits is a remainder.
unfoldable pub plausible : ℕ → Bool
plausible mark = mark % 4 == 1 && mark / 2 ^ 40 == 0

-- The two header shapes that a plausible mark word can announce.
unfoldable pub observe_shapes : ℕ → ℕ → Collector → Collector
observe_shapes offset full spacing =
    let low = full % 2 ^ 32 in
    let with_wide =
      (if leb (2 ^ 32) full && ltb full (2 ^ 48) && full % 8 == 0
        then observe_hit spacing wide full offset (leb (2 ^ 40) full)
        else spacing) in
    if leb 0x1000 low && ltb low 0x4000_0000
    then observe_hit with_wide narrow low offset (ltb (full / 2 ^ 32) (2 ^ 15))
    else with_wide

-- The entry that the map holds for an identity: the last class that was inserted under it.
unfoldable pub lookup : List Bound → ℕ → Option Bound
lookup [] klass = none
lookup (b ∷ bs) klass = elim (b.klass == klass) [ true ↦ some b | false ↦ lookup bs klass ]

unfoldable pub array_size : Class → ℕ → Option ℕ
array_size class len =
    if leb len i32_max
    then and_then (checked_mul len class.scale) (λ n. and_then (checked_add n class.base) aligned)
    else none

abbrev pub is_array : Class → Bool
is_array class = class.kind is "array"

abbrev pub array_length : Class → Header → Option ℕ
array_length class h = if is_array class then h.length_word else none

unfoldable pub object_size : Class → Option ℕ → Option ℕ
unfolding array_size
object_size class none = some class.size
object_size class (some len) = array_size class len

-- `filter(|&n| offset.checked_add(n).is_some_and(|end| end <= size))`.
unfoldable pub within : ℕ → ℕ → Option ℕ → Option ℕ
within size offset none = none
within size offset (some n) =
    and_then (checked_add offset n) λ end. if leb end size then some n else none

abbrev pub reject : State → State
reject s = record s { rejected = s.rejected + 1 }

-- The object is counted, and streamed or kept.
unfoldable pub accept : Config → Bound → ℕ → Object → State → Result State
accept c b mark object s = do
  refuse_if (not c.streaming && leb max_objects (length s.objects))
      "2,000,000 object index limit reached; use --only CLASS,... or --jsonl FILE for a bounded-memory stream"
  let counted = record s { class_counts = bump b.class.name s.class_counts }
  ok (
      if c.streaming
      then record counted { rows = s.rows ++ Row.object_row object b.class mark ∷ [] }
      else record counted { objects = s.objects ++ object ∷ [] })

-- A header whose identity is bound to a class.
unfoldable pub visit_bound : Config → Bound → ℕ → Header → State → Result State
unfolding plausible object_size within accept
visit_bound c b offset h s =
    if ltb 0 (length c.only) && not (contains c.only b.class.name)
    then ok s
    else if not (plausible h.mark) || (is_array b.class && not (is_some h.length_word))
    then ok (reject s)
    else elim (within c.size offset (object_size b.class (array_length b.class h))) [
      | none ↦ ok (reject s)
      | some n ↦
          accept c b h.mark
            (record { offset = offset; size = n; class_id = b.id; length = array_length b.class h })
            s
    ]

-- A plausible header is recorded under the shapes that it fits, bound or not.
unfoldable pub observe_header : ℕ → Header → State → State
unfolding plausible observe_shapes
observe_header offset h s =
    if plausible h.mark then record s { spacing = observe_shapes offset h.full s.spacing } else s

-- The body of the loop over the positions.
unfoldable pub visit : Config → ℕ → Header → State → Result State
unfolding observe_header lookup visit_bound
visit c offset h s = elim (lookup c.table h.klass) [
  | none ↦ ok (observe_header offset h s)
  | some b ↦ visit_bound c b offset h (observe_header offset h s)
]

unfoldable pub bind_classes : ℕ → List Bound → List Class → Result (List Bound)
bind_classes id table [] = ok table
bind_classes id table (class ∷ classes) = number class.klass >>= λ klass.
    bind_classes (suc id) (record { klass = klass; id = id; class = class } ∷ table) classes

-- How many bytes are 0.
unfoldable pub zeros_in : List ℕ → ℕ
zeros_in [] = 0
zeros_in (b ∷ bs) = (if b == 0 then 1 else 0) + zeros_in bs

abbrev pub start_state : State
start_state = record {
  objects = [];
  spacing = Collector.empty;
  rejected = 0;
  class_counts = [];
  rows = [];
}

abbrev pub has_foreign_signature : List ℕ → Bool
has_foreign_signature heap =
    starts_with (codes "JAVA PROFILE") heap
    || starts_with (0x1f ∷ 0x8b ∷ []) heap
    || starts_with (0x7f ∷ b'E' ∷ b'L' ∷ b'F' ∷ []) heap

abbrev pub names_class : List Class → String → Bool
names_class classes name = any (λ (c : Class). c.name is name) classes

-- The size and the signature of the file.
unfoldable pub check_heap : List ℕ → Result (Unit {0})
check_heap heap =
    refuse_if (not (leb 24 (length heap) && leb (length heap) max_file))
      "Heap size must be 24 bytes..64 GiB"
    >> refuse_if (has_foreign_signature heap)
        "Expected raw ZGC backing bytes, received HPROF, gzip or ELF"

unfoldable pub check_layout : Option Layout → List String → Result (Unit {0})
check_layout none only =
    refuse_if (ltb 0 (length only)) "--only needs a layout or bound boot profile"
check_layout (some layout) only = do
  validate_layout layout
  for_each (λ name. refuse_if (not (names_class layout.classes name)) "Unknown --only class") only

abbrev pub table_of : Option Layout → Result (List Bound)
table_of none = ok []
table_of (some layout) = bind_classes 0 [] layout.classes

abbrev pub width_of : Option Layout → ℕ
width_of none = 8
width_of (some layout) = klass_width layout

abbrev pub length_at : Option Layout → ℕ
length_at none = 16
length_at (some layout) = length_offset layout

abbrev pub hits_of : Dict GroupStats → Dict ℕ
hits_of [] = []
hits_of ((key, stats) ∷ rest) = (key, stats.hits) ∷ hits_of rest

pub record Scanned : Type 0 where
  pub index : Index
  pub rows : List Row

module _ (d : Digest) where
  -- What a chunk adds to the count of zero bytes and to the hash.
  unfoldable pub tally : ℕ × d.State → List ℕ → ℕ × d.State
  unfolding zeros_in
  tally (zeros, hash) bytes = (zeros + zeros_in bytes, d.update hash bytes)

  -- The loop over the chunks; `chunk` is `CHUNK` in the program.
  unfoldable pub scan_loop : ℕ → Config → ℕ → ℕ → List ℕ → Result ((ℕ × d.State) × State)
  unfolding tally read_header visit chunks
  scan_loop chunk c kw lo heap =
      chunks 16 (read_header kw lo) (visit c) tally chunk 24 heap c.size (c.size + 1) 0
        ((0, d.start), start_state)

  abbrev pub build_index :
      Option Layout → List Mapping → ScanOptions → Bool → ℕ → ℕ × d.State → State → Index
  build_index layout mappings options streaming size (zeros, hash) s =
      let spacing = finish s.spacing in
      record {
        version = 1;
        mode = (if is_some layout then "layout-assisted" else "raw-candidates");
        heap_sha256 = d.finalize hash;
        heap_bytes = size;
        zero_bytes = zeros;
        layout_sha256 = none;
        maps_sha256 = none;
        layout = layout;
        mappings = mappings;
        objects = s.objects;
        raw_header_groups = hits_of spacing.stats;
        header_group_stats = spacing.stats;
        groups_truncated = spacing.truncated;
        rejected_headers = s.rejected;
        identity_mapping = options.identity_mapping;
        only = options.only;
        streamed = streaming;
        class_counts = s.class_counts;
        detection = spacing.detection;
      }

  abbrev pub check_hash : String → Option String → Result (Unit {0})
  check_hash actual none = ok tt
  check_hash actual (some expected) = verify_digest actual expected

  -- What follows the loop: the index, the check of its hash, the footer of a stream.
  unfoldable pub finish_scan :
      Option Layout
      → List Mapping
      → ScanOptions
      → Bool
      → Option String
      → ℕ
      → (ℕ × d.State) × State
      → Result Scanned
  finish_scan layout mappings options streaming expected size (tallied, s) = do
    let index = build_index layout mappings options streaming size tallied s
    check_hash index.heap_sha256 expected
    ok (record {
      index = index;
      rows = (if streaming then s.rows ++ Row.complete ∷ [] else s.rows);
    })

  abbrev pub config_of : ScanOptions → Bool → ℕ → List Bound → Config
  config_of options streaming size table = record {
    table = table;
    only = options.only;
    streaming = streaming;
    size = size;
  }

  unfoldable pub scan_bound :
      List ℕ
      → Option Layout
      → List Mapping
      → ScanOptions
      → Bool
      → Option String
      → List Bound
      → Result Scanned
  unfolding scan_loop finish_scan
  scan_bound heap layout mappings options streaming expected table =
      scan_loop chunk_size (config_of options streaming (length heap) table) (width_of layout)
        (length_at layout) heap
      >>= finish_scan layout mappings options streaming expected (length heap)

  unfoldable pub scan_heap :
      List ℕ → Option Layout → List Mapping → ScanOptions → Bool → Option String → Result Scanned
  unfolding check_heap bind_classes scan_bound
  scan_heap heap layout mappings options streaming expected =
      check_heap heap
      >> (table_of layout >>= scan_bound heap layout mappings options streaming expected)

  -- `scan_with`, of the bytes of the file.
  unfoldable pub scan_with :
      List ℕ → Option Layout → List Mapping → ScanOptions → Bool → Option String → Result Scanned
  unfolding check_layout scan_heap
  scan_with heap layout mappings options streaming expected =
      check_layout layout options.only >> scan_heap heap layout mappings options streaming expected
