-- ===== src/Tests/Scanning.antt =====
-- The theorems on scans and on the reader, at a capture of 64 bytes.
use zgcmaster.Prelude.{
  ap, ℕ, ◌+◌, ◌%◌, ◌≤◌, true, false, none, some, List, [], ◌∷◌, length, ok, ◌>>=◌, ◌≡◌, refl, arith,
}
use zgcmaster.Words.{number}
use zgcmaster.Layout.{compressed, klass_width, length_offset}
use zgcmaster.Layout.Laws.{IsValidLayout, validate_layout-IsValidLayout}
use zgcmaster.Walk.{single_pass}
use zgcmaster.Scan.{
  Index, Bound, Config, Header, Object, scan_with, scan_loop, table_of, config_of, zeros_in,
  read_header, visit, start_state, width_of, length_at,
}
use zgcmaster.Scan.Facts.{scan_with-ScanFacts}
use zgcmaster.Scan.Visit.{Announces, new_object}
use zgcmaster.Scan.Chunks.{scan_loop-eq-single_pass}
use zgcmaster.Scan.Objects.{AllObjects}
use zgcmaster.Scan.Exact.{IsAnnounced, HasObject, is_selected}
use zgcmaster.Scan.Sound.{IsSoundIndex, scan_with-IsSoundIndex, scan_with-exact}
use zgcmaster.Loading.{check_index}
use zgcmaster.Loading.Accepted.{check_index-scan_with}
use zgcmaster.Reader.Kept.{IsReadable, scan_with-IsReadable}
use zgcmaster.Tests.Capture.{
  example_digest, tiny, tiny_layout, point, plain, tiny_scan, tiny_layout_valid,
}

scan_loop-eq-single_pass_example :
    scan_loop example_digest 8 (config_of example_digest plain false 64 []) 8 16 tiny ≡ (
      single_pass 16
        (read_header 8 16)
        (visit (config_of example_digest plain false 64 []))
        tiny
        64
        8
        0
        start_state
      >>= λ s. ok ((zeros_in tiny, tiny), s))
scan_loop-eq-single_pass_example =
    scan_loop-eq-single_pass example_digest 1 (config_of example_digest plain false 64 []) 8 16 tiny
      (omega arith) (omega arith) (omega arith) refl

scan_with-IsSoundIndex_example : IsSoundIndex example_digest tiny tiny_scan.0.index
scan_with-IsSoundIndex_example =
    scan_with-IsSoundIndex example_digest tiny (some tiny_layout) [] plain false none tiny_scan.0
      tiny_scan.1

abbrev tiny_table : List Bound
tiny_table = record { klass = 0x1000; id = 0; class = point } ∷ []

tiny_table_of : table_of (some tiny_layout) ≡ ok tiny_table
unfolding zgcmaster.Scan.bind_classes number
tiny_table_of = refl

abbrev tiny_config : Config
tiny_config = config_of example_digest plain false (length tiny) tiny_table

abbrev tiny_header : ℕ → Header
tiny_header offset = read_header 8 16 tiny (length tiny) offset

scan_with-exact_example :
    AllObjects (IsAnnounced tiny_config 8 16 tiny) tiny_scan.0.index.objects
    × ((offset : ℕ) (b : Bound) (n : ℕ)
        → offset % 8 ≡ 0
        → offset + 16 ≤ length tiny
        → Announces tiny_config b offset (tiny_header offset) n
        → is_selected tiny_config b ≡ true
        → HasObject (new_object b offset (tiny_header offset) n) tiny_scan.0.index.objects)
unfolding klass_width length_offset compressed
scan_with-exact_example =
    scan_with-exact example_digest tiny (some tiny_layout) [] plain false none tiny_scan.0
      tiny_scan.1 tiny_table tiny_table_of refl

scan_with-IsReadable_example :
    AllObjects
      (IsReadable (record { file = tiny; index = tiny_scan.0.index }))
      tiny_scan.0.index.objects
scan_with-IsReadable_example =
    scan_with-IsReadable example_digest tiny tiny_layout [] plain false none tiny_scan.0 tiny_scan.1

validate_layout-IsValidLayout_example : IsValidLayout tiny_layout
validate_layout-IsValidLayout_example = validate_layout-IsValidLayout tiny_layout tiny_layout_valid

tiny_only : length tiny_scan.0.index.only ≡ 0
tiny_only =
    ap (λ (x : Index). length x.only)
      (scan_with-ScanFacts example_digest tiny (some tiny_layout) [] plain false none tiny_scan.0
        tiny_scan.1).index_is

check_index-scan_with_example : check_index tiny_scan.0.index ≡ ok tiny_scan.0.index
check_index-scan_with_example =
    check_index-scan_with example_digest tiny tiny_layout [] plain none tiny_scan.0 tiny_scan.1
      (omega arith) (omega (arith, tiny_only))
