-- ===== src/Tests/Opening.antt =====
-- The theorems on loading and opening, at the capture of 64 bytes.
use zgcmaster.Prelude.{Bool, true, false, some, [], Result, ok, err, ◌≡◌, refl, subst}
use zgcmaster.Words.{number, width, word, aligned}
use zgcmaster.Layout.{compressed, klass_width, validate_layout}
use zgcmaster.Scan.{Index, ScanOptions, Scanned}
use zgcmaster.Reader.{Reader}
use zgcmaster.Loading.{check_index, scan_raw_with}
use zgcmaster.Loading.Laws.{IsLoaded, check_index-IsLoaded}
use zgcmaster.Tests.Capture.{example_digest, tiny, tiny_layout, is_ok, value_of}

abbrev pub raw_options : ScanOptions
raw_options = record {
  only = [];
  identity_mapping = true;
  layout = some tiny_layout;
  discover_bindings = false;
}

raw_works : is_ok (scan_raw_with example_digest tiny raw_options false) ≡ true
unfolding scan_raw_with validate_layout number compressed width word klass_width
raw_works = refl

pub raw_scan : (out : Scanned) × (scan_raw_with example_digest tiny raw_options false ≡ ok out)
raw_scan = value_of _ raw_works

abbrev reload : Result Scanned → Bool
reload (ok out) = is_ok (check_index out.index)
reload (err e) = false

-- The index of the scan passes the tests of `load_index`.
raw_reloads : reload (scan_raw_with example_digest tiny raw_options false) ≡ true
unfolding scan_raw_with validate_layout number compressed width word klass_width check_index
    zgcmaster.Spacing.Collector.finish zgcmaster.Spacing.Collector.observe_hit zgcmaster.Dict.insert
    zgcmaster.Dict.bump zgcmaster.Spacing.Collector.group_key zgcmaster.Words.Hex.hex
    zgcmaster.Spacing.observe zgcmaster.Reader.class_name
raw_reloads = refl

pub reloaded : (index : Index) × (check_index raw_scan.0.index ≡ ok index)
reloaded = value_of _ (subst (λ r. reload r ≡ true) raw_scan.1 raw_reloads)

check_index-IsLoaded_example : (reloaded.0 ≡ raw_scan.0.index) × IsLoaded raw_scan.0.index
check_index-IsLoaded_example = check_index-IsLoaded raw_scan.0.index reloaded.0 reloaded.1
