-- ===== src/Tests/Bundles.antt =====
-- The theorems on bundles and on the commands that scan, at a bundle of the capture of 64 bytes.
use zgcmaster.Prelude.{
  ℕ, ◌≤◌, leb, leb→le, ◌/◌, ◌%◌, ◌≡◌, refl, subst, arith, Bool, true, false, not, ◌&&◌, String,
  none, List, [], ◌∷◌, ◌++◌, length, codes, join, is_some, Result, ok, err, invalid,
}
use mathlib.Core.List.{append-nil, append_assoc}
use zgcmaster.Words.Hex.{hex_digit}
use zgcmaster.Digest.{Digest}
use zgcmaster.Layout.{Layout}
use zgcmaster.Scan.{ScanOptions, Scanned}
use zgcmaster.Summary.{Summary, summary, IsSummary}
use zgcmaster.Loading.{check_index}
use zgcmaster.Loading.Bundles.{Bundle, Source, folder, scan_bundle_with, open_bundle, open_source}
use zgcmaster.Loading.Opened.{IsOpened, open_bundle-IsOpened}
use zgcmaster.Loading.Sealed.{open_bundle-scan_bundle_with}
use zgcmaster.Commands.Scanning.{scan_command}
use zgcmaster.Commands.Opened.{heap_of, scan_command-opens, scan_command-loads}
use zgcmaster.Tests.Capture.{tiny, tiny_layout, is_ok, value_of}

-- A digest of 64 digits: the number of the bytes.
abbrev long_digest : Digest
long_digest = record {
  State = List ℕ;
  start = [];
  update = ◌++◌;
  finalize = λ bytes. join "00000000000000000000000000000000000000000000000000000000000000" (
      String.◌∷◌ (hex_digit (length bytes / 16 % 16))
        (String.◌∷◌ (hex_digit (length bytes % 16)) ""));
  update_nil = λ h. append-nil h;
  update-append = λ h a b. append_assoc h a b;
}

abbrev sum_line : String → String → List ℕ
sum_line digits name =
    codes "00000000000000000000000000000000000000000000000000000000000000"
    ++ codes digits
    ++ codes "  "
    ++ codes name
    ++ 10 ∷ []

abbrev bundle : Bundle
bundle = record {
  sums =
      sum_line "40" "heap.raw"
      ++ sum_line "06" "layout.json"
      ++ sum_line "2a" "maps.txt"
      ++ sum_line "00" "consistency.txt";
  layout = codes "layout";
  maps = codes "1000-1040 rw-s 0 00:01 1 /memfd:java_heap" ++ 10 ∷ [];
  consistency = [];
  heap = tiny;
}

abbrev read_layout : List ℕ → Result Layout
read_layout bytes = ok tiny_layout

abbrev no_options : ScanOptions
no_options = record {
  only = [];
  identity_mapping = false;
  layout = none;
  discover_bindings = false;
}

bundle_scans : is_ok (scan_bundle_with long_digest read_layout bundle no_options false) ≡ true
unfolding scan_bundle_with zgcmaster.Words.number zgcmaster.Words.width zgcmaster.Words.word
    zgcmaster.Utf8.piece zgcmaster.Layout.compressed zgcmaster.Layout.klass_width
bundle_scans = refl

scanned :
    (out : Scanned) × (scan_bundle_with long_digest read_layout bundle no_options false ≡ ok out)
scanned = value_of _ bundle_scans

open_bundle-scan_bundle_with_example :
    open_bundle long_digest read_layout bundle scanned.0.index
    ≡ ok (record { file = tiny; index = scanned.0.index })
open_bundle-scan_bundle_with_example =
    open_bundle-scan_bundle_with long_digest read_layout bundle no_options scanned.0 scanned.1

open_bundle-IsOpened_example :
    IsOpened long_digest read_layout bundle scanned.0.index
      (record { file = tiny; index = scanned.0.index })
open_bundle-IsOpened_example =
    open_bundle-IsOpened long_digest read_layout bundle scanned.0.index
      (record { file = tiny; index = scanned.0.index })
      (open_bundle-scan_bundle_with long_digest read_layout bundle no_options scanned.0 scanned.1)

abbrev scan_args : List String
scan_args = "--only" ∷ "Point,Point" ∷ []

abbrev run_scan : Result (Scanned × Summary)
run_scan =
    scan_command long_digest read_layout (λ path. ok tiny_layout) (λ path. false)
      (λ path. ok bundle) (λ path. err (invalid "no file")) "scan" "in" "out" scan_args

command_scans : is_ok run_scan ≡ true
unfolding scan_command zgcmaster.Words.number zgcmaster.Words.width zgcmaster.Words.word
    zgcmaster.Utf8.piece zgcmaster.Layout.compressed zgcmaster.Layout.klass_width
command_scans = refl

command_out : (out : Scanned × Summary) × (run_scan ≡ ok out)
command_out = value_of _ command_scans

abbrev keeps : Result (Scanned × Summary) → Bool
keeps (ok out) = not out.0.index.streamed && is_some out.0.index.layout
keeps (err e) = false

command_keeps : keeps run_scan ≡ true
unfolding scan_command zgcmaster.Words.number zgcmaster.Words.width zgcmaster.Words.word
    zgcmaster.Utf8.piece zgcmaster.Layout.compressed zgcmaster.Layout.klass_width
command_keeps = refl

kept_and_typed :
    (command_out.0.0.index.streamed ≡ false) × (is_some command_out.0.0.index.layout ≡ true)
kept_and_typed = both _ _ (subst (λ r. keeps r ≡ true) command_out.1 command_keeps)
  where
    both : (a b : Bool) → not a && b ≡ true → (a ≡ false) × (b ≡ true)
    both a b h = ground arith

abbrev asks : Result (Scanned × Summary) → Bool
asks (ok out) = leb (length out.0.index.only) 2048
asks (err e) = false

command_asks : asks run_scan ≡ true
unfolding scan_command zgcmaster.Words.number zgcmaster.Words.width zgcmaster.Words.word
    zgcmaster.Utf8.piece zgcmaster.Layout.compressed zgcmaster.Layout.klass_width
command_asks = refl

asks_few : length command_out.0.0.index.only ≤ 2048
asks_few = leb→le _ _ (subst (λ r. asks r ≡ true) command_out.1 command_asks)

scan_command-opens_example :
    (source : Source) × (ok (folder bundle) ≡ ok source)
    × (open_source long_digest read_layout source command_out.0.0.index
        ≡ ok (record { file = heap_of source; index = command_out.0.0.index }))
    × (command_out.0.1 ≡ summary command_out.0.0.index)
scan_command-opens_example =
    scan_command-opens long_digest read_layout (λ path. ok tiny_layout) (λ path. false)
      (λ path. ok bundle) (λ path. err (invalid "no file")) "scan" "in" "out" scan_args
      command_out.0 command_out.1 kept_and_typed.0 kept_and_typed.1

scan_command-loads_example :
    (check_index command_out.0.0.index ≡ ok command_out.0.0.index)
    × IsSummary command_out.0.0.index command_out.0.1
scan_command-loads_example =
    scan_command-loads long_digest read_layout (λ path. ok tiny_layout) (λ path. false)
      (λ path. ok bundle) (λ path. err (invalid "no file")) "scan" "in" "out" scan_args
      command_out.0 command_out.1 kept_and_typed.0 kept_and_typed.1 asks_few
