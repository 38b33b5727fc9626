-- ===== src/Tests/Summaries.antt =====
-- The theorems on summaries, differences and carving, at small indexes.
use zgcmaster.Prelude.{
  ℕ, ◌≡◌, refl, subst, Bool, true, false, String, none, some, List, [], ◌∷◌, ◌++◌, ◌*◌, ◌-◌, Result,
  ok, err, ◌==◌, length, ap,
}
use zgcmaster.Dict.{Dict}
use zgcmaster.Scan.{Index, Scanned}
use zgcmaster.Scan.Facts.{ScanFacts}
use zgcmaster.Loading.{check_index}
use zgcmaster.Loading.Laws.{scan_raw_with-ScanFacts}
use zgcmaster.Reader.{Reader}
use zgcmaster.Spacing.{GroupStats}
use zgcmaster.Spacing.Summary.{summary_groups}
use zgcmaster.Summary.{IsSummary, summary, summary-IsSummary}
use zgcmaster.Diff.{DiffReport, IsDiff, diff, diff-IsDiff}
use zgcmaster.Census.Carve.{Carved, carve}
use zgcmaster.Census.Extracted.{AreCarved, carve-AreCarved}
use zgcmaster.Spacing.Shown.{IsShown, summary_groups-IsShown}
use zgcmaster.Tests.Capture.{example_digest, tiny, zeros, is_ok, value_of}
use zgcmaster.Tests.Censuses.{byte_layout}
use zgcmaster.Tests.Opening.{raw_options, raw_scan, reloaded}

abbrev stats_of : ℕ → ℕ → Bool → GroupStats
stats_of hits gaps periodic = record {
  hits = hits;
  detection_votes = 0;
  first_offset = 0;
  last_offset = 8 * hits;
  total_gaps = hits - 1;
  sampled_gaps = gaps;
  median_gap = none;
  mode_gap = none;
  mode_sample_count = 0;
  mode_fraction = none;
  periodic = periodic;
  classification = "";
  gap_examples = [];
}

abbrev three_groups : List (String × GroupStats)
three_groups =
    ("narrow:0x1000", stats_of 40 39 false)
    ∷ ("narrow:0x2000", stats_of 50 49 true)
    ∷ ("wide:0x3000", stats_of 4 3 false)
    ∷ ("wide:0x4000", stats_of 60 59 false)
    ∷ []

summary_groups-IsShown_example :
    (ordered : Dict GroupStats) × IsShown three_groups ordered (summary_groups three_groups)
summary_groups-IsShown_example = summary_groups-IsShown three_groups

object_like_count : length (summary_groups three_groups).objects ≡ 2
unfolding summary_groups
object_like_count = refl

raw_kept : raw_scan.0.index.streamed ≡ false
raw_kept =
    let f : ScanFacts example_digest tiny raw_options.layout [] raw_options false none raw_scan.0 =
      scan_raw_with-ScanFacts example_digest tiny raw_options false raw_scan.0 raw_scan.1 in
    ap (λ (x : Index). x.streamed) f.index_is

summary-IsSummary_example : IsSummary raw_scan.0.index (summary raw_scan.0.index)
summary-IsSummary_example = summary-IsSummary raw_scan.0.index reloaded.0 reloaded.1 raw_kept

abbrev diff_scan : Result Scanned → Bool
diff_scan (ok out) = is_ok (diff out.index out.index)
diff_scan (err e) = false

diff_works :
    diff_scan (zgcmaster.Loading.scan_raw_with example_digest tiny raw_options false) ≡ true
unfolding diff zgcmaster.Loading.scan_raw_with zgcmaster.Words.number zgcmaster.Words.width
    zgcmaster.Words.word zgcmaster.Layout.compressed zgcmaster.Layout.klass_width
    zgcmaster.Layout.validate_layout
diff_works = refl

diffed : (r : DiffReport) × (diff raw_scan.0.index raw_scan.0.index ≡ ok r)
diffed = value_of _ (subst (λ r. diff_scan r ≡ true) raw_scan.1 diff_works)

diff-IsDiff_example : IsDiff raw_scan.0.index raw_scan.0.index diffed.0
diff-IsDiff_example = diff-IsDiff raw_scan.0.index raw_scan.0.index diffed.0 diffed.1

-- A byte array of 4 bytes that starts as a JPEG does.
abbrev image_reader : Reader
image_reader = record {
  file = 1 ∷ zeros 7 ++ 0 ∷ 32 ∷ zeros 6 ++ 4 ∷ zeros 7 ++ 0xff ∷ 0xd8 ∷ 0xff ∷ 0xe0 ∷ zeros 4;
  index = record (raw_scan.0.index) {
    heap_bytes = 32;
    layout = some byte_layout;
    only = [];
    objects = record { offset = 0; size = 32; class_id = 0; length = some 4 } ∷ [];
  };
}

abbrev carves_one : Result (List Carved) → Bool
carves_one (ok rows) = length rows == 1
carves_one (err e) = false

carved_one : carves_one (carve image_reader) ≡ true
unfolding carve zgcmaster.Words.number zgcmaster.Words.word zgcmaster.Words.aligned
    zgcmaster.Layout.klass_width zgcmaster.Layout.compressed zgcmaster.Reader.extract
carved_one = refl

carve_works : is_ok (carve image_reader) ≡ true
unfolding carve zgcmaster.Words.number zgcmaster.Words.word zgcmaster.Words.aligned
    zgcmaster.Layout.klass_width zgcmaster.Layout.compressed zgcmaster.Reader.extract
carve_works = refl

carved : (rows : List Carved) × (carve image_reader ≡ ok rows)
carved = value_of _ carve_works

carve-AreCarved_example : AreCarved image_reader image_reader.index.objects carved.0
carve-AreCarved_example = carve-AreCarved image_reader carved.0 carved.1
