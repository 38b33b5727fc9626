-- ===== src/Tests/Comparing.antt =====
-- The theorems on corpora and packs, at two captures of 96 bytes that hold one String each.
use zgcmaster.Prelude.{
  ℕ, ◌≡◌, refl, Bool, true, false, String, Option, none, some, List, [], ◌∷◌, ◌++◌, Result, ok, err,
  ◌>>=◌, >>=-eq-ok, codes, ◌==◌, ◌&&◌, length,
}
use zgcmaster.Words.{number, width, word}
use zgcmaster.Words.Hex.{hex}
use zgcmaster.Layout.{Layout, compressed, klass_width}
use zgcmaster.Profiles.{boot}
use zgcmaster.Scan.{ScanOptions, Scanned}
use zgcmaster.Loading.{scan_raw_with}
use zgcmaster.Census.{default_options}
use zgcmaster.Patterns.{Definition, Pack, RegexSet, parse}
use zgcmaster.Patterns.Laws.{IsPack, parse-IsPack}
use zgcmaster.Corpus.{Options}
use zgcmaster.Corpus.Snapshots.{Snapshot}
use zgcmaster.Corpus.Diff.{Capture, Report, load_snapshot, diff_captures}
use zgcmaster.Corpus.Loaded.{IsSnapshot, load_snapshot-IsSnapshot}
use zgcmaster.Corpus.Compared.{IsCompared, diff_captures-IsCompared}
use zgcmaster.Tests.Capture.{example_digest, zeros, is_ok, value_of}
use zgcmaster.Tests.Strings.{string_capture, profile, bound}

-- The String "ho", whose hash is not cached.
abbrev other_capture : List ℕ
other_capture =
    1 ∷ zeros 7
    ++ 0 ∷ 16 ∷ zeros 6
    ++ zeros 8
    ++ 64 ∷ zeros 4
    ++ 4 ∷ zeros 2
    ++ zeros 32
    ++ 1 ∷ zeros 7
    ++ 0 ∷ 32 ∷ zeros 6
    ++ 2 ∷ zeros 7
    ++ 104 ∷ 111 ∷ zeros 6

abbrev not_json : List ℕ → Bool
not_json text = false

abbrev options : Options
options = record {
  census = default_options;
  reference_hypothesis = "nongen-low42-equals-file-offset";
  min_len = 1;
  require_hash = false;
  max_unique = 100;
  max_text_bytes = 1000;
}

abbrev scan_options : Layout → ScanOptions
scan_options layout = record {
  only = [];
  identity_mapping = true;
  layout = some layout;
  discover_bindings = false;
}

abbrev capture_of : List ℕ → Scanned → Capture
capture_of file out = record { file = file; later = file; last = file; index = out.index }

abbrev compare : Layout → Scanned → Scanned → Result Report
compare layout first second =
    diff_captures example_digest not_json options none (capture_of string_capture first)
      (capture_of other_capture second)

abbrev scan : List ℕ → Layout → Result Scanned
scan file layout = scan_raw_with example_digest file (scan_options layout) false

abbrev run : Result Report
run = boot profile bound >>= λ layout. scan string_capture layout >>= λ first.
    scan other_capture layout >>= λ second. compare layout first second

abbrev one_of_each : Result Report → Bool
one_of_each (ok r) = r.new_strings == 1 && r.gone_strings == 1 && r.unchanged_strings == 0
one_of_each (err e) = false

compared : one_of_each run ≡ true
unfolding boot scan_raw_with diff_captures zgcmaster.Layout.validate_layout number compressed width
    zgcmaster.Layout.length_offset word klass_width zgcmaster.Words.aligned
    zgcmaster.Spacing.Collector.finish zgcmaster.Spacing.Collector.observe_hit
    zgcmaster.Spacing.Collector.group_key hex zgcmaster.Spacing.observe
    zgcmaster.Address.model_profile zgcmaster.Address.target zgcmaster.RawStrings.status_of
    zgcmaster.RawStrings.java_hash zgcmaster.Address.parse_model zgcmaster.Dict.get
    zgcmaster.Dict.insert zgcmaster.Utf8.piece zgcmaster.Reader.utf16_units
    zgcmaster.Census.Classify.kind_of zgcmaster.Census.magic zgcmaster.Scan.plausible
    zgcmaster.RawStrings.read_at zgcmaster.RawStrings.decode_at
compared = refl

-- A comparison that has such a report was made.
run_of : (r : Result Report) → one_of_each r ≡ true → (out : Report) × (r ≡ ok out)
run_of (ok out) h = (out, refl)
run_of (err e) h = cc

made :
    (layout : Layout) × (first : Scanned) × (second : Scanned) × (r : Report) × (compare layout
        first second
      ≡ ok r)
made =
    let (r, h) = run_of run compared in
    let (layout, e₁, h₁) = >>=-eq-ok (boot profile bound) _ h in
    let (first, e₂, h₂) = >>=-eq-ok (scan string_capture layout) _ h₁ in
    let (second, e₃, h₃) = >>=-eq-ok (scan other_capture layout) _ h₂ in
    (layout, first, second, r, h₃)

abbrev before : Capture
before = capture_of string_capture made.1

abbrev after : Capture
after = capture_of other_capture made.2

diff_captures-IsCompared_example : IsCompared example_digest not_json options before after made.3
diff_captures-IsCompared_example =
    diff_captures-IsCompared example_digest not_json options none before after made.3 made.4

abbrev take : Layout → Scanned → Result Snapshot
take layout out = load_snapshot example_digest not_json options (capture_of string_capture out)

abbrev take_run : Result Snapshot
take_run = boot profile bound >>= λ layout. scan string_capture layout >>= λ out. take layout out

taken : is_ok take_run ≡ true
unfolding boot scan_raw_with load_snapshot zgcmaster.Layout.validate_layout number compressed width
    zgcmaster.Layout.length_offset word klass_width zgcmaster.Words.aligned
    zgcmaster.Spacing.Collector.finish zgcmaster.Spacing.Collector.observe_hit
    zgcmaster.Spacing.Collector.group_key hex zgcmaster.Spacing.observe
    zgcmaster.Address.model_profile zgcmaster.Address.target zgcmaster.RawStrings.status_of
    zgcmaster.RawStrings.java_hash zgcmaster.Address.parse_model zgcmaster.Dict.get
    zgcmaster.Dict.insert zgcmaster.Utf8.piece zgcmaster.Reader.utf16_units
    zgcmaster.Census.Classify.kind_of zgcmaster.Census.magic zgcmaster.Scan.plausible
    zgcmaster.RawStrings.read_at zgcmaster.RawStrings.decode_at zgcmaster.Dict.bump
taken = refl

snapshot_made : (layout : Layout) × (out : Scanned) × (s : Snapshot) × (take layout out ≡ ok s)
snapshot_made =
    let (s, h) = value_of take_run taken in
    let (layout, e₁, h₁) = >>=-eq-ok (boot profile bound) _ h in
    let (out, e₂, h₂) = >>=-eq-ok (scan string_capture layout) _ h₁ in (layout, out, s, h₂)

load_snapshot-IsSnapshot_example :
    IsSnapshot example_digest not_json options
      (capture_of string_capture snapshot_made.1)
      snapshot_made.2
load_snapshot-IsSnapshot_example =
    load_snapshot-IsSnapshot example_digest not_json options
      (capture_of string_capture snapshot_made.1) snapshot_made.2 snapshot_made.3

abbrev definition : Definition
definition = record {
  version = 1;
  patterns =
      record { name = "mail"; regex = "@" } ∷ record { name = "digit"; regex = "[0-9]" } ∷ [];
}

abbrev parse_definition : List ℕ → Result Definition
parse_definition bytes = ok definition

-- The engine of the example finds the first expression in every text.
abbrev compile : List String → Option RegexSet
compile expressions = some λ text. 0 ∷ []

abbrev count_hash : List ℕ → String
count_hash bytes = hex (length bytes)

pack_works : is_ok (parse parse_definition compile count_hash (codes "{}")) ≡ true
unfolding parse zgcmaster.Utf8.utf8_length
pack_works = refl

pack : (p : Pack) × (parse parse_definition compile count_hash (codes "{}") ≡ ok p)
pack = value_of _ pack_works

parse-IsPack_example :
    (d : Definition) × (parse_definition (codes "{}") ≡ ok d) × IsPack d compile pack.0
parse-IsPack_example = parse-IsPack parse_definition compile count_hash (codes "{}") pack.0 pack.1
