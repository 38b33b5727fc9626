-- ===== src/Commands/Opened.antt =====
-- What scan and scan-raw (src/main.rs) write opens again on the same source.
use zgcmaster.Prelude.{
  ℕ, ◌≤◌, length, ◌≡◌, sym, ap, ◌∙◌, subst, Bool, true, false, String, none, List, [], ◌is◌,
  is_some, if◌then◌else◌, Result, ok, ◌>>=◌, >>=-eq-ok, ok-injective,
}
use zgcmaster.Digest.{Digest}
use zgcmaster.Layout.{Layout}
use zgcmaster.Scan.{Index, ScanOptions, Scanned}
use zgcmaster.Scan.Facts.{ScanFacts}
use zgcmaster.Loading.Laws.{scan_raw_with-ScanFacts, open_raw-scan_raw_with}
use zgcmaster.Loading.{check_index}
use zgcmaster.Loading.Reloaded.{check_index-scan_bundle_with, check_index-scan_raw_with}
use zgcmaster.Loading.Bundles.{Bundle, Source, raw_file, folder, open_source}
use zgcmaster.Loading.Sealed.{scan_bundle_with-streamed, open_bundle-scan_bundle_with}
use zgcmaster.Summary.{Summary, summary, IsSummary, summary-IsSummary}
use zgcmaster.Commands.Scanning.{scan_options, scan_source, scan_command}

abbrev pub heap_of : Source → List ℕ
heap_of (folder bundle) = bundle.heap
heap_of (raw_file file) = file

module _ (d : Digest) (read_layout : List ℕ → Result Layout) (layout_at : String → Result Layout)
    (exists : String → Bool) where
  scan_source-streamed :
      (source : Source) (options : ScanOptions) (streaming : Bool) (out : Scanned)
      → scan_source d read_layout layout_at exists source options streaming ≡ ok out
      → out.index.streamed ≡ streaming
  unfolding scan_source
  scan_source-streamed (folder bundle) options streaming out h =
      scan_bundle_with-streamed d read_layout bundle options streaming out h
  scan_source-streamed (raw_file file) options streaming out h =
      let f : ScanFacts d file options.layout [] options streaming none out =
        scan_raw_with-ScanFacts d file options streaming out h in
      ap (λ (x : Index). x.streamed) f.index_is

  scan_source-opens :
      (source : Source) (options : ScanOptions) (out : Scanned)
      → scan_source d read_layout layout_at exists source options false ≡ ok out
      → is_some out.index.layout ≡ true
      → open_source d read_layout source out.index
        ≡ ok (record { file = heap_of source; index = out.index })
  unfolding scan_source open_source
  scan_source-opens (folder bundle) options out h typed =
      open_bundle-scan_bundle_with d read_layout bundle options out h
  scan_source-opens (raw_file file) options out h typed =
      let f : ScanFacts d file options.layout [] options false none out =
        scan_raw_with-ScanFacts d file options false out h in
      open_raw-scan_raw_with d file options out
        (ap is_some (sym (ap (λ (x : Index). x.layout) f.index_is)) ∙ typed) h

  scan_source-loads :
      (source : Source) (options : ScanOptions) (out : Scanned)
      → scan_source d read_layout layout_at exists source options false ≡ ok out
      → is_some out.index.layout ≡ true
      → length out.index.only ≤ 2048
      → check_index out.index ≡ ok out.index
  unfolding scan_source
  scan_source-loads (folder bundle) options out h typed few =
      check_index-scan_bundle_with d read_layout bundle options out few h
  scan_source-loads (raw_file file) options out h typed few =
      let f : ScanFacts d file options.layout [] options false none out =
        scan_raw_with-ScanFacts d file options false out h in
      check_index-scan_raw_with d file options out
        (ap is_some (sym (ap (λ (x : Index). x.layout) f.index_is)) ∙ typed) few h

  module _ (bundle_at : String → Result Bundle) (file_at : String → Result (List ℕ)) where
    -- The source that a command reads.
    abbrev pub source_of : String → String → Result Source
    source_of command input =
        if command is "scan"
        then (bundle_at input >>= λ bundle. ok (folder bundle))
        else (file_at input >>= λ file. ok (raw_file file))

    -- The scan that the command makes.
    record IsScanned (command input : String) (out : Scanned × Summary) : Type 0 where
      source : Source
      read : source_of command input ≡ ok source
      options : ScanOptions
      scan : scan_source d read_layout layout_at exists source options false ≡ ok out.0
      printed : out.1 ≡ summary out.0.index

    scan_command-IsScanned :
        (command input output : String) (args : List String) (out : Scanned × Summary)
        → scan_command d read_layout layout_at exists bundle_at file_at command input output args
          ≡ ok out
        → out.0.index.streamed ≡ false
        → IsScanned command input out
    unfolding scan_command
    scan_command-IsScanned command input output args out h kept =
        let (c, accepted, h₁) =
          >>=-eq-ok (scan_options d read_layout layout_at exists command input output args) _ h in
        let (source, read, h₂) = >>=-eq-ok (source_of command input) _ h₁ in
        let (scanned, scan, h₃) =
          >>=-eq-ok (scan_source d read_layout layout_at exists source c.options (is_some c.jsonl))
            _ h₂ in
        let e : (scanned, summary scanned.index) ≡ out = ok-injective h₃ in
        let first : scanned ≡ out.0 = ap (λ (o : Scanned × Summary). o.0) e in
        let off : is_some c.jsonl ≡ false =
          sym (scan_source-streamed source c.options (is_some c.jsonl) scanned scan)
          ∙ ap (λ (s : Scanned). s.index.streamed) first
          ∙ kept in
        record {
          source = source;
          read = read;
          options = c.options;
          scan =
              subst (λ b. scan_source d read_layout layout_at exists source c.options b ≡ ok out.0)
                off (scan ∙ ap ok first);
          printed =
              sym (ap (λ (o : Scanned × Summary). o.1) e)
              ∙ ap (λ (s : Scanned). summary s.index) first;
        }

    -- A scan of a source that keeps its objects and has a layout, with any options that the command
    -- accepts, writes an index that a reader opens on the same source, and prints its summary.
    pub scan_command-opens :
        (command input output : String) (args : List String) (out : Scanned × Summary)
        → scan_command d read_layout layout_at exists bundle_at file_at command input output args
          ≡ ok out
        → out.0.index.streamed ≡ false
        → is_some out.0.index.layout ≡ true
        → (source : Source) × (source_of command input ≡ ok source)
          × (open_source d read_layout source out.0.index
              ≡ ok (record { file = heap_of source; index = out.0.index }))
          × (out.1 ≡ summary out.0.index)
    scan_command-opens command input output args out h kept typed =
        let i = scan_command-IsScanned command input output args out h kept in
        (i.source, i.read, scan_source-opens i.source i.options out.0 i.scan typed, i.printed)

    -- A scan of a source that keeps its objects, has a layout and asks for at most 2048 classes,
    -- with any options that the command accepts, writes an index that the tests of `load_index`
    -- accept as it is, and prints a summary that counts just the objects of the index: in all, and
    -- for each name those whose class has the name.
    pub scan_command-loads :
        (command input output : String) (args : List String) (out : Scanned × Summary)
        → scan_command d read_layout layout_at exists bundle_at file_at command input output args
          ≡ ok out
        → out.0.index.streamed ≡ false
        → is_some out.0.index.layout ≡ true
        → length out.0.index.only ≤ 2048
        → (check_index out.0.index ≡ ok out.0.index) × IsSummary out.0.index out.1
    scan_command-loads command input output args out h kept typed few =
        let i = scan_command-IsScanned command input output args out h kept in
        let loads = scan_source-loads i.source i.options out.0 i.scan typed few in
        (
          loads,
          subst (IsSummary out.0.index) (sym i.printed)
              (summary-IsSummary out.0.index out.0.index loads kept),
        )
