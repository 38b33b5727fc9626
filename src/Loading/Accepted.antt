-- ===== src/Loading/Accepted.antt =====
-- `load_index` (src/lib.rs) accepts what a scan gives.
use zgcmaster.Prelude.{
  ℕ, ◌≤◌, Bool, true, false, ◌&&◌, String, Option, some, List, [], length, ltb, ok, ◌≡◌, refl, sym,
  ap, ◌∙◌, subst, arith,
}
use zgcmaster.Dict.{total}
use zgcmaster.Dict.Keys.{length-IsSorted}
use zgcmaster.Digest.{Digest}
use zgcmaster.Layout.{Layout, validate_layout}
use zgcmaster.Layout.Laws.{IsValidLayout, validate_layout-IsValidLayout}
use zgcmaster.Maps.{Mapping}
use zgcmaster.Spacing.Collector.{finish}
use zgcmaster.Scan.{Index, ScanOptions, Scanned, config_of, scan_with}
use zgcmaster.Scan.Objects.{AllObjects}
use zgcmaster.Scan.Facts.{ScanFacts, scan_with-ScanFacts}
use zgcmaster.Scan.Sound.{InCapture, IsSoundIndex, scan_with-IsSoundIndex}
use zgcmaster.Reader.{Reader}
use zgcmaster.Reader.Kept.{scan_with-IsReadable}
use zgcmaster.Loading.{
  check_index, check_index_layout, exceeds_limits, wrong_counts, count_objects, same_counts,
}
use zgcmaster.Loading.Laws.{check_layout-embedded}
use zgcmaster.Loading.Spaced.{scan_with-well_spaced, length-hits_of}
use zgcmaster.Loading.Counted.{IsCounted, pass-IsCounted, names_of, same_counts_refl}
use zgcmaster.Loading.Passed.{
  IsAscending-in_order, check_objects-ok, IsWithin-limits, length-names_of,
}

module _ (d : Digest) (heap : List ℕ) (layout : Layout) (mappings : List Mapping)
    (options : ScanOptions) (expected : Option String) (out : Scanned)
    (scanned : scan_with d heap (some layout) mappings options false expected ≡ ok out) where
  facts : ScanFacts d heap (some layout) mappings options false expected out
  facts = scan_with-ScanFacts d heap (some layout) mappings options false expected out scanned

  sound : IsSoundIndex d heap out.index
  sound = scan_with-IsSoundIndex d heap (some layout) mappings options false expected out scanned

  with_layout : out.index.layout ≡ some layout
  with_layout = ap (λ (x : Index). x.layout) facts.index_is

  is_valid : validate_layout layout ≡ ok tt
  is_valid = check_layout-embedded (some layout) options.only refl facts.layout_checked

  counts :
      IsCounted out.index layout with_layout
        (config_of d options false (length heap) facts.table)
        facts.bound
        refl
        (length heap)
        facts.state
  counts =
      pass-IsCounted out.index layout with_layout
        (config_of d options false (length heap) facts.table) facts.bound refl heap _ facts.state
        facts.pass

  same_class_counts : out.index.class_counts ≡ facts.state.class_counts
  same_class_counts = ap (λ (x : Index). x.class_counts) facts.index_is

  same_objects : out.index.objects ≡ facts.state.objects
  same_objects = ap (λ (x : Index). x.objects) facts.index_is

  not_streamed : out.index.streamed ≡ false
  not_streamed = ap (λ (x : Index). x.streamed) facts.index_is

  whole : out.index.heap_bytes ≡ length heap
  whole = ap (λ (x : Index). x.heap_bytes) facts.index_is

  within_limits :
      length mappings ≤ 65_536 → length out.index.only ≤ 2048 → exceeds_limits out.index ≡ false
  within_limits few_mappings few_names =
      let valid : IsValidLayout layout = validate_layout-IsValidLayout layout is_valid in
      let stats =
        scan_with-well_spaced d heap (some layout) mappings options false expected out scanned in
      IsWithin-limits out.index (record {
        version = ap (λ (x : Index). x.version) facts.index_is;
        small = omega (arith, whole, facts.small);
        objects = sound.bounded;
        mappings =
            omega (arith, ap (λ (x : Index). length x.mappings) facts.index_is, few_mappings);
        headers = omega (
          arith,
          stats.1,
          ap (λ (x : Index). length x.raw_header_groups) facts.index_is,
          ap (λ (x : Index). length x.header_group_stats) facts.index_is,
          length-hits_of (finish facts.state.spacing).stats,
        );
        stats = stats.1;
        only = few_names;
        classes = omega (
          arith,
          ap length same_class_counts,
          length-IsSorted facts.state.class_counts (names_of layout.classes) counts.sorted
              counts.named,
          length-names_of layout.classes,
          valid.few,
        );
        spaced = omega (arith, ap total same_class_counts, whole, counts.spaced);
        kept = not_streamed;
      })

  right_counts : wrong_counts out.index ≡ false
  right_counts =
      let e : count_objects out.index [] out.index.objects ≡ out.index.class_counts =
        ap (count_objects out.index []) same_objects ∙ sym counts.counted ∙ sym same_class_counts in
      let same =
        ap (λ m. same_counts m out.index.class_counts) e
        ∙ same_counts_refl out.index.class_counts in
      rw (same, not_streamed) (and_false (ltb 0 (length out.index.class_counts)))
    where
      and_false : (b : Bool) → b && false ≡ false
      and_false true = refl
      and_false false = refl

  -- The tests of `load_index` accept the index of every scan with a layout that keeps its objects,
  -- as it is, where there are at most 65,536 mappings and at most 2048 classes are asked for: it is
  -- within all limits, its header statistics are consistent, its layout is valid, its objects are
  -- in order and in place, and its class counts are those of the objects.
  pub check_index-scan_with :
      length mappings ≤ 65_536 → length out.index.only ≤ 2048 → check_index out.index ≡ ok out.index
  unfolding check_index
  check_index-scan_with few_mappings few_names =
      let r : Reader = record { file = heap; index = out.index } in
      let limits = within_limits few_mappings few_names in
      let spacing =
        (scan_with-well_spaced d heap (some layout) mappings options false expected out
          scanned).0 in
      let layout_ok : check_index_layout out.index.layout ≡ ok tt =
        ap check_index_layout with_layout ∙ is_valid in
      let order = IsAscending-in_order 0 out.index.objects sound.ascending in
      let objects =
        check_objects-ok r out.index.objects (omega (arith, whole, facts.small))
          (subst (λ n. AllObjects (InCapture n) out.index.objects) (sym whole) sound.placed)
          (scan_with-IsReadable d heap layout mappings options false expected out scanned) in
      rw (limits, spacing, layout_ok, order, objects, right_counts) refl
