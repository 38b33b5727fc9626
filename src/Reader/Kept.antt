-- ===== src/Reader/Kept.antt =====
-- `scan_with` against `Reader::validate_object` (src/lib.rs), over a whole index.
use zgcmaster.Prelude.{
  ℕ, Bool, Option, some, String, List, [], length, ok, ◌≡◌, refl, sym, ap, subst, >>-eq-ok,
}
use zgcmaster.Layout.{Class, Layout, klass_width, length_offset, validate_layout}
use zgcmaster.Layout.Laws.{AreClasses, IsValidLayout, validate_layout-IsValidLayout}
use zgcmaster.Maps.{Mapping}
use zgcmaster.Digest.{Digest}
use zgcmaster.Scan.{Object, Index, ScanOptions, Scanned, check_layout, scan_with, config_of}
use zgcmaster.Scan.Objects.{AllObjects, AllObjects-map}
use zgcmaster.Scan.Facts.{ScanFacts, scan_with-ScanFacts}
use zgcmaster.Scan.Exact.{IsAnnounced, pass-IsAnnounced}
use zgcmaster.Reader.{Reader, class_of, validate_object}
use zgcmaster.Reader.Scanned.{class_of-ok, validate_object-ok}

-- The reader finds the object's class, and the bytes still match the index.
pub record IsReadable (r : Reader) (o : Object) : Type 0 where
  pub class : Class
  pub classified : class_of r o ≡ ok class
  pub valid : validate_object r o class ≡ ok tt

check_layout-classes :
    (layout : Layout) (only : List String)
    → check_layout (some layout) only ≡ ok tt
    → AreClasses layout [] layout.classes
unfolding check_layout
check_layout-classes layout only h =
    let valid = (>>-eq-ok (validate_layout layout) _ h).0 in
    let i : IsValidLayout layout = validate_layout-IsValidLayout layout valid in i.classes

module _ (d : Digest) (heap : List ℕ) (layout : Layout) (mappings : List Mapping)
    (options : ScanOptions) (streaming : Bool) (expected : Option String) (out : Scanned) where
  -- Every object of the index that a scan with a layout gives is one that a reader over the index
  -- and the same bytes classifies and validates: its identity, its size, its array length and its
  -- mark word are found again in the bytes.
  pub scan_with-IsReadable :
      scan_with d heap (some layout) mappings options streaming expected ≡ ok out
      → AllObjects (IsReadable (record { file = heap; index = out.index })) out.index.objects
  scan_with-IsReadable scanned =
      let facts : ScanFacts d heap (some layout) mappings options streaming expected out =
        scan_with-ScanFacts d heap (some layout) mappings options streaming expected out scanned in
      let c = config_of d options streaming (length heap) facts.table in
      let r : Reader = record { file = heap; index = out.index } in
      let with_layout = ap (λ (x : Index). x.layout) facts.index_is in
      let whole = ap (λ (x : Index). x.heap_bytes) facts.index_is in
      let classes = check_layout-classes layout options.only facts.layout_checked in
      subst (AllObjects (IsReadable r)) (ap (λ (x : Index). x.objects) (sym facts.index_is)) (
        AllObjects-map facts.state.objects
          (λ o (a : IsAnnounced c (klass_width layout) (length_offset layout) heap o). record {
            class = a.bound_by.class;
            classified =
                class_of-ok r layout c with_layout whole facts.small classes facts.bound refl o a;
            valid =
                validate_object-ok r layout c with_layout whole facts.small classes facts.bound refl
                  o a;
          })
          (pass-IsAnnounced c (klass_width layout) (length_offset layout) heap _ facts.state
            facts.pass))
