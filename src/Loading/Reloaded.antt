-- ===== src/Loading/Reloaded.antt =====
-- `load_index` accepts what `scan_raw_with` and `scan_bundle_with` (src/lib.rs) give.
use zgcmaster.Prelude.{
  ℕ, ◌≤◌, ◌≡◌, refl, sym, ap, ◌∙◌, subst, true, false, String, Option, none, some, List, [], ◌∷◌,
  length, is_some, Result, ok, >>-eq-ok, refuse_if, refuse_if-eq-ok, for_each, not, ltb, ◌&&◌, ◌||◌,
  arith,
}
use zgcmaster.Dict.{Counts, bump}
use zgcmaster.Digest.{Digest}
use zgcmaster.Layout.{Layout}
use zgcmaster.Scan.{Object, Index, ScanOptions, Scanned}
use zgcmaster.Reader.{class_name}
use zgcmaster.Loading.{
  same_counts, check_index, check_index_layout, check_object, exceeds_limits, bad_spacing,
  out_of_order, count_objects, wrong_counts,
}
use zgcmaster.Utf8.{is_utf8}
use zgcmaster.Maps.{Mapping, parse_maps}
use zgcmaster.Maps.Laws.{IsValidMaps, parse_maps-IsValidMaps}
use zgcmaster.Loading.{scan_raw_with}
use zgcmaster.Scan.{scan_with}
use zgcmaster.Loading.Bundles.{Bundle, read_maps, scan_bundle_with}
use zgcmaster.Loading.Sealed.{BundleFacts, scan_bundle_with-BundleFacts}
use zgcmaster.Loading.Accepted.{check_index-scan_with}

module _ (i : Index) (layout_sum maps_sum : String) where
  abbrev sealed : Index
  sealed = record i { layout_sha256 = some layout_sum; maps_sha256 = some maps_sum }

  count_objects-sealed :
      (m : Counts) (os : List Object) → count_objects sealed m os ≡ count_objects i m os
  unfolding count_objects class_name
  count_objects-sealed m [] = refl
  count_objects-sealed m (o ∷ os) = count_objects-sealed (bump (class_name i o) m) os

  check_objects-sealed :
      (os : List Object) → for_each (check_object sealed) os ≡ for_each (check_object i) os
  unfolding check_object
  check_objects-sealed os = refl

  -- The tests do not read the digests of the sidecars.
  pub check_index-sealed : check_index i ≡ ok i → check_index sealed ≡ ok sealed
  unfolding check_index
  check_index-sealed h =
      let (g₁, h₁) = >>-eq-ok (refuse_if (exceeds_limits i) _) _ h in
      let (g₂, h₂) = >>-eq-ok (refuse_if (bad_spacing i) _) _ h₁ in
      let (g₃, h₃) = >>-eq-ok (check_index_layout i.layout) _ h₂ in
      let (g₄, h₄) = >>-eq-ok (refuse_if (out_of_order i.objects) _) _ h₃ in
      let (g₅, h₅) = >>-eq-ok (for_each (check_object i) i.objects) _ h₄ in
      let (g₆, h₆) = >>-eq-ok (refuse_if (wrong_counts i) _) (ok i) h₅ in
      let objects = check_objects-sealed i.objects ∙ g₅ in
      let e₁ : exceeds_limits sealed ≡ false = refuse_if-eq-ok (exceeds_limits i) _ g₁ in
      let e₂ : bad_spacing sealed ≡ false = refuse_if-eq-ok (bad_spacing i) _ g₂ in
      let e₄ : out_of_order sealed.objects ≡ false =
        refuse_if-eq-ok (out_of_order i.objects) _ g₄ in
      let e₆ : wrong_counts sealed ≡ false =
        ap
          (λ m.
            not i.streamed && ltb 0 (length i.class_counts) && not (same_counts m i.class_counts))
          (count_objects-sealed [] i.objects)
        ∙ refuse_if-eq-ok (wrong_counts i) _ g₆ in
      rw (e₁, e₂, g₃, e₄, objects, e₆)

read_maps-few :
    (bytes : List ℕ) (size : ℕ) (ms : List Mapping)
    → read_maps bytes size ≡ ok ms
    → length ms ≤ 65_536
unfolding read_maps
read_maps-few bytes size ms h =
    let i : IsValidMaps size ms =
      parse_maps-IsValidMaps bytes size ms
        (>>-eq-ok (refuse_if (not (is_utf8 bytes)) _) (parse_maps bytes size) h).1 in
    i.few

-- The tests of `load_index` accept what a scan of a bundle gives that keeps its objects and asks
-- for at most 2048 classes.
pub check_index-scan_bundle_with :
    (d : Digest) (read_layout : List ℕ → Result Layout) (bundle : Bundle) (options : ScanOptions)
    (out : Scanned)
    → length out.index.only ≤ 2048
    → scan_bundle_with d read_layout bundle options false ≡ ok out
    → check_index out.index ≡ ok out.index
check_index-scan_bundle_with d read_layout bundle options out few h =
    let f : BundleFacts d read_layout bundle options false out =
      scan_bundle_with-BundleFacts d read_layout bundle options false out h in
    subst (λ (x : Index). check_index x ≡ ok x) (sym f.index_is)
      (check_index-sealed f.scanned.index _ _ (
        check_index-scan_with d bundle.heap f.layout f.mappings options _ f.scanned f.scan
          (read_maps-few bundle.maps (length bundle.heap) f.mappings f.mapped)
          (subst (λ names. length names ≤ 2048) (ap (λ (x : Index). x.only) f.index_is) few)))

-- The tests of `load_index` accept what a raw scan with a layout gives that keeps its objects and
-- asks for at most 2048 classes.
pub check_index-scan_raw_with :
    (d : Digest) (file : List ℕ) (options : ScanOptions) (out : Scanned)
    → is_some options.layout ≡ true
    → length out.index.only ≤ 2048
    → scan_raw_with d file options false ≡ ok out
    → check_index out.index ≡ ok out.index
unfolding scan_raw_with
check_index-scan_raw_with d file options out typed few h =
    let (g₁, h₁) =
      >>-eq-ok (refuse_if (options.discover_bindings && (is_some options.layout || false)) _) _ h in
    let (g₂, h₂) =
      >>-eq-ok (refuse_if (is_some options.layout && not options.identity_mapping) _)
        (scan_with d file options.layout [] options false none) h₁ in
    of_layout options.layout typed h₂
  where
    of_layout :
        (layout : Option Layout)
        → is_some layout ≡ true
        → scan_with d file layout [] options false none ≡ ok out
        → check_index out.index ≡ ok out.index
    of_layout none missing scan = cc
    of_layout (some layout) present scan =
        check_index-scan_with d file layout [] options none out scan (omega arith) few
