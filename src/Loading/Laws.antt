-- ===== src/Loading/Laws.antt =====
-- What an index that `load_index` (src/lib.rs) accepts satisfies, and that a reader opens what a raw
-- scan gives.
use zgcmaster.Prelude.{
  ℕ, ◌+◌, ◌*◌, ◌/◌, ◌≤◌, ◌<◌, ◌≡◌, ◌⊎◌, refl, sym, ap, ◌∙◌, Bool, true, false, ◌&&◌, ◌||◌, not,
  String, Option, none, some, List, [], ◌∷◌, length, ltb, ◌==◌, ◌is◌, is_some, ok, >>-eq-ok,
  refuse_if, refuse_if-eq-ok, ok-injective, for_each, arith, eq_iff, ==_iff, Bool-cases,
  Option-cases, inl, inr,
}
use zgcmaster.Words.{two64, max_file}
use zgcmaster.Dict.{Counts, total}
use zgcmaster.Digest.{Digest, hash_of}
use zgcmaster.Layout.{Layout, validate_layout}
use zgcmaster.Spacing.{max_groups}
use zgcmaster.Scan.{Object, Index, ScanOptions, Scanned, max_objects, scan_with, check_layout}
use zgcmaster.Scan.Objects.{AllObjects, IsAscending}
use zgcmaster.Scan.Sound.{InCapture}
use zgcmaster.Scan.Facts.{ScanFacts, scan_with-ScanFacts}
use zgcmaster.Loading.{
  check_index, check_index_layout, check_object, checked_sum, exceeds_limits, bad_spacing,
  out_of_order, over_counted, wrong_counts, scan_raw_with, open_raw, no_such_class,
}

-- An object inside the capture of the index, with a class of its layout.
pub record IsIndexed (index : Index) (o : Object) : Type 0 where
  pub layout : Layout
  pub with_layout : index.layout ≡ some layout
  pub class : o.class_id < length layout.classes
  pub placed : InCapture index.heap_bytes o

pub record IsLoaded (index : Index) : Type 0 where
  pub version : index.version ≡ 1
  pub small : index.heap_bytes ≤ max_file
  pub few : length index.objects ≤ max_objects
  pub mappings : length index.mappings ≤ 65_536
  pub headers : length index.raw_header_groups ≤ 4096
  pub stats : length index.header_group_stats ≤ max_groups
  pub only : length index.only ≤ 2048
  pub classes : length index.class_counts ≤ 2048
  pub streamed : (index.streamed ≡ false) ⊎ (index.objects ≡ [])
  pub counted : 8 * total index.class_counts ≤ index.heap_bytes
  pub ascending : IsAscending 0 index.objects
  pub indexed : AllObjects (IsIndexed index) index.objects

out_of_order-IsAscending_from :
    (lo : ℕ) (o : Object) (os : List Object)
    → lo ≤ o.offset
    → out_of_order (o ∷ os) ≡ false
    → IsAscending lo (o ∷ os)
unfolding out_of_order
out_of_order-IsAscending_from lo o [] le h = (le, tt)
out_of_order-IsAscending_from lo o (p ∷ os) le h =
    (le, out_of_order-IsAscending_from (o.offset + 1) p os (ground arith) (ground arith))

out_of_order-IsAscending : (os : List Object) → out_of_order os ≡ false → IsAscending 0 os
out_of_order-IsAscending [] h = tt
out_of_order-IsAscending (o ∷ os) h = out_of_order-IsAscending_from 0 o os (omega arith) h

check_object-IsIndexed :
    (index : Index) (o : Object) → check_object index o ≡ ok tt → IsIndexed index o
unfolding check_object
check_object-IsIndexed index o h =
    let (known, h₁) = >>-eq-ok (refuse_if (no_such_class index.layout o.class_id) _) _ h in
    let (layout, with_layout, lt) =
      of_layout index.layout (refuse_if-eq-ok (no_such_class index.layout o.class_id) _ known) in
    record {
      layout = layout;
      with_layout = with_layout;
      class = lt;
      placed = record { aligned = ground arith; inside = ground arith };
    }
  where
    of_layout :
        (l : Option Layout)
        → no_such_class l o.class_id ≡ false
        → (layout : Layout) × (l ≡ some layout) × (o.class_id < length layout.classes)
    of_layout none e = cc
    of_layout (some layout) e = (layout, refl, ground arith)

checked_sum-total :
    (sum n : ℕ) (counts : Counts) → checked_sum sum counts ≡ some n → n ≡ sum + total counts
unfolding checked_sum total
checked_sum-total sum n [] h = ground arith
checked_sum-total sum n ((name, k) ∷ counts) h = elim (Bool-cases (ltb (sum + k) two64)) [
  | inl fits ↦ omega (arith, checked_sum-total (sum + k) n counts (rw fits at h))
  | inr over ↦ absurd (no_sum (rw over at h))
]
  where
    no_sum : ◌≡◌ {A = Option ℕ} none (some n) → ⊥
    no_sum e = cc

over_counted-total :
    (index : Index) → over_counted index ≡ false → 8 * total index.class_counts ≤ index.heap_bytes
over_counted-total index h = elim (Option-cases (checked_sum 0 index.class_counts)) [
  | inl over ↦ absurd (true-ne-false (rw (over, over_counted) at h))
  | inr (n, sum) ↦
      let e = checked_sum-total 0 n index.class_counts sum in
      let small : ltb (index.heap_bytes / 8) n ≡ false = rw (sum, over_counted) at h in
      ground (arith, e)
]
  where
    true-ne-false : true ≡ false → ⊥
    true-ne-false e = cc

for_each-AllObjects :
    (index : Index) (os : List Object)
    → for_each (check_object index) os ≡ ok tt
    → AllObjects (IsIndexed index) os
for_each-AllObjects index [] h = tt
for_each-AllObjects index (o ∷ os) h =
    let (here, rest) = >>-eq-ok (check_object index o) (for_each (check_object index) os) h in
    (check_object-IsIndexed index o here, for_each-AllObjects index os rest)

-- The limits of an index that passes their test.
record IsLimited (index : Index) : Type 0 where
  version : index.version ≡ 1
  small : index.heap_bytes ≤ max_file
  few : length index.objects ≤ max_objects
  mappings : length index.mappings ≤ 65_536
  headers : length index.raw_header_groups ≤ 4096
  stats : length index.header_group_stats ≤ max_groups
  only : length index.only ≤ 2048
  classes : length index.class_counts ≤ 2048
  counted : over_counted index ≡ false
  streamed : (index.streamed ≡ false) ⊎ (index.objects ≡ [])

exceeds_limits-IsLimited : (index : Index) → exceeds_limits index ≡ false → IsLimited index
exceeds_limits-IsLimited index h = record {
  version = ground arith;
  small = ground arith;
  few = ground arith;
  mappings = ground arith;
  headers = ground arith;
  stats = ground arith;
  only = ground arith;
  classes = ground arith;
  counted = ground arith;
  streamed = unkept (Bool-cases index.streamed);
}
  where
    none_kept : (os : List Object) → length os ≡ 0 → os ≡ []
    none_kept [] e = refl
    none_kept (o ∷ os) e = absurd (omega arith)

    unkept :
        (index.streamed ≡ true) ⊎ (index.streamed ≡ false)
        → (index.streamed ≡ false) ⊎ (index.objects ≡ [])
    unkept (inl on) = inr (none_kept index.objects (ground (arith, on)))
    unkept (inr off) = inl off

-- An index that `load_index` accepts is the one given, of version 1 and within the limits on its
-- sizes and its lists, with no objects kept when it is streamed; its objects are strictly ascending,
-- at multiples of 8 inside the capture, of classes of its layout; and the counts of its classes do
-- not exceed one object per 8 bytes.
pub check_index-IsLoaded :
    (index out : Index) → check_index index ≡ ok out → (out ≡ index) × IsLoaded index
unfolding check_index
check_index-IsLoaded index out h =
    let (g₁, h₁) = >>-eq-ok (refuse_if (exceeds_limits index) _) _ h in
    let (g₂, h₂) = >>-eq-ok (refuse_if (bad_spacing index) _) _ h₁ in
    let (g₃, h₃) = >>-eq-ok (check_index_layout index.layout) _ h₂ in
    let (g₄, h₄) = >>-eq-ok (refuse_if (out_of_order index.objects) _) _ h₃ in
    let (g₅, h₅) = >>-eq-ok (for_each (check_object index) index.objects) _ h₄ in
    let (g₆, h₆) = >>-eq-ok (refuse_if (wrong_counts index) _) (ok index) h₅ in
    let i = exceeds_limits-IsLimited index (refuse_if-eq-ok (exceeds_limits index) _ g₁) in
    (
      sym (ok-injective h₆),
      record {
        version = i.version;
        small = i.small;
        few = i.few;
        mappings = i.mappings;
        headers = i.headers;
        stats = i.stats;
        only = i.only;
        classes = i.classes;
        streamed = i.streamed;
        counted = over_counted-total index i.counted;
        ascending =
            out_of_order-IsAscending index.objects
              (refuse_if-eq-ok (out_of_order index.objects) _ g₄);
        indexed = for_each-AllObjects index index.objects g₅;
      },
    )

pub check_layout-embedded :
    (layout : Option Layout) (only : List String)
    → is_some layout ≡ true
    → check_layout layout only ≡ ok tt
    → check_index_layout layout ≡ ok tt
unfolding check_layout
check_layout-embedded none only typed h = cc
check_layout-embedded (some layout) only typed h = (>>-eq-ok (validate_layout layout) _ h).0

-- The scan that a raw scan makes.
pub scan_raw_with-ScanFacts :
    (d : Digest) (file : List ℕ) (options : ScanOptions) (streaming : Bool) (out : Scanned)
    → scan_raw_with d file options streaming ≡ ok out
    → ScanFacts d file options.layout [] options streaming none out
unfolding scan_raw_with
scan_raw_with-ScanFacts d file options streaming out h =
    let (g₁, h₁) =
      >>-eq-ok (refuse_if (options.discover_bindings && (is_some options.layout || streaming)) _) _
        h in
    let (g₂, h₂) =
      >>-eq-ok (refuse_if (is_some options.layout && not options.identity_mapping) _)
        (scan_with d file options.layout [] options streaming none) h₁ in
    scan_with-ScanFacts d file options.layout [] options streaming none out h₂

-- A typed raw scan that keeps its objects gives an index that a reader opens on the same bytes.
pub open_raw-scan_raw_with :
    (d : Digest) (file : List ℕ) (options : ScanOptions) (out : Scanned)
    → is_some options.layout ≡ true
    → scan_raw_with d file options false ≡ ok out
    → open_raw d file out.index ≡ ok (record { file = file; index = out.index })
unfolding scan_raw_with open_raw
open_raw-scan_raw_with d file options out typed h =
    let (g₁, h₁) =
      >>-eq-ok (refuse_if (options.discover_bindings && (is_some options.layout || false)) _) _ h in
    let (g₂, h₂) =
      >>-eq-ok (refuse_if (is_some options.layout && not options.identity_mapping) _)
        (scan_with d file options.layout [] options false none) h₁ in
    let facts : ScanFacts d file options.layout [] options false none out =
      scan_with-ScanFacts d file options.layout [] options false none out h₂ in
    let streamed : out.index.streamed ≡ false = ap (λ (x : Index). x.streamed) facts.index_is in
    let identity : out.index.identity_mapping ≡ true =
      ap (λ (x : Index). x.identity_mapping) facts.index_is
      ∙ asked _ _ typed
          (refuse_if-eq-ok (is_some options.layout && not options.identity_mapping) _ g₂) in
    let layout : out.index.layout ≡ options.layout = ap (λ (x : Index). x.layout) facts.index_is in
    let present : is_some out.index.layout ≡ true = ap is_some layout ∙ typed in
    let unbound : out.index.layout_sha256 ≡ none =
      ap (λ (x : Index). x.layout_sha256) facts.index_is in
    let valid : check_index_layout out.index.layout ≡ ok tt =
      ap check_index_layout layout
      ∙ check_layout-embedded options.layout options.only typed facts.layout_checked in
    let hash : (hash_of d file is out.index.heap_sha256) ≡ true =
      (eq_iff _ _).1 (ap (λ (x : Index). x.heap_sha256) (sym facts.index_is)) in
    let size : (length file == out.index.heap_bytes) ≡ true =
      (==_iff _ _).1 (ap (λ (x : Index). x.heap_bytes) (sym facts.index_is)) in
    rw (streamed, identity, present, unbound, valid, hash, size)
  where
    asked : (t m : Bool) → t ≡ true → t && not m ≡ false → m ≡ true
    asked t m e f = ground arith
