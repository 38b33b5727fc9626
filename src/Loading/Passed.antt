-- ===== src/Loading/Passed.antt =====
-- What passes each test of `load_index` (src/lib.rs).
use zgcmaster.Prelude.{
  ℕ, zero, suc, ◌+◌, ◌*◌, ◌/◌, ◌%◌, ◌≤◌, ◌<◌, true, false, Option, none, some, List, [], ◌∷◌,
  length, get_elem?, ltb, leb, lt→ltb, ◌==◌, ==_iff, ok, ok_or, for_each, ◌≡◌, refl, ap, ◌∙◌, arith,
}
use zgcmaster.Words.{two64, max_file}
use zgcmaster.Dict.{Counts, total}
use zgcmaster.Layout.{Class, Layout}
use zgcmaster.Spacing.{max_groups}
use zgcmaster.Scan.{Object, Index, max_objects}
use zgcmaster.Scan.Objects.{AllObjects, IsAscending}
use zgcmaster.Scan.Sound.{InCapture}
use zgcmaster.Reader.{Reader, class_of, class_of_layout}
use zgcmaster.Reader.Kept.{IsReadable}
use zgcmaster.Loading.{
  check_object, checked_sum, exceeds_limits, out_of_order, over_counted, no_such_class,
}
use zgcmaster.Loading.Counted.{names_of}

pub IsAscending-in_order : (lo : ℕ) (os : List Object) → IsAscending lo os → out_of_order os ≡ false
unfolding out_of_order
IsAscending-in_order lo [] h = refl
IsAscending-in_order lo (o ∷ []) h = refl
IsAscending-in_order lo (o ∷ p ∷ os) h =
    let rest = IsAscending-in_order (o.offset + 1) (p ∷ os) h.1 in
    let less : leb p.offset o.offset ≡ false = ground (arith, h.1.0) in rw (less, rest)

-- The sum of the counts is representable when it is small.
total-checked_sum :
    (sum : ℕ) (counts : Counts)
    → sum + total counts < two64
    → checked_sum sum counts ≡ some (sum + total counts)
unfolding checked_sum total
total-checked_sum sum [] small = let e : sum + 0 ≡ sum = omega arith in rw e
total-checked_sum sum ((name, n) ∷ counts) small =
    let fits : ltb (sum + n) two64 ≡ true = lt→ltb (sum + n) two64 (omega arith) in
    let e : sum + n + total counts ≡ sum + (n + total counts) = omega arith in
    rw fits (total-checked_sum (sum + n) counts (omega arith) ∙ ap some e)

total-counted :
    (index : Index)
    → 8 * total index.class_counts ≤ index.heap_bytes
    → index.heap_bytes ≤ max_file
    → over_counted index ≡ false
total-counted index h small =
    let sum = total-checked_sum 0 index.class_counts (omega arith) in
    let e : ltb (index.heap_bytes / 8) (0 + total index.class_counts) ≡ false =
      few index.heap_bytes (total index.class_counts) h in
    rw (sum, over_counted) e
  where
    few : (size n : ℕ) → 8 * n ≤ size → ltb (size / 8) (0 + n) ≡ false
    few size n le = ground arith

-- An object that a reader finds the class of lies in the capture of the index and in its layout.
check_object-ok :
    (r : Reader) (o : Object)
    → r.index.heap_bytes ≤ max_file
    → InCapture r.index.heap_bytes o
    → IsReadable r o
    → check_object r.index o ≡ ok tt
unfolding check_object class_of class_of_layout
check_object-ok r o small placed i =
    let known : no_such_class r.index.layout o.class_id ≡ false =
      in_layout r.index.layout (unfold class_of in i.classified) in
    let even : (o.offset % 8 == 0) ≡ true = ground (arith, placed.aligned) in
    let fits : ltb (o.offset + o.size) two64 ≡ true =
      lt→ltb (o.offset + o.size) two64 (omega (arith, placed.inside)) in
    let inside : ltb r.index.heap_bytes (o.offset + o.size) ≡ false =
      ground (arith, placed.inside) in
    rw (known, even, fits, inside)
  where
    get_elem-lt :
        (cs : List Class) (id : ℕ)
        → ok_or (get_elem? cs id) "Object class is missing from layout" ≡ ok i.class
        → id < length cs
    get_elem-lt [] id h = cc
    get_elem-lt (x ∷ xs) zero h = omega arith
    get_elem-lt (x ∷ xs) (suc id) h = omega (arith, get_elem-lt xs id h)

    in_layout :
        (l : Option Layout)
        → ok_or (class_of_layout l o.class_id) "Object class is missing from layout" ≡ ok i.class
        → no_such_class l o.class_id ≡ false
    in_layout none h = cc
    in_layout (some l) h = ground (arith, get_elem-lt l.classes o.class_id h)

pub check_objects-ok :
    (r : Reader) (os : List Object)
    → r.index.heap_bytes ≤ max_file
    → AllObjects (InCapture r.index.heap_bytes) os
    → AllObjects (IsReadable r) os
    → for_each (check_object r.index) os ≡ ok tt
check_objects-ok r [] small placed readable = refl
check_objects-ok r (o ∷ os) small placed readable =
    let here = check_object-ok r o small placed.0 readable.0 in
    rw here (check_objects-ok r os small placed.1 readable.1)

-- The limits on an index.
pub record IsWithin (index : Index) : Type 0 where
  pub version : index.version ≡ 1
  pub small : index.heap_bytes ≤ max_file
  pub objects : length index.objects ≤ max_objects
  pub mappings : length index.mappings ≤ 65_536
  pub headers : length index.raw_header_groups ≤ 4096
  pub stats : length index.header_group_stats ≤ max_groups
  pub only : length index.only ≤ 2048
  pub classes : length index.class_counts ≤ 2048
  pub spaced : 8 * total index.class_counts ≤ index.heap_bytes
  pub kept : index.streamed ≡ false

pub IsWithin-limits : (index : Index) → IsWithin index → exceeds_limits index ≡ false
IsWithin-limits index i = rw (
  (==_iff _ _).1 i.version,
  bounded _ _ i.small,
  bounded _ _ i.objects,
  bounded _ _ i.mappings,
  bounded _ _ i.headers,
  bounded _ _ i.stats,
  bounded _ _ i.only,
  bounded _ _ i.classes,
  total-counted index i.spaced i.small,
  i.kept,
)
  where
    bounded : (n limit : ℕ) → n ≤ limit → ltb limit n ≡ false
    bounded n limit h = ground arith

pub length-names_of : (cs : List Class) → length (names_of cs) ≡ length cs
length-names_of [] = refl
length-names_of (c ∷ cs) = omega (arith, length-names_of cs)
