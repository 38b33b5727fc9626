-- ===== src/Spacing/Summary.antt =====
-- `summary_groups` of src/spacing.rs: the groups of a summary under three labels, twenty of each.
use zgcmaster.Prelude.{
  ℕ, ◌≡◌, refl, ap, ◌∙◌, Bool, true, false, ◌&&◌, ◌||◌, not, String, Option, List, [], ◌∷◌, ◌++◌,
  map, length, filter, take, ltb, ◌==◌, if◌then◌else◌, Bool-cases, inl, inr, arith, zero, suc,
}
use mathlib.Core.List.{append-nil, append_assoc}
use zgcmaster.Sorting.{sort_by, text_less}
use zgcmaster.Dict.{Dict}
use zgcmaster.Spacing.{GroupStats, Ratio, min_gaps}

-- A row of the summary.
pub record GroupRow : Type 0 where
  pub group : String
  pub hits : ℕ
  pub detection_votes : ℕ
  pub first_offset : ℕ
  pub last_offset : ℕ
  pub sampled_gaps : ℕ
  pub median_gap : Option Ratio
  pub mode_gap : Option ℕ
  pub mode_fraction : Option Ratio
  pub periodic : Bool
  pub classification : String

abbrev pub row_of : String × GroupStats → GroupRow
row_of (key, s) = record {
  group = key;
  hits = s.hits;
  detection_votes = s.detection_votes;
  first_offset = s.first_offset;
  last_offset = s.last_offset;
  sampled_gaps = s.sampled_gaps;
  median_gap = s.median_gap;
  mode_gap = s.mode_gap;
  mode_fraction = s.mode_fraction;
  periodic = s.periodic;
  classification = s.classification;
}

pub record Labelled : Type 0 where
  pub objects : List GroupRow
  pub periodic : List GroupRow
  pub unclassified : List GroupRow

abbrev pub shown : ℕ
shown = 20

abbrev pub push_row : GroupRow → List GroupRow → List GroupRow
push_row row rows = if ltb (length rows) shown then rows ++ row ∷ [] else rows

-- The body of the loop: one of the three lists takes the group while it has fewer than twenty.
unfoldable pub add_group : String × GroupStats → Labelled → Labelled
add_group (key, s) l =
    if s.periodic
    then record l { periodic = push_row (row_of (key, s)) l.periodic }
    else if ltb s.sampled_gaps min_gaps
    then record l { unclassified = push_row (row_of (key, s)) l.unclassified }
    else record l { objects = push_row (row_of (key, s)) l.objects }

unfoldable pub add_groups : List (String × GroupStats) → Labelled → Labelled
unfolding add_group
add_groups [] l = l
add_groups (g ∷ gs) l = add_groups gs (add_group g l)

-- `b.hits.cmp(&a.hits).then(ka.cmp(kb))` puts the first group before the second.
abbrev pub has_more_hits : String × GroupStats → String × GroupStats → Bool
has_more_hits (ka, a) (kb, b) = ltb b.hits a.hits || (a.hits == b.hits && text_less ka kb)

unfoldable pub summary_groups : Dict GroupStats → Labelled
unfolding add_groups sort_by
summary_groups stats =
    add_groups (sort_by has_more_hits stats)
      (record { objects = []; periodic = []; unclassified = [] })

-- The labels, as tests on a group.
abbrev pub is_periodic_group : String × GroupStats → Bool
is_periodic_group (key, s) = s.periodic

abbrev pub is_unclassified : String × GroupStats → Bool
is_unclassified (key, s) = not s.periodic && ltb s.sampled_gaps min_gaps

abbrev pub is_object_like : String × GroupStats → Bool
is_object_like (key, s) = not s.periodic && not (ltb s.sampled_gaps min_gaps)

abbrev pub rows_of : (String × GroupStats → Bool) → List (String × GroupStats) → List GroupRow
rows_of label gs = map row_of (filter label gs)

push-take :
    (n : ℕ) (row : GroupRow) (rows : List GroupRow)
    → (if ltb (length (take n rows)) n then take n rows ++ row ∷ [] else take n rows)
      ≡ take n (rows ++ row ∷ [])
push-take zero row rows = refl
push-take (suc zero) row [] = refl
push-take (suc (suc n)) row [] = ground arith
push-take (suc n) row (r ∷ rows) = elim (Bool-cases (ltb (length (take n rows)) n)) [
  | inl room ↦
      let e : ltb (suc (length (take n rows))) (suc n) ≡ true = ground arith in
      rw e (ap (λ rs. r ∷ rs) (rw room at (push-take n row rows)))
  | inr full ↦
      let e : ltb (suc (length (take n rows))) (suc n) ≡ false = ground arith in
      rw e (ap (λ rs. r ∷ rs) (rw full at (push-take n row rows)))
]

-- The first twenty of each label.
abbrev labelled : List GroupRow → List GroupRow → List GroupRow → Labelled
labelled objects periodic unclassified = record {
  objects = take shown objects;
  periodic = take shown periodic;
  unclassified = take shown unclassified;
}

abbrev if_row : Bool → GroupRow → List GroupRow
if_row test row = if test then row ∷ [] else []

rows_of-cons :
    (label : String × GroupStats → Bool) (g : String × GroupStats) (gs : List (String × GroupStats))
    → rows_of label (g ∷ gs) ≡ if_row (label g) (row_of g) ++ rows_of label gs
rows_of-cons label g gs = kept (label g)
  where
    kept :
        (test : Bool)
        → map row_of (elim test [ true ↦ g ∷ filter label gs | false ↦ filter label gs ])
          ≡ if_row test (row_of g) ++ map row_of (filter label gs)
    kept true = refl
    kept false = refl

add_row-labelled :
    (is_periodic few : Bool) (row : GroupRow) (a b c : List GroupRow)
    → (if is_periodic
        then record (labelled a b c) { periodic = push_row row (take shown b) }
        else if few
        then record (labelled a b c) { unclassified = push_row row (take shown c) }
        else record (labelled a b c) { objects = push_row row (take shown a) })
      ≡ labelled
          (a ++ if_row (not is_periodic && not few) row)
          (b ++ if_row is_periodic row)
          (c ++ if_row (not is_periodic && few) row)
add_row-labelled true few row a b c =
    let e = push-take shown row b in cc (e, append-nil a, append-nil c)
add_row-labelled false true row a b c =
    let e = push-take shown row c in cc (e, append-nil a, append-nil b)
add_row-labelled false false row a b c =
    let e = push-take shown row a in cc (e, append-nil b, append-nil c)

add_groups-labelled :
    (gs : List (String × GroupStats)) (a b c : List GroupRow)
    → add_groups gs (labelled a b c)
      ≡ labelled
          (a ++ rows_of is_object_like gs)
          (b ++ rows_of is_periodic_group gs)
          (c ++ rows_of is_unclassified gs)
unfolding add_groups add_group
add_groups-labelled [] a b c = rw (append-nil a, append-nil b, append-nil c)
add_groups-labelled ((key, s) ∷ gs) a b c =
    let row = row_of (key, s) in
    let few = ltb s.sampled_gaps min_gaps in
    let x = if_row (not s.periodic && not few) row in
    let y = if_row s.periodic row in
    let z = if_row (not s.periodic && few) row in
    ap (add_groups gs) (add_row-labelled s.periodic few row a b c)
    ∙ add_groups-labelled gs (a ++ x) (b ++ y) (c ++ z)
    ∙ cc (
      append_assoc a x (rows_of is_object_like gs),
      append_assoc b y (rows_of is_periodic_group gs),
      append_assoc c z (rows_of is_unclassified gs),
      rows_of-cons is_object_like (key, s) gs,
      rows_of-cons is_periodic_group (key, s) gs,
      rows_of-cons is_unclassified (key, s) gs,
    )

-- What the loop gives, with its own order.
pub summary_groups-labelled :
    (stats : Dict GroupStats)
    → summary_groups stats ≡ record {
      objects = take shown (rows_of is_object_like (sort_by has_more_hits stats));
      periodic = take shown (rows_of is_periodic_group (sort_by has_more_hits stats));
      unclassified = take shown (rows_of is_unclassified (sort_by has_more_hits stats));
    }
unfolding summary_groups
summary_groups-labelled stats = add_groups-labelled (sort_by has_more_hits stats) [] [] []
