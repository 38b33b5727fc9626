-- ===== src/Spacing/Shown.antt =====
-- What a summary of groups (`summary_groups` of src/spacing.rs) shows, and in which order.
use zgcmaster.Prelude.{
  ◌<◌, ◌≡◌, refl, sym, ap, ◌⊎◌, ltb→lt, ==_iff, eq_iff, Bool, true, false, String, length, filter,
  take, ltb, ◌==◌, Bool-cases, inl, inr, arith,
}
use Prim.Native.Nat.{Ordering}
use Prim.Native.String.{compare}
use zgcmaster.Dict.Order.{compare_trans, before-differ}
use zgcmaster.Sorting.{sort_by, text_less, count-sort_by, Adjacent, sort_by-Adjacent}
use zgcmaster.Dict.{Dict}
use zgcmaster.Spacing.{GroupStats}
use zgcmaster.Spacing.Summary.{
  Labelled, shown, has_more_hits, summary_groups, is_periodic_group, is_unclassified,
  is_object_like, rows_of, summary_groups-labelled,
}

-- The order of the groups: the next has fewer hits, or as many and no smaller a key.
pub IsOrdered : String × GroupStats → String × GroupStats → Type 0
IsOrdered (j, s) (k, t) = (t.hits < s.hits) ⊎ ((t.hits ≡ s.hits) × ¬ compare k j ≡ Ordering.lt)

text_less-compare : (j k : String) → text_less j k ≡ true → compare j k ≡ Ordering.lt
text_less-compare j k h = of_order (compare j k) refl h
  where
    of_order :
        (o : Ordering)
        → compare j k ≡ o
        → elim o [ Ordering.lt ↦ true | _ ↦ false ] ≡ true
        → compare j k ≡ Ordering.lt
    of_order Ordering.lt e h = e
    of_order Ordering.eq e h = cc
    of_order Ordering.gt e h = cc

has_more_hits-IsOrdered : (x y : String × GroupStats) → has_more_hits x y ≡ true → IsOrdered x y
unfolding IsOrdered
has_more_hits-IsOrdered (j, s) (k, t) h = elim (Bool-cases (ltb t.hits s.hits)) [
  | inl more ↦ inl (ltb→lt _ _ more)
  | inr other ↦ elim (Bool-cases (s.hits == t.hits)) [
    | inl same ↦ inr (sym ((==_iff s.hits t.hits).0 same), later (rw (other, same) at h))
    | inr differ ↦ let e : false ≡ true = rw (other, differ) at h in cc
  ]
]
  where
    later : text_less j k ≡ true → compare k j ≡ Ordering.lt → ⊥
    later less back =
        let there : compare j k ≡ Ordering.lt = text_less-compare j k less in
        cc (before-differ j j (compare_trans j k j there back), (eq_iff j j).1 refl)

not_more-IsOrdered : (x y : String × GroupStats) → has_more_hits y x ≡ false → IsOrdered x y
unfolding IsOrdered
not_more-IsOrdered (j, s) (k, t) h = elim (Bool-cases (ltb s.hits t.hits)) [
  | inl more ↦ let e : true ≡ false = rw more at h in cc
  | inr other ↦ elim (Bool-cases (t.hits == s.hits)) [
    | inl same ↦
        let e : text_less k j ≡ false = rw (other, same) at h in
        inr ((==_iff t.hits s.hits).0 same, not_before e)
    | inr differ ↦ inl (ground arith)
  ]
]
  where
    not_before : text_less k j ≡ false → compare k j ≡ Ordering.lt → ⊥
    not_before e less = let f : true ≡ false = rw (text_less, less) at e in cc

-- What a summary shows of the groups: the same groups in an order, and the first of each label.
pub record IsShown (stats ordered : Dict GroupStats) (l : Labelled) : Type 0 where
  pub same : (p : String × GroupStats → Bool) → length (filter p ordered) ≡ length (filter p stats)
  pub order : Adjacent IsOrdered ordered
  pub objects : l.objects ≡ take shown (rows_of is_object_like ordered)
  pub periodic : l.periodic ≡ take shown (rows_of is_periodic_group ordered)
  pub unclassified : l.unclassified ≡ take shown (rows_of is_unclassified ordered)

-- The three lists of a summary are the first twenty of the groups that are not periodic and have 32
-- sampled gaps or more, of the periodic groups, and of the others. They are taken from one ordering
-- of the groups, the same groups as often, in which the hits never grow, and in which groups of
-- equal hits stand with no key before a smaller one.
pub summary_groups-IsShown :
    (stats : Dict GroupStats)
    → (ordered : Dict GroupStats) × IsShown stats ordered (summary_groups stats)
summary_groups-IsShown stats = (
  sort_by has_more_hits stats,
  record {
    same = λ p. count-sort_by p has_more_hits stats;
    order =
        sort_by-Adjacent has_more_hits IsOrdered has_more_hits-IsOrdered not_more-IsOrdered stats;
    objects = ap (λ (l : Labelled). l.objects) (summary_groups-labelled stats);
    periodic = ap (λ (l : Labelled). l.periodic) (summary_groups-labelled stats);
    unclassified = ap (λ (l : Labelled). l.unclassified) (summary_groups-labelled stats);
  },
)
