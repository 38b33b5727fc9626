-- ===== src/Summary.antt =====
-- `summary` of src/lib.rs: the counts of an index and its groups with the most hits. The JSON object
-- is a record.
use zgcmaster.Prelude.{
  ℕ, suc, ◌+◌, ◌≡◌, refl, sym, ap, ◌∙◌, Bool, true, false, ◌&&◌, ◌||◌, not, String, none, some,
  List, [], ◌∷◌, length, filter, take, ltb, ◌==◌, ◌is◌, if◌then◌else◌, ok, refuse_if, >>-eq-ok,
  refuse_if-eq-ok, for_each, arith, eq_iff, ==_iff,
}
use zgcmaster.Sorting.{sort_by, text_less}
use zgcmaster.Dict.{Counts, get, bump, total}
use zgcmaster.Dict.Laws.{total-bump, count_of, count_of-add_to}
use zgcmaster.Spacing.Summary.{Labelled, shown, summary_groups}
use zgcmaster.Spacing.Collector.{Detection}
use zgcmaster.Scan.{Object, Index}
use zgcmaster.Reader.{class_name}
use zgcmaster.Loading.{
  count_objects, same_counts, wrong_counts, check_index, check_index_layout, check_object,
  exceeds_limits, bad_spacing, out_of_order,
}

pub record Summary : Type 0 where
  pub mode : String
  pub heap_bytes : ℕ
  pub zero_bytes : ℕ
  pub heap_sha256 : String
  pub candidate_objects : ℕ
  pub indexed_objects : ℕ
  pub class_counts : Counts
  pub identity_mapping : Bool
  pub only : List String
  pub streamed : Bool
  pub detection : Detection
  pub top_groups : List (String × ℕ)
  pub groups_truncated : Bool
  pub labelled : Labelled
  pub rejected_headers : ℕ

-- A group that is not known to be periodic.
unfoldable pub is_shown : Index → String × ℕ → Bool
unfolding get
is_shown index (key, n) = elim (get key index.header_group_stats) [
  | none ↦ true
  | some stats ↦ not stats.periodic
]

-- `b.1.cmp(a.1).then(a.0.cmp(b.0))` puts the first group before the second.
abbrev pub counts_more : String × ℕ → String × ℕ → Bool
counts_more (ka, a) (kb, b) = ltb b a || (a == b && text_less ka kb)

unfoldable pub top_groups : Index → List (String × ℕ)
unfolding is_shown sort_by
top_groups index =
    take shown (sort_by counts_more (filter (is_shown index) index.raw_header_groups))

-- The counts of a stream are those that the scan kept.
abbrev pub counts_or : Counts → Counts → Counts
counts_or counted [] = counted
counts_or counted (c ∷ cs) = c ∷ cs

unfoldable pub summary : Index → Summary
unfolding count_objects summary_groups top_groups total
summary index =
    let counts = counts_or (count_objects index [] index.objects) index.class_counts in
    record {
      mode = index.mode;
      heap_bytes = index.heap_bytes;
      zero_bytes = index.zero_bytes;
      heap_sha256 = index.heap_sha256;
      candidate_objects = total counts;
      indexed_objects = length index.objects;
      class_counts = counts;
      identity_mapping = index.identity_mapping;
      only = index.only;
      streamed = index.streamed;
      detection = index.detection;
      top_groups = top_groups index;
      groups_truncated = index.groups_truncated;
      labelled = summary_groups index.header_group_stats;
      rejected_headers = index.rejected_headers;
    }

total-count_objects :
    (index : Index) (m : Counts) (os : List Object)
    → total (count_objects index m os) ≡ total m + length os
unfolding count_objects
total-count_objects index m [] = omega arith
total-count_objects index m (o ∷ os) = omega (
  arith,
  total-count_objects index (bump (class_name index o) m) os,
  total-bump (class_name index o) m,
)

-- The objects of a class.
abbrev pub objects_of : Index → String → List Object → List Object
objects_of index name os = filter (λ o. class_name index o is name) os

length-filter-cons {ℓ} :
    {A : Type ℓ} (test : A → Bool) (x : A) (xs : List A)
    → length (filter test (x ∷ xs)) ≡ (if test x then 1 else 0) + length (filter test xs)
length-filter-cons test x xs = kept (test x)
  where
    kept :
        (b : Bool)
        → length (elim b [ true ↦ x ∷ filter test xs | false ↦ filter test xs ])
          ≡ (if b then 1 else 0) + length (filter test xs)
    kept true = omega arith
    kept false = omega arith

count_of-count_objects :
    (index : Index) (name : String) (m : Counts) (os : List Object)
    → count_of name (count_objects index m os) ≡ count_of name m + length (objects_of index name os)
unfolding count_objects bump
count_of-count_objects index name m [] = omega arith
count_of-count_objects index name m (o ∷ os) =
    let rest = count_of-count_objects index name (bump (class_name index o) m) os in
    let here = count_of-add_to name (class_name index o) 1 m in
    let more = length-filter-cons (λ p. class_name index p is name) o os in
    omega (arith, rest, here, more)

same_counts-eq : (m n : Counts) → same_counts m n ≡ true → m ≡ n
unfolding same_counts
same_counts-eq [] [] h = refl
same_counts-eq [] ((k, n) ∷ ns) h = cc
same_counts-eq ((j, m) ∷ ms) [] h = cc
same_counts-eq ((j, m) ∷ ms) ((k, n) ∷ ns) h =
    let (h₂, rest) = and_both _ (same_counts ms ns) h in
    let (key, count) = and_both (j is k) (m == n) h₂ in
    cc ((eq_iff j k).0 key, (==_iff m n).0 count, same_counts-eq ms ns rest)
  where
    and_both : (a b : Bool) → a && b ≡ true → (a ≡ true) × (b ≡ true)
    and_both a b e = ground arith

counts_or-eq :
    (counted kept : Counts)
    → ltb 0 (length kept) && not (same_counts counted kept) ≡ false
    → counts_or counted kept ≡ counted
counts_or-eq counted [] h = refl
counts_or-eq counted (c ∷ cs) h =
    sym (same_counts-eq counted (c ∷ cs) (same (length cs) (same_counts counted (c ∷ cs)) h))
  where
    same : (n : ℕ) (b : Bool) → ltb 0 (suc n) && not b ≡ false → b ≡ true
    same n b e = ground arith

-- What a summary says of the objects of an index.
pub record IsSummary (index : Index) (s : Summary) : Type 0 where
  pub candidates : s.candidate_objects ≡ length index.objects
  pub indexed : s.indexed_objects ≡ length index.objects
  pub classes :
      (name : String) → count_of name s.class_counts ≡ length (objects_of index name index.objects)

-- The summary of an index that `load_index` accepts and that keeps its objects counts just those:
-- the candidates are as many as the objects, and for each name the class count is the number of
-- objects whose class has the name.
pub summary-IsSummary :
    (index out : Index)
    → check_index index ≡ ok out
    → index.streamed ≡ false
    → IsSummary index (summary index)
unfolding check_index summary
summary-IsSummary index out h kept =
    let (g₁, h₁) = >>-eq-ok (refuse_if (exceeds_limits index) _) _ h in
    let (g₂, h₂) = >>-eq-ok (refuse_if (bad_spacing index) _) _ h₁ in
    let (g₃, h₃) = >>-eq-ok (check_index_layout index.layout) _ h₂ in
    let (g₄, h₄) = >>-eq-ok (refuse_if (out_of_order index.objects) _) _ h₃ in
    let (g₅, h₅) = >>-eq-ok (for_each (check_object index) index.objects) _ h₄ in
    let (g₆, h₆) = >>-eq-ok (refuse_if (wrong_counts index) _) (ok index) h₅ in
    let counted = count_objects index [] index.objects in
    let right : wrong_counts index ≡ false = refuse_if-eq-ok (wrong_counts index) _ g₆ in
    let e : counts_or counted index.class_counts ≡ counted =
      counts_or-eq counted index.class_counts (
        of_kept index.streamed (ltb 0 (length index.class_counts))
          (not (same_counts counted index.class_counts)) kept right) in
    record {
      candidates =
          ap total e ∙ (unfold total in total-count_objects index [] index.objects ∙ omega arith);
      indexed = refl;
      classes = λ name.
          ap (count_of name) e
          ∙ (unfold count_of in count_of-count_objects index name [] index.objects ∙ omega arith);
    }
  where
    of_kept : (k a b : Bool) → k ≡ false → not k && a && b ≡ false → a && b ≡ false
    of_kept k a b e f = ground arith
