-- ===== src/Loading/Spaced.antt =====
-- The spacing statistics of a scan pass the tests that `load_index` makes of them.
use zgcmaster.Prelude.{
  ℕ, ◌+◌, ◌*◌, ◌/◌, ◌≤◌, min, Bool, true, false, ◌&&◌, Option, none, some, String, List, [], ◌∷◌,
  length, any, AllOf, AllOf-map, ltb, ◌==◌, ◌is◌, ok, ◌≡◌, refl, ap, ◌∙◌, sym, subst, arith,
  Bool-cases, inl, inr,
}
use zgcmaster.Dict.{Dict, get}
use zgcmaster.Dict.Order.{get-entries}
use zgcmaster.Digest.{Digest}
use zgcmaster.Layout.{Layout}
use zgcmaster.Maps.{Mapping}
use zgcmaster.Spacing.{Kind, wide, narrow, GroupStats, max_groups}
use zgcmaster.Spacing.Laws.{empty-IsCollector}
use zgcmaster.Spacing.Collector.{finish}
use zgcmaster.Spacing.Recorded.{IsBelow-weaken, IsValidStats, IsValidEntry, finish-IsValidStats}
use zgcmaster.Scan.{
  Index, ScanOptions, Scanned, visit, hits_of, scan_with, build_index, zeros_in, start_state,
  read_header, width_of, length_at, config_of,
}
use zgcmaster.Scan.Facts.{ScanFacts, scan_with-ScanFacts}
use zgcmaster.Walk.SinglePass.{single_pass_inv}
use zgcmaster.Loading.{bad_group, bad_spacing}
use zgcmaster.Scan.Spaced.{limits, IsSpacedAt, IsSpacedAt-weaken, visit-IsSpacedAt}

get-hits_of :
    (k : String) (m : Dict GroupStats) (v : GroupStats)
    → get k m ≡ some v
    → get k (hits_of m) ≡ some v.hits
unfolding get
get-hits_of k [] v e = cc
get-hits_of k ((j, w) ∷ m) v e = elim (Bool-cases (k is j)) [
  | inl here ↦ let f : some w ≡ some v = rw (here, get) at e in rw (here, get) (ap (map_hits) f)
  | inr later ↦ rw (later, get) (get-hits_of k m v (rw (later, get) at e))
]
  where
    map_hits : Option GroupStats → Option ℕ
    map_hits none = none
    map_hits (some g) = some g.hits

pub length-hits_of : (m : Dict GroupStats) → length (hits_of m) ≡ length m
length-hits_of [] = refl
length-hits_of ((k, v) ∷ m) = omega (arith, length-hits_of m)

no_bad_group :
    (index : Index) (es : Dict GroupStats)
    → AllOf (λ e. get e.0 index.raw_header_groups ≡ some e.1.hits) es
    → AllOf (IsValidEntry index.heap_bytes) es
    → any (bad_group index) es ≡ false
no_bad_group index [] found valid = refl
no_bad_group index ((k, v) ∷ es) found valid =
    rw (found.0, valid.0, no_bad_group index es found.1 valid.1, same v.hits)
  where
    same : (n : ℕ) → (n == n) ≡ true
    same n = ground arith

-- An index whose statistics are valid and whose groups are those of the statistics.
IsValidStats-good :
    (index : Index)
    → IsValidStats index.heap_bytes index.header_group_stats
    → index.raw_header_groups ≡ hits_of index.header_group_stats
    → bad_spacing index ≡ false
IsValidStats-good index i e =
    let len : length index.header_group_stats == length index.raw_header_groups ≡ true =
      ground (arith, ap length e, length-hits_of index.header_group_stats) in
    let found =
      AllOf-map {Q = λ x. get x.0 index.raw_header_groups ≡ some x.1.hits} index.header_group_stats
        (λ x p. ap (get x.0) e ∙ get-hits_of x.0 index.header_group_stats x.1 p)
        (get-entries index.header_group_stats i.sorted) in
    let none_bad = no_bad_group index index.header_group_stats found i.valid in
    rw (len, none_bad) (and_false (ltb 0 (length index.header_group_stats)))
  where
    and_false : (b : Bool) → b && false ≡ false
    and_false true = refl
    and_false false = refl

module _ (d : Digest) (heap : List ℕ) (layout : Option Layout) (mappings : List Mapping)
    (options : ScanOptions) (streaming : Bool) (expected : Option String) (out : Scanned)
    (scanned : scan_with d heap layout mappings options streaming expected ≡ ok out) where
  facts : ScanFacts d heap layout mappings options streaming expected out
  facts = scan_with-ScanFacts d heap layout mappings options streaming expected out scanned

  state-IsSpacedAt : IsSpacedAt (length heap) (0 + 8 * ((length heap + 7) / 8)) facts.state
  state-IsSpacedAt =
      single_pass_inv 16 (read_header (width_of layout) (length_at layout))
        (visit (config_of d options streaming (length heap) facts.table)) heap (length heap)
        (IsSpacedAt (length heap)) (λ o o' s le why i. IsSpacedAt-weaken (length heap) o o' s le i)
        (λ o s s' i even room e. visit-IsSpacedAt (length heap) _ o _ s s' i room e)
        ((length heap + 7) / 8) 0 start_state facts.state refl
        (record { collector = empty-IsCollector; below = tt }) facts.pass

  state-IsValidStats :
      IsValidStats (length heap) (finish facts.state.spacing).stats
      × (length (finish facts.state.spacing).stats ≤ max_groups)
  state-IsValidStats =
      let i = state-IsSpacedAt in
      finish-IsValidStats (length heap) facts.state.spacing
        (IsBelow-weaken _ (λ k. length heap) facts.state.spacing.groups limits-below i.below)
        i.collector.bounded
    where
      limits-below :
          (k : Kind)
          → limits
              (min (0 + 8 * ((length heap + 7) / 8)) (length heap))
              (min (0 + 8 * ((length heap + 7) / 8)) (length heap))
              k
            ≤ length heap
      limits-below wide = omega arith
      limits-below narrow = omega arith

  -- The header statistics of an index that a scan makes, at most 4096 of them, pass every test that
  -- `load_index` makes of header statistics: each statistic, with its count of hits, is one of a group
  -- of ascending hits inside the capture.
  pub scan_with-well_spaced :
      (bad_spacing out.index ≡ false) × (length out.index.header_group_stats ≤ max_groups)
  scan_with-well_spaced =
      let (valid, few) = state-IsValidStats in
      subst (λ (x : Index). (bad_spacing x ≡ false) × (length x.header_group_stats ≤ max_groups))
        (sym facts.index_is)
        (
          IsValidStats-good
              (build_index d layout mappings options streaming (length heap)
                (zeros_in heap, d.update d.start heap) facts.state)
              valid refl,
          few,
        )
