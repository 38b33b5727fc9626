-- ===== src/Spacing/Validated.antt =====
-- The statistics of a group of hits pass the tests that a stored index is read with (src/spacing.rs).
use native.Mathlib.Nat.{mul_comm, div-lt_iff_lt-mul, mul-lt-mul_of_pos_right}
use zgcmaster.Prelude.{
  ℕ, zero, suc, ◌+◌, ◌-◌, ◌*◌, ◌/◌, ◌≤◌, ◌<◌, ◌≡◌, refl, ap, ◌∙◌, subst, min, Bool, true, ◌&&◌,
  Option, none, some, List, [], ◌∷◌, map, length, get_or, all, AllOf, ltb, leb, ◌==◌, if◌then◌else◌,
  Bool-cases, inl, inr, arith,
}
use zgcmaster.Spacing.{
  sample_gaps, examples_kept, Group, GroupStats, Sample, Run, insert_gap, sort_gaps, insert_by_to,
  sort_by_to, count_gap, frequency, mode_of, mode_count, gap_example, gap_examples_from,
  finish_group, validate_example, validate,
}
use zgcmaster.Spacing.Finished.{IsSample, IsHit}

length-map {ℓ κ} :
    {A : Type ℓ} {B : Type κ} (f : A → B) (xs : List A) → length (map f xs) ≡ length xs
length-map f [] = refl
length-map f (x ∷ xs) = ap suc (length-map f xs)

length-insert_gap : (g : ℕ) (gs : List ℕ) → length (insert_gap g gs) ≡ suc (length gs)
unfolding insert_gap
length-insert_gap g [] = refl
length-insert_gap g (h ∷ hs) = elim (Bool-cases (leb g h)) [
  | inl here ↦ rw here refl
  | inr later ↦ rw later (ap suc (length-insert_gap g hs))
]

length-sort_gaps : (gs : List ℕ) → length (sort_gaps gs) ≡ length gs
unfolding sort_gaps
length-sort_gaps [] = refl
length-sort_gaps (g ∷ gs) = length-insert_gap g (sort_gaps gs) ∙ ap suc (length-sort_gaps gs)

length-insert_by_to : (s : Sample) (ss : List Sample) → length (insert_by_to s ss) ≡ suc (length ss)
unfolding insert_by_to
length-insert_by_to s [] = refl
length-insert_by_to s (t ∷ ts) = elim (Bool-cases (leb s.to t.to)) [
  | inl here ↦ rw here refl
  | inr later ↦ rw later (ap suc (length-insert_by_to s ts))
]

length-sort_by_to : (ss : List Sample) → length (sort_by_to ss) ≡ length ss
unfolding sort_by_to
length-sort_by_to [] = refl
length-sort_by_to (s ∷ ss) = length-insert_by_to s (sort_by_to ss) ∙ ap suc (length-sort_by_to ss)

insert_by_to-AllOf :
    (P : Sample → Type 0) (s : Sample) (ss : List Sample)
    → P s
    → AllOf P ss
    → AllOf P (insert_by_to s ss)
unfolding insert_by_to
insert_by_to-AllOf P s [] p h = (p, tt)
insert_by_to-AllOf P s (t ∷ ts) p h = elim (Bool-cases (leb s.to t.to)) [
  | inl here ↦ rw here (p, h)
  | inr later ↦ rw later (h.0, insert_by_to-AllOf P s ts p h.1)
]

sort_by_to-AllOf : (P : Sample → Type 0) (ss : List Sample) → AllOf P ss → AllOf P (sort_by_to ss)
unfolding sort_by_to
sort_by_to-AllOf P [] h = tt
sort_by_to-AllOf P (s ∷ ss) h =
    insert_by_to-AllOf P s (sort_by_to ss) h.0 (sort_by_to-AllOf P ss h.1)

-- The runs count every gap once.
unfoldable run_total : List Run → ℕ
run_total [] = 0
run_total (r ∷ rs) = r.count + run_total rs

run_total-count_gap : (g : ℕ) (rs : List Run) → run_total (count_gap g rs) ≡ suc (run_total rs)
unfolding run_total count_gap
run_total-count_gap g [] = omega arith
run_total-count_gap g (r ∷ rs) = elim (Bool-cases (g == r.gap)) [
  | inl same ↦ rw same (omega arith)
  | inr other ↦ rw other (omega arith)
]

run_total-frequency : (gs : List ℕ) → run_total (frequency gs) ≡ length gs
unfolding frequency
run_total-frequency [] = unfold run_total in refl
run_total-frequency (g ∷ gs) =
    run_total-count_gap g (frequency gs) ∙ ap suc (run_total-frequency gs)

mode_count-le : (rs : List Run) → mode_count (mode_of rs) ≤ run_total rs
unfolding mode_of run_total
mode_count-le [] = omega arith
mode_count-le (r ∷ rs) = at_mode (mode_of rs) (mode_count-le rs)
  where
    at_mode :
        (best : Option Run)
        → mode_count best ≤ run_total rs
        → mode_count
            (elim best [ none ↦ some r | some b ↦ if ltb r.count b.count then some b else some r ])
          ≤ r.count + run_total rs
    at_mode none h = omega arith
    at_mode (some b) h = elim (Bool-cases (ltb r.count b.count)) [
      | inl less ↦ rw less (omega arith)
      | inr more ↦ rw more (omega arith)
    ]

get_or-AllOf {ℓ} :
    {A : Type ℓ} (P : A → Type 0) (xs : List A) (i : ℕ) (x : A)
    → i < length xs
    → AllOf P xs
    → P (get_or xs i x)
get_or-AllOf P [] i x small h = absurd (omega arith)
get_or-AllOf P (y ∷ ys) zero x small h = h.0
get_or-AllOf P (y ∷ ys) (suc i) x small h = get_or-AllOf P ys i x (omega arith) h.1

-- Entry `i * len / k` is one of the list.
place-lt : (i len k : ℕ) → i < k → 0 < len → i * len / k < len
place-lt i len k less some_len =
    (div-lt_iff_lt-mul {k = k} {x = i * len} {y = len} (omega arith)).1
      (subst (λ n. i * len < n) (mul_comm k len) (mul-lt-mul_of_pos_right less some_len))

length-gap_examples_from :
    (samples : List Sample) (k n i : ℕ) → length (gap_examples_from samples k n i) ≡ n
unfolding gap_examples_from
length-gap_examples_from samples k zero i = refl
length-gap_examples_from samples k (suc n) i = ap suc (length-gap_examples_from samples k n (i + 1))

module _ (stats : GroupStats) where
  -- An example is made from a sample.
  gap_example-valid :
      (samples : List Sample) (k i : ℕ)
      → i < k
      → 0 < length samples
      → AllOf (IsSample stats.first_offset stats.last_offset) samples
      → validate_example stats (gap_example samples k i) ≡ true
  unfolding gap_example validate_example
  gap_example-valid samples k i less some_sample h =
      let s : Sample = get_or samples (i * length samples / k) (record { gap = 0; to = 0 }) in
      let p : IsSample stats.first_offset stats.last_offset s =
        get_or-AllOf (IsSample stats.first_offset stats.last_offset) samples _ _
          (place-lt i (length samples) k less some_sample) h in
      valid s p
    where
      valid :
          (s : Sample)
          → IsSample stats.first_offset stats.last_offset s
          → leb stats.first_offset (s.to - s.gap)
              && leb s.to stats.last_offset
              && (leb (s.to - s.gap) s.to && s.to - (s.to - s.gap) == s.gap)
              && ltb 0 s.gap
            ≡ true
      valid s p = ground (arith, p.positive, p.from, p.to)

  gap_examples_from-valid :
      (samples : List Sample) (k n i : ℕ)
      → i + n ≤ k
      → 0 < length samples
      → AllOf (IsSample stats.first_offset stats.last_offset) samples
      → all (validate_example stats) (gap_examples_from samples k n i) ≡ true
  unfolding gap_examples_from
  gap_examples_from-valid samples k zero i fits some_sample h = refl
  gap_examples_from-valid samples k (suc n) i fits some_sample h = rw (
    gap_example-valid samples k i (omega arith) some_sample h,
    gap_examples_from-valid samples k n (i + 1) (omega arith) some_sample h,
  )

  all_examples-valid :
      (samples : List Sample) (k : ℕ)
      → k ≤ length samples
      → AllOf (IsSample stats.first_offset stats.last_offset) samples
      → all (validate_example stats) (gap_examples_from samples k k 0) ≡ true
  unfolding gap_examples_from
  all_examples-valid samples zero few h = refl
  all_examples-valid samples (suc k) few h =
      gap_examples_from-valid samples (suc k) (suc k) 0 (omega arith) (omega arith) h

-- The tests of `validate` but the last.
bounds-valid :
    (hits heap votes sampled mode first last examples : ℕ)
    → 0 < hits
    → 8 * hits ≤ last + 8
    → last + 8 ≤ heap
    → votes ≤ hits
    → sampled ≡ min (hits - 1) sample_gaps
    → mode ≤ sampled
    → first ≤ last
    → examples ≤ examples_kept
    → ltb 0 hits
        && leb hits (heap / 8)
        && leb votes hits
        && hits - 1 == hits - 1
        && leb sampled sample_gaps
        && sampled == min (hits - 1) sample_gaps
        && leb mode sampled
        && leb first last
        && ltb last heap
        && leb examples examples_kept
      ≡ true
bounds-valid hits heap votes sampled mode first last examples h₁ h₂ h₃ h₄ h₅ h₆ h₇ h₈ = ground arith

-- The statistics of a group of hits at ascending multiples of 8, the last of them at least 8 bytes
-- before the end of the capture, pass the tests that `load_index` makes of stored statistics.
pub validate-finish_group :
    (g : Group) (heap : ℕ) → IsHit g → g.last + 8 ≤ heap → validate (finish_group g) heap ≡ true
unfolding validate finish_group
validate-finish_group g heap i inside =
    let gaps = sort_gaps (map (λ (s : Sample). s.gap) g.samples) in
    let samples = sort_by_to g.samples in
    let k = min (length samples) examples_kept in
    let sampled : length gaps ≡ length g.samples =
      length-sort_gaps (map (λ (s : Sample). s.gap) g.samples)
      ∙ length-map (λ (s : Sample). s.gap) g.samples in
    let mode : mode_count (mode_of (frequency gaps)) ≤ length gaps =
      omega (arith, mode_count-le (frequency gaps), run_total-frequency gaps) in
    let examples : length (gap_examples_from samples k k 0) ≤ examples_kept =
      omega (arith, length-gap_examples_from samples k k 0) in
    both
      (bounds-valid g.hits heap g.votes (length gaps) (mode_count (mode_of (frequency gaps)))
        g.first g.last (length (gap_examples_from samples k k 0)) i.hit i.packed inside i.votes
        (sampled ∙ i.reservoir) mode i.ordered examples)
      (all_examples-valid (finish_group g) samples k (omega arith)
        (sort_by_to-AllOf (IsSample g.first g.last) g.samples i.samples))
  where
    both : {a b : Bool} → a ≡ true → b ≡ true → a && b ≡ true
    both e f = cc
