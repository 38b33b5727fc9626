-- ===== src/Spacing.antt =====
-- src/spacing.rs: reservoir samples of the gaps between consecutive hits of a header word, one
-- group for each word and width, and the validation of stored statistics. `f64` results are kept
-- as exact fractions.
pub mod Collector
pub mod Laws
pub mod Summary
pub mod Shown
pub mod Finished
pub mod Validated
pub mod Recorded
use zgcmaster.Prelude.{
  ℕ, zero, suc, ◌+◌, ◌-◌, ◌*◌, ◌/◌, ◌%◌, ◌^◌, ◌≤◌, ◌<◌, min, bit_xor, Bool, true, false, ◌&&◌, ◌||◌,
  not, String, Option, none, some, List, [], ◌∷◌, ◌++◌, map, length, any, all, set, get_or, ltb,
  leb, ◌==◌, if◌then◌else◌,
}
use zgcmaster.Words.{two64}

abbrev pub max_groups : ℕ
max_groups = 4096

abbrev pub sample_gaps : ℕ
sample_gaps = 256

abbrev pub examples_kept : ℕ
examples_kept = 16

abbrev pub min_gaps : ℕ
min_gaps = 32

pub record Ratio : Type 0 where
  pub num : ℕ
  pub den : ℕ

pub record GapExample : Type 0 where
  pub from : ℕ
  pub to : ℕ
  pub gap : ℕ

pub record GroupStats : Type 0 where
  pub hits : ℕ
  pub detection_votes : ℕ
  pub first_offset : ℕ
  pub last_offset : ℕ
  pub total_gaps : ℕ
  pub sampled_gaps : ℕ
  pub median_gap : Option Ratio
  pub mode_gap : Option ℕ
  pub mode_sample_count : ℕ
  pub mode_fraction : Option Ratio
  pub periodic : Bool
  pub classification : String
  pub gap_examples : List GapExample

pub data Kind : Type 0 where
  wide narrow : Kind

pub record Sample : Type 0 where
  pub gap : ℕ
  pub to : ℕ

pub record Group : Type 0 where
  pub hits : ℕ
  pub votes : ℕ
  pub first : ℕ
  pub last : ℕ
  pub samples : List Sample
  pub rng : ℕ

abbrev pub vote_count : Bool → ℕ
vote_count true = 1
vote_count false = 0

-- SplitMix64: the next state, and the output at a state. `x >> k` is `x / 2 ^ k`.
unfoldable pub splitmix_next : ℕ → ℕ
splitmix_next rng = (rng + 0x9e3779b97f4a7c15) % two64

unfoldable pub splitmix_output : ℕ → ℕ
splitmix_output rng =
    let z = (bit_xor rng (rng / 2 ^ 30) * 0xbf58476d1ce4e5b9) % two64 in
    let y = (bit_xor z (z / 2 ^ 27) * 0x94d049bb133111eb) % two64 in bit_xor y (y / 2 ^ 31)

-- What `Group::observe` does with the sample of a later hit: fill the reservoir, or draw a slot.
unfoldable pub record_sample : Group → Sample → Group
unfolding splitmix_next splitmix_output
record_sample g sample =
    if ltb (length g.samples) sample_gaps
    then record g { samples = g.samples ++ sample ∷ [] }
    else (let rng = splitmix_next g.rng in
        let slot = splitmix_output rng % g.hits in
        if ltb slot sample_gaps
        then record g { rng = rng; samples = set g.samples slot sample }
        else record g { rng = rng })

-- `Group::observe`. Hits come in the order of their offsets, so `offset - last` does not wrap.
unfoldable pub observe : Group → ℕ → Bool → Group
unfolding record_sample
observe g offset vote =
    let seen =
      (if g.hits == 0
        then record g { first = offset }
        else record_sample g (record { gap = offset - g.last; to = offset })) in
    record seen { hits = seen.hits + 1; votes = seen.votes + vote_count vote; last = offset }

-- `gaps.sort_unstable()`, and the sort of the samples by their destinations.
unfoldable pub insert_gap : ℕ → List ℕ → List ℕ
insert_gap g [] = g ∷ []
insert_gap g (h ∷ hs) = if leb g h then g ∷ h ∷ hs else h ∷ insert_gap g hs

unfoldable pub sort_gaps : List ℕ → List ℕ
unfolding insert_gap
sort_gaps [] = []
sort_gaps (g ∷ gs) = insert_gap g (sort_gaps gs)

unfoldable pub insert_by_to : Sample → List Sample → List Sample
insert_by_to s [] = s ∷ []
insert_by_to s (t ∷ ts) = if leb s.to t.to then s ∷ t ∷ ts else t ∷ insert_by_to s ts

unfoldable pub sort_by_to : List Sample → List Sample
unfolding insert_by_to
sort_by_to [] = []
sort_by_to (s ∷ ss) = insert_by_to s (sort_by_to ss)

pub record Run : Type 0 where
  pub gap : ℕ
  pub count : ℕ

-- `frequency`: the distinct gaps of the sorted list, ascending, with how often each occurs.
unfoldable pub count_gap : ℕ → List Run → List Run
count_gap g [] = record { gap = g; count = 1 } ∷ []
count_gap g (r ∷ rs) =
    if g == r.gap
    then record r { count = r.count + 1 } ∷ rs
    else record { gap = g; count = 1 } ∷ r ∷ rs

unfoldable pub frequency : List ℕ → List Run
unfolding count_gap
frequency [] = []
frequency (g ∷ gs) = count_gap g (frequency gs)

-- The `max_by`: the largest count, and of those the smallest gap, which comes first.
unfoldable pub mode_of : List Run → Option Run
mode_of [] = none
mode_of (r ∷ rs) = elim (mode_of rs) [
  | none ↦ some r
  | some best ↦ if ltb r.count best.count then some best else some r
]

abbrev pub mode_count : Option Run → ℕ
mode_count none = 0
mode_count (some r) = r.count

abbrev pub mode_gap : Option Run → Option ℕ
mode_gap none = none
mode_gap (some r) = some r.gap

-- Example `i` of `k`: entry `i * len / k` of the sorted samples.
unfoldable pub gap_example : List Sample → ℕ → ℕ → GapExample
gap_example samples k i =
    let s = get_or samples (i * length samples / k) (record { gap = 0; to = 0 }) in
    record { from = s.to - s.gap; to = s.to; gap = s.gap }

unfoldable pub gap_examples_from : List Sample → ℕ → ℕ → ℕ → List GapExample
unfolding gap_example
gap_examples_from samples k zero i = []
gap_examples_from samples k (suc n) i =
    gap_example samples k i ∷ gap_examples_from samples k n (i + 1)

unfoldable pub is_periodic : ℕ → ℕ → Bool
is_periodic len count = leb min_gaps len && ltb (len * 9) (count * 10)

unfoldable pub classify_group : Bool → ℕ → String
classify_group periodic len =
    if periodic
    then "periodic-structure"
    else if ltb len min_gaps
    then "insufficient-spacing-evidence"
    else "non-periodic-candidate"

-- The median as half the sum of the two middle gaps.
unfoldable pub median_of : List ℕ → Option Ratio
median_of gaps =
    if length gaps == 0
    then none
    else some (record {
      num = get_or gaps ((length gaps - 1) / 2) 0 + get_or gaps (length gaps / 2) 0;
      den = 2;
    })

-- `Group::finish`.
unfoldable pub finish_group : Group → GroupStats
unfolding sort_gaps sort_by_to frequency mode_of gap_examples_from is_periodic classify_group
    median_of
finish_group g =
    let gaps = sort_gaps (map (λ (s : Sample). s.gap) g.samples) in
    let mode = mode_of (frequency gaps) in
    let samples = sort_by_to g.samples in
    let k = min (length samples) examples_kept in
    let periodic = is_periodic (length gaps) (mode_count mode) in
    record {
      hits = g.hits;
      detection_votes = g.votes;
      first_offset = g.first;
      last_offset = g.last;
      total_gaps = g.hits - 1;
      sampled_gaps = length gaps;
      median_gap = median_of gaps;
      mode_gap = mode_gap mode;
      mode_sample_count = mode_count mode;
      mode_fraction =
          (if length gaps == 0
            then none
            else some (record { num = mode_count mode; den = length gaps }));
      periodic = periodic;
      classification = classify_group periodic (length gaps);
      gap_examples = gap_examples_from samples k k 0;
    }

-- `g.to.checked_sub(g.from) == Some(g.gap)`, with the other tests of an example.
unfoldable pub validate_example : GroupStats → GapExample → Bool
validate_example stats g =
    leb stats.first_offset g.from
    && leb g.to stats.last_offset
    && (leb g.from g.to && g.to - g.from == g.gap)
    && ltb 0 g.gap

-- `spacing::validate`.
unfoldable pub validate : GroupStats → ℕ → Bool
unfolding validate_example
validate stats heap_bytes =
    ltb 0 stats.hits
    && leb stats.hits (heap_bytes / 8)
    && leb stats.detection_votes stats.hits
    && stats.total_gaps == stats.hits - 1
    && leb stats.sampled_gaps sample_gaps
    && stats.sampled_gaps == min stats.total_gaps sample_gaps
    && leb stats.mode_sample_count stats.sampled_gaps
    && leb stats.first_offset stats.last_offset
    && ltb stats.last_offset heap_bytes
    && leb (length stats.gap_examples) examples_kept
    && all (validate_example stats) stats.gap_examples
