-- ===== src/Spacing/Laws.antt =====
-- The reservoir and the bookkeeping of src/spacing.rs.
use zgcmaster.Prelude.{
  ℕ, ◌+◌, ◌-◌, ◌%◌, ◌≤◌, ◌<◌, ◌≡◌, ◌⊎◌, refl, ap, ◌∙◌, min, Bool, true, false, ◌&&◌, not, [], ◌∷◌,
  length, set, length-append, length-set, ltb, ltb→lt, ◌==◌, if◌then◌else◌, arith, Bool-cases, inl,
  inr,
}
use zgcmaster.Spacing.{
  max_groups, sample_gaps, Group, Kind, wide, narrow, Sample, vote_count, record_sample, observe,
  splitmix_next, splitmix_output,
}
use zgcmaster.Spacing.Collector.{
  Pair, Groups, Collector, add_slot, same_kind, has_key, contains_key, observe_entry, observe_hit,
  fresh, empty,
}

-- The reservoir holds a sample of every gap until it is full.
pub record IsGroup (g : Group) : Type 0 where
  pub reservoir : length g.samples ≡ min (g.hits - 1) sample_gaps
  pub votes : g.votes ≤ g.hits
  pub ordered : (g.hits ≡ 0) ⊎ (g.first ≤ g.last)

record_sample-length :
    (g : Group) (s : Sample)
    → 0 < g.hits
    → length g.samples ≡ min (g.hits - 1) sample_gaps
    → (length (record_sample g s).samples ≡ min g.hits sample_gaps)
      × ((record_sample g s).hits ≡ g.hits)
      × ((record_sample g s).votes ≡ g.votes)
      × ((record_sample g s).first ≡ g.first)
unfolding record_sample
record_sample-length g s hit h = elim (Bool-cases (ltb (length g.samples) sample_gaps)) [
  | inl room ↦
      rw room
        (omega (arith, h, length-append g.samples (s ∷ []), ltb→lt _ _ room), refl, refl, refl)
  | inr full ↦ rw full (drawn (splitmix_output (splitmix_next g.rng) % g.hits) (ground (arith, h)))
]
  where
    drawn :
        (slot : ℕ)
        → length g.samples ≡ min g.hits sample_gaps
        → let g' : Group =
            (if ltb slot sample_gaps
              then record g { rng = splitmix_next g.rng; samples = set g.samples slot s }
              else record g { rng = splitmix_next g.rng }) in
          (length g'.samples ≡ min g.hits sample_gaps)
          × (g'.hits ≡ g.hits)
          × (g'.votes ≡ g.votes)
          × (g'.first ≡ g.first)
    drawn slot e = elim (Bool-cases (ltb slot sample_gaps)) [
      | inl kept ↦ rw kept (length-set g.samples slot s ∙ e, refl, refl, refl)
      | inr dropped ↦ rw dropped (e, refl, refl, refl)
    ]

pub vote_count-le : (vote : Bool) → vote_count vote ≤ 1
vote_count-le true = omega arith
vote_count-le false = omega arith

-- Observing a hit that comes no earlier than the last keeps a group well formed: it has a sample of
-- every gap until its reservoir of 256 is full and 256 from then on, no more votes than hits, and
-- a first offset that is not after the last.
pub observe-IsGroup :
    (g : Group) (offset : ℕ) (vote : Bool)
    → IsGroup g
    → (g.hits ≡ 0) ⊎ (g.last ≤ offset)
    → IsGroup (observe g offset vote)
unfolding observe
observe-IsGroup g offset vote i later = elim (Bool-cases (g.hits == 0)) [
  | inl new ↦ rw new (record {
    reservoir = ground (arith, i.reservoir);
    votes = ground (arith, i.votes);
    ordered = inr (omega arith);
  })
  | inr old ↦
      let s : Sample = record { gap = offset - g.last; to = offset } in
      let (len, hits, votes, first) = record_sample-length g s (ground arith) i.reservoir in
      let b : vote_count vote ≤ 1 = vote_count-le vote in
      rw old (record {
        reservoir = omega (arith, len, hits);
        votes = omega (arith, hits, votes, i.votes, b);
        ordered = inr (ground (arith, first, i.ordered, later));
      })
]

abbrev pub slot_of : Kind → Pair → ℕ
slot_of wide p = p.on_wide
slot_of narrow p = p.on_narrow

-- The votes of the groups of a kind.
unfoldable pub votes_in : Kind → Groups → ℕ
votes_in kind [] = 0
votes_in kind (e ∷ es) = (if same_kind kind e.kind then e.group.votes else 0) + votes_in kind es

-- Every vote is in a group or among the untracked, and the number of groups is bounded.
pub record IsCollector (c : Collector) : Type 0 where
  pub bounded : length c.groups ≤ max_groups
  pub accounted :
      (kind : Kind)
      → slot_of kind c.raw_votes ≡ votes_in kind c.groups + slot_of kind c.untracked_votes

record_sample-votes : (g : Group) (s : Sample) → (record_sample g s).votes ≡ g.votes
unfolding record_sample
record_sample-votes g s = ground arith

observe-votes :
    (g : Group) (offset : ℕ) (vote : Bool)
    → (observe g offset vote).votes ≡ g.votes + vote_count vote
unfolding observe
observe-votes g offset vote = elim (Bool-cases (g.hits == 0)) [
  | inl new ↦ rw new
  | inr old ↦ rw old (ap (λ n. n + vote_count vote) (record_sample-votes g _))
]

observe_entry-length :
    (kind : Kind) (klass offset : ℕ) (vote : Bool) (es : Groups)
    → length (observe_entry kind klass offset vote es)
      ≡ length es + (if contains_key kind klass es then 0 else 1)
unfolding observe_entry contains_key
observe_entry-length kind klass offset vote [] = refl
observe_entry-length kind klass offset vote (e ∷ es) = elim (Bool-cases (has_key kind klass e)) [
  | inl here ↦ rw here (omega arith)
  | inr other ↦ rw other (omega (arith, observe_entry-length kind klass offset vote es))
]

same_kind-eq : (a b k : Kind) → same_kind a b ≡ true → same_kind k b ≡ same_kind k a
same_kind-eq wide wide k h = refl
same_kind-eq narrow narrow k h = refl
same_kind-eq wide narrow k h = cc
same_kind-eq narrow wide k h = cc

observe_entry-votes :
    (k kind : Kind) (klass offset : ℕ) (vote : Bool) (es : Groups)
    → votes_in k (observe_entry kind klass offset vote es)
      ≡ votes_in k es + (if same_kind k kind then vote_count vote else 0)
unfolding observe_entry votes_in
observe_entry-votes k kind klass offset vote [] =
    let e = observe-votes (fresh kind klass) offset vote in
    elim (Bool-cases (same_kind k kind)) [
      | inl same ↦ rw same (omega (arith, e))
      | inr other ↦ rw other
    ]
observe_entry-votes k kind klass offset vote (e ∷ es) = elim (Bool-cases (has_key kind klass e)) [
  | inl here ↦
      let f = observe-votes e.group offset vote in
      let g : same_kind k e.kind ≡ same_kind k kind =
        same_kind-eq kind e.kind k (left_of _ _ here) in
      rw (here, g)
        (elim (Bool-cases (same_kind k kind)) [
          | inl same ↦ rw same (omega (arith, f))
          | inr other ↦ rw other (omega arith)
        ])
  | inr later ↦ rw later (omega (arith, observe_entry-votes k kind klass offset vote es))
]
  where
    left_of : (a b : Bool) → a && b ≡ true → a ≡ true
    left_of a b h = ground arith

add_slot-slot_of :
    (k kind : Kind) (n : ℕ) (p : Pair)
    → slot_of k (add_slot kind n p) ≡ slot_of k p + (if same_kind k kind then n else 0)
add_slot-slot_of wide wide n p = refl
add_slot-slot_of narrow narrow n p = refl
add_slot-slot_of wide narrow n p = omega arith
add_slot-slot_of narrow wide n p = omega arith

pub empty-IsCollector : IsCollector empty
unfolding votes_in
empty-IsCollector = record { bounded = omega arith; accounted = accounted }
  where
    accounted :
        (k : Kind) → slot_of k empty.raw_votes ≡ votes_in k [] + slot_of k empty.untracked_votes
    accounted wide = refl
    accounted narrow = refl

-- Observing a hit keeps the bookkeeping of a collector: at most 4096 groups, and of each kind every
-- vote is either in a group or among the untracked.
pub observe_hit-IsCollector :
    (c : Collector) (kind : Kind) (klass offset : ℕ) (vote : Bool)
    → IsCollector c
    → IsCollector (observe_hit c kind klass offset vote)
unfolding observe_hit
observe_hit-IsCollector c kind klass offset vote i =
    elim (Bool-cases (length c.groups == max_groups && not (contains_key kind klass c.groups))) [
      | inl full ↦ rw full (record {
        bounded = i.bounded;
        accounted = λ k. omega (
          arith,
          i.accounted k,
          add_slot-slot_of k kind (vote_count vote) c.raw_votes,
          add_slot-slot_of k kind (vote_count vote) c.untracked_votes,
        );
      })
      | inr room ↦ rw room (record {
        bounded = few (contains_key kind klass c.groups) refl room;
        accounted = λ k. omega (
          arith,
          i.accounted k,
          add_slot-slot_of k kind (vote_count vote) c.raw_votes,
          observe_entry-votes k kind klass offset vote c.groups,
        );
      })
    ]
  where
    few :
        (known : Bool)
        → contains_key kind klass c.groups ≡ known
        → length c.groups == max_groups && not known ≡ false
        → length (observe_entry kind klass offset vote c.groups) ≤ max_groups
    few true e h =
        let l = observe_entry-length kind klass offset vote c.groups in
        let z : if◌then◌else◌ {A = ℕ} (contains_key kind klass c.groups) 0 1 ≡ 0 = rw e in
        omega (arith, l, z, i.bounded)
    few false e h =
        let l = observe_entry-length kind klass offset vote c.groups in
        let z : if◌then◌else◌ {A = ℕ} (contains_key kind klass c.groups) 0 1 ≡ 1 = rw e in
        ground (arith, l, z, i.bounded)
