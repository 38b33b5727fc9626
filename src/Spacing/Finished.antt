-- ===== src/Spacing/Finished.antt =====
-- What the groups of a scan satisfy, and that their statistics pass `validate` (src/spacing.rs).
use zgcmaster.Prelude.{
  ℕ, zero, suc, ◌+◌, ◌-◌, ◌*◌, ◌%◌, ◌≤◌, ◌<◌, ◌≡◌, refl, sym, ap, ◌∙◌, subst, min, Bool, true,
  false, List, [], ◌∷◌, length, set, length-append, length-set, AllOf, AllOf-append, AllOf-map, ltb,
  ◌==◌, ltb→lt, if◌then◌else◌, Bool-cases, inl, inr, arith,
}
use zgcmaster.Spacing.Laws.{vote_count-le}
use zgcmaster.Spacing.{
  sample_gaps, Group, Sample, record_sample, observe, splitmix_next, splitmix_output,
}

-- A sample of a gap between two hits of a group.
pub record IsSample (first last : ℕ) (s : Sample) : Type 0 where
  pub positive : 0 < s.gap
  pub from : first + s.gap ≤ s.to
  pub to : s.to ≤ last

-- A group whose hits are at ascending multiples of 8.
pub record IsHit (g : Group) : Type 0 where
  pub hit : 0 < g.hits
  pub packed : 8 * g.hits ≤ g.last + 8
  pub ordered : g.first ≤ g.last
  pub votes : g.votes ≤ g.hits
  pub reservoir : length g.samples ≡ min (g.hits - 1) sample_gaps
  pub samples : AllOf (IsSample g.first g.last) g.samples

AllOf-set {ℓ} :
    {A : Type ℓ} (P : A → Type 0) (xs : List A) (i : ℕ) (v : A)
    → P v
    → AllOf P xs
    → AllOf P (set xs i v)
AllOf-set P [] i v p h = tt
AllOf-set P (x ∷ xs) zero v p h = (p, h.1)
AllOf-set P (x ∷ xs) (suc i) v p h = (h.0, AllOf-set P xs i v p h.1)

-- What recording a sample keeps.
record Recorded (g : Group) (P : Sample → Type 0) (r : Group) : Type 0 where
  hits : r.hits ≡ g.hits
  votes : r.votes ≡ g.votes
  first : r.first ≡ g.first
  reservoir : length r.samples ≡ min g.hits sample_gaps
  samples : AllOf P r.samples

record_sample-Recorded :
    (g : Group) (s : Sample) (P : Sample → Type 0)
    → 0 < g.hits
    → length g.samples ≡ min (g.hits - 1) sample_gaps
    → P s
    → AllOf P g.samples
    → Recorded g P (record_sample g s)
unfolding record_sample
record_sample-Recorded g s P hit len p h = elim (Bool-cases (ltb (length g.samples) sample_gaps)) [
  | inl room ↦ rw room (record {
    hits = refl;
    votes = refl;
    first = refl;
    reservoir = omega (arith, len, length-append g.samples (s ∷ []), ltb→lt _ _ room);
    samples = AllOf-append P g.samples s h p;
  })
  | inr full ↦
      rw full (drawn (splitmix_output (splitmix_next g.rng) % g.hits) (ground (arith, len)))
]
  where
    drawn :
        (slot : ℕ)
        → length g.samples ≡ min g.hits sample_gaps
        → Recorded g P (
            if ltb slot sample_gaps
            then record g { rng = splitmix_next g.rng; samples = set g.samples slot s }
            else record g { rng = splitmix_next g.rng })
    drawn slot e = elim (Bool-cases (ltb slot sample_gaps)) [
      | inl kept ↦ rw kept (record {
        hits = refl;
        votes = refl;
        first = refl;
        reservoir = length-set g.samples slot s ∙ e;
        samples = AllOf-set P g.samples slot s p h;
      })
      | inr dropped ↦
          rw dropped
            (record { hits = refl; votes = refl; first = refl; reservoir = e; samples = h })
    ]

-- A hit past the last one keeps the group well formed, and becomes the last.
pub observe-IsHit :
    (g : Group) (offset : ℕ) (vote : Bool)
    → IsHit g
    → g.last + 8 ≤ offset
    → IsHit (observe g offset vote) × ((observe g offset vote).last ≡ offset)
unfolding observe
observe-IsHit g offset vote i later =
    let s : Sample = record { gap = offset - g.last; to = offset } in
    let new : (g.hits == 0) ≡ false = ground (arith, i.hit) in
    let r =
      record_sample-Recorded g s (IsSample g.first offset) i.hit i.reservoir
        (record {
          positive = omega (arith, later);
          from = omega (arith, i.ordered, later);
          to = omega arith;
        })
        (AllOf-map g.samples
          (λ t h. record { positive = h.positive; from = h.from; to = omega (arith, h.to, later) })
          i.samples) in
    rw new (
      record {
        hit = omega arith;
        packed = omega (arith, r.hits, i.packed, later);
        ordered = omega (arith, r.first, i.ordered, later);
        votes = omega (arith, r.hits, r.votes, i.votes, vote_count-le vote);
        reservoir = omega (arith, r.hits, r.reservoir);
        samples =
            subst (λ f. AllOf (IsSample f offset) (record_sample g s).samples) (sym r.first)
              r.samples;
      },
      refl,
    )

-- The first hit of a group.
pub observe-first :
    (g : Group) (offset : ℕ) (vote : Bool)
    → g.hits ≡ 0
    → g.votes ≡ 0
    → g.samples ≡ []
    → IsHit (observe g offset vote) × ((observe g offset vote).last ≡ offset)
unfolding observe
observe-first g offset vote no_hits no_votes no_samples =
    let new : (g.hits == 0) ≡ true = ground (arith, no_hits) in
    rw new (
      record {
        hit = omega arith;
        packed = omega (arith, no_hits);
        ordered = omega arith;
        votes = omega (arith, no_hits, no_votes, vote_count-le vote);
        reservoir = omega (arith, no_hits, ap length no_samples);
        samples = subst (AllOf (IsSample offset offset)) (sym no_samples) tt;
      },
      refl,
    )
