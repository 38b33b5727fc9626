-- ===== src/RawStrings/Verified.antt =====
-- What a verification (`verify` of src/raw_strings.rs) has sampled.
use zgcmaster.Prelude.{
  ℕ, suc, ◌+◌, ◌/◌, ◌≤◌, ◌<◌, ◌*◌, ◌≡◌, min, refl, sym, ap, ◌∙◌, subst, false, ◌&&◌, not, List, [],
  ◌∷◌, map, length, ltb, leb, AllOf, ok, refuse_if, >>=-eq-ok, >>-eq-ok, refuse_if-eq-ok,
  ok-injective, arith,
}
use zgcmaster.Dict.{total}
use zgcmaster.Digest.{Digest, hash_of}
use zgcmaster.Sorting.{sort_by, length-sort_by, sort_by-AllOf, Adjacent}
use zgcmaster.Walk.SinglePass.{single_pass_inv}
use zgcmaster.RawStrings.{Bindings, max_samples, header_width}
use zgcmaster.RawStrings.Population.{headers_below, headers_below-past, sort_by-up}
use zgcmaster.RawStrings.Sampled.{IsCandidate, IsSampling, walk_header-IsSampling, weaken}
use zgcmaster.RawStrings.Resolved.{IsRow, IsResolved, resolve-IsResolved}
use zgcmaster.RawStrings.Walk.{
  Walked, walk_header, take_header, walk_klass, walk_klass-eq-ok, recheck, recheck-eq-ok,
}
use zgcmaster.RawStrings.Verify.{
  Sampling, on_candidate, Detail, resolve, count_or_zero, Report, verify,
}

-- What a completed verification says of the capture.
pub record IsVerified (d : Digest) (file later : List ℕ) (b : Bindings) (samples : ℕ) (r : Report)
    : Type 0 where
  pub bounded : (1 ≤ samples) × (samples ≤ max_samples)
  pub population : r.population ≡ headers_below b file (length file)
  pub sampled : length r.samples ≡ min r.population samples
  pub distinct : Adjacent (λ x y. x < y) (map (λ (x : Detail). x.string_offset) r.samples)
  pub candidates : AllOf (IsCandidate b file) (map (λ (x : Detail). x.string_offset) r.samples)
  pub rows : AllOf (IsRow b file (length file)) r.samples
  pub counted : total r.counts ≡ length r.samples
  pub split : r.compared ≡ r.confirmed + count_or_zero "mismatch" r.counts
  pub hash : r.hash ≡ hash_of d file
  pub unchanged : hash_of d later ≡ r.hash

length-map : (xs : List Detail) → length (map (λ (x : Detail). x.string_offset) xs) ≡ length xs
length-map [] = refl
length-map (x ∷ xs) = ap suc (length-map xs)

-- A completed verification has sampled as many String headers as were asked for, or all of them when
-- they are fewer: the population is the number of aligned offsets of the capture where a marked
-- header of the bound identity stands, each sample is one of these offsets, and the samples go up.
-- Each row has the reason or the status that the decoder gives at its offset; the counts add up to
-- the number of samples, and those compared are those confirmed and those that differ. The hash of
-- the report is the capture's, in both readings.
pub verify-IsVerified :
    (d : Digest) (file later : List ℕ) (b : Bindings) (samples seed : ℕ) (r : Report)
    → verify d file later b samples seed ≡ ok r
    → IsVerified d file later b samples r
unfolding verify
verify-IsVerified d file later b samples seed r h =
    let klasses : List ℕ = b.string_klass ∷ [] in
    let start : Sampling = record { selected = []; seen = 0; rng = seed } in
    let visit = on_candidate samples in
    let (bounded, h₁) =
      >>-eq-ok (refuse_if (not (leb 1 samples && leb samples max_samples)) _) _ h in
    let (w, walked, h₂) =
      >>=-eq-ok (walk_klass d (header_width b) klasses 32 visit file start) _ h₁ in
    let sorted : List ℕ = sort_by ltb w.state.selected in
    let (found, resolved, h₃) =
      >>=-eq-ok (resolve b file w.size sorted (record { counts = []; details = [] })) _ h₂ in
    let (same, made) = >>-eq-ok (recheck d later w.size w.hash) _ h₃ in
    let (p, pass, finished) =
      walk_klass-eq-ok d (header_width b) klasses 32 visit file start w walked in
    let last : ℕ = 0 + 8 * ((length file + 7) / 8) in
    let i : IsSampling b file samples last p.0 p.1 =
      single_pass_inv 32 (take_header 32) (walk_header (header_width b) klasses (length file) visit)
        file (length file) (λ o x. IsSampling b file samples o x.0 x.1) (weaken b file samples)
        (λ o x x' j even room e. walk_header-IsSampling b file samples o x x' j even room e)
        ((length file + 7) / 8) 0 (0, start) p refl
        (record {
          population = unfold headers_below in refl;
          below = tt;
          distinct = tt;
          seen = refl;
          full = omega arith;
          candidates = tt;
        })
        pass in
    let e = ok-injective finished in
    let j : IsSampling b file samples last w.count w.state =
      subst (λ (x : Walked Sampling). IsSampling b file samples last x.count x.state) e i in
    let k : IsResolved b file w.size sorted found =
      resolve-IsResolved b file w.size [] sorted (record { counts = []; details = [] }) found
        (record { rows = tt; offsets = refl; counted = unfold total in refl }) resolved in
    let same_size : length file ≡ w.size = ap (λ (x : Walked Sampling). x.size) e in
    subst (IsVerified d file later b samples) (ok-injective made) (record {
      bounded = limits samples (refuse_if-eq-ok _ _ bounded);
      population =
          j.population ∙ headers_below-past b file (length file) last (omega arith) (reach _);
      distinct =
          subst (Adjacent (λ x y. x < y)) (sym k.offsets) (sort_by-up w.state.selected j.distinct);
      sampled =
          sym (length-map found.details)
          ∙ ap length k.offsets
          ∙ length-sort_by ltb w.state.selected
          ∙ j.full;
      candidates =
          subst (AllOf (IsCandidate b file)) (sym k.offsets)
            (sort_by-AllOf (IsCandidate b file) ltb w.state.selected j.candidates);
      rows = subst (λ n. AllOf (IsRow b file n) found.details) (sym same_size) k.rows;
      counted = k.counted;
      split = refl;
      hash = ap (λ (x : Walked Sampling). x.hash) (sym e);
      unchanged = recheck-eq-ok d later w.size w.hash same;
    })
  where
    reach : (n : ℕ) → n ≤ 0 + 8 * ((n + 7) / 8)
    reach n = omega arith

    limits : (n : ℕ) → not (leb 1 n && leb n max_samples) ≡ false → (1 ≤ n) × (n ≤ max_samples)
    limits n e = (ground arith, ground arith)
