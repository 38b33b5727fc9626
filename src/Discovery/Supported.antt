-- ===== src/Discovery/Supported.antt =====
-- What stands behind the proposals of src/discovery.rs.
use zgcmaster.Sorting.{sort_by-AllOf}
use zgcmaster.Prelude.{
  ℕ, zero, suc, ◌≤◌, ◌≡◌, refl, subst, Bool, true, false, ◌||◌, String, List, [], ◌∷◌, ◌++◌, length,
  take, ltb, AllOf, ok, >>=-eq-ok, ok-injective, Bool-cases, inl, inr, arith,
}
use zgcmaster.Digest.{Digest}
use zgcmaster.Spacing.{GroupStats}
use zgcmaster.Address.{
  ReferenceModel, non_gen_low42, gen_arm_low_address, gen_x86_low_address, model_name,
  model_profile,
}
use zgcmaster.Scan.{Index}
use zgcmaster.Discovery.{
  Evidence, Proposal, klass_of_key, groups_of, groups_per_width, sampled_offsets,
}
use zgcmaster.Discovery.Sampling.{
  Samples, Search, no_search, is_weak, propose, sample_all, search_model, search_groups,
  search_width, stands_before, search,
}
use zgcmaster.Discovery.Matches.{IsEvidence, IsWithin, IsSampled, sample_all-IsSampled}

-- The evidence behind a proposal: at least three distinct Strings, over at least three distinct arrays
-- with as many distinct payloads, and no more matches than eligible samples.
pub record IsSupported (d : Digest) (file : List ℕ) (index : Index) (p : Proposal) : Type 0 where
  pub narrow : Bool
  pub model : ReferenceModel
  pub evidence : Evidence
  pub is_evidence : IsEvidence d file index narrow model p.string_klass p.array_klass evidence
  pub profile : p.profile_assumption ≡ model_profile model narrow
  pub hypothesis : p.reference_hypothesis ≡ model_name model
  pub strings : 3 ≤ length evidence.strings
  pub array_count : p.distinct_arrays ≡ length evidence.arrays
  pub payload_count : p.distinct_payloads ≡ length evidence.payload_hashes
  pub arrays : (3 ≤ p.distinct_arrays) × (p.distinct_arrays ≤ p.hash_matches)
  pub payloads : (3 ≤ p.distinct_payloads) × (p.distinct_payloads ≤ p.hash_matches)
  pub matches : p.hash_matches ≡ evidence.matches
  pub eligible : p.hash_matches ≤ p.eligible_samples

AllOf-append_list {ℓ} :
    {A : Type ℓ} (P : A → Type 0) (xs ys : List A) → AllOf P xs → AllOf P ys → AllOf P (xs ++ ys)
AllOf-append_list P [] ys h k = k
AllOf-append_list P (x ∷ xs) ys h k = (h.0, AllOf-append_list P xs ys h.1 k)

pub take-AllOf {ℓ} :
    {A : Type ℓ} (P : A → Type 0) (n : ℕ) (xs : List A) → AllOf P xs → AllOf P (take n xs)
take-AllOf P zero xs h = tt
take-AllOf P (suc n) [] h = tt
take-AllOf P (suc n) (x ∷ xs) h = (h.0, take-AllOf P n xs h.1)

module _ (d : Digest) (file : List ℕ) (index : Index) where
  propose-IsSupported :
      (narrow : Bool) (model : ReferenceModel) (klass eligible : ℕ) (es : List (ℕ × Evidence))
      → AllOf (IsWithin d file index narrow model klass eligible) es
      → AllOf (IsSupported d file index) (propose d file index narrow model klass eligible es)
  unfolding propose
  propose-IsSupported narrow model klass eligible [] h = tt
  propose-IsSupported narrow model klass eligible ((k, e) ∷ es) h =
      let rest = propose-IsSupported narrow model klass eligible es h.1 in
      elim (Bool-cases (is_weak e)) [
        | inl weak ↦ rw weak rest
        | inr strong ↦
            let (strings, arrays, payloads) = enough _ _ _ strong in
            let i = h.0.0 in
            rw strong (
              record {
                narrow = narrow;
                model = model;
                evidence = e;
                is_evidence = i;
                profile = refl;
                hypothesis = refl;
                strings = strings;
                array_count = refl;
                payload_count = refl;
                arrays = (arrays, i.arrays);
                payloads = (payloads, i.payloads);
                matches = refl;
                eligible = h.0.1;
              },
              rest,
            )
      ]
    where
      enough : (a b c : ℕ) → ltb a 3 || ltb b 3 || ltb c 3 ≡ false → (3 ≤ a) × (3 ≤ b) × (3 ≤ c)
      enough a b c e = (ground arith, ground arith, ground arith)

  abbrev AllSupported : Search → Type 0
  AllSupported s = AllOf (IsSupported d file index) s.proposals

  search_model-AllSupported :
      (narrow : Bool) (klass : ℕ) (offsets : List ℕ) (s : Search) (model : ReferenceModel)
      → AllSupported s
      → AllSupported (search_model d file index narrow klass offsets s model)
  unfolding search_model
  search_model-AllSupported narrow klass offsets s model h =
      let start : Samples = record {
        reads = s.reads;
        checked = s.checked;
        hash_matches = s.hash_matches;
        eligible = 0;
        evidence = [];
      } in
      let found : Samples = sample_all d file index narrow model klass offsets start in
      let i : IsSampled d file index narrow model klass found =
        sample_all-IsSampled d file index narrow model klass offsets start
          (record { within = tt }) in
      AllOf-append_list (IsSupported d file index) s.proposals _ h
        (propose-IsSupported narrow model klass found.eligible found.evidence i.within)

  search_groups-AllSupported :
      (narrow : Bool) (groups : List (String × GroupStats)) (s s' : Search)
      → AllSupported s
      → search_groups d file index narrow groups s ≡ ok s'
      → AllSupported s'
  unfolding search_groups
  search_groups-AllSupported narrow [] s s' h e = subst AllSupported (ok-injective e) h
  search_groups-AllSupported narrow ((key, stats) ∷ groups) s s' h e =
      let (klass, read, rest) = >>=-eq-ok (klass_of_key narrow key) _ e in
      let offsets : List ℕ = sampled_offsets stats in
      let s₁ : Search = search_model d file index narrow klass offsets s non_gen_low42 in
      let s₂ : Search = search_model d file index narrow klass offsets s₁ gen_arm_low_address in
      let one = search_model-AllSupported narrow klass offsets s non_gen_low42 h in
      let two = search_model-AllSupported narrow klass offsets s₁ gen_arm_low_address one in
      let three = search_model-AllSupported narrow klass offsets s₂ gen_x86_low_address two in
      search_groups-AllSupported narrow groups _ s' three rest

  search_width-AllSupported :
      (narrow : Bool) (s s' : Search)
      → AllSupported s
      → search_width d file index narrow s ≡ ok s'
      → AllSupported s'
  unfolding search_width
  search_width-AllSupported narrow s s' h e =
      search_groups-AllSupported narrow (take groups_per_width (groups_of narrow index)) _ s' h e

  pub search-AllSupported : (s : Search) → search d file index ≡ ok s → AllSupported s
  unfolding search
  search-AllSupported s e =
      let (first, e₁, h₁) = >>=-eq-ok (search_width d file index true no_search) _ e in
      let (second, e₂, made) = >>=-eq-ok (search_width d file index false first) _ h₁ in
      subst AllSupported (ok-injective made) (
        sort_by-AllOf (IsSupported d file index) stands_before second.proposals (
          search_width-AllSupported false first second
            (search_width-AllSupported true no_search first tt e₁) e₂))
