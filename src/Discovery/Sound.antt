-- ===== src/Discovery/Sound.antt =====
-- What a discovery (src/discovery.rs) proposes is supported by the bytes of the capture.
use zgcmaster.Sorting.{sort_by-AllOf}
use zgcmaster.Prelude.{
  ℕ, ◌≤◌, ◌≡◌, subst, false, ◌||◌, not, String, List, [], ◌∷◌, ◌++◌, length, length-take, take, ltb,
  ◌==◌, is_some, if◌then◌else◌, AllOf, AllOf-append, Result, ok, ◌>>=◌, refuse_if, try_fold,
  >>=-eq-ok, >>-eq-ok, refuse_if-eq-ok, ok-injective, Bool-cases, inl, inr, arith,
}
use zgcmaster.Dict.{Dict}
use zgcmaster.Digest.{Digest, hash_of, verify_digest, verify_digest-eq-ok}
use zgcmaster.Spacing.{GroupStats}
use zgcmaster.Scan.{Index}
use zgcmaster.RawStrings.{Bindings, new_bindings}
use zgcmaster.Discovery.{
  max_string_bytes, max_proposals, klass_of_key, groups_of, sampled_offsets, Proposal,
}
use zgcmaster.Discovery.Sampling.{search}
use zgcmaster.Discovery.Supported.{IsSupported, search-AllSupported, take-AllOf}
use zgcmaster.Discovery.Nodes.{
  max_anchors, max_groups, max_nodes, NodeProposal, NodeSearch, new_samples, is_weak, is_bound,
  sample_offsets, proposal_of, bindings_of, search_group, search_anchor, no_nodes, node_before,
  search_nodes, Report, discover,
}
use zgcmaster.Discovery.Keys.{IsSamples, sample_offsets-IsSamples}

-- A node proposal: at least three distinct Strings are keys of nodes of its identity, which is none
-- of the bindings it was found with.
pub record IsNodeProposal (file : List ℕ) (p : NodeProposal) : Type 0 where
  pub anchor : Dict String
  pub b : Bindings
  pub samples : IsSamples file b p.node_klass p.samples
  pub matches : 3 ≤ p.samples.matches
  pub keys : 3 ≤ length p.samples.keys
  pub payloads : 3 ≤ length p.samples.payloads
  pub other : is_bound anchor p.node_klass ≡ false

module _ (d : Digest) (file : List ℕ) (index : Index) (whole : length file ≡ index.heap_bytes) where
  abbrev AllProposed : NodeSearch → Type 0
  AllProposed s = AllOf (IsNodeProposal file) s.proposals

  search_group-AllProposed :
      (anchor : Dict String) (b : Bindings) (s s' : NodeSearch) (group : String × GroupStats)
      → AllProposed s
      → search_group d file index anchor b s group ≡ ok s'
      → AllProposed s'
  unfolding search_group
  search_group-AllProposed anchor b s s' (key, stats) i h =
      let (klass, read, h₁) = >>=-eq-ok (klass_of_key b.narrow key) _ h in
      elim (Bool-cases (is_bound anchor klass)) [
        | inl bound ↦ subst AllProposed (ok-injective (rw bound at h₁)) i
        | inr other ↦ sampled klass other (rw other at h₁)
      ]
    where
      sampled :
          (klass : ℕ)
          → is_bound anchor klass ≡ false
          → (sample_offsets d file index b klass
                (sampled_offsets stats)
                (new_samples s.checked s.reads)
              >>= λ found.
                  let next : NodeSearch = record s {
                    checked = found.checked;
                    reads = found.reads;
                  } in
                  if is_weak found
                  then ok next
                  else ok (record next {
                    proposals =
                        s.proposals
                        ++ proposal_of d file index anchor b klass (sampled_offsets stats) found
                          ∷ [];
                  }))
            ≡ ok s'
          → AllProposed s'
      sampled klass other h =
          let (found, samples, made) =
            >>=-eq-ok
              (sample_offsets d file index b klass (sampled_offsets stats)
                (new_samples s.checked s.reads))
              _ h in
          let j : IsSamples file b klass found =
            sample_offsets-IsSamples d file index b klass whole (sampled_offsets stats)
              (new_samples s.checked s.reads) found
              (record {
                keys = tt;
                distinct = tt;
                few_keys = omega arith;
                few_payloads = omega arith;
                few_links = omega arith;
                few_negative = omega arith;
                few_values = (omega arith, omega arith);
              })
              samples in
          elim (Bool-cases (is_weak found)) [
            | inl weak ↦ subst AllProposed (ok-injective (rw weak at made)) i
            | inr strong ↦
                let (matches, keys, payloads) = enough _ _ _ strong in
                subst AllProposed (ok-injective (rw strong at made)) (
                  AllOf-append (IsNodeProposal file) s.proposals
                    (proposal_of d file index anchor b klass (sampled_offsets stats) found) i
                    (record {
                      anchor = anchor;
                      b = b;
                      samples = j;
                      matches = matches;
                      keys = keys;
                      payloads = payloads;
                      other = other;
                    }))
          ]
        where
          enough : (x y z : ℕ) → ltb x 3 || ltb y 3 || ltb z 3 ≡ false → (3 ≤ x) × (3 ≤ y) × (3 ≤ z)
          enough x y z e = (ground arith, ground arith, ground arith)

  try_fold-AllProposed {ℓ} :
      {A : Type ℓ} (step : NodeSearch → A → Result NodeSearch)
      → ((s s' : NodeSearch) (x : A) → AllProposed s → step s x ≡ ok s' → AllProposed s')
      → (xs : List A) (s s' : NodeSearch) → AllProposed s
      → try_fold step s xs ≡ ok s'
      → AllProposed s'
  try_fold-AllProposed step keeps [] s s' i h = subst AllProposed (ok-injective h) i
  try_fold-AllProposed step keeps (x ∷ xs) s s' i h =
      let (t, here, rest) = >>=-eq-ok (step s x) _ h in
      try_fold-AllProposed step keeps xs t s' (keeps s t x i here) rest

  search_anchor-AllProposed :
      (s s' : NodeSearch) (anchor : Proposal)
      → AllProposed s
      → search_anchor d file index s anchor ≡ ok s'
      → AllProposed s'
  unfolding search_anchor
  search_anchor-AllProposed s s' anchor i h =
      let bindings : Dict String = bindings_of d file index anchor in
      let (b, bound, folded) =
        >>=-eq-ok
          (new_bindings anchor.profile_assumption anchor.reference_hypothesis bindings
            max_string_bytes)
          _ h in
      try_fold-AllProposed (search_group d file index bindings b)
        (λ t t' g j e. search_group-AllProposed bindings b t t' g j e)
        (take max_groups (groups_of b.narrow index)) _ s' i folded

  search_nodes-AllProposed :
      (anchors : List Proposal) (s : NodeSearch)
      → search_nodes d file index anchors ≡ ok s
      → AllProposed s
  unfolding search_nodes
  search_nodes-AllProposed anchors s h =
      let (found, folded, made) =
        >>=-eq-ok
          (try_fold (search_anchor d file index) (no_nodes d file index) (take max_anchors anchors))
          _ h in
      subst AllProposed (ok-injective made) (
        sort_by-AllOf (IsNodeProposal file) node_before found.proposals (
          try_fold-AllProposed (search_anchor d file index) search_anchor-AllProposed
            (take max_anchors anchors) (no_nodes d file index) found tt folded))

-- What a completed discovery says of the capture.
pub record IsDiscovery (d : Digest) (file later : List ℕ) (index : Index) (r : Report)
    : Type 0 where
  pub untyped : is_some index.layout ≡ false
  pub whole : length file ≡ index.heap_bytes
  pub proposals : AllOf (IsSupported d file index) r.proposals
  pub few : length r.proposals ≤ max_proposals
  pub node_proposals : AllOf (IsNodeProposal file) r.node_proposals
  pub few_nodes : length r.node_proposals ≤ max_nodes
  pub unchanged : hash_of d later ≡ index.heap_sha256

length-take-le {ℓ} : {A : Type ℓ} (n : ℕ) (xs : List A) → length (take n xs) ≤ n
length-take-le n xs = omega (arith, length-take n xs)

-- A discovery that ends well was made on an untyped index of the whole capture, whose hash is still
-- that of the index at the end. Each of its at most 16 proposals has at least three distinct Strings
-- behind it, whose arrays take at least three distinct places and whose payloads have at least three
-- distinct hashes: their headers are of the proposed identities, their coder is 0 or 1, their
-- references resolve, and the nonzero hash each keeps is that of its payload. Each of the at most 16
-- node proposals has at least three distinct Strings that are keys of marked nodes of its identity
-- with the spread of their hash.
pub discover-IsDiscovery :
    (d : Digest) (file later : List ℕ) (index : Index) (r : Report)
    → discover d file later index ≡ ok r
    → IsDiscovery d file later index r
unfolding discover
discover-IsDiscovery d file later index r h =
    let (typed, h₁) = >>-eq-ok (refuse_if (is_some index.layout) _) _ h in
    let (sized, h₂) = >>-eq-ok (refuse_if (not (length file == index.heap_bytes)) _) _ h₁ in
    let (s, searched, h₃) = >>=-eq-ok (search d file index) _ h₂ in
    let (nodes, found, h₄) =
      >>=-eq-ok (search_nodes d file index (take max_proposals s.proposals)) _ h₃ in
    let (again, made) = >>-eq-ok (verify_digest (hash_of d later) index.heap_sha256) _ h₄ in
    let whole = same (length file) index.heap_bytes (refuse_if-eq-ok _ _ sized) in
    subst (IsDiscovery d file later index) (ok-injective made) (record {
      untyped = refuse_if-eq-ok _ _ typed;
      whole = whole;
      proposals =
          take-AllOf (IsSupported d file index) max_proposals s.proposals
            (search-AllSupported d file index s searched);
      few = length-take-le max_proposals s.proposals;
      node_proposals = take-AllOf (IsNodeProposal file) max_nodes nodes.proposals (
          search_nodes-AllProposed d file index whole (take max_proposals s.proposals) nodes found);
      few_nodes = length-take-le max_nodes nodes.proposals;
      unchanged = verify_digest-eq-ok (hash_of d later) index.heap_sha256 again;
    })
  where
    same : (a b : ℕ) → not (a == b) ≡ false → a ≡ b
    same a b e = ground arith
