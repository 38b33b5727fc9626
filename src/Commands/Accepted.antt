-- ===== src/Commands/Accepted.antt =====
-- What corpus_command (src/main.rs) runs with: the bounds of its options.
use zgcmaster.Prelude.{
  ℕ, ◌*◌, ◌≡◌, ◌≤◌, refl, sym, ap, false, ◌&&◌, not, String, Option, none, some, List, [], ltb, leb,
  is_some, Result, ok, ok_or, refuse_if, >>=-eq-ok, >>-eq-ok, refuse_if-eq-ok, ok-injective,
  some_eq, Bool-cases, arith, inl, inr, ◌∙◌, subst,
}
use zgcmaster.Words.{chunk_size}
use zgcmaster.Dict.{get}
use zgcmaster.Address.{ReferenceModel, parse_model}
use zgcmaster.Census.{validate_options}
use zgcmaster.Corpus.{validate}
use zgcmaster.Commands.{OptionMap, number_or, has_flag, load_pack}
use zgcmaster.Commands.Corpora.{
  CorpusCommand, is_diff, corpus_loop, diff_options, optional_diff, corpus_command,
}

-- The options of a census that the program runs with.
pub record IsCensusOptions (o : zgcmaster.Census.Options) : Type 0 where
  pub payload : (1 ≤ o.max_bytes) × (o.max_bytes ≤ chunk_size)
  pub region : (16 * 1024 * 1024 ≤ o.region_bytes) × (o.region_bytes ≤ 1024 * 1024 * 1024)

-- The options of a comparison of captures.
pub record IsDiffOptions (census : zgcmaster.Census.Options) (o : zgcmaster.Corpus.Options)
    : Type 0 where
  pub same : o.census ≡ census
  pub unique : (1 ≤ o.max_unique) × (o.max_unique ≤ 2_000_000)
  pub text : (1 ≤ o.max_text_bytes) × (o.max_text_bytes ≤ 512 * 1024 * 1024)
  pub known : (m : ReferenceModel) × (parse_model o.reference_hypothesis ≡ ok m)

pub in_range : (low high n : ℕ) → not (leb low n && leb n high) ≡ false → (low ≤ n) × (n ≤ high)
in_range low high n h = ground arith

both_in_range :
    (high high₂ n m : ℕ)
    → not (leb 1 n && leb n high && (leb 1 m && leb m high₂)) ≡ false
    → ((1 ≤ n) × (n ≤ high)) × ((1 ≤ m) × (m ≤ high₂))
both_in_range high high₂ n m h = ground arith

validate_options-IsCensusOptions :
    (o : zgcmaster.Census.Options) → validate_options o ≡ ok tt → IsCensusOptions o
unfolding validate_options
validate_options-IsCensusOptions o h =
    let (payload, h₁) =
      >>-eq-ok (refuse_if (not (leb 1 o.max_bytes && leb o.max_bytes chunk_size)) _) _ h in
    record {
      payload = in_range 1 chunk_size o.max_bytes (refuse_if-eq-ok _ _ payload);
      region =
          in_range (16 * 1024 * 1024) (1024 * 1024 * 1024) o.region_bytes (refuse_if-eq-ok _ _ h₁);
    }

diff_options-IsDiffOptions :
    (options : OptionMap) (census : zgcmaster.Census.Options) (o : zgcmaster.Corpus.Options)
    → diff_options options census ≡ ok o
    → IsDiffOptions census o
unfolding diff_options validate
diff_options-IsDiffOptions options census o h =
    let (hypothesis, found, h₁) = >>=-eq-ok (ok_or (get "--reference-hypothesis" options) _) _ h in
    let (n, read, h₂) = >>=-eq-ok (number_or 250_000 "--max-unique" options) _ h₁ in
    let (small, h₃) = >>-eq-ok (refuse_if (ltb 2_000_000 n) _) _ h₂ in
    let (min_len, read_len, h₄) = >>=-eq-ok (number_or 1 "--min-len" options) _ h₃ in
    let (text, read_text, h₅) = >>=-eq-ok (number_or 67_108_864 "--max-text-bytes" options) _ h₄ in
    let (valid, h₆) =
      >>-eq-ok
        (validate (record {
          census = census;
          reference_hypothesis = hypothesis;
          min_len = min_len;
          require_hash = has_flag "--require-hash" options;
          max_unique = n;
          max_text_bytes = text;
        }))
        _ h₅ in
    let (valid_census, h₇) = >>-eq-ok (validate_options census) _ valid in
    let (model, parsed, h₈) = >>=-eq-ok (parse_model hypothesis) _ h₇ in
    let bounds = both_in_range 2_000_000 (512 * 1024 * 1024) n text (refuse_if-eq-ok _ _ h₈) in
    subst (IsDiffOptions census) (ok-injective h₆)
      (record { same = refl; unique = bounds.0; text = bounds.1; known = (model, parsed) })

optional_diff_lem :
    (command : String) (options : OptionMap) (census : zgcmaster.Census.Options)
    (diff : Option zgcmaster.Corpus.Options)
    → optional_diff command options census ≡ ok diff
    → (is_some diff ≡ is_diff command)
      × ((o : zgcmaster.Corpus.Options) → diff ≡ some o → IsDiffOptions census o)
unfolding optional_diff
optional_diff_lem command options census diff h = elim (Bool-cases (is_diff command)) [
  | inl compared ↦
      let (made, sound, e) = >>=-eq-ok (diff_options options census) _ (rw compared at h) in
      let found : some made ≡ diff = ok-injective e in
      (
        sym (ap is_some found) ∙ sym compared,
        λ o h'. diff_options-IsDiffOptions options census o (sound ∙ ap ok (some_eq (found ∙ h'))),
      )
  | inr other ↦
      let found : none ≡ diff = ok-injective (rw other at h) in
      (sym (ap is_some found) ∙ sym other, λ o h'. let e : none ≡ some o = found ∙ h' in cc)
]

-- What corpus_command runs with.
pub record IsAccepted {P : Type 0} (command : String) (c : CorpusCommand P) : Type 0 where
  pub census : IsCensusOptions c.census
  pub diff : (o : zgcmaster.Corpus.Options) → c.diff ≡ some o → IsDiffOptions c.census o
  pub given : is_some c.diff ≡ is_diff command

-- Options that corpus_command accepts are within the bounds of census and comparison, and those of a
-- comparison are there exactly for diff-captures, with the options of the census.
pub corpus_command-IsAccepted :
    {P : Type 0} (load : String → Result P) (command : String) (args : List String)
    (c : CorpusCommand P)
    → corpus_command load command args ≡ ok c
    → IsAccepted command c
unfolding corpus_command
corpus_command-IsAccepted {P} load command args c h =
    let (options, parsed, h₁) = >>=-eq-ok (corpus_loop command args []) _ h in
    let (max_bytes, read, h₂) = >>=-eq-ok (number_or 1_048_576 "--max-bytes" options) _ h₁ in
    let (region, read_region, h₃) =
      >>=-eq-ok (number_or 67_108_864 "--region-bytes" options) _ h₂ in
    let census : zgcmaster.Census.Options = record {
      max_bytes = max_bytes;
      region_bytes = region;
    } in
    let (valid, h₄) = >>-eq-ok (validate_options census) _ h₃ in
    let (diff, made, h₅) = >>=-eq-ok (optional_diff command options census) _ h₄ in
    let (pack, loaded, h₆) = >>=-eq-ok (load_pack load options) _ h₅ in
    let (given, sound) = optional_diff_lem command options census diff made in
    subst (IsAccepted command) (ok-injective h₆) (record {
      census = validate_options-IsCensusOptions census valid;
      diff = sound;
      given = given;
    })
