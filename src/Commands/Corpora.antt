-- ===== src/Commands/Corpora.antt =====
-- `corpus_command` of src/main.rs: the options of census and diff-captures.
use zgcmaster.Prelude.{
  Bool, true, false, ◌&&◌, ◌||◌, not, String, Option, none, some, List, [], ◌∷◌, contains, ltb,
  ◌is◌, if◌then◌else◌, Result, ok, err, invalid, ◌>>=◌, ◌>>◌, refuse_if, ok_or,
}
use zgcmaster.Dict.{get}
use zgcmaster.Census.{validate_options}
use zgcmaster.Corpus.{validate}
use zgcmaster.Commands.{OptionMap, insert_once, number_or, has_flag, load_pack}

abbrev pub is_diff : String → Bool
is_diff command = command is "diff-captures"

abbrev pub is_corpus_flag : String → String → Bool
is_corpus_flag command flag =
    contains ("--output" ∷ "--max-bytes" ∷ "--region-bytes" ∷ []) flag
    || (is_diff command
        && contains
            ("--reference-hypothesis" ∷ "--min-len" ∷ "--max-unique" ∷ "--max-text-bytes"
              ∷ "--regex-pack" ∷ [])
            flag)

-- An option with its value.
unfoldable pub corpus_value : String → String → String → OptionMap → Result OptionMap
unfolding insert_once
corpus_value command flag value options =
    if not (is_corpus_flag command flag)
    then err (invalid "Unknown or repeated option")
    else insert_once "Unknown or repeated option" flag value options

-- The loop over the arguments.
unfoldable pub corpus_loop : String → List String → OptionMap → Result OptionMap
unfolding corpus_value
corpus_loop command [] options = ok options
corpus_loop command (flag ∷ []) options =
    if is_diff command && flag is "--require-hash"
    then insert_once "Repeated --require-hash" flag "true" options
    else err (invalid "Missing value")
corpus_loop command (flag ∷ value ∷ rest) options =
    elim (is_diff command && flag is "--require-hash") [
      | true ↦
          insert_once "Repeated --require-hash" flag "true" options
          >>= corpus_loop command (value ∷ rest)
      | false ↦ corpus_value command flag value options >>= corpus_loop command rest
    ]

unfoldable pub diff_options : OptionMap → zgcmaster.Census.Options → Result zgcmaster.Corpus.Options
unfolding number_or validate get
diff_options options census = do
  hypothesis ←
      ok_or (get "--reference-hypothesis" options) "diff-captures needs --reference-hypothesis"
  n ← number_or 250_000 "--max-unique" options
  refuse_if (ltb 2_000_000 n) "--max-unique exceeds 2000000"
  min_len ← number_or 1 "--min-len" options
  max_text_bytes ← number_or 67_108_864 "--max-text-bytes" options
  let made : zgcmaster.Corpus.Options = record {
    census = census;
    reference_hypothesis = hypothesis;
    min_len = min_len;
    require_hash = has_flag "--require-hash" options;
    max_unique = n;
    max_text_bytes = max_text_bytes;
  }
  validate made
  ok made

-- `let diff = if command == "diff-captures" { … } else { None }`.
unfoldable pub optional_diff :
    String → OptionMap → zgcmaster.Census.Options → Result (Option zgcmaster.Corpus.Options)
unfolding diff_options
optional_diff command options census =
    if is_diff command then (diff_options options census >>= λ o. ok (some o)) else ok none

-- What the command runs with; the bounds of a diff are there for diff-captures only.
pub record CorpusCommand (P : Type 0) : Type 0 where
  pub census : zgcmaster.Census.Options
  pub diff : Option zgcmaster.Corpus.Options
  pub pack : Option P
  pub output : Option String

unfoldable pub corpus_command :
    {P : Type 0} → (String → Result P) → String → List String → Result (CorpusCommand P)
unfolding corpus_loop number_or validate_options optional_diff load_pack get
corpus_command load command args = do
  options ← corpus_loop command args []
  max_bytes ← number_or 1_048_576 "--max-bytes" options
  region_bytes ← number_or 67_108_864 "--region-bytes" options
  let census : zgcmaster.Census.Options = record {
    max_bytes = max_bytes;
    region_bytes = region_bytes;
  }
  validate_options census
  diff ← optional_diff command options census
  pack ← load_pack load options
  ok (record { census = census; diff = diff; pack = pack; output = get "--output" options })
