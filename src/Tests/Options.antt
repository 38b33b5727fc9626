-- ===== src/Tests/Options.antt =====
-- The theorems on the options of the command line, at concrete arguments.
use zgcmaster.Prelude.{◌≡◌, refl, true, false, String, List, [], ◌∷◌, Result, ok, err, invalid}
use zgcmaster.Commands.Corpora.{CorpusCommand, corpus_command}
use zgcmaster.Commands.Accepted.{IsAccepted, corpus_command-IsAccepted}
use zgcmaster.Commands.Strings.{StringCommand, string_command}
use zgcmaster.Commands.Prepared.{IsPrepared, string_command-IsPrepared}
use zgcmaster.Tests.Capture.{is_ok, value_of}

abbrev no_packs : String → Result String
no_packs path = err (invalid "no packs")

abbrev diff_args : List String
diff_args =
    "--reference-hypothesis" ∷ "nongen-low42-equals-file-offset" ∷ "--require-hash" ∷ "--max-unique"
    ∷ "1000" ∷ []

diff_accepted : is_ok (corpus_command no_packs "diff-captures" diff_args) ≡ true
unfolding corpus_command zgcmaster.Words.number
diff_accepted = refl

diff_command :
    (c : CorpusCommand String) × (corpus_command no_packs "diff-captures" diff_args ≡ ok c)
diff_command = value_of _ diff_accepted

corpus_command-IsAccepted_example : IsAccepted "diff-captures" diff_command.0
corpus_command-IsAccepted_example =
    corpus_command-IsAccepted no_packs "diff-captures" diff_args diff_command.0 diff_command.1

abbrev node_args : List String
node_args =
    "--boot-profile" ∷ "hotspot21-zgc-nongen-uncompressed-le64" ∷ "--reference-hypothesis"
    ∷ "nongen-low42-equals-file-offset" ∷ "--bind" ∷ "java.lang.String=0x1000" ∷ "--require-hash"
    ∷ "--bind" ∷ "[B=0x2000" ∷ "--node-klass" ∷ "0x3000" ∷ []

nodes_accepted : is_ok (string_command no_packs "dictionaries" node_args) ≡ true
unfolding string_command zgcmaster.Words.number zgcmaster.Words.width zgcmaster.Layout.compressed
    zgcmaster.Profiles.boot zgcmaster.Layout.validate_layout zgcmaster.Address.parse_model
    zgcmaster.Address.model_profile zgcmaster.Layout.length_offset
nodes_accepted = refl

node_command :
    (c : StringCommand String) × (string_command no_packs "dictionaries" node_args ≡ ok c)
node_command = value_of _ nodes_accepted

string_command-IsPrepared_example : IsPrepared "dictionaries" node_command.0
string_command-IsPrepared_example =
    string_command-IsPrepared no_packs "dictionaries" node_args node_command.0 node_command.1

-- A repeated option is refused.
repeated :
    is_ok (corpus_command no_packs "census" ("--max-bytes" ∷ "1" ∷ "--max-bytes" ∷ "2" ∷ []))
    ≡ false
unfolding corpus_command zgcmaster.Words.number
repeated = refl
