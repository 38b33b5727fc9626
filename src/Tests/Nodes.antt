-- ===== src/Tests/Nodes.antt =====
-- The theorems on dictionaries, at a capture of 144 bytes: a String with its array, and a node that
-- has the String for its key and for its value.
use zgcmaster.Prelude.{
  ℕ, ◌==◌, ◌≡◌, refl, true, Bool, false, List, [], ◌∷◌, ◌++◌, length, Result, ok, err,
}
use zgcmaster.Words.{word}
use zgcmaster.Words.Hex.{hex}
use zgcmaster.Address.{target}
use zgcmaster.Scan.{plausible}
use zgcmaster.Dictionaries.{Report, dictionaries}
use zgcmaster.Dictionaries.Klasses.{AreAsked}
use zgcmaster.Dictionaries.Sound.{IsReport, dictionaries-IsReport}
use zgcmaster.Tests.Capture.{example_digest, zeros, is_ok, value_of}
use zgcmaster.Tests.Strings.{string_capture, wide_bindings}

abbrev to_string : List ℕ
to_string = zeros 5 ++ 4 ∷ zeros 2

abbrev node_capture : List ℕ
node_capture =
    string_capture
    ++ 1 ∷ zeros 7
    ++ 0 ∷ 48 ∷ zeros 6
    ++ 1 ∷ 13 ∷ zeros 6
    ++ to_string
    ++ to_string
    ++ zeros 8

abbrev emits_one : Result Report → Bool
emits_one (ok r) = length r.progress.rows == 1
emits_one (err e) = false

-- The node is found, under the identity that is given twice.
one_emitted :
    emits_one (
      dictionaries example_digest node_capture node_capture wide_bindings true
        (0x4000 ∷ 0x3000 ∷ 0x3000 ∷ []))
    ≡ true
unfolding dictionaries word plausible target zgcmaster.Words.aligned hex
    zgcmaster.RawStrings.status_of zgcmaster.RawStrings.java_hash zgcmaster.RawStrings.decode_at
    zgcmaster.Address.is_null
one_emitted = refl

works :
    is_ok (
      dictionaries example_digest node_capture node_capture wide_bindings true
        (0x4000 ∷ 0x3000 ∷ 0x3000 ∷ []))
    ≡ true
unfolding dictionaries word plausible target zgcmaster.Words.aligned hex
    zgcmaster.RawStrings.status_of zgcmaster.RawStrings.java_hash zgcmaster.RawStrings.decode_at
    zgcmaster.Address.is_null
works = refl

node_report :
    (r : Report) × (dictionaries example_digest node_capture node_capture wide_bindings true
        (0x4000 ∷ 0x3000 ∷ 0x3000 ∷ [])
      ≡ ok r)
node_report = value_of _ works

dictionaries-IsReport_example :
    IsReport example_digest node_capture node_capture wide_bindings true node_report.0
    × AreAsked false (0x4000 ∷ 0x3000 ∷ 0x3000 ∷ []) node_report.0.klasses
dictionaries-IsReport_example =
    dictionaries-IsReport example_digest node_capture node_capture wide_bindings true
      (0x4000 ∷ 0x3000 ∷ 0x3000 ∷ []) node_report.0 node_report.1
