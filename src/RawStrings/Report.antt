-- ===== src/RawStrings/Report.antt =====
-- `strings_with_pack` of src/raw_strings.rs: which decoded Strings are emitted, and the counts. A row
-- stands for its JSON text, whose lossy UTF-16 decoding and regex matches other code makes.
use zgcmaster.Prelude.{
  ℕ, ◌+◌, Bool, ◌&&◌, String, List, [], ◌∷◌, ◌++◌, ltb, ◌is◌, if◌then◌else◌, Result, ok, ◌>>=◌,
  ◌>>◌,
}
use zgcmaster.Dict.{Counts, bump}
use zgcmaster.Digest.{Digest}
use zgcmaster.RawStrings.{
  Bindings, Pair, Decoded, pair, rejected, units_of, decode_header, header_width,
}
use zgcmaster.RawStrings.Walk.{walk_klass, recheck}

pub record Progress : Type 0 where
  pub counts : Counts
  pub emitted : ℕ
  pub rows : List Pair

pub record StringReport : Type 0 where
  pub hash : String
  pub bytes : ℕ
  pub header_candidates : ℕ
  pub emitted : ℕ
  pub counts : Counts
  pub rows : List Pair

abbrev pub count_as : String → Progress → Progress
count_as key s = record s { counts = bump key s.counts }

abbrev pub emit : Pair → Progress → Progress
emit p s = record s { emitted = s.emitted + 1; rows = s.rows ++ p ∷ [] }

-- What a pair is skipped for, in the order of the tests.
unfoldable pub report_pair : ℕ → Bool → Pair → Progress → Progress
report_pair min_len require_hash p s =
    if p.status is "mismatch"
    then count_as "skipped-hash-mismatch" s
    else if require_hash && p.status is "not-cached"
    then count_as "skipped-unhashed" s
    else if ltb (units_of p) min_len
    then count_as "skipped-short" s
    else emit p s

unfoldable pub report_decoded : ℕ → Bool → Decoded → Progress → Progress
unfolding report_pair
report_decoded min_len require_hash (rejected reason) s = count_as reason s
report_decoded min_len require_hash (pair p) s =
    report_pair min_len require_hash p (count_as p.status s)

-- The callback of the walk.
unfoldable pub on_header :
    Bindings → List ℕ → ℕ → Bool → ℕ → List ℕ → ℕ → Progress → Result Progress
unfolding decode_header report_decoded
on_header b file min_len require_hash offset header size s =
    decode_header b file size offset header >>= λ decoded.
    ok (report_decoded min_len require_hash decoded s)

abbrev pub no_progress : Progress
no_progress = record { counts = []; emitted = 0; rows = [] }

-- `strings_with_pack`; the second reading of the capture is `later`.
unfoldable pub strings_with_pack :
    Digest → List ℕ → List ℕ → Bindings → ℕ → Bool → Result StringReport
unfolding walk_klass on_header recheck
strings_with_pack d file later b min_len require_hash =
    walk_klass d (header_width b) (b.string_klass ∷ []) 32 (on_header b file min_len require_hash)
      file no_progress
    >>= λ w.
        recheck d later w.size w.hash
        >> ok (record {
          hash = w.hash;
          bytes = w.size;
          header_candidates = w.count;
          emitted = w.state.emitted;
          counts = w.state.counts;
          rows = w.state.rows;
        })
